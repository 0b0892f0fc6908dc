-- ===== src/Sse/Tests.antt =====
-- The hub on concrete actions.
use proton5g.Base.{ℕ, Bool, true, false, List, [], ◌∷◌, Option, some, ◌≡◌, refl, ◌==◌, Text}
use proton5g.Sse.{
  Action, SseHub, new_hub, act, run, subscribe, unsubscribe, receive, send_next, sample, unchanged,
  deliver, remove, subscribed, unsubscribed, received, sampled, sent, channel_at,
}
use proton5g.Sse.Open.{ClientsOpen}
use proton5g.Sse.Delivery.{run-ClientsOpen, run_calm, calm, all_calm}
use proton5g.Sse.Panic.{run-panics}

-- a status is a number here, and its JSON that number
abbrev json : ℕ → Option Text
json n = some (n ∷ [])

abbrev equal : ℕ → ℕ → Bool
equal a b = a == b

abbrev play : List (Action ℕ) → SseHub ℕ → SseHub ℕ
play = run equal json

-- two subscribers, one of which does not read, and three payloads
abbrev session : List (Action ℕ)
session =
    subscribed
    ∷ sampled 1
    ∷ sent
    ∷ received 0
    ∷ subscribed
    ∷ sampled 2
    ∷ sent
    ∷ sent
    ∷ sampled 2
    ∷ received 0
    ∷ sampled 3
    ∷ sent
    ∷ sent
    ∷ unsubscribed 1
    ∷ []

slow_client : (channel_at (play session new_hub).channels 1).buffer ≡ some (1 ∷ [])
unfolding run act new_hub subscribe receive send_next sample unchanged deliver unsubscribe remove
slow_client = refl

abbrev one_client : SseHub ℕ
unfolding new_hub subscribe
one_client = subscribe new_hub

run-ClientsOpen_example : ClientsOpen (play session new_hub)
unfolding new_hub
run-ClientsOpen_example = run-ClientsOpen equal json session new_hub refl

run_calm_example : (run equal json session new_hub).panicked ≡ false
unfolding all_calm calm act new_hub subscribe receive send_next sample unchanged deliver unsubscribe
    remove
run_calm_example = run_calm equal json session refl

run-panics_example :
    (run equal json (sampled 4 ∷ unsubscribed 0 ∷ sent ∷ []) one_client).panicked ≡ true
unfolding one_client unchanged
run-panics_example = run-panics equal json 4 (4 ∷ []) 0 one_client refl refl refl refl
