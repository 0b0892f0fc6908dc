-- ===== src/Sse/Delivery.antt =====
-- internal/handler/sse_hub.go: the channels of clients and the process in runs of the hub.
use proton5g.Base.{
  ℕ, Bool, true, false, ◌&&◌, List, [], ◌∷◌, Option, ◌≡◌, ◌⊎◌, and_true, ◌∙◌, refl, inl, inr, arith,
  Bool-cases, Option-cases, ◌==◌, if◌then◌else◌, length, any, all, Text, is_empty,
}
use proton5g.Sse.{
  Action, SseHub, new_hub, subscribe, unsubscribe, receive, send_next, unchanged, sample, act, run,
  subscribed, unsubscribed, received, sampled, sent,
}
use proton5g.Sse.Open.{
  ClientsOpen, PendingOpen, is_open, subscribe-open, receive-open, deliver-open, deliver-fields,
  deliver-panicked, all-append_one, is_open-new, all-remove,
}

pub List-cases {ℓ} :
    {A : Type ℓ} (xs : List A) → (xs ≡ []) ⊎ ((x : A) × (rest : List A) × (xs ≡ x ∷ rest))
List-cases [] = inl refl
List-cases (x ∷ xs) = inr (x, xs, refl)

pub if_either {ℓ κ} :
    {A : Type ℓ} (P : A → Type κ) (b : Bool) (x y : A) → P x → P y → P (if b then x else y)
if_either P true x y hx hy = hx
if_either P false x y hx hy = hy

module _ {Status : Type 0} where
  subscribe-ClientsOpen : (h : SseHub Status) → ClientsOpen h → ClientsOpen (subscribe h)
  unfolding subscribe
  subscribe-ClientsOpen h ok =
      all-append_one _ h.clients (length h.channels) (subscribe-open h h.clients ok)
        (is_open-new h.channels _)

  unsubscribe-ClientsOpen :
      (id : ℕ) (h : SseHub Status) → ClientsOpen h → ClientsOpen (unsubscribe id h)
  unfolding unsubscribe
  unsubscribe-ClientsOpen id h ok = elim (Bool-cases (any (λ c. id == c) h.clients)) [
    | inl member ↦ rw (member, unsubscribe) (all-remove h.channels id _ h.clients ok)
    | inr stranger ↦ rw (stranger, unsubscribe) ok
  ]

  send_next-ClientsOpen : (h : SseHub Status) → ClientsOpen h → ClientsOpen (send_next h)
  unfolding send_next
  send_next-ClientsOpen h ok = elim (List-cases h.pending) [
    | inl idle ↦ rw (idle, send_next) ok
    | inr (id, ids, busy) ↦
        let h' : SseHub Status = record h { pending = ids } in
        rw (busy, send_next) (rw ((deliver-fields id h').0) (deliver-open id h' h.clients ok))
  ]

  send_next-PendingOpen :
      (h : SseHub Status)
      → PendingOpen h
      → (PendingOpen (send_next h)) × ((send_next h).panicked ≡ h.panicked)
  unfolding send_next
  send_next-PendingOpen h ok = elim (List-cases h.pending) [
    | inl idle ↦ rw (idle, send_next) (rw idle refl, refl)
    | inr (id, ids, busy) ↦
        let h' : SseHub Status = record h { pending = ids } in
        let all_open : all (is_open h.channels) (id ∷ ids) ≡ true = rw busy at ok in
        rw (busy, send_next)
          (
            rw ((deliver-fields id h').1) (deliver-open id h' ids (ground arith)),
            deliver-panicked id h' (ground arith),
          )
  ]

module _ {Status : Type 0} (same_status : Status → Status → Bool)
    (marshal : Status → Option Text) where
  pub sample-channels :
      (st : Status) (h : SseHub Status)
      → ((sample same_status marshal st h).channels ≡ h.channels)
        × ((sample same_status marshal st h).clients ≡ h.clients)
        × ((sample same_status marshal st h).panicked ≡ h.panicked)
        × (((sample same_status marshal st h).pending ≡ h.pending)
            ⊎ ((sample same_status marshal st h).pending ≡ h.clients))
  unfolding sample
  sample-channels st h = elim (Bool-cases (unchanged same_status marshal st h)) [
    | inl old ↦ rw (old, sample) (refl, refl, refl, inl refl)
    | inr new ↦ elim (Option-cases (marshal st)) [
      | inl failed ↦ rw (new, failed, sample) (refl, refl, refl, inl refl)
      | inr (payload, done) ↦ rw (new, done, sample) (refl, refl, refl, inr refl)
    ]
  ]

  sample-ClientsOpen :
      (st : Status) (h : SseHub Status)
      → ClientsOpen h
      → ClientsOpen (sample same_status marshal st h)
  sample-ClientsOpen st h ok =
      let (channels, clients, _, _) = sample-channels st h in rw (channels, clients) ok

  pub act-ClientsOpen :
      (a : Action Status) (h : SseHub Status)
      → ClientsOpen h
      → ClientsOpen (act same_status marshal a h)
  unfolding act receive
  act-ClientsOpen subscribed h ok = subscribe-ClientsOpen h ok
  act-ClientsOpen (unsubscribed id) h ok = unsubscribe-ClientsOpen id h ok
  act-ClientsOpen (received id) h ok = receive-open id h h.clients ok
  act-ClientsOpen (sampled st) h ok = elim (List-cases h.pending) [
    | inl idle ↦ rw (idle, act) (sample-ClientsOpen st h ok)
    | inr (id, ids, busy) ↦ rw (busy, act) ok
  ]
  act-ClientsOpen sent h ok = send_next-ClientsOpen h ok

  -- Only the channel of a subscriber that has left is closed: whatever the order of the actions, each
  -- channel that a new hub registers and has not removed since is open.
  pub run-ClientsOpen :
      (actions : List (Action Status)) (h : SseHub Status)
      → ClientsOpen h
      → ClientsOpen (run same_status marshal actions h)
  unfolding run
  run-ClientsOpen [] h ok = ok
  run-ClientsOpen (a ∷ actions) h ok =
      if_either ClientsOpen h.panicked h
        (run same_status marshal actions (act same_status marshal a h)) ok
        (run-ClientsOpen actions (act same_status marshal a h) (act-ClientsOpen a h ok))

  -- an action that is calm: no subscriber leaves while a payload is being sent
  unfoldable pub calm : Action Status → SseHub Status → Bool
  calm (unsubscribed id) h = is_empty h.pending
  calm _ h = true

  -- the actions of a run, each calm at its moment
  unfoldable pub all_calm : List (Action Status) → SseHub Status → Bool
  unfolding calm
  all_calm [] h = true
  all_calm (a ∷ actions) h = calm a h && all_calm actions (act same_status marshal a h)

  unsubscribe_idle :
      (id : ℕ) (h : SseHub Status)
      → h.pending ≡ []
      → PendingOpen (unsubscribe id h) × ((unsubscribe id h).panicked ≡ h.panicked)
  unfolding unsubscribe
  unsubscribe_idle id h idle = elim (Bool-cases (any (λ c. id == c) h.clients)) [
    | inl member ↦ rw (member, unsubscribe, idle) (refl, refl)
    | inr stranger ↦ rw (stranger, unsubscribe, idle) (refl, refl)
  ]

  act-calm :
      (a : Action Status) (h : SseHub Status)
      → calm a h ≡ true
      → ClientsOpen h
      → PendingOpen h
      → PendingOpen (act same_status marshal a h)
        × ((act same_status marshal a h).panicked ≡ h.panicked)
  unfolding act calm
  act-calm subscribed h c clients ok = unfold subscribe in (subscribe-open h h.pending ok, refl)
  act-calm (unsubscribed id) h c clients ok =
      let idle : h.pending ≡ [] = ground arith in unsubscribe_idle id h idle
  act-calm (received id) h c clients ok = unfold receive in (receive-open id h h.pending ok, refl)
  act-calm (sampled st) h c clients ok = elim (List-cases h.pending) [
    | inr (id, ids, busy) ↦ rw (busy, act) (ok, refl)
    | inl idle ↦
        let (channels, _, alive, pending) = sample-channels st h in
        rw (idle, act)
          (elim pending [
            | inl kept ↦ (rw (kept, channels) ok, alive)
            | inr all ↦ (rw (all, channels) clients, alive)
          ])
  ]
  act-calm sent h c clients ok = send_next-PendingOpen h ok

  run-alive :
      (actions : List (Action Status)) (h : SseHub Status)
      → all_calm actions h ≡ true
      → ClientsOpen h
      → PendingOpen h
      → h.panicked ≡ false
      → (run same_status marshal actions h).panicked ≡ false
  unfolding run all_calm
  run-alive [] h c clients pending alive = alive
  run-alive (a ∷ actions) h c clients pending alive =
      let (calm_a, rest) = and_true (calm a h) _ c in
      let (pending', alive') = act-calm a h calm_a clients pending in
      if_either (λ k. k.panicked ≡ false) h.panicked h
        (run same_status marshal actions (act same_status marshal a h)) alive
        (run-alive actions (act same_status marshal a h) rest (act-ClientsOpen a h clients) pending'
          (alive' ∙ alive))

  -- In a run of a new hub in which no subscriber leaves between the moment that `broadcast` copies the
  -- list of clients and its last send to them, the process does not panic.
  pub run_calm :
      (actions : List (Action Status))
      → all_calm actions new_hub ≡ true
      → (run same_status marshal actions new_hub).panicked ≡ false
  unfolding new_hub
  run_calm actions c = run-alive actions new_hub c refl refl refl
