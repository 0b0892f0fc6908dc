-- ===== src/Sms/Guard/Window.antt =====
-- internal/usecase/sms.go: the rate limit of `SendSMS`, over requests whose submissions interleave.
use proton5g.Base.{
  ℕ, ◌+◌, ◌-◌, ◌*◌, ◌≤◌, ◌<◌, Bool, true, false, ◌&&◌, List, [], ◌∷◌, none, some, ◌≡◌, refl, sym,
  inl, inr, arith, Bool-cases, Option-cases, leb, ltb, Text, all, is_empty,
}
use proton5g.Sms.Guard.{
  Admission, SendResult, SmsGuard, admitted, rate_window, rate_max, new_guard, admit, remember,
  renew_window, count_request, known, purge,
}

-- What happens to a guard: a request with a key is asked for, or a submission with a key ends.
pub data Event : Type 0 where
  asked : ℕ → Text → Event
  ended : ℕ → Text → SendResult → Event

abbrev counted : Admission → ℕ
counted admitted = 1
counted _ = 0

-- the guard after the events, with the number of requests that it admitted
unfoldable pub run_guard : List Event → SmsGuard → ℕ × SmsGuard
run_guard [] g = (0, g)
run_guard (asked now key ∷ events) g =
    let (answer, g') = admit now key g in
    let (n, g'') = run_guard events g' in (counted answer + n, g'')
run_guard (ended now key result ∷ events) g = run_guard events (remember now key result g)

-- the requests are asked for at `since` or later, and before a whole window has passed
abbrev pub within_window : ℕ → Event → Bool
within_window since (asked now key) = leb since now && ltb now (since + rate_window)
within_window since (ended now key result) = true

-- what may still be admitted before a window has passed since `since`
unfoldable budget : ℕ → SmsGuard → ℕ
budget since g = elim (g.window_start) [
  | none ↦ (rate_max - g.window_count) + rate_max
  | some start ↦ elim (leb since start) [
    | true ↦ rate_max - g.window_count
    | false ↦ (rate_max - g.window_count) + rate_max
  ]
]

-- an admission spends from the budget, and keeps the count of the window in its bound
abbrev Spends : ℕ → SmsGuard → Admission × SmsGuard → Type 0
Spends since g after =
    (counted after.0 + budget since after.1 ≤ budget since g) × (after.1.window_count ≤ rate_max)

module _ (since now : ℕ) (late : since ≤ now) (soon : now < since + rate_window) where
  count_request-Spends :
      (g : SmsGuard)
      → g.window_count ≤ rate_max
      → Spends since g (count_request (renew_window now g))
  unfolding count_request renew_window budget
  count_request-Spends g low = elim (Option-cases g.window_start) [
    | inl fresh ↦ ground (arith, fresh)
    | inr (start, running) ↦ ground (arith, running)
  ]

  admit-Spends :
      (key : Text) (g : SmsGuard) → g.window_count ≤ rate_max → Spends since g (admit now key g)
  unfolding admit budget
  admit-Spends key g low = elim (Option-cases (known key (purge now g.idem))) [
    | inl unknown ↦
        rw (unknown, admit) (count_request-Spends (record g { idem = purge now g.idem }) low)
    | inr (entry, kept) ↦ rw (kept, admit) (ground arith, low)
  ]

module _ (since : ℕ) where
  remember-budget :
      (now : ℕ) (key : Text) (result : SendResult) (g : SmsGuard)
      → (budget since (remember now key result g) ≡ budget since g)
        × ((remember now key result g).window_count ≡ g.window_count)
  unfolding remember budget
  remember-budget now key result g = elim (Bool-cases (is_empty key)) [
    | inl nameless ↦ rw (nameless, remember) (refl, refl)
    | inr named ↦ rw (named, remember) (refl, refl)
  ]

  run_guard-budget :
      (events : List Event) (g : SmsGuard)
      → g.window_count ≤ rate_max
      → all (within_window since) events ≡ true
      → (run_guard events g).0 ≤ budget since g
  unfolding run_guard budget
  run_guard-budget [] g low h = ground arith
  run_guard-budget (asked now key ∷ events) g low h =
      let (spent, low') = admit-Spends since now (ground arith) (ground arith) key g low in
      let rest = run_guard-budget events (admit now key g).1 low' (ground arith) in omega arith
  run_guard-budget (ended now key result ∷ events) g low h =
      let (same_budget, count) = remember-budget now key result g in
      rw (sym same_budget)
        (run_guard-budget events (remember now key result g) (rw count low) (ground arith))

-- the guard behind any events has a count in its bound
admit_count :
    (now : ℕ) (key : Text) (g : SmsGuard)
    → g.window_count ≤ rate_max
    → (admit now key g).1.window_count ≤ rate_max
admit_count now key g low = (admit-Spends now now (omega arith) (omega arith) key g low).1

run_guard-count :
    (events : List Event) (g : SmsGuard)
    → g.window_count ≤ rate_max
    → (run_guard events g).1.window_count ≤ rate_max
unfolding run_guard
run_guard-count [] g low = low
run_guard-count (asked now key ∷ events) g low =
    run_guard-count events _ (admit_count now key g low)
run_guard-count (ended now key result ∷ events) g low =
    run_guard-count events _ (rw (remember-budget 0 now key result g).1 low)

-- However requests and the ends of submissions interleave, and whatever went before since the guard was
-- new, the guard admits at most twice `rate_max` requests in any span of time as long as a window.
pub run_guard-within_window :
    (past events : List Event) (since : ℕ)
    → all (within_window since) events ≡ true
    → (run_guard events (run_guard past new_guard).1).0 ≤ 2 * rate_max
unfolding budget
run_guard-within_window past events since h =
    let g = (run_guard past new_guard).1 in
    let low = run_guard-count past new_guard (unfold new_guard in omega arith) in
    let bound = run_guard-budget since events g low h in
    elim (Option-cases g.window_start) [
      | inl fresh ↦ ground (arith, fresh)
      | inr (start, running) ↦ ground (arith, running)
    ]
