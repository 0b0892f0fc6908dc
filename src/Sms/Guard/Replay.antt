-- ===== src/Sms/Guard/Replay.antt =====
-- internal/usecase/sms.go: what calls of `SendSMS` do to the entry of an idempotency key.
use proton5g.Base.{
  ℕ, ◌+◌, ◌≤◌, Bool, true, false, List, [], ◌∷◌, some, ◌≡◌, ◌≢◌, refl, inl, inr, arith, Bool-cases,
  Option-cases, leb, Text, all, is_empty, same, same_refl, ◌⊎◌, ok, Result-cases, same_iff, ◌∙◌,
}
use proton5g.Sms.Guard.{
  Admission, AtSms, SendRequest, SendResult, SmsGuard, SmsService, IdemEntry, replayed, limited,
  admitted, idem_ttl, admit, remember, renew_window, count_request, known, purge, lookup, store,
  submit, finish_send, guarded_send, send_sms, trim_request, check_request,
}

purge-lookup :
    (key : Text) (entry : IdemEntry) (now : ℕ) (idem : List (Text × IdemEntry))
    → lookup key idem ≡ some entry
    → now ≤ entry.at + idem_ttl
    → lookup key (purge now idem) ≡ some entry
unfolding lookup purge
purge-lookup key entry now [] h young = h
purge-lookup key entry now ((k, e) ∷ idem) h young =
    let rest = purge-lookup key entry now idem in
    elim (Bool-cases (same k key)) [
      | inl hit ↦ ground (arith, hit)
      | inr miss ↦ ground (arith, miss, rest)
    ]

pub store-lookup_self :
    (key : Text) (entry : IdemEntry) (idem : List (Text × IdemEntry))
    → lookup key (store key entry idem) ≡ some entry
unfolding lookup store
store-lookup_self key entry [] = ground (arith, same_refl key)
store-lookup_self key entry ((k, e) ∷ idem) =
    let rest = store-lookup_self key entry idem in
    elim (Bool-cases (same k key)) [
      | inl hit ↦ ground (arith, hit)
      | inr miss ↦ ground (arith, miss, rest)
    ]

store-lookup_other :
    (key other : Text) (entry : IdemEntry) (idem : List (Text × IdemEntry))
    → other ≢ key
    → lookup key (store other entry idem) ≡ lookup key idem
unfolding lookup store
store-lookup_other key other entry [] ne = ground (arith, same_iff other key)
store-lookup_other key other entry ((k, e) ∷ idem) ne =
    let rest = store-lookup_other key other entry idem ne in
    elim (Bool-cases (same k other)) [
      | inl hit ↦ ground (arith, hit, same_iff k other, same_iff k key)
      | inr miss ↦ ground (arith, miss, rest)
    ]

renew_window-idem : (now : ℕ) (g : SmsGuard) → (renew_window now g).idem ≡ g.idem
unfolding renew_window
renew_window-idem now g = elim (Option-cases g.window_start) [
  | inl fresh ↦ rw (fresh, renew_window) refl
  | inr (start, running) ↦ ground (arith, running)
]

count_request-idem : (g : SmsGuard) → (count_request g).1.idem ≡ g.idem
unfolding count_request
count_request-idem g = ground arith

pub admit-idem : (now : ℕ) (key : Text) (g : SmsGuard) → (admit now key g).1.idem ≡ purge now g.idem
unfolding admit
admit-idem now key g =
    let g' : SmsGuard = record g { idem = purge now g.idem } in
    elim (Option-cases (known key (purge now g.idem))) [
      | inl unknown ↦
          rw (unknown, admit) (count_request-idem (renew_window now g') ∙ renew_window-idem now g')
      | inr (entry, kept) ↦ rw (kept, admit) refl
    ]

admit-replays :
    (now : ℕ) (key : Text) (entry : IdemEntry) (g : SmsGuard)
    → is_empty key ≡ false
    → lookup key (purge now g.idem) ≡ some entry
    → (admit now key g).0 ≡ replayed entry.result
unfolding admit known
admit-replays now key entry g named kept = rw (named, kept, admit, known) refl

remember-lookup :
    (key other : Text) (now : ℕ) (result : SendResult) (g : SmsGuard)
    → other ≢ key
    → lookup key (remember now other result g).idem ≡ lookup key g.idem
unfolding remember
remember-lookup key other now result g ne = elim (Bool-cases (is_empty other)) [
  | inl nameless ↦ rw (nameless, remember) refl
  | inr named ↦ rw (named, remember) (store-lookup_other key other _ g.idem ne)
]

finish_send-lookup :
    (key : Text) (at : AtSms) (later : ℕ) (req : SendRequest) (s : SmsService)
    → req.idempotency_key ≢ key
    → lookup key (finish_send at later req s).1.guard.idem ≡ lookup key s.guard.idem
unfolding finish_send
finish_send-lookup key at later req s ne = elim (Result-cases (submit at req s.sent).0) [
  | inl (e, failed) ↦ rw (failed, finish_send) refl
  | inr (result, sent) ↦
      rw (sent, finish_send) (remember-lookup key req.idempotency_key later result s.guard ne)
]

pub Admission-cases :
    (a : Admission) → ((r : SendResult) × (a ≡ replayed r)) ⊎ ((a ≡ limited) ⊎ (a ≡ admitted))
Admission-cases (replayed r) = inl (r, refl)
Admission-cases limited = inr (inl refl)
Admission-cases admitted = inr (inr refl)

-- the entry that is kept for a key
abbrev pub Keeps : Text → IdemEntry → SmsService → Type 0
Keeps key entry s = lookup key s.guard.idem ≡ some entry

module _ (key : Text) (named : is_empty key ≡ false) (entry : IdemEntry) where
  pub replayed_send :
      (at : AtSms) (now later : ℕ) (req : SendRequest) (s : SmsService)
      → req.idempotency_key ≡ key
      → now ≤ entry.at + idem_ttl
      → Keeps key entry s
      → ((guarded_send at now later req s).0 ≡ ok entry.result)
        × ((guarded_send at now later req s).1.sent ≡ s.sent)
        × Keeps key entry (guarded_send at now later req s).1
  unfolding guarded_send
  replayed_send at now later req s keyed young kept =
      let stays = purge-lookup key entry now s.guard.idem kept young in
      let table = admit-idem now req.idempotency_key s.guard in
      let replay =
        admit-replays now req.idempotency_key entry s.guard (rw keyed named) (rw keyed stays) in
      rw (replay, guarded_send) (refl, refl, rw table stays)

  other_send :
      (at : AtSms) (now later : ℕ) (req : SendRequest) (s : SmsService)
      → req.idempotency_key ≢ key
      → now ≤ entry.at + idem_ttl
      → Keeps key entry s
      → Keeps key entry (guarded_send at now later req s).1
  unfolding guarded_send
  other_send at now later req s ne young kept =
      let stays = purge-lookup key entry now s.guard.idem kept young in
      let table = admit-idem now req.idempotency_key s.guard in
      elim (Admission-cases (admit now req.idempotency_key s.guard).0) [
        | inl (r, answer) ↦ rw (answer, guarded_send) (rw table stays)
        | inr (inl answer) ↦ rw (answer, guarded_send) (rw table stays)
        | inr (inr answer) ↦
            rw (answer, guarded_send)
              (finish_send-lookup key at later req
                  (record s { guard = (admit now req.idempotency_key s.guard).1 }) ne
                ∙ rw table stays)
      ]

  -- one more call, whatever its key
  send_sms-Keeps :
      (at : AtSms) (now later : ℕ) (given : SendRequest) (s : SmsService)
      → now ≤ entry.at + idem_ttl
      → Keeps key entry s
      → Keeps key entry (send_sms at now later given s).1
  unfolding send_sms
  send_sms-Keeps at now later given s young kept =
      let req = trim_request given in
      elim (Option-cases (check_request req)) [
        | inr (e, bad) ↦ rw (bad, send_sms) kept
        | inl checked ↦
            rw (checked, send_sms)
              (elim (Bool-cases (same req.idempotency_key key)) [
                | inl hit ↦ (replayed_send at now later req s ((same_iff _ _).0 hit) young kept).2
                | inr miss ↦
                    other_send at now later req s
                      (λ e. ground (arith, miss, same_iff req.idempotency_key key, e)) young kept
              ])
      ]

-- A call of `SendSMS`, with the AT repository that it meets and its two times.
pub record Attempt : Type 0 where
  pub at : AtSms
  pub now : ℕ
  pub later : ℕ
  pub req : SendRequest

-- calls one after the other
unfoldable pub send_all : List Attempt → SmsService → SmsService
send_all [] s = s
send_all (a ∷ attempts) s = send_all attempts (send_sms a.at a.now a.later a.req s).1

abbrev pub before : ℕ → Attempt → Bool
before limit a = leb a.now limit

pub send_all-Keeps :
    (key : Text) (entry : IdemEntry) (attempts : List Attempt) (s : SmsService)
    → is_empty key ≡ false
    → all (before (entry.at + idem_ttl)) attempts ≡ true
    → Keeps key entry s
    → Keeps key entry (send_all attempts s)
unfolding send_all
send_all-Keeps key entry [] s named h kept = kept
send_all-Keeps key entry (a ∷ attempts) s named h kept =
    let young : a.now ≤ entry.at + idem_ttl = ground arith in
    send_all-Keeps key entry attempts (send_sms a.at a.now a.later a.req s).1 named (ground arith)
      (send_sms-Keeps key named entry a.at a.now a.later a.req s young kept)
