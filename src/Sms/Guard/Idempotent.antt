-- ===== src/Sms/Guard/Idempotent.antt =====
-- internal/usecase/sms.go: calls of `SendSMS` with one idempotency key, in turn and at the same time.
use proton5g.Base.{
  ℕ, suc, ◌+◌, ◌≤◌, ◌<◌, true, false, List, ◌∷◌, none, ◌≡◌, refl, ap, inl, inr, arith, Option-cases,
  Text, all, is_empty, Result, ok, Result-cases, ◌∙◌, length, err_ne_ok, ok_injective,
}
use proton5g.Sms.Guard.{
  AtSms, sends, SendRequest, SendResult, SmsGuard, SmsService, admitted, rate_max, idem_ttl, admit,
  remember, renew_window, count_request, known, purge, submit, finish_send, guarded_send, send_sms,
  trim_request, check_request,
}
use proton5g.Sms.Guard.Replay.{
  Keeps, Attempt, before, send_all, send_all-Keeps, replayed_send, store-lookup_self,
  Admission-cases, admit-idem,
}

-- a submission that succeeds is kept for its key
finish_send-Keeps :
    (at : AtSms) (later : ℕ) (req : SendRequest) (result : SendResult) (s : SmsService)
    → is_empty req.idempotency_key ≡ false
    → (finish_send at later req s).0 ≡ ok result
    → Keeps req.idempotency_key
        (record { result = result; at = later })
        (finish_send at later req s).1
unfolding finish_send remember
finish_send-Keeps at later req result s named h = elim (Result-cases (submit at req s.sent).0) [
  | inl (e, failed) ↦ absurd (err_ne_ok e result (rw (failed, finish_send) at h))
  | inr (r, sent) ↦
      let same_result : r ≡ result = ok_injective r result _ refl (rw (sent, finish_send) at h) in
      rw (sent, finish_send)
        (rw (named, remember)
          (rw same_result (
            store-lookup_self req.idempotency_key (record { result = result; at = later })
              s.guard.idem)))
]

-- a call that reached the modem and succeeded went through the guard
guarded_send-Keeps :
    (at : AtSms) (now later : ℕ) (req : SendRequest) (result : SendResult) (s : SmsService)
    → is_empty req.idempotency_key ≡ false
    → (guarded_send at now later req s).0 ≡ ok result
    → length (guarded_send at now later req s).1.sent ≡ suc (length s.sent)
    → Keeps req.idempotency_key
        (record { result = result; at = later })
        (guarded_send at now later req s).1
unfolding guarded_send
guarded_send-Keeps at now later req result s named h grown =
    elim (Admission-cases (admit now req.idempotency_key s.guard).0) [
      | inl (r, answer) ↦ absurd (omega (arith, (rw (answer, guarded_send) at grown)))
      | inr (inl answer) ↦ absurd (err_ne_ok _ result (rw (answer, guarded_send) at h))
      | inr (inr answer) ↦
          rw (answer, guarded_send)
            (finish_send-Keeps at later req result _ named (rw (answer, guarded_send) at h))
    ]

send_sms-Keeps :
    (at : AtSms) (now later : ℕ) (given : SendRequest) (result : SendResult) (s : SmsService)
    → is_empty (trim_request given).idempotency_key ≡ false
    → (send_sms at now later given s).0 ≡ ok result
    → length (send_sms at now later given s).1.sent ≡ suc (length s.sent)
    → Keeps
        (trim_request given).idempotency_key
        (record { result = result; at = later })
        (send_sms at now later given s).1
unfolding send_sms
send_sms-Keeps at now later given result s named h grown =
    elim (Option-cases (check_request (trim_request given))) [
      | inr (e, bad) ↦ absurd (err_ne_ok e result (rw (bad, send_sms) at h))
      | inl checked ↦
          rw (checked, send_sms)
            (guarded_send-Keeps at now later (trim_request given) result s named
              (rw (checked, send_sms) at h) (rw (checked, send_sms) at grown))
    ]

-- A call of `SendSMS` with a nonempty key reached the modem and answered `result`. Then, behind any
-- calls made one after the other, each within `smsIdemTTL` of the end of that first one, a call with the
-- same key and a request that passes the checks, in the same time, answers `result` and does not reach
-- the modem, whatever its text and whatever the modem would say.
pub send_sms-replays :
    (at at' : AtSms) (now later now' later' : ℕ) (first again : SendRequest) (result : SendResult)
    (s : SmsService) (between : List Attempt)
    → is_empty (trim_request first).idempotency_key ≡ false
    → (send_sms at now later first s).0 ≡ ok result
    → length (send_sms at now later first s).1.sent ≡ suc (length s.sent)
    → all (before (later + idem_ttl)) between ≡ true
    → now' ≤ later + idem_ttl
    → check_request (trim_request again) ≡ none
    → (trim_request again).idempotency_key ≡ (trim_request first).idempotency_key
    → let after = send_all between (send_sms at now later first s).1 in
      ((send_sms at' now' later' again after).0 ≡ ok result)
      × ((send_sms at' now' later' again after).1.sent ≡ after.sent)
unfolding send_sms
send_sms-replays at at' now later now' later' first again result s between named h grown timely soon
      checked keyed =
    let kept = send_sms-Keeps at now later first result s named h grown in
    let still = send_all-Keeps _ _ between (send_sms at now later first s).1 named timely kept in
    let (answer, quiet, _) =
      replayed_send _ named _ at' now' later' (trim_request again)
        (send_all between (send_sms at now later first s).1) keyed soon still in
    rw (checked, send_sms) (answer, quiet)

admit_fresh :
    (now : ℕ) (key : Text) (g : SmsGuard)
    → known key (purge now g.idem) ≡ none
    → g.window_count < rate_max
    → ((admit now key g).0 ≡ admitted) × ((admit now key g).1.window_count ≤ suc g.window_count)
unfolding admit
admit_fresh now key g fresh room =
    rw (fresh, admit) (counts (record g { idem = purge now g.idem }) room)
  where
    counts :
        (g : SmsGuard)
        → g.window_count < rate_max
        → ((count_request (renew_window now g)).0 ≡ admitted)
          × ((count_request (renew_window now g)).1.window_count ≤ suc g.window_count)
    counts g room =
        unfold count_request renew_window in
        elim (Option-cases g.window_start) [
          | inl fresh ↦ ground (arith, fresh)
          | inr (start, running) ↦ ground (arith, running)
        ]

submit-log :
    (send : List SendRequest → SendRequest → Result Text SendResult) (req : SendRequest)
    (sent : List SendRequest)
    → (submit (sends send) req sent).1 ≡ req ∷ sent
unfolding submit
submit-log send req sent = elim (Result-cases (send sent req)) [
  | inl (e, failed) ↦ rw (failed, submit) refl
  | inr (r, done) ↦ rw (done, submit) refl
]

submit-sends :
    (send : List SendRequest → SendRequest → Result Text SendResult) (later : ℕ) (req : SendRequest)
    (s : SmsService)
    → (finish_send (sends send) later req s).1.sent ≡ req ∷ s.sent
unfolding finish_send
submit-sends send later req s = elim (Result-cases (submit (sends send) req s.sent).0) [
  | inl (e, failed) ↦ rw (failed, finish_send) (submit-log send req s.sent)
  | inr (r, done) ↦ rw (done, finish_send) (submit-log send req s.sent)
]

-- Two calls of `SendSMS` meet the guard before either submission ends, the first with a key that is not
-- in the table, the second with the same key and not in the table either, in a window with room for two.
-- The guard admits both, and both messages reach a modem that takes messages: the key, which is stored
-- when a submission has ended, does not keep a request that is retried early from being sent twice.
pub admit-admits_twice :
    (send : List SendRequest → SendRequest → Result Text SendResult) (now now' later later' : ℕ)
    (req again : SendRequest) (s : SmsService)
    → again.idempotency_key ≡ req.idempotency_key
    → known req.idempotency_key (purge now s.guard.idem) ≡ none
    → known req.idempotency_key (purge now' (purge now s.guard.idem)) ≡ none
    → s.guard.window_count + 2 ≤ rate_max
    → let (answer, g) = admit now req.idempotency_key s.guard in
      let (answer', g') = admit now' again.idempotency_key g in
      let both =
        (finish_send
          (sends send)
          later'
          again
          (finish_send (sends send) later req (record s { guard = g' })).1).1 in
      (answer ≡ admitted) × (answer' ≡ admitted) × (both.sent ≡ again ∷ req ∷ s.sent)
admit-admits_twice send now now' later later' req again s keyed fresh fresh' room =
    let (answer, count) = admit_fresh now req.idempotency_key s.guard fresh (omega arith) in
    let g = (admit now req.idempotency_key s.guard).1 in
    let table = admit-idem now req.idempotency_key s.guard in
    let (answer', _) =
      admit_fresh now' again.idempotency_key g (rw keyed (rw table fresh')) (omega arith) in
    let s' : SmsService = record s { guard = (admit now' again.idempotency_key g).1 } in
    (
      answer,
      answer',
      submit-sends send later' again (finish_send (sends send) later req s').1
          ∙ ap (λ sent. again ∷ sent) (submit-sends send later req s'),
    )
