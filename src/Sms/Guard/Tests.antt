-- ===== src/Sms/Guard/Tests.antt =====
-- The guard on concrete requests.
use proton5g.Base.{
  ℕ, ◌*◌, ◌≤◌, List, [], ◌∷◌, ◌++◌, ◌≡◌, refl, arith, Text, codes, Result, ok, trim_space,
}
use proton5g.Base.Int.{pos}
use proton5g.Sms.Segments.{gsm7}
use proton5g.Sms.Guard.{
  SendRequest, SendResult, SmsService, admitted, second, sends, no_at, new_guard, admit, send_sms,
  finish_send, trim_request, check_request, purge, lookup, submit, known, guarded_send,
  count_request, renew_window,
}
use proton5g.Sms.Guard.Window.{Event, asked, run_guard, run_guard-within_window}
use proton5g.Sms.Guard.Replay.{send_all}
use proton5g.Sms.Guard.Idempotent.{send_sms-replays, admit-admits_twice}

abbrev result : SendResult
result = record { message_refs = pos 7 ∷ []; encoding = gsm7; segments = 1; submitted_at = 0 }

abbrev other_result : SendResult
other_result = record { message_refs = pos 8 ∷ []; encoding = gsm7; segments = 1; submitted_at = 0 }

-- the modem numbers its messages from 7
abbrev modem : List SendRequest → SendRequest → Result Text SendResult
modem [] req = ok result
modem (_ ∷ _) req = ok other_result

abbrev hello : SendRequest
hello = record { to = codes "+49"; body = codes "hello"; idempotency_key = codes " k1" }

abbrev other : SendRequest
other = record { to = codes "+49"; body = codes "again"; idempotency_key = codes "k2" }

abbrev keyed : SendRequest
keyed = record { to = codes "+49"; body = codes "hello"; idempotency_key = codes "k1" }

abbrev empty_service : SmsService
unfolding new_guard
empty_service = record { guard = new_guard; sent = [] }

abbrev burst : ℕ → List Event
burst t = asked t [] ∷ asked t [] ∷ asked t [] ∷ asked t [] ∷ asked t [] ∷ asked t [] ∷ []

eleven : (run_guard (burst 5 ++ burst 6) new_guard).0 ≡ 10
unfolding run_guard new_guard admit known count_request renew_window
eleven = refl

run_guard-within_window_example :
    (run_guard (asked (61 * second) [] ∷ []) (run_guard (burst second) new_guard).1).0 ≤ 20
run_guard-within_window_example =
    run_guard-within_window (burst second) (asked (61 * second) [] ∷ []) (61 * second) refl

send_sms-replays_example :
    let after =
      send_all
        (record { at = sends modem; now = 20; later = 30; req = other } ∷ [])
        (send_sms (sends modem) 1 2 hello empty_service).1 in
    ((send_sms no_at 40 50 keyed after).0 ≡ ok result)
    × ((send_sms no_at 40 50 keyed after).1.sent ≡ after.sent)
unfolding send_sms trim_request check_request purge lookup empty_service submit trim_space
    guarded_send admit known count_request renew_window finish_send
send_sms-replays_example =
    send_sms-replays (sends modem) no_at 1 2 40 50 hello keyed result empty_service
      (record { at = sends modem; now = 20; later = 30; req = other } ∷ []) refl refl refl refl
      (omega arith) refl refl

admit-admits_twice_example :
    let (answer, g) = admit 1 (codes "k1") new_guard in
    let (answer', g') = admit 2 (codes "k1") g in
    let both =
      (finish_send
        (sends modem)
        4
        keyed
        (finish_send (sends modem) 3 keyed (record { guard = g'; sent = [] })).1).1 in
    (answer ≡ admitted) × (answer' ≡ admitted) × (both.sent ≡ keyed ∷ keyed ∷ [])
unfolding new_guard known lookup purge
admit-admits_twice_example =
    admit-admits_twice modem 1 2 3 4 keyed keyed empty_service refl refl refl (omega arith)
