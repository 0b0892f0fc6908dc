-- ===== src/Sms/Guard.antt =====
-- internal/usecase/sms.go: `SendSMS`, with its rate limit and its table of idempotency keys. Times are nanoseconds; a difference of times stops at 0, which the
-- comparisons with a positive bound do not tell from a negative one. Two requests meet in the parts
-- that the guard's mutex and the AT mutex cover, so these are definitions of their own.
pub mod Window
pub mod Replay
pub mod Idempotent
mod Tests
use proton5g.Base.{
  ℕ, suc, ◌+◌, ◌-◌, ◌*◌, ◌^◌, Bool, true, false, not, ◌&&◌, ◌||◌, List, [], ◌∷◌, Option, none, some,
  ltb, leb, if◌then◌else◌, length, Text, is_empty, same, trim_space, Result, ok, err,
}
use proton5g.Base.Int.{ℤ, pos, ltb_ℤ}
use proton5g.Sms.Segments.{SmsEncoding}

abbrev pub second : ℕ
second = 10 ^ 9

-- smsRateWindow, smsRateMax and smsIdemTTL
abbrev pub rate_window : ℕ
rate_window = 60 * second

abbrev pub rate_max : ℕ
rate_max = 10

abbrev pub idem_ttl : ℕ
idem_ttl = 600 * second

-- domain.SMSSendRequest and domain.SMSSendResult
pub record SendRequest : Type 0 where
  pub to : Text
  pub body : Text
  pub idempotency_key : Text

pub record SendResult : Type 0 where
  pub message_refs : List ℤ
  pub encoding : SmsEncoding
  pub segments : ℕ
  pub submitted_at : ℕ

pub data SmsFault : Type 0 where
  no_destination no_body body_too_long rate_limited modem_unavailable sms_unsupported
        invalid_index :
      SmsFault
  device : Text → SmsFault

-- smsIdemEntry
pub record IdemEntry : Type 0 where
  pub result : SendResult
  pub at : ℕ

-- smsGuardState; the map is a list of pairs with one pair for a key
pub record SmsGuard : Type 0 where
  pub window_start : Option ℕ
  pub window_count : ℕ
  pub idem : List (Text × IdemEntry)

unfoldable pub new_guard : SmsGuard
new_guard = record { window_start = none; window_count = 0; idem = [] }

-- the `active` AT repository, which may not exist or may not send messages; it is a function of the
-- requests that reached it before, the newest first
pub data AtSms : Type 0 where
  no_at no_sms : AtSms
  sends : (List SendRequest → SendRequest → Result Text SendResult) → AtSms

pub record SmsService : Type 0 where
  pub guard : SmsGuard
  pub sent : List SendRequest

unfoldable pub trim_request : SendRequest → SendRequest
trim_request req = record {
  to = trim_space req.to;
  body = trim_space req.body;
  idempotency_key = trim_space req.idempotency_key;
}

-- the checks of a request that is trimmed
unfoldable pub check_request : SendRequest → Option SmsFault
check_request req =
    if is_empty req.to
    then some no_destination
    else if is_empty req.body
    then some no_body
    else if ltb 1000 (length req.body)
    then some body_too_long
    else none

-- the entries that are not too old
unfoldable pub purge : ℕ → List (Text × IdemEntry) → List (Text × IdemEntry)
purge now [] = []
purge now ((key, entry) ∷ idem) = elim (ltb idem_ttl (now - entry.at)) [
  | true ↦ purge now idem
  | false ↦ (key, entry) ∷ purge now idem
]

unfoldable pub lookup : Text → List (Text × IdemEntry) → Option IdemEntry
lookup key [] = none
lookup key ((k, entry) ∷ idem) = elim (same k key) [ true ↦ some entry | false ↦ lookup key idem ]

unfoldable pub store : Text → IdemEntry → List (Text × IdemEntry) → List (Text × IdemEntry)
store key entry [] = (key, entry) ∷ []
store key entry ((k, old) ∷ idem) = elim (same k key) [
  | true ↦ (k, entry) ∷ idem
  | false ↦ (k, old) ∷ store key entry idem
]

-- what the guard answers
pub data Admission : Type 0 where
  replayed : SendResult → Admission
  limited admitted : Admission

-- a window that is over, or none, is followed by a new one
unfoldable pub renew_window : ℕ → SmsGuard → SmsGuard
renew_window now g = elim (g.window_start) [
  | none ↦ record g { window_start = some now; window_count = 0 }
  | some start ↦ elim (leb rate_window (now - start)) [
    | true ↦ record g { window_start = some now; window_count = 0 }
    | false ↦ g
  ]
]

-- the count of the window
unfoldable pub count_request : SmsGuard → Admission × SmsGuard
count_request g = elim (leb rate_max g.window_count) [
  | true ↦ (limited, g)
  | false ↦ (admitted, record g { window_count = suc g.window_count })
]

-- the result that is kept for a key
unfoldable pub known : Text → List (Text × IdemEntry) → Option IdemEntry
known key idem = if is_empty key then none else lookup key idem

-- the part of `SendSMS` under the guard's mutex, for a key that is trimmed
unfoldable pub admit : ℕ → Text → SmsGuard → Admission × SmsGuard
admit now key g =
    let g' = record g { idem = purge now g.idem } in
    elim (known key g'.idem) [
      | some entry ↦ (replayed entry.result, g')
      | none ↦ count_request (renew_window now g')
    ]

-- the part of `SendSMS` under the AT mutex
unfoldable pub submit :
    AtSms → SendRequest → List SendRequest → Result SmsFault SendResult × List SendRequest
submit no_at req sent = (err modem_unavailable, sent)
submit no_sms req sent = (err sms_unsupported, sent)
submit (sends send) req sent = elim (send sent req) [
  | err e ↦ (err (device e), req ∷ sent)
  | ok result ↦ (ok result, req ∷ sent)
]

-- the part of `SendSMS` behind a submission, under the guard's mutex again
unfoldable pub remember : ℕ → Text → SendResult → SmsGuard → SmsGuard
remember now key result g =
    if is_empty key
    then g
    else record g { idem = store key (record { result = result; at = now }) g.idem }

-- behind the guard, with the time at which the submission ends
unfoldable pub finish_send :
    AtSms → ℕ → SendRequest → SmsService → Result SmsFault SendResult × SmsService
finish_send at later req s =
    let (answer, sent) = submit at req s.sent in
    elim answer [
      | err e ↦ (err e, record s { sent = sent })
      | ok result ↦ (
        ok result,
        record { guard = remember later req.idempotency_key result s.guard; sent = sent },
      )
    ]

-- a checked request meets the guard
unfoldable pub guarded_send :
    AtSms → ℕ → ℕ → SendRequest → SmsService → Result SmsFault SendResult × SmsService
guarded_send at now later req s =
    let (answer, g) = admit now req.idempotency_key s.guard in
    elim answer [
      | replayed result ↦ (ok result, record s { guard = g })
      | limited ↦ (err rate_limited, record s { guard = g })
      | admitted ↦ finish_send at later req (record s { guard = g })
    ]

-- `SendSMS`
unfoldable pub send_sms :
    AtSms → ℕ → ℕ → SendRequest → SmsService → Result SmsFault SendResult × SmsService
send_sms at now later given s =
    let req = trim_request given in
    elim (check_request req) [ some e ↦ (err e, s) | none ↦ guarded_send at now later req s ]
