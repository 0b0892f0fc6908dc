-- ===== src/Sms/Urc.antt =====
-- internal/repository/at_urc.go: the lines that a modem sends unasked, taken out of the responses to
-- commands and kept for the readers of notifications. The queue's mutex covers each operation.
pub mod Queue
mod Tests
use proton5g.Base.{
  ℕ, ◌-◌, Bool, true, false, not, ◌&&◌, ◌||◌, List, [], ◌∷◌, ◌++◌, leb, ltb, ◌==◌, if◌then◌else◌,
  length, drop, Text, codes, is_empty, has_prefix, trim_space, trim_by, join_lines, split_on,
  without, unquoted_field, atoi,
}
use proton5g.Base.Int.{ℤ, pos}

-- `isURCLine`
unfoldable pub is_urc_line : Text → Bool
is_urc_line line =
    has_prefix (codes "+CMTI:") (trim_space line)
    || has_prefix (codes "+CMT:") (trim_space line)
    || has_prefix (codes "+CDS:") (trim_space line)

-- one more line: at 128 items only the newest 127 are kept
unfoldable pub push_item : Text → List Text → List Text
push_item line items =
    if leb 128 (length items)
    then drop (length items - 127) items ++ line ∷ []
    else items ++ line ∷ []

-- the loop: the lines that stay in the response, and the queue
unfoldable pub strip_lines : List Text → List Text → List Text × List Text
strip_lines [] items = ([], items)
strip_lines (line ∷ lines) items = elim (is_urc_line line) [
  | true ↦ strip_lines lines (push_item (trim_space line) items)
  | false ↦ let (kept, items') = strip_lines lines items in (line ∷ kept, items')
]

-- `storeAndStripSMSURCs`
unfoldable pub store_and_strip : Text → List Text → Text × List Text
store_and_strip raw items =
    let (kept, items') = strip_lines (split_on b'\n' (without 13 raw)) items in
    (trim_space (join_lines kept), items')

-- `DrainSMSURCs`
unfoldable pub drain_urcs : List Text → List Text × List Text
drain_urcs items = (items, [])

-- the loop of `splitCSVQuoted`
unfoldable pub split_csv_from : Bool → Text → Text → List Text
split_csv_from quoted b [] = trim_space b ∷ []
split_csv_from quoted b (r ∷ s) = elim (r == b'"') [
  | true ↦ split_csv_from (not quoted) (b ++ r ∷ []) s
  | false ↦ elim (r == b',' && not quoted) [
    | true ↦ trim_space b ∷ split_csv_from quoted [] s
    | false ↦ split_csv_from quoted (b ++ r ∷ []) s
  ]
]

-- `splitCSVQuoted`
unfoldable pub split_csv_quoted : Text → List Text
split_csv_quoted = split_csv_from false []

-- domain.SMSNotificationType
pub data NotificationType : Type 0 where
  stored direct delivery_report : NotificationType

-- domain.SMSNotification
pub record SmsNotification : Type 0 where
  pub kind : NotificationType
  pub storage : Text
  pub index : ℤ
  pub message_ref : ℤ
  pub raw : Text
  pub received_at : ℕ

abbrev blank : NotificationType → Text → ℕ → SmsNotification
blank kind raw now = record {
  kind = kind;
  storage = [];
  index = pos 0;
  message_ref = pos 0;
  raw = raw;
  received_at = now;
}

-- the storage and the index of a stored message
unfoldable pub with_location : List Text → SmsNotification → SmsNotification
with_location (storage ∷ index ∷ _) n = record n {
  storage = unquoted_field storage;
  index = (atoi (trim_space index)).value;
}
with_location _ n = n

-- the reference of a report
unfoldable pub with_reference : List Text → SmsNotification → SmsNotification
with_reference (ref ∷ _) n = record n { message_ref = (atoi (unquoted_field ref)).value }
with_reference [] n = n

-- the switch of `DrainSMSNotifications`, whose default leaves a line out
unfoldable pub notification_of : ℕ → Text → List SmsNotification
notification_of now line =
    if has_prefix (codes "+CMTI:") line
    then with_location (split_csv_quoted (trim_space (drop 6 line))) (blank stored line now) ∷ []
    else if has_prefix (codes "+CDS:") line
    then with_reference (split_csv_quoted (trim_space (drop 5 line)))
        (blank delivery_report line now)
      ∷ []
    else if has_prefix (codes "+CMT:") line
    then blank direct line now ∷ []
    else []

unfoldable pub notifications_of : ℕ → List Text → List SmsNotification
notifications_of now [] = []
notifications_of now (line ∷ lines) = notification_of now line ++ notifications_of now lines

-- `DrainSMSNotifications`
unfoldable pub drain_notifications : ℕ → List Text → List SmsNotification × List Text
drain_notifications now items =
    let (lines, items') = drain_urcs items in (notifications_of now lines, items')
