-- ===== src/Sms/Urc/Tests.antt =====
-- A response with a notification in it.
use proton5g.Base.{
  split_on, without, ◌≤◌, [], ◌∷◌, ◌++◌, ◌≡◌, refl, arith, Text, codes, length, trim_space,
  join_lines, has_prefix, atoi,
}
use proton5g.Base.Int.{pos}
use proton5g.Sms.Urc.{
  stored, store_and_strip, strip_lines, is_urc_line, push_item, drain_notifications,
  notifications_of, notification_of, drain_urcs, with_location, split_csv_quoted, split_csv_from,
}
use proton5g.Sms.Urc.Queue.{newest, urcs_of, others_of, store_and_strip-refines}

-- +CSQ: 20 CR LF +CMTI: "SM",3 CR LF OK
abbrev response : Text
response = codes "+CSQ: 20" ++ 13 ∷ 10 ∷ (codes "+CMTI: \"SM\",3" ++ 13 ∷ 10 ∷ codes "OK")

stripped :
    store_and_strip response []
    ≡ (codes "+CSQ: 20" ++ 10 ∷ codes "OK", codes "+CMTI: \"SM\",3" ∷ [])
unfolding store_and_strip strip_lines split_on without is_urc_line push_item trim_space join_lines
    has_prefix
stripped = refl

drained :
    (drain_notifications 5 (codes "+CMTI: \"SM\",3" ∷ [])).0
    ≡ record {
      kind = stored;
      storage = codes "SM";
      index = pos 3;
      message_ref = pos 0;
      raw = codes "+CMTI: \"SM\",3";
      received_at = 5;
    }
      ∷ []
unfolding drain_notifications notifications_of notification_of drain_urcs has_prefix with_location
    split_csv_quoted split_csv_from trim_space atoi
drained = refl

store_and_strip-refines_example :
    (store_and_strip response (codes "+CDS: 7" ∷ []) ≡ (
      trim_space (join_lines (others_of (split_on b'\n' (without 13 response)))),
      newest 128 (codes "+CDS: 7" ∷ urcs_of (split_on b'\n' (without 13 response))),
    ))
    × (length (store_and_strip response (codes "+CDS: 7" ∷ [])).1 ≤ 128)
store_and_strip-refines_example =
    store_and_strip-refines response (codes "+CDS: 7" ∷ []) (omega arith)
