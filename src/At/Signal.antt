-- ===== src/At/Signal.antt =====
-- internal/repository/at_parser.go: the signal strength, from +CSQ, +CESQ and the proprietary reports.
pub mod Range
use proton5g.Base.{
  ℕ, ◌+◌, ◌-◌, ◌*◌, Bool, true, false, not, ◌&&◌, ◌||◌, List, [], ◌∷◌, ◌++◌, reverse, map, Option,
  none, some, ◌==◌, if◌then◌else◌, length, get_or, take, Text, codes, same, is_empty, has_prefix,
  trim_space, trim_prefix, to_upper, contains, split_on, cut_at, atoi,
}
use proton5g.Base.Int.{ℤ, pos, negsuc, neg_ℕ, ◌+ℤ◌, ◌*ℤ◌, ◌-ℤ◌, tdiv, leb_ℤ, ltb_ℤ, eqb_ℤ, within_ℤ}
use proton5g.Domain.{SignalInfo, CellInfo, no_signal}
use proton5g.At.Fields.{
  csq_unknown, csq_min_dbm, csq_max_raw, cesq_unknown, rsrp_min_dbm, rsrp_max_raw, rsrq_max_raw,
  is_blank_result, rsrq_of_raw, parse_signed_ints,
}

-- at most 100
abbrev cap_100 : ℤ → ℤ
cap_100 p = if ltb_ℤ (pos 100) p then pos 100 else p

-- the body of the loop of `ParseCSQ`
unfoldable pub csq_line : SignalInfo → Text → SignalInfo
csq_line info given =
    let line = trim_space given in
    let raw = atoi (trim_space (get_or (split_on b',' (trim_prefix (codes "+CSQ:") line)) 0 [])) in
    if has_prefix (codes "+CSQ:") line && raw.good && not (eqb_ℤ raw.value csq_unknown)
    then record info {
      rssi = csq_min_dbm +ℤ raw.value *ℤ pos 2;
      percentage = cap_100 (tdiv (raw.value *ℤ pos 100) csq_max_raw);
    }
    else info

unfoldable pub csq_lines : SignalInfo → List Text → SignalInfo
unfolding csq_line
csq_lines info [] = info
csq_lines info (line ∷ lines) = csq_lines (csq_line info line) lines

-- `ParseCSQ`. The program computes the percentage with floating point numbers, which is this quotient for a number
-- that a modem sends.
unfoldable pub parse_csq : Text → SignalInfo
parse_csq response = csq_lines (record no_signal { raw_csq = response }) (split_on b'\n' response)

-- two levels, with 0 for one that is not known
pub record Levels : Type 0 where
  pub rsrp : ℤ
  pub rsrq : ℤ

abbrev pub levels : ℤ → ℤ → Levels
levels rsrp rsrq = record { rsrp = rsrp; rsrq = rsrq }

abbrev pub known_rsrq : ℤ → Bool
known_rsrq raw = not (eqb_ℤ raw cesq_unknown) && within_ℤ (pos 0) rsrq_max_raw raw

abbrev pub known_rsrp : ℤ → Bool
known_rsrp raw = not (eqb_ℤ raw cesq_unknown) && within_ℤ (pos 0) rsrp_max_raw raw

unfoldable pub cesq_rsrp : ℤ → ℤ
cesq_rsrp raw = if known_rsrp raw then rsrp_min_dbm +ℤ raw else pos 0

unfoldable pub cesq_rsrq : ℤ → ℤ
cesq_rsrq raw = if known_rsrq raw then rsrq_of_raw raw else pos 0

-- the values of a +CESQ row; `none` is `ok == false`
unfoldable pub cesq_values : ℤ → ℤ → Option Levels
unfolding cesq_rsrp cesq_rsrq
cesq_values rsrq_raw rsrp_raw =
    if known_rsrq rsrq_raw || known_rsrp rsrp_raw
    then some (levels (cesq_rsrp rsrp_raw) (cesq_rsrq rsrq_raw))
    else none

-- the fields of a +CESQ row
unfoldable pub cesq_row : List Text → Option Levels
unfolding cesq_values
cesq_row (_ ∷ _ ∷ _ ∷ _ ∷ q ∷ p ∷ _) =
    let rsrq_raw = atoi (trim_space q) in
    let rsrp_raw = atoi (trim_space p) in
    if rsrq_raw.good && rsrp_raw.good then cesq_values rsrq_raw.value rsrp_raw.value else none
cesq_row _ = none

unfoldable pub cesq_lines : List Text → Option Levels
unfolding cesq_row
cesq_lines [] = none
cesq_lines (given ∷ lines) =
    let line = trim_space given in
    let rest = cesq_lines lines in
    if has_prefix (codes "+CESQ:") line
    then cesq_row (split_on b',' (trim_prefix (codes "+CESQ:") line))
    else rest

-- `ParseCESQ`
unfoldable pub parse_cesq : Text → Option Levels
unfolding cesq_lines
parse_cesq response = cesq_lines (split_on b'\n' response)

-- the percentage of an RSRP, from 0 to 100
unfoldable pub rsrp_percentage : ℤ → ℤ
rsrp_percentage rsrp =
    let p = tdiv ((rsrp -ℤ rsrp_min_dbm) *ℤ pos 100) 96 in
    if ltb_ℤ p (pos 0) then pos 0 else cap_100 p

-- `applyRSRPRSRQ`
unfoldable pub apply_rsrp_rsrq : SignalInfo → Levels → SignalInfo
apply_rsrp_rsrq base l =
    let leveled : SignalInfo = if eqb_ℤ l.rsrp (pos 0) then base else record base {
      rsrp = l.rsrp;
      percentage =
          if eqb_ℤ base.percentage (pos 0) then rsrp_percentage l.rsrp else base.percentage;
      rssi = if eqb_ℤ base.rssi (pos 0) then l.rsrp else base.rssi;
    } in
    if eqb_ℤ l.rsrq (pos 0) then leveled else record leveled { rsrq = l.rsrq }

-- a number of a GTCAINFO line, taken for the level that is missing
unfoldable pub trailing_level : Levels → ℤ → Levels
trailing_level l n =
    if eqb_ℤ l.rsrp (pos 0) && within_ℤ (neg_ℕ 140) (neg_ℕ 44) n
    then levels n l.rsrq
    else if eqb_ℤ l.rsrq (pos 0) && within_ℤ (neg_ℕ 20) (pos 0) n && not (eqb_ℤ n (negsuc 0))
    then levels l.rsrp n
    else l

-- the loop over the numbers of a GTCAINFO line, the last one first
unfoldable pub trailing_levels : Levels → List ℤ → Levels
unfolding trailing_level
trailing_levels l [] = l
trailing_levels l (n ∷ nums) = trailing_levels (trailing_level l n) nums

-- the numbers that a GTCAINFO line is read for
unfoldable pub gtca_numbers : Text → List ℤ
gtca_numbers line =
    let upper = to_upper line in
    let named =
      has_prefix (codes "PCC") upper
      || has_prefix (codes "SCC") upper
      || has_prefix (codes "+GTCAINFO") upper in
    let payload : Text = elim (cut_at (λ c. c == b':') line) [
      | none ↦ line
      | some (_, back) ↦ if named then back else line
    ] in
    if not (contains (codes "PCC:") upper)
      && not (contains (codes "SCC") upper)
      && not (contains (codes ",") line)
    then []
    else parse_signed_ints payload

-- the better of what was found before and what the line has
unfoldable pub better_levels : Levels → Levels → Levels
better_levels best l =
    if not (eqb_ℤ l.rsrp (pos 0)) && (eqb_ℤ best.rsrp (pos 0) || ltb_ℤ best.rsrp l.rsrp)
    then levels l.rsrp (if eqb_ℤ l.rsrq (pos 0) then best.rsrq else l.rsrq)
    else best

unfoldable pub gtca_lines : Levels → List Text → Levels
unfolding better_levels trailing_levels gtca_numbers
gtca_lines best [] = best
gtca_lines best (line ∷ lines) =
    gtca_lines
      (better_levels best
        (trailing_levels (levels (pos 0) (pos 0)) (reverse (gtca_numbers (trim_space line)))))
      lines

-- `ParseGTCAINFO`
unfoldable pub parse_gtcainfo : Text → Option Levels
parse_gtcainfo response =
    let best = gtca_lines (levels (pos 0) (pos 0)) (split_on b'\n' response) in
    if eqb_ℤ best.rsrp (pos 0) then none else some best

-- the decimals at the end of a row, the last one first; a field that is no number starts anew
unfoldable pub trailing_decimals : List ℤ → List Text → List ℤ
trailing_decimals dec [] = dec
trailing_decimals dec (given ∷ parts) =
    let p = trim_space given in
    let n = atoi p in
    trailing_decimals (if is_empty p then dec else if n.good then n.value ∷ dec else []) parts

-- the largest raw RSRP among numbers, if there is one
unfoldable pub strongest : List ℤ → Option ℤ
strongest [] = none
strongest (raw ∷ nums) =
    let rest = strongest nums in
    if known_rsrp raw
    then (elim rest [
      | none ↦ some raw
      | some other ↦ some (if ltb_ℤ other raw then raw else other)
    ])
    else rest

-- the body of the loop of `ParseGTCCINFO`
unfoldable pub gtcc_best : ℤ → Text → ℤ
unfolding strongest trailing_decimals
gtcc_best best given =
    let line = trim_space given in
    if is_blank_result line || has_prefix (codes "+GTCCINFO") line
    then best
    else elim (strongest (take 4 (trailing_decimals [] (split_on b',' line)))) [
      | none ↦ best
      | some raw ↦
          let v = rsrp_min_dbm +ℤ raw in if eqb_ℤ best (pos 0) || ltb_ℤ best v then v else best
    ]

unfoldable pub gtcc_lines : ℤ → List Text → ℤ
unfolding gtcc_best
gtcc_lines best [] = best
gtcc_lines best (line ∷ lines) = gtcc_lines (gtcc_best best line) lines

-- `ParseGTCCINFO`
unfoldable pub parse_gtccinfo : Text → Option Levels
parse_gtccinfo response =
    let best = gtcc_lines (pos 0) (split_on b'\n' response) in
    if eqb_ℤ best (pos 0) then none else some (levels best (pos 0))

-- what a parser found goes into the signal
abbrev pub merged : SignalInfo → Option Levels → SignalInfo
merged base none = base
merged base (some l) = apply_rsrp_rsrq base l

-- one proprietary report; the second parser is asked while the RSRP is not known
unfoldable pub merge_report : SignalInfo → Text → SignalInfo
merge_report base [] = base
merge_report base (c ∷ s) =
    let base' = merged base (parse_gtcainfo (c ∷ s)) in
    if eqb_ℤ base'.rsrp (pos 0) then merged base' (parse_gtccinfo (c ∷ s)) else base'

-- the reports in turn, until the RSRP is known
unfoldable pub merge_reports : SignalInfo → List Text → SignalInfo
unfolding merge_report
merge_reports base [] = base
merge_reports base (raw ∷ reports) =
    let rest = merge_reports (merge_report base raw) reports in
    if eqb_ℤ base.rsrp (pos 0) then rest else base

-- `MergeExtendedSignal`
unfoldable pub merge_extended_signal : SignalInfo → Text → List Text → SignalInfo
unfolding merge_reports
merge_extended_signal base cesq reports = merge_reports (merged base (parse_cesq cesq)) reports

-- `ApplyServingCell`
unfoldable pub apply_serving_cell : SignalInfo → List CellInfo → SignalInfo
apply_serving_cell sig [] = sig
apply_serving_cell sig (c ∷ cells) =
    let rest = apply_serving_cell sig cells in
    let leveled : SignalInfo =
      if eqb_ℤ sig.rsrp (pos 0) && not (eqb_ℤ c.rsrp (pos 0))
      then apply_rsrp_rsrq sig (levels c.rsrp c.rsrq)
      else if eqb_ℤ sig.rsrq (pos 0) && not (eqb_ℤ c.rsrq (pos 0))
      then record sig { rsrq = c.rsrq }
      else sig in
    if not c.serving
    then rest
    else if eqb_ℤ leveled.sinr (pos 0) && not (eqb_ℤ c.sinr (pos 0))
    then record leveled { sinr = c.sinr }
    else leveled
