-- ===== src/At/Signal/Range.antt =====
-- internal/repository/at_parser.go: the range of the signal that is read out of any responses.
use proton5g.Base.{
  ℕ, ◌≤◌, true, not, ◌&&◌, ◌||◌, List, [], ◌∷◌, reverse, Option, none, some, ◌≡◌, ◌⊎◌, inl, inr,
  refl, arith, if_cases, and_true, if◌then◌else◌, Text, split_on, trim_prefix, take, trim_space,
  codes, has_prefix, atoi,
}
use proton5g.Base.Int.{ℤ, pos, negsuc, neg_ℕ, ◌+ℤ◌, ltb_ℤ, eqb_ℤ, within_ℤ}
use proton5g.Domain.{SignalInfo}
use proton5g.At.Fields.{rsrp_min_dbm, rsrq_of_raw, is_blank_result}
use proton5g.At.Fields.Decode.{Between, rsrq_of_raw-Between}
use proton5g.At.Signal.{
  Levels, levels, cesq_values, cesq_row, cesq_lines, parse_cesq, rsrp_percentage, apply_rsrp_rsrq,
  trailing_levels, better_levels, gtca_lines, gtca_numbers, parse_gtcainfo, cesq_rsrp, cesq_rsrq,
  known_rsrq, trailing_level, trailing_decimals, strongest, gtcc_best, gtcc_lines, parse_gtccinfo,
  merged, merge_report, merge_reports, merge_extended_signal,
}

-- levels that are 0 or in the range of the standard
pub record InRange (l : Levels) : Type 0 where
  pub rsrp_range : (l.rsrp ≡ pos 0) ⊎ Between (neg_ℕ 140) (neg_ℕ 43) l.rsrp
  pub rsrq_range : Between (neg_ℕ 20) (pos 0) l.rsrq

-- a signal with such levels, and a percentage
pub record IsSignal (sig : SignalInfo) : Type 0 where
  pub in_range : InRange (levels sig.rsrp sig.rsrq)
  pub percent : Between (pos 0) (pos 100) sig.percentage

no_levels-InRange : InRange (levels (pos 0) (pos 0))
no_levels-InRange = record { rsrp_range = inl refl; rsrq_range = (omega arith, omega arith) }

rsrp_of_raw : (n : ℕ) → n ≤ 97 → Between (neg_ℕ 140) (neg_ℕ 43) (rsrp_min_dbm +ℤ pos n)
unfolding ◌+ℤ◌
rsrp_of_raw n h = ground arith

rsrp_percentage-Between : (rsrp : ℤ) → Between (pos 0) (pos 100) (rsrp_percentage rsrp)
unfolding rsrp_percentage
rsrp_percentage-Between rsrp = ground arith

rsrp_of_known :
    (raw : ℤ)
    → within_ℤ (pos 0) (pos 97) raw ≡ true
    → Between (neg_ℕ 140) (neg_ℕ 43) (rsrp_min_dbm +ℤ raw)
rsrp_of_known (negsuc n) h = absurd (ground arith)
rsrp_of_known (pos n) h = rsrp_of_raw n (ground arith)

rsrq_of_known :
    (raw : ℤ) → within_ℤ (pos 0) (pos 34) raw ≡ true → Between (neg_ℕ 20) (pos 0) (rsrq_of_raw raw)
rsrq_of_known (negsuc n) h = absurd (ground arith)
rsrq_of_known (pos n) h = ground (arith, rsrq_of_raw-Between n)

cesq_rsrp-range :
    (raw : ℤ) → (cesq_rsrp raw ≡ pos 0) ⊎ Between (neg_ℕ 140) (neg_ℕ 43) (cesq_rsrp raw)
unfolding cesq_rsrp
cesq_rsrp-range raw =
    if_cases (λ v. (v ≡ pos 0) ⊎ Between (neg_ℕ 140) (neg_ℕ 43) v) _ _ _
      (λ known. inr (rsrp_of_known raw (and_true _ _ known).1)) (λ _. inl refl)

cesq_rsrq-range : (raw : ℤ) → Between (neg_ℕ 20) (pos 0) (cesq_rsrq raw)
unfolding cesq_rsrq
cesq_rsrq-range raw =
    if_cases (Between (neg_ℕ 20) (pos 0)) (known_rsrq raw) (rsrq_of_raw raw) (pos 0)
      (λ known. rsrq_of_known raw (and_true _ _ known).1) (λ _. (omega arith, omega arith))

-- what a parser may answer
data AllInRange : Option Levels → Type 0 where
  nothing : AllInRange none
  found : {l : Levels} → InRange l → AllInRange (some l)

cesq_values-InRange : (q p : ℤ) → AllInRange (cesq_values q p)
unfolding cesq_values
cesq_values-InRange q p =
    if_cases AllInRange _ _ _
      (λ _. found (record { rsrp_range = cesq_rsrp-range p; rsrq_range = cesq_rsrq-range q }))
      (λ _. nothing)

cesq_row-InRange : (fields : List Text) → AllInRange (cesq_row fields)
unfolding cesq_row
cesq_row-InRange (_ ∷ _ ∷ _ ∷ _ ∷ q ∷ p ∷ _) =
    let qv = atoi (trim_space q) in
    let pv = atoi (trim_space p) in
    if_cases AllInRange (qv.good && pv.good) (cesq_values qv.value pv.value) none
      (λ _. cesq_values-InRange qv.value pv.value) (λ _. nothing)
cesq_row-InRange _ = nothing

cesq_lines-InRange : (lines : List Text) → AllInRange (cesq_lines lines)
unfolding cesq_lines
cesq_lines-InRange [] = nothing
cesq_lines-InRange (line ∷ lines) =
    let fields = split_on b',' (trim_prefix (codes "+CESQ:") (trim_space line)) in
    if_cases AllInRange (has_prefix (codes "+CESQ:") (trim_space line)) (cesq_row fields)
      (cesq_lines lines) (λ _. cesq_row-InRange fields) (λ _. cesq_lines-InRange lines)

trailing_level-InRange : (n : ℤ) (l : Levels) → InRange l → InRange (trailing_level l n)
unfolding trailing_level
trailing_level-InRange n l h =
    if_cases InRange (eqb_ℤ l.rsrp (pos 0) && within_ℤ (neg_ℕ 140) (neg_ℕ 44) n) (levels n l.rsrq) _
      (λ hit. record { rsrp_range = inr (ground arith); rsrq_range = h.rsrq_range })
      (λ _.
        if_cases InRange
          (eqb_ℤ l.rsrq (pos 0) && within_ℤ (neg_ℕ 20) (pos 0) n && not (eqb_ℤ n (negsuc 0)))
          (levels l.rsrp n) l
          (λ hit. record { rsrp_range = h.rsrp_range; rsrq_range = ground arith }) (λ _. h))

trailing_levels-InRange :
    (nums : List ℤ) (l : Levels) → InRange l → InRange (trailing_levels l nums)
unfolding trailing_levels
trailing_levels-InRange [] l h = h
trailing_levels-InRange (n ∷ nums) l h =
    trailing_levels-InRange nums (trailing_level l n) (trailing_level-InRange n l h)

better_levels-InRange :
    (best l : Levels) → InRange best → InRange l → InRange (better_levels best l)
unfolding better_levels
better_levels-InRange best l b h =
    if_cases InRange _ _ best
      (λ _. record {
        rsrp_range = h.rsrp_range;
        rsrq_range =
            if_cases (Between (neg_ℕ 20) (pos 0)) _ _ _ (λ _. b.rsrq_range) (λ _. h.rsrq_range);
      })
      (λ _. b)

gtca_lines-InRange :
    (lines : List Text) (best : Levels) → InRange best → InRange (gtca_lines best lines)
unfolding gtca_lines
gtca_lines-InRange [] best h = h
gtca_lines-InRange (line ∷ lines) best h = gtca_lines-InRange lines _ (
    better_levels-InRange best _ h
      (trailing_levels-InRange (reverse (gtca_numbers (trim_space line))) _ no_levels-InRange))

parse_gtcainfo-InRange : (response : Text) → AllInRange (parse_gtcainfo response)
unfolding parse_gtcainfo
parse_gtcainfo-InRange response =
    if_cases AllInRange _ _ _ (λ _. nothing)
      (λ _. found (gtca_lines-InRange (split_on b'\n' response) _ no_levels-InRange))

-- a raw value that was chosen is in its range
data AllKnown : Option ℤ → Type 0 where
  unknown : AllKnown none
  known : {raw : ℤ} → within_ℤ (pos 0) (pos 97) raw ≡ true → AllKnown (some raw)

larger :
    (raw : ℤ) (rest : Option ℤ)
    → within_ℤ (pos 0) (pos 97) raw ≡ true
    → AllKnown rest
    → AllKnown
        (elim rest [ none ↦ some raw | some other ↦ some (if ltb_ℤ other raw then raw else other) ])
larger raw none here h = known here
larger raw (some other) here (known there) = known (
    if_cases (λ v. within_ℤ (pos 0) (pos 97) v ≡ true) (ltb_ℤ other raw) raw other (λ _. here)
      (λ _. there))

strongest-known : (nums : List ℤ) → AllKnown (strongest nums)
unfolding strongest
strongest-known [] = unknown
strongest-known (raw ∷ nums) =
    let rest = strongest-known nums in
    if_cases AllKnown _ _ _ (λ here. larger raw (strongest nums) (and_true _ _ here).1 rest)
      (λ _. rest)

-- the RSRP that a line of +GTCCINFO leaves
abbrev SoundRsrp : ℤ → Type 0
SoundRsrp v = InRange (levels v (pos 0))

raw-SoundRsrp : (raw : ℤ) → within_ℤ (pos 0) (pos 97) raw ≡ true → SoundRsrp (rsrp_min_dbm +ℤ raw)
raw-SoundRsrp raw h = record {
  rsrp_range = inr (rsrp_of_known raw h);
  rsrq_range = no_levels-InRange.rsrq_range;
}

chosen-SoundRsrp :
    (best : ℤ) (o : Option ℤ)
    → SoundRsrp best
    → AllKnown o
    → SoundRsrp (elim o [
      | none ↦ best
      | some raw ↦
          let v = rsrp_min_dbm +ℤ raw in if eqb_ℤ best (pos 0) || ltb_ℤ best v then v else best
    ])
chosen-SoundRsrp best none h k = h
chosen-SoundRsrp best (some raw) h (known k) =
    let v = rsrp_min_dbm +ℤ raw in
    if_cases SoundRsrp (eqb_ℤ best (pos 0) || ltb_ℤ best v) v best (λ _. raw-SoundRsrp raw k)
      (λ _. h)

gtcc_best-SoundRsrp : (line : Text) (best : ℤ) → SoundRsrp best → SoundRsrp (gtcc_best best line)
unfolding gtcc_best
gtcc_best-SoundRsrp line best h =
    let nums = take 4 (trailing_decimals [] (split_on b',' (trim_space line))) in
    if_cases SoundRsrp
      (is_blank_result (trim_space line) || has_prefix (codes "+GTCCINFO") (trim_space line)) best _
      (λ _. h) (λ _. chosen-SoundRsrp best (strongest nums) h (strongest-known nums))

gtcc_lines-SoundRsrp :
    (lines : List Text) (best : ℤ) → SoundRsrp best → SoundRsrp (gtcc_lines best lines)
unfolding gtcc_lines
gtcc_lines-SoundRsrp [] best h = h
gtcc_lines-SoundRsrp (line ∷ lines) best h =
    gtcc_lines-SoundRsrp lines (gtcc_best best line) (gtcc_best-SoundRsrp line best h)

parse_gtccinfo-InRange : (response : Text) → AllInRange (parse_gtccinfo response)
unfolding parse_gtccinfo
parse_gtccinfo-InRange response =
    let best = gtcc_lines (pos 0) (split_on b'\n' response) in
    if_cases AllInRange (eqb_ℤ best (pos 0)) none (some (levels best (pos 0))) (λ _. nothing)
      (λ _. found (gtcc_lines-SoundRsrp (split_on b'\n' response) (pos 0) no_levels-InRange))

pub apply_rsrp_rsrq-IsSignal :
    (base : SignalInfo) (l : Levels) → IsSignal base → InRange l → IsSignal (apply_rsrp_rsrq base l)
unfolding apply_rsrp_rsrq
apply_rsrp_rsrq-IsSignal base l b r = record {
  in_range = record {
    rsrp_range = ground (arith, b.in_range.rsrp_range, r.rsrp_range);
    rsrq_range = ground (arith, b.in_range.rsrq_range, r.rsrq_range);
  };
  percent = ground (arith, b.percent, rsrp_percentage-Between l.rsrp);
}

merged-IsSignal :
    (base : SignalInfo) (o : Option Levels)
    → IsSignal base
    → AllInRange o
    → IsSignal (merged base o)
merged-IsSignal base none b h = b
merged-IsSignal base (some l) b (found r) = apply_rsrp_rsrq-IsSignal base l b r

merge_report-IsSignal :
    (raw : Text) (base : SignalInfo) → IsSignal base → IsSignal (merge_report base raw)
unfolding merge_report
merge_report-IsSignal [] base b = b
merge_report-IsSignal (c ∷ s) base b =
    let base' = merged base (parse_gtcainfo (c ∷ s)) in
    let b' = merged-IsSignal base (parse_gtcainfo (c ∷ s)) b (parse_gtcainfo-InRange (c ∷ s)) in
    if_cases IsSignal (eqb_ℤ base'.rsrp (pos 0)) (merged base' (parse_gtccinfo (c ∷ s))) base'
      (λ _. merged-IsSignal base' (parse_gtccinfo (c ∷ s)) b' (parse_gtccinfo-InRange (c ∷ s)))
      (λ _. b')

merge_reports-IsSignal :
    (reports : List Text) (base : SignalInfo)
    → IsSignal base
    → IsSignal (merge_reports base reports)
unfolding merge_reports
merge_reports-IsSignal [] base b = b
merge_reports-IsSignal (raw ∷ reports) base b =
    if_cases IsSignal (eqb_ℤ base.rsrp (pos 0)) (merge_reports (merge_report base raw) reports) base
      (λ _.
        merge_reports-IsSignal reports (merge_report base raw) (merge_report-IsSignal raw base b))
      (λ _. b)

-- A signal whose RSRP is 0, for one that is not known, or from -140 to -43, whose RSRQ is from -20 to 0, and whose
-- percentage is from 0 to 100. Whatever texts the modem answers to AT+CESQ and the proprietary queries,
-- `MergeExtendedSignal` makes it one of that kind.
pub merge_extended_signal-IsSignal :
    (base : SignalInfo) (cesq : Text) (reports : List Text)
    → IsSignal base
    → IsSignal (merge_extended_signal base cesq reports)
unfolding merge_extended_signal parse_cesq
merge_extended_signal-IsSignal base cesq reports b =
    merge_reports-IsSignal reports (merged base (parse_cesq cesq))
      (merged-IsSignal base (parse_cesq cesq) b (cesq_lines-InRange (split_on b'\n' cesq)))
