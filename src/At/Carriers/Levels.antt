-- ===== src/At/Carriers/Levels.antt =====
-- internal/repository/at_parser.go: the levels of the component carriers.
use mathlib.Core.Path.{subst, sym}
use proton5g.Base.{
  ℕ, Bool, true, false, ◌&&◌, ◌||◌, List, [], ◌∷◌, reverse, Option, none, some, ◌≡◌, refl, inl, inr,
  arith, Option-cases, if_cases, if◌then◌else◌, All, same, codes, cut_at, ◌==◌, is_empty,
  trim_space, to_upper, without, Bool-cases, Text, split_on,
}
use proton5g.Base.Int.{ℤ, pos, neg_ℕ, leb_ℤ, ltb_ℤ, eqb_ℤ}
use proton5g.Domain.{CellInfo, CaComponent}
use proton5g.At.Fields.{split_csv, decode_rsrp_field, decode_rsrq_field, parse_signed_ints}
use proton5g.At.Fields.Decode.{Between, decode_rsrp_field-Between, decode_rsrq_field-Between}
use proton5g.At.Cells.{parse_gtccinfo_cells}
use proton5g.At.Cells.Range.{
  RsrpLevel, RsrqLevel, unknown, known, SoundCell, parse_gtccinfo_cells-SoundCell,
}
use proton5g.At.Carriers.{
  carrier_behind, primary_row, secondary_row, carrier_of, carrier_line, carrier_lines,
  parse_gtcainfo_components, rows_by_component, row_of, enrich_component, enrich_all,
  enrich_gtcainfo_components, fill_primary, fill_secondary, fill_by, matching_cell, serving_cell,
  correlate_component, correlate_all, correlate_ca_with_cells,
}
use proton5g.At.Carriers.Rows.{
  new_component, short_row, component_name, take_level, number_level, number_levels,
  with_derived_band,
}

-- a carrier whose levels are 0, for one that is not known, or in the range of the standard
pub record SoundCarrier (c : CaComponent) : Type 0 where
  pub rsrp_level : RsrpLevel c.rsrp
  pub rsrq_level : RsrqLevel c.rsrq

take_level-SoundCarrier :
    (c : CaComponent) (n : ℤ) (p q : Option ℤ)
    → SoundCarrier c
    → ((v : ℤ) → p ≡ some v → Between (neg_ℕ 140) (neg_ℕ 43) v)
    → ((v : ℤ) → q ≡ some v → Between (neg_ℕ 20) (neg_ℕ 3) v)
    → SoundCarrier (take_level c n p q)
unfolding take_level
take_level-SoundCarrier c n (some v) q s hp hq = record {
  rsrp_level = known (hp v refl);
  rsrq_level = s.rsrq_level;
}
take_level-SoundCarrier c n none (some v) s hp hq = record {
  rsrp_level = s.rsrp_level;
  rsrq_level = known (hq v refl);
}
take_level-SoundCarrier c n none none s hp hq =
    if_cases SoundCarrier (eqb_ℤ c.sinr (pos 0) && ltb_ℤ (pos 0) n && leb_ℤ n (pos 40))
      (record c { sinr = n }) c
      (λ _. record { rsrp_level = s.rsrp_level; rsrq_level = s.rsrq_level }) (λ _. s)

-- what passes a test was there before
some_of_if : (b : Bool) (o : Option ℤ) (v : ℤ) → (if b then o else none) ≡ some v → o ≡ some v
some_of_if true o v h = h
some_of_if false o v h = absurd (ground (arith, h))

number_level-SoundCarrier :
    (c : CaComponent) (n : ℤ) → SoundCarrier c → SoundCarrier (number_level c n)
unfolding number_level
number_level-SoundCarrier c n s =
    take_level-SoundCarrier c n (if eqb_ℤ c.rsrp (pos 0) then decode_rsrp_field n else none)
      (if eqb_ℤ c.rsrq (pos 0) then decode_rsrq_field n else none) s
      (λ v h.
        decode_rsrp_field-Between n v (some_of_if (eqb_ℤ c.rsrp (pos 0)) (decode_rsrp_field n) v h))
      (λ v h.
        decode_rsrq_field-Between n v (some_of_if (eqb_ℤ c.rsrq (pos 0)) (decode_rsrq_field n) v h))

number_levels-SoundCarrier :
    (nums : List ℤ) (c : CaComponent) → SoundCarrier c → SoundCarrier (number_levels c nums)
unfolding number_levels
number_levels-SoundCarrier [] c s = s
number_levels-SoundCarrier (n ∷ nums) c s =
    number_levels-SoundCarrier nums (number_level c n) (number_level-SoundCarrier c n s)

-- a carrier whose levels are not known yet
pub record Blank (c : CaComponent) : Type 0 where
  pub no_rsrp : c.rsrp ≡ pos 0
  pub no_rsrq : c.rsrq ≡ pos 0

Blank-SoundCarrier : (c : CaComponent) → Blank c → SoundCarrier c
Blank-SoundCarrier c b = record { rsrp_level = unknown b.no_rsrp; rsrq_level = unknown b.no_rsrq }

with_derived_band-Blank : (c : CaComponent) → Blank c → Blank (with_derived_band c)
unfolding with_derived_band
with_derived_band-Blank c b = record {
  no_rsrp = ground (arith, b.no_rsrp);
  no_rsrq = ground (arith, b.no_rsrq);
}

module _ (tenths_mhz : ℕ → Text) where
  primary_row-Blank :
      (c : CaComponent) (parts : List Text) → Blank c → Blank (primary_row tenths_mhz c parts)
  unfolding primary_row short_row
  primary_row-Blank c parts b = record {
    no_rsrp = ground (arith, b.no_rsrp);
    no_rsrq = ground (arith, b.no_rsrq);
  }

  secondary_row-Blank :
      (c : CaComponent) (parts : List Text) → Blank c → Blank (secondary_row tenths_mhz c parts)
  unfolding secondary_row short_row
  secondary_row-Blank c parts b = record {
    no_rsrp = ground (arith, b.no_rsrp);
    no_rsrq = ground (arith, b.no_rsrq);
  }

  carrier_of-SoundCarrier :
      (comp payload : Text) → SoundCarrier (carrier_of tenths_mhz comp payload)
  unfolding carrier_of
  carrier_of-SoundCarrier comp payload =
      let parts = split_csv payload in
      let fresh : Blank (new_component comp) = record { no_rsrp = refl; no_rsrq = refl } in
      let read =
        if same comp (codes "PCC")
        then primary_row tenths_mhz (new_component comp) parts
        else secondary_row tenths_mhz (new_component comp) parts in
      let blank : Blank read =
        if_cases Blank (same comp (codes "PCC")) (primary_row tenths_mhz (new_component comp) parts)
          (secondary_row tenths_mhz (new_component comp) parts)
          (λ _. primary_row-Blank (new_component comp) parts fresh)
          (λ _. secondary_row-Blank (new_component comp) parts fresh) in
      number_levels-SoundCarrier (reverse (parse_signed_ints payload)) (with_derived_band read)
        (Blank-SoundCarrier (with_derived_band read) (with_derived_band-Blank read blank))

  carrier_behind-SoundCarrier :
      (line : Text) (o : Option (Text × Text)) (c : CaComponent)
      → carrier_behind tenths_mhz line o ≡ some c
      → SoundCarrier c
  unfolding carrier_behind
  carrier_behind-SoundCarrier line none c h = absurd (ground (arith, h))
  carrier_behind-SoundCarrier line (some (head, payload)) c h =
      let found : carrier_of tenths_mhz (component_name head) payload ≡ c = ground (arith, h) in
      subst SoundCarrier found (carrier_of-SoundCarrier (component_name head) payload)

  carrier_lines-SoundCarrier :
      (lines : List Text) → All SoundCarrier (carrier_lines tenths_mhz lines)
  unfolding carrier_lines carrier_line
  carrier_lines-SoundCarrier [] = tt
  carrier_lines-SoundCarrier (line ∷ lines) =
      elim (Option-cases (carrier_line tenths_mhz (trim_space line))) [
        | inl e ↦ rw (e, carrier_lines) (carrier_lines-SoundCarrier lines)
        | inr (c, e) ↦
            rw (e, carrier_lines)
              (
                carrier_behind-SoundCarrier (trim_space line)
                    (cut_at (λ r. r == b':') (trim_space line)) c e,
                carrier_lines-SoundCarrier lines,
              )
      ]

  enrich_component-SoundCarrier :
      (c : CaComponent) (parts : List Text)
      → SoundCarrier c
      → SoundCarrier (enrich_component tenths_mhz c parts)
  unfolding enrich_component
  enrich_component-SoundCarrier c parts s =
      let same_rsrp : (enrich_component tenths_mhz c parts).rsrp ≡ c.rsrp = ground arith in
      let same_rsrq : (enrich_component tenths_mhz c parts).rsrq ≡ c.rsrq = ground arith in
      record {
        rsrp_level = subst RsrpLevel (sym same_rsrp) s.rsrp_level;
        rsrq_level = subst RsrqLevel (sym same_rsrq) s.rsrq_level;
      }

  enrich_all-SoundCarrier :
      (rows : List (Text × List Text)) (ca : List CaComponent)
      → All SoundCarrier ca
      → All SoundCarrier (enrich_all tenths_mhz rows ca)
  unfolding enrich_all
  enrich_all-SoundCarrier rows [] s = tt
  enrich_all-SoundCarrier rows (c ∷ ca) s = (
    enrich_component-SoundCarrier c (row_of (to_upper (without b' ' c.component)) rows) s.0,
    enrich_all-SoundCarrier rows ca s.1,
  )

  enrich-SoundCarrier :
      (ca : List CaComponent) (response : Text)
      → All SoundCarrier ca
      → All SoundCarrier (enrich_gtcainfo_components tenths_mhz ca response)
  unfolding enrich_gtcainfo_components
  enrich-SoundCarrier ca response s =
      let rows = rows_by_component [] (split_on b'\n' response) in
      if_cases (All SoundCarrier) (is_empty ca || is_empty (trim_space response)) ca
        (enrich_all tenths_mhz rows ca) (λ _. s) (λ _. enrich_all-SoundCarrier rows ca s)

  fill_primary-SoundCarrier :
      (c : CaComponent) (cell : CellInfo)
      → SoundCarrier c
      → SoundCell cell
      → SoundCarrier (fill_primary tenths_mhz c cell)
  unfolding fill_primary
  fill_primary-SoundCarrier c cell s t = record {
    rsrp_level =
        if_cases RsrpLevel (eqb_ℤ c.rsrp (pos 0)) cell.rsrp c.rsrp (λ _. t.rsrp_level)
          (λ _. s.rsrp_level);
    rsrq_level =
        if_cases RsrqLevel (eqb_ℤ c.rsrq (pos 0)) cell.rsrq c.rsrq (λ _. t.rsrq_level)
          (λ _. s.rsrq_level);
  }

  fill_secondary-SoundCarrier :
      (c : CaComponent) (cell : CellInfo)
      → SoundCarrier c
      → SoundCarrier (fill_secondary tenths_mhz c cell)
  unfolding fill_secondary
  fill_secondary-SoundCarrier c cell s = record {
    rsrp_level = s.rsrp_level;
    rsrq_level = s.rsrq_level;
  }

  fill_by-SoundCarrier :
      (c : CaComponent) (o : Option CellInfo)
      → SoundCarrier c
      → SoundCarrier (fill_by tenths_mhz c o)
  unfolding fill_by
  fill_by-SoundCarrier c none s = s
  fill_by-SoundCarrier c (some cell) s = fill_secondary-SoundCarrier c cell s

  correlate_component-SoundCarrier :
      (cells : List CellInfo) (serving : Option CellInfo) (c : CaComponent)
      → ((cell : CellInfo) → serving ≡ some cell → SoundCell cell)
      → SoundCarrier c
      → SoundCarrier (correlate_component tenths_mhz cells serving c)
  unfolding correlate_component
  correlate_component-SoundCarrier cells none c t s =
      fill_by-SoundCarrier c (matching_cell c cells) s
  correlate_component-SoundCarrier cells (some cell) c t s =
      if_cases SoundCarrier (same c.component (codes "PCC")) (fill_primary tenths_mhz c cell)
        (fill_by tenths_mhz c (matching_cell c cells))
        (λ _. fill_primary-SoundCarrier c cell s (t cell refl))
        (λ _. fill_by-SoundCarrier c (matching_cell c cells) s)

  correlate_all-SoundCarrier :
      (cells : List CellInfo) (serving : Option CellInfo) (ca : List CaComponent)
      → ((cell : CellInfo) → serving ≡ some cell → SoundCell cell)
      → All SoundCarrier ca
      → All SoundCarrier (correlate_all tenths_mhz cells serving ca)
  unfolding correlate_all
  correlate_all-SoundCarrier cells serving [] t s = tt
  correlate_all-SoundCarrier cells serving (c ∷ ca) t s = (
    correlate_component-SoundCarrier cells serving c t s.0,
    correlate_all-SoundCarrier cells serving ca t s.1,
  )

  serving_cell-SoundCell :
      (cells : List CellInfo)
      → All SoundCell cells
      → (cell : CellInfo) → serving_cell cells ≡ some cell
      → SoundCell cell
  unfolding serving_cell
  serving_cell-SoundCell [] t cell h = absurd (ground (arith, h))
  serving_cell-SoundCell (c ∷ cells) t cell h = elim (Bool-cases c.serving) [
    | inl on ↦ let found : c ≡ cell = ground (arith, h, on) in subst SoundCell found t.0
    | inr off ↦ serving_cell-SoundCell cells t.1 cell (ground (arith, h, off))
  ]

  -- Whatever texts the modem answers to AT+GTCAINFO? and AT+GTCCINFO?, each component carrier that a poll shows (read
  -- out of the first answer, enriched from it, and correlated with the cells of the second) has an RSRP of 0, for
  -- one that is not known, or from -140 to -43, and an RSRQ of 0 or from -20 to -3.
  pub shown_carriers-SoundCarrier :
      (gtca gtcc : Text)
      → All SoundCarrier (
          correlate_ca_with_cells tenths_mhz
            (enrich_gtcainfo_components tenths_mhz (parse_gtcainfo_components tenths_mhz gtca) gtca)
            (parse_gtccinfo_cells gtcc))
  unfolding correlate_ca_with_cells parse_gtcainfo_components
  shown_carriers-SoundCarrier gtca gtcc =
      let ca =
        enrich_gtcainfo_components tenths_mhz (parse_gtcainfo_components tenths_mhz gtca) gtca in
      let cells = parse_gtccinfo_cells gtcc in
      let sound : All SoundCarrier ca =
        enrich-SoundCarrier (parse_gtcainfo_components tenths_mhz gtca) gtca
          (carrier_lines-SoundCarrier (split_on b'\n' gtca)) in
      if_cases (All SoundCarrier) (is_empty ca || is_empty cells) ca
        (correlate_all tenths_mhz cells (serving_cell cells) ca) (λ _. sound)
        (λ _.
          correlate_all-SoundCarrier cells (serving_cell cells) ca
            (serving_cell-SoundCell cells (parse_gtccinfo_cells-SoundCell gtcc)) sound)
