-- ===== src/At/Cells/Range.antt =====
-- internal/repository/at_parser.go: the levels of the cells, and the signal that they complete.
use proton5g.Base.{
  ◌-◌, not, List, [], ◌∷◌, ◌≡◌, inl, inr, refl, Option-cases, if_cases, if◌then◌else◌, All, ltb,
  length, Text, split_on, trim_space,
}
use proton5g.Base.Int.{ℤ, pos, neg_ℕ}
use proton5g.Domain.{CellInfo}
use proton5g.At.Fields.{split_csv, decode_rsrp_field, decode_rsrq_field}
use proton5g.At.Fields.Decode.{Between, decode_rsrp_field-Between, decode_rsrq_field-Between}
use proton5g.At.Cells.{
  level_or_zero, field_raw, cell_rsrp, cell_rsrq, cell_of, is_cell_row, cell_rows,
  parse_gtccinfo_cells,
}

-- 0 for a level that is not known, or one in the range of the standard
pub data Level (lo hi v : ℤ) : Type 0 where
  unknown : v ≡ pos 0 → Level lo hi v
  known : Between lo hi v → Level lo hi v

abbrev pub RsrpLevel : ℤ → Type 0
RsrpLevel = Level (neg_ℕ 140) (neg_ℕ 43)

abbrev pub RsrqLevel : ℤ → Type 0
RsrqLevel = Level (neg_ℕ 20) (neg_ℕ 3)

pub level_or_zero-RsrpLevel : (raw : ℤ) → RsrpLevel (level_or_zero (decode_rsrp_field raw))
level_or_zero-RsrpLevel raw = elim (Option-cases (decode_rsrp_field raw)) [
  | inl e ↦ rw e (unknown refl)
  | inr (v, e) ↦ rw e (known (decode_rsrp_field-Between raw v e))
]

pub level_or_zero-RsrqLevel : (raw : ℤ) → RsrqLevel (level_or_zero (decode_rsrq_field raw))
level_or_zero-RsrqLevel raw = elim (Option-cases (decode_rsrq_field raw)) [
  | inl e ↦ rw e (unknown refl)
  | inr (v, e) ↦ rw e (known (decode_rsrq_field-Between raw v e))
]

-- a cell whose levels are of that kind
pub record SoundCell (c : CellInfo) : Type 0 where
  pub rsrp_level : RsrpLevel c.rsrp
  pub rsrq_level : RsrqLevel c.rsrq

cell_rsrp-RsrpLevel : (parts : List Text) → RsrpLevel (cell_rsrp parts)
unfolding cell_rsrp
cell_rsrp-RsrpLevel parts =
    if_cases RsrpLevel (ltb 11 (length parts))
      (level_or_zero (decode_rsrp_field (field_raw parts 11))) (pos 0)
      (λ _. level_or_zero-RsrpLevel (field_raw parts 11)) (λ _. unknown refl)

cell_rsrq-RsrqLevel : (parts : List Text) → RsrqLevel (cell_rsrq parts)
unfolding cell_rsrq
cell_rsrq-RsrqLevel parts =
    let rest = level_or_zero (decode_rsrq_field (field_raw parts (length parts - 1))) in
    elim (Option-cases (decode_rsrq_field (field_raw parts 12))) [
      | inl e ↦ rw e (
          if_cases RsrqLevel (not (ltb 12 (length parts))) (pos 0)
            (if ltb 13 (length parts) then rest else pos 0) (λ _. unknown refl)
            (λ _.
              if_cases RsrqLevel (ltb 13 (length parts)) rest (pos 0)
                (λ _. level_or_zero-RsrqLevel (field_raw parts (length parts - 1)))
                (λ _. unknown refl)))
      | inr (v, e) ↦ rw e (
          if_cases RsrqLevel (not (ltb 12 (length parts))) (pos 0) v (λ _. unknown refl)
            (λ _. known (decode_rsrq_field-Between (field_raw parts 12) v e)))
    ]

cell_of-SoundCell : (parts : List Text) → SoundCell (cell_of parts)
unfolding cell_of
cell_of-SoundCell parts = record {
  rsrp_level = cell_rsrp-RsrpLevel parts;
  rsrq_level = cell_rsrq-RsrqLevel parts;
}

cell_rows-SoundCell : (lines : List Text) → All SoundCell (cell_rows lines)
unfolding cell_rows
cell_rows-SoundCell [] = tt
cell_rows-SoundCell (line ∷ lines) =
    if_cases (All SoundCell) (is_cell_row (trim_space line))
      (cell_of (split_csv (trim_space line)) ∷ cell_rows lines) (cell_rows lines)
      (λ _. (cell_of-SoundCell (split_csv (trim_space line)), cell_rows-SoundCell lines))
      (λ _. cell_rows-SoundCell lines)

pub parse_gtccinfo_cells-SoundCell :
    (response : Text) → All SoundCell (parse_gtccinfo_cells response)
unfolding parse_gtccinfo_cells
parse_gtccinfo_cells-SoundCell response = cell_rows-SoundCell (split_on b'\n' response)
