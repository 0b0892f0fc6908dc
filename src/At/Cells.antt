-- ===== src/At/Cells.antt =====
-- internal/repository/at_parser.go: the rows of AT+GTCCINFO?, one for each cell.
pub mod Range
use proton5g.Base.{
  ℕ, Bool, true, false, not, ◌&&◌, ◌||◌, List, [], ◌∷◌, Option, none, some, ltb, leb, if◌then◌else◌,
  length, get_or, Text, codes, same, has_prefix, trim_space, contains, split_on, ◌-◌,
}
use proton5g.Base.Int.{ℤ, pos, neg_ℕ}
use proton5g.Domain.{CellInfo}
use proton5g.Domain.Enums.{radio_tech_from_cell_rat}
use proton5g.At.Fields.{
  cesq_unknown, is_blank_result, split_csv, dash_empty, hex_or_empty, atoi_or, decode_rsrp_field,
  decode_rsrq_field, decode_gtcc_sinr,
}

-- a level that stays 0 where there is none
abbrev pub level_or_zero : Option ℤ → ℤ
level_or_zero none = pos 0
level_or_zero (some v) = v

-- the field of the row, where there is one
abbrev pub field_raw : List Text → ℕ → ℤ
field_raw parts i = atoi_or (get_or parts i []) cesq_unknown

unfoldable pub cell_rsrp : List Text → ℤ
cell_rsrp parts =
    if ltb 11 (length parts) then level_or_zero (decode_rsrp_field (field_raw parts 11)) else pos 0

-- the RSRQ, or the last field where that holds one
unfoldable pub cell_rsrq : List Text → ℤ
cell_rsrq parts =
    if not (ltb 12 (length parts)) then pos 0 else elim (decode_rsrq_field (field_raw parts 12)) [
      | some v ↦ v
      | none ↦
          if ltb 13 (length parts)
          then level_or_zero (decode_rsrq_field (field_raw parts (length parts - 1)))
          else pos 0
    ]

-- the cell of a row with 11 fields or more
unfoldable pub cell_of : List Text → CellInfo
unfolding cell_rsrp cell_rsrq
cell_of parts = record {
  serving = same (get_or parts 0 []) (codes "1");
  rat = radio_tech_from_cell_rat (get_or parts 1 []);
  mcc = dash_empty (get_or parts 2 []);
  mnc = dash_empty (get_or parts 3 []);
  tac = hex_or_empty (get_or parts 4 []);
  cell_id = hex_or_empty (get_or parts 5 []);
  arfcn = dash_empty (get_or parts 6 []);
  pci = hex_or_empty (get_or parts 7 []);
  band = dash_empty (get_or parts 8 []);
  bandwidth = dash_empty (get_or parts 9 []);
  rsrp = cell_rsrp parts;
  rsrq = cell_rsrq parts;
  sinr = level_or_zero (decode_gtcc_sinr (atoi_or (get_or parts 10 []) (neg_ℕ 1)));
}

-- the guards of the loop
unfoldable pub is_cell_row : Text → Bool
is_cell_row line =
    not (is_blank_result line)
    && not (has_prefix (codes "+GTCCINFO") line)
    && contains (codes ",") line
    && leb 11 (length (split_csv line))

unfoldable pub cell_rows : List Text → List CellInfo
unfolding is_cell_row cell_of
cell_rows [] = []
cell_rows (given ∷ lines) =
    let line = trim_space given in
    let rest = cell_rows lines in if is_cell_row line then cell_of (split_csv line) ∷ rest else rest

-- `ParseGTCCINFOCells`
unfoldable pub parse_gtccinfo_cells : Text → List CellInfo
unfolding cell_rows
parse_gtccinfo_cells response = cell_rows (split_on b'\n' response)
