-- ===== src/At/Carriers.antt =====
-- internal/repository/at_parser.go and at_ca_enrich.go: the component carriers of AT+GTCAINFO?, with
-- what the long rows and the cells add to them.
pub mod Rows
pub mod Levels
pub mod Correlate
use proton5g.Base.{
  ℕ, Bool, true, false, not, ◌&&◌, ◌||◌, List, [], ◌∷◌, reverse, Option, none, some, ltb, leb, ◌==◌,
  if◌then◌else◌, length, get_or, Text, codes, same, is_empty, has_prefix, trim_space, to_upper,
  split_on, cut_at, without, atoi,
}
use proton5g.Base.Int.{ℤ, pos, neg_ℕ, leb_ℤ, ltb_ℤ, eqb_ℤ}
use proton5g.Domain.{CaComponent, CellInfo}
use proton5g.Domain.Enums.{tech_5g_nr}
use proton5g.At.Fields.{
  is_blank_result, split_csv, dash_empty, atoi_or, decode_rsrp_field, decode_rsrq_field,
  parse_signed_ints,
}
use proton5g.At.Band.{
  format_band, derive_band_from_arfcn, format_bandwidth, format_modulation, format_mimo,
}
use proton5g.At.Carriers.Rows.{
  component_name, field, new_component, number_level, number_levels, short_row, take_level,
  with_derived_band,
}

-- `byComponent`: a later row of the same name takes the place of an earlier one
unfoldable pub rows_by_component : List (Text × List Text) → List Text → List (Text × List Text)
rows_by_component found [] = found
rows_by_component found (given ∷ lines) =
    let line = trim_space given in
    rows_by_component
      (elim (cut_at (λ c. c == b':') line) [
        | none ↦ found
        | some (front, back) ↦
            let head = to_upper (without b' ' (trim_space front)) in
            if is_blank_result line || not (has_prefix (codes "SCC") head)
            then found
            else (head, split_csv back) ∷ found
      ])
      lines

unfoldable pub row_of : Text → List (Text × List Text) → List Text
row_of name [] = []
row_of name ((head, parts) ∷ rows) =
    let rest = row_of name rows in if same head name then parts else rest

-- the first cell with the PCI or the channel number of the carrier
unfoldable pub matching_cell : CaComponent → List CellInfo → Option CellInfo
matching_cell c [] = none
matching_cell c (cell ∷ cells) =
    let rest = matching_cell c cells in
    if (not (is_empty c.pci) && same cell.pci c.pci)
      || (not (is_empty c.arfcn) && same cell.arfcn c.arfcn)
    then some cell
    else rest

unfoldable pub serving_cell : List CellInfo → Option CellInfo
serving_cell [] = none
serving_cell (c ∷ cells) = let rest = serving_cell cells in if c.serving then some c else rest

module _ (tenths_mhz : ℕ → Text) where
  -- the row of the primary carrier
  unfoldable pub primary_row : CaComponent → List Text → CaComponent
  unfolding short_row
  primary_row given parts =
      let ca = record given { ul_active = true } in
      let p1 = atoi_or (field parts 1) (pos 0) in
      let p2 = atoi_or (field parts 2) (pos 0) in
      let derived = derive_band_from_arfcn p2 in
      if ltb (length parts) 8
      then short_row ca parts
      else if ltb_ℤ (pos 10000) p2
      then record ca {
        arfcn = field parts 2;
        ul_arfcn = dash_empty (field parts 1);
        pci = dash_empty (field parts 3);
        band =
            if is_empty derived
            then format_band (field parts 0) (ltb_ℤ (pos 100000) p2)
            else derived;
        dl_mod = format_modulation (field parts 6);
        ul_mod = format_modulation (field parts 7);
      }
      else if ltb_ℤ (pos 100) p1
      then record ca {
        band = format_band (field parts 0) (ltb_ℤ (pos 100000) p1);
        arfcn = dash_empty (field parts 1);
        ul_arfcn = dash_empty (field parts 2);
        dl_bw = format_bandwidth tenths_mhz (field parts 3) (ltb_ℤ (pos 100000) p1);
        pci = dash_empty (field parts 4);
        dl_mod = format_modulation (field parts 6);
        ul_mod = format_modulation (field parts 7);
      }
      else record ca {
        pci = dash_empty (field parts 0);
        arfcn = dash_empty (field parts 1);
        dl_bw = format_bandwidth tenths_mhz (field parts 2) false;
        ul_bw = format_bandwidth tenths_mhz (field parts 3) false;
      }

  -- the row of a secondary carrier
  unfoldable pub secondary_row : CaComponent → List Text → CaComponent
  unfolding short_row
  secondary_row ca parts =
      let p0 = atoi_or (field parts 0) (neg_ℕ 1) in
      let p1 = atoi_or (field parts 1) (neg_ℕ 1) in
      let p4 = atoi_or (field parts 4) (pos 0) in
      if ltb (length parts) 9
      then short_row ca parts
      else if leb 12 (length parts) && ltb_ℤ (pos 100) p4
      then record ca {
        ul_active = ltb_ℤ (pos 0) p1;
        band = format_band (field parts 2) false;
        pci = dash_empty (field parts 3);
        arfcn = dash_empty (field parts 4);
        dl_bw = format_bandwidth tenths_mhz (field parts 5) false;
        dl_mod = format_modulation (field parts 7);
        ul_mod = format_modulation (field parts 9);
      }
      else if eqb_ℤ p0 (pos 0) || eqb_ℤ p0 (pos 1)
      then record ca {
        ul_active = eqb_ℤ p0 (pos 1);
        pci = dash_empty (field parts 1);
        arfcn = dash_empty (field parts 2);
        dl_bw = format_bandwidth tenths_mhz (field parts 3) false;
        ul_bw = format_bandwidth tenths_mhz (field parts 4) false;
        dl_mod = format_modulation (field parts 7);
        ul_mod = format_modulation (field parts 8);
      }
      else record ca {
        band = format_band (field parts 0) false;
        arfcn = dash_empty (field parts 1);
        ul_arfcn = dash_empty (field parts 2);
        pci = dash_empty (field parts 3);
        dl_bw = format_bandwidth tenths_mhz (field parts 4) false;
      }

  -- the body of the loop behind its guards
  unfoldable pub carrier_of : Text → Text → CaComponent
  unfolding primary_row secondary_row with_derived_band number_levels
  carrier_of comp payload =
      let parts = split_csv payload in
      let read =
        if same comp (codes "PCC")
        then primary_row (new_component comp) parts
        else secondary_row (new_component comp) parts in
      number_levels (with_derived_band read) (reverse (parse_signed_ints payload))

  -- the guards of the loop, with the line split at its colon
  unfoldable pub carrier_behind : Text → Option (Text × Text) → Option CaComponent
  unfolding carrier_of component_name
  carrier_behind line none = none
  carrier_behind line (some (head, payload)) =
      let comp = component_name head in
      if is_blank_result line || has_prefix (codes "+GTCAINFO") (to_upper line) || is_empty comp
      then none
      else some (carrier_of comp payload)

  unfoldable pub carrier_line : Text → Option CaComponent
  unfolding carrier_behind
  carrier_line line = carrier_behind line (cut_at (λ c. c == b':') line)

  unfoldable pub carrier_lines : List Text → List CaComponent
  unfolding carrier_line
  carrier_lines [] = []
  carrier_lines (line ∷ lines) =
      let rest = carrier_lines lines in
      elim (carrier_line (trim_space line)) [ none ↦ rest | some ca ↦ ca ∷ rest ]

  -- `ParseGTCAINFOComponents`
  unfoldable pub parse_gtcainfo_components : Text → List CaComponent
  unfolding carrier_lines
  parse_gtcainfo_components response = carrier_lines (split_on b'\n' response)

  -- the body of the loop of `EnrichGTCAINFOComponents`
  unfoldable pub enrich_component : CaComponent → List Text → CaComponent
  enrich_component c parts =
      let p0 = atoi_or (field parts 0) (neg_ℕ 1) in
      if ltb (length parts) 9
      then c
      else if leb 12 (length parts) && ltb_ℤ (pos 100) (atoi_or (field parts 4) (pos 0))
      then record c {
        dl_bw = format_bandwidth tenths_mhz (field parts 5) false;
        ul_bw = format_bandwidth tenths_mhz (field parts 6) false;
        dl_mimo = format_mimo (field parts 7);
        ul_mimo = format_mimo (field parts 8);
        dl_mod = format_modulation (field parts 9);
        ul_mod = format_modulation (field parts 10);
      }
      else if eqb_ℤ p0 (pos 0) || eqb_ℤ p0 (pos 1)
      then record c {
        dl_mimo = format_mimo (field parts 5);
        ul_mimo = format_mimo (field parts 6);
        dl_mod = format_modulation (field parts 7);
        ul_mod = format_modulation (field parts 8);
      }
      else c

  unfoldable pub enrich_all : List (Text × List Text) → List CaComponent → List CaComponent
  unfolding enrich_component row_of
  enrich_all rows [] = []
  enrich_all rows (c ∷ ca) =
      enrich_component c (row_of (to_upper (without b' ' c.component)) rows) ∷ enrich_all rows ca

  -- `EnrichGTCAINFOComponents`
  unfoldable pub enrich_gtcainfo_components : List CaComponent → Text → List CaComponent
  unfolding enrich_all rows_by_component
  enrich_gtcainfo_components ca response =
      if is_empty ca || is_empty (trim_space response)
      then ca
      else enrich_all (rows_by_component [] (split_on b'\n' response)) ca

  -- the serving cell fills in what the primary carrier lacks
  unfoldable pub fill_primary : CaComponent → CellInfo → CaComponent
  fill_primary c cell =
      let is_nr = same cell.rat tech_5g_nr in
      record c {
        band =
            if is_empty c.band && not (is_empty cell.band)
            then format_band cell.band is_nr
            else c.band;
        dl_bw =
            if is_empty c.dl_bw && not (is_empty cell.bandwidth)
            then format_bandwidth tenths_mhz cell.bandwidth is_nr
            else c.dl_bw;
        pci = if is_empty c.pci then cell.pci else c.pci;
        arfcn = if is_empty c.arfcn then cell.arfcn else c.arfcn;
        rsrp = if eqb_ℤ c.rsrp (pos 0) then cell.rsrp else c.rsrp;
        rsrq = if eqb_ℤ c.rsrq (pos 0) then cell.rsrq else c.rsrq;
        sinr = if eqb_ℤ c.sinr (pos 0) then cell.sinr else c.sinr;
      }

  unfoldable pub fill_secondary : CaComponent → CellInfo → CaComponent
  fill_secondary c cell =
      let is_nr = same cell.rat tech_5g_nr in
      record c {
        band =
            if is_empty c.band && not (is_empty cell.band)
            then format_band cell.band is_nr
            else c.band;
        dl_bw =
            if is_empty c.dl_bw && not (is_empty cell.bandwidth)
            then format_bandwidth tenths_mhz cell.bandwidth is_nr
            else c.dl_bw;
        sinr = if eqb_ℤ c.sinr (pos 0) then cell.sinr else c.sinr;
      }

  unfoldable pub fill_by : CaComponent → Option CellInfo → CaComponent
  unfolding fill_secondary
  fill_by c none = c
  fill_by c (some cell) = fill_secondary c cell

  -- the body of the loop of `CorrelateCAWithCells`
  unfoldable pub correlate_component : List CellInfo → Option CellInfo → CaComponent → CaComponent
  unfolding fill_primary fill_by matching_cell
  correlate_component cells none c = fill_by c (matching_cell c cells)
  correlate_component cells (some cell) c =
      if same c.component (codes "PCC")
      then fill_primary c cell
      else fill_by c (matching_cell c cells)

  unfoldable pub correlate_all :
      List CellInfo → Option CellInfo → List CaComponent → List CaComponent
  unfolding correlate_component
  correlate_all cells serving [] = []
  correlate_all cells serving (c ∷ ca) =
      correlate_component cells serving c ∷ correlate_all cells serving ca

  -- `CorrelateCAWithCells`
  unfoldable pub correlate_ca_with_cells : List CaComponent → List CellInfo → List CaComponent
  unfolding correlate_all serving_cell
  correlate_ca_with_cells ca cells =
      if is_empty ca || is_empty cells then ca else correlate_all cells (serving_cell cells) ca
