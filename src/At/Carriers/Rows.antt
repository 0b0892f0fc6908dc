-- ===== src/At/Carriers/Rows.antt =====
-- internal/repository/at_parser.go: the parts of a component carrier that need no other row.
use proton5g.Base.{
  ℕ, false, not, ◌&&◌, List, [], ◌∷◌, Option, none, some, ltb, if◌then◌else◌, length, get_or, Text,
  codes, is_empty, has_prefix, trim_space, to_upper, without, atoi,
}
use proton5g.Base.Int.{ℤ, pos, leb_ℤ, ltb_ℤ, eqb_ℤ}
use proton5g.Domain.{CaComponent}
use proton5g.At.Fields.{dash_empty, decode_rsrp_field, decode_rsrq_field}
use proton5g.At.Band.{derive_band_from_arfcn}

abbrev pub new_component : Text → CaComponent
new_component comp = record {
  component = comp;
  band = [];
  pci = [];
  arfcn = [];
  ul_arfcn = [];
  dl_bw = [];
  ul_bw = [];
  dl_mimo = [];
  ul_mimo = [];
  dl_mod = [];
  ul_mod = [];
  ul_active = false;
  rsrp = pos 0;
  rsrq = pos 0;
  sinr = pos 0;
}

abbrev pub field : List Text → ℕ → Text
field parts i = get_or parts i []

-- a row of few fields
unfoldable pub short_row : CaComponent → List Text → CaComponent
short_row ca parts =
    if ltb 1 (length parts)
    then record ca { pci = dash_empty (field parts 0); arfcn = dash_empty (field parts 1) }
    else record ca { pci = dash_empty (field parts 0) }

-- the name in front of the colon: PCC, or SCC and what follows it
unfoldable pub component_name : Text → Text
component_name head =
    let hu = to_upper (without b' ' (trim_space head)) in
    if has_prefix (codes "PCC") hu
    then codes "PCC"
    else if has_prefix (codes "SCC") hu
    then hu
    else []

-- a number of the row is an RSRP, else an RSRQ, else an SINR, for the level that is missing
unfoldable pub take_level : CaComponent → ℤ → Option ℤ → Option ℤ → CaComponent
take_level ca n (some rsrp) _ = record ca { rsrp = rsrp }
take_level ca n none (some rsrq) = record ca { rsrq = rsrq }
take_level ca n none none =
    if eqb_ℤ ca.sinr (pos 0) && ltb_ℤ (pos 0) n && leb_ℤ n (pos 40)
    then record ca { sinr = n }
    else ca

unfoldable pub number_level : CaComponent → ℤ → CaComponent
unfolding take_level
number_level ca n =
    take_level ca n (if eqb_ℤ ca.rsrp (pos 0) then decode_rsrp_field n else none)
      (if eqb_ℤ ca.rsrq (pos 0) then decode_rsrq_field n else none)

-- the loop over the numbers of the row, the last one first
unfoldable pub number_levels : CaComponent → List ℤ → CaComponent
unfolding number_level
number_levels ca [] = ca
number_levels ca (n ∷ nums) = number_levels (number_level ca n) nums

-- the band of the channel number, where there is no band yet
unfoldable pub with_derived_band : CaComponent → CaComponent
with_derived_band ca =
    let n = atoi ca.arfcn in
    if is_empty ca.band && not (is_empty ca.arfcn) && n.good
    then record ca { band = derive_band_from_arfcn n.value }
    else ca
