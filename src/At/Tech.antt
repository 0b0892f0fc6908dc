-- ===== src/At/Tech.antt =====
-- internal/repository/at_parser.go: which radio access technology is in use, and whether LTE and NR
-- are used at once (EN-DC).
pub mod Endc
use proton5g.Base.{
  Bool, true, false, not, ◌&&◌, ◌||◌, List, [], ◌∷◌, if◌then◌else◌, Text, codes, same, is_empty,
  has_prefix, to_lower,
}
use proton5g.Base.Int.{ℤ, pos, leb_ℤ, eqb_ℤ}
use proton5g.Domain.{CellInfo, CaComponent, EndcInfo, no_endc}
use proton5g.Domain.Enums.{
  is_registered, tech_5g_nr, tech_5g_nsa, tech_5g_sa, tech_lte, tech_umts, tech_unknown,
}
use proton5g.At.Fields.{atoi_or}
use proton5g.At.Band.{format_band}

-- `ENDCStateActive` and `ENDCStateInactive`
abbrev pub endc_active : Text
endc_active = codes "Active"

abbrev pub endc_inactive : Text
endc_inactive = codes "Inactive"

-- what the loops over cells and carriers collect
pub record Seen : Type 0 where
  pub anchor_band : Text
  pub nr_band : Text
  pub nr_cell : Bool
  pub lte_serving : Bool
  pub umts_cell : Bool

abbrev pub nothing_seen : Seen
nothing_seen = record {
  anchor_band = [];
  nr_band = [];
  nr_cell = false;
  lte_serving = false;
  umts_cell = false;
}

abbrev pub is_anchor : CellInfo → Bool
is_anchor c = c.serving && (same c.rat tech_lte || same c.rat tech_unknown)

unfoldable pub see_cell : Seen → CellInfo → Seen
see_cell s c = record {
  anchor_band =
      if is_anchor c && is_empty s.anchor_band && not (is_empty c.band)
      then format_band c.band false
      else s.anchor_band;
  nr_band =
      if same c.rat tech_5g_nr && is_empty s.nr_band && not (is_empty c.band)
      then format_band c.band true
      else s.nr_band;
  nr_cell = s.nr_cell || same c.rat tech_5g_nr;
  lte_serving = s.lte_serving || is_anchor c;
  umts_cell = s.umts_cell || same c.rat tech_umts;
}

unfoldable pub see_cells : Seen → List CellInfo → Seen
unfolding see_cell
see_cells s [] = s
see_cells s (c ∷ cells) = see_cells (see_cell s c) cells

abbrev pub is_nr_carrier : CaComponent → Bool
is_nr_carrier c =
    has_prefix (codes "n") (to_lower c.band)
    || (not (is_empty c.arfcn) && leb_ℤ (pos 100000) (atoi_or c.arfcn (pos 0)))

unfoldable pub see_carrier : Seen → CaComponent → Seen
see_carrier s c =
    if is_nr_carrier c
    then record s { nr_cell = true; nr_band = if is_empty s.nr_band then c.band else s.nr_band }
    else if same c.component (codes "PCC") && is_empty s.anchor_band && not (is_empty c.band)
    then record s { anchor_band = c.band }
    else s

unfoldable pub see_carriers : Seen → List CaComponent → Seen
unfolding see_carrier
see_carriers s [] = s
see_carriers s (c ∷ ca) = see_carriers (see_carrier s c) ca

-- the technology and the EN-DC details
pub record Detected : Type 0 where
  pub tech : Text
  pub endc : EndcInfo

-- `isENDC`
unfoldable pub is_endc : ℤ → Bool → Text → Text → Seen → Bool
is_endc act has_act reg_lte reg_5g s =
    (has_act && (eqb_ℤ act (pos 13) || eqb_ℤ act (pos 10)))
    || (is_registered reg_lte && is_registered reg_5g)
    || (is_registered reg_lte && s.nr_cell && s.lte_serving)

unfoldable pub is_sa : ℤ → Bool → Text → Seen → Bool
is_sa act has_act reg_5g s =
    (has_act && eqb_ℤ act (pos 11)) || is_registered reg_5g || (s.nr_cell && not s.lte_serving)

unfoldable pub is_lte : ℤ → Bool → Text → Seen → Bool
is_lte act has_act reg_lte s =
    (has_act && (eqb_ℤ act (pos 7) || eqb_ℤ act (pos 4))) || is_registered reg_lte || s.lte_serving

-- the cases behind the loops
unfoldable pub classify : ℤ → Bool → Text → Text → Seen → Detected
unfolding is_endc is_sa is_lte
classify act has_act reg_lte reg_5g s =
    if is_endc act has_act reg_lte reg_5g s
    then record {
      tech = tech_5g_nsa;
      endc = record {
        active = true;
        anchor_band = s.anchor_band;
        nr_band = s.nr_band;
        state = endc_active;
      };
    }
    else if is_sa act has_act reg_5g s
    then record {
      tech = tech_5g_sa;
      endc = record {
        active = false;
        anchor_band = [];
        nr_band = s.nr_band;
        state = endc_inactive;
      };
    }
    else if is_lte act has_act reg_lte s
    then record {
      tech = tech_lte;
      endc = record {
        active = false;
        anchor_band = s.anchor_band;
        nr_band = [];
        state = endc_inactive;
      };
    }
    else record {
      tech = if (has_act && eqb_ℤ act (pos 2)) || s.umts_cell then tech_umts else tech_unknown;
      endc = no_endc;
    }

-- `DetectRadioTech`
unfoldable pub detect_radio_tech :
    ℤ → Bool → Text → Text → List CellInfo → List CaComponent → Detected
unfolding classify see_cells see_carriers
detect_radio_tech act has_act reg_lte reg_5g cells ca =
    classify act has_act reg_lte reg_5g (see_carriers (see_cells nothing_seen cells) ca)
