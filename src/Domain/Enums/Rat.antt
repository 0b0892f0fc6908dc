-- ===== src/Domain/Enums/Rat.antt =====
-- internal/pkg/domain/enum_rat.go, and the +GTACT commands of internal/repository/at_cmd.go.
use proton5g.Base.{
  ℕ, suc, Bool, ◌||◌, List, [], ◌∷◌, ◌++◌, Option, none, some, if◌then◌else◌, any, Text, codes,
  same, trim_space, to_lower, atoi, itoa,
}
use proton5g.Base.Int.{ℤ, pos, negsuc, eqb_ℤ}

-- `RATModePref`: the preferences that the program names
pub data RatModePref : Type 0 where
  nr_only nr_sa endc nsa lte auto th_nsa th_nsa_b40_n41 th_lte th_lte_b40_b41 : RatModePref

-- the text of a preference
unfoldable pub token : RatModePref → Text
token nr_only = codes "5g"
token nr_sa = codes "5g-sa"
token endc = codes "endc"
token nsa = codes "nsa"
token lte = codes "lte"
token auto = codes "auto"
token th_nsa = codes "th-nsa"
token th_nsa_b40_n41 = codes "th-nsa-b40-n41"
token th_lte = codes "th-lte"
token th_lte_b40_b41 = codes "th-lte-b40-b41"

-- the case of a switch on texts
abbrev one_of : Text → List Text → Bool
one_of t = any (same t)

-- `ParseRATModePref`, with `none` for its error
unfoldable pub parse_rat_mode_pref : Text → Option RatModePref
unfolding token
parse_rat_mode_pref s =
    let t = to_lower (trim_space s) in
    if one_of t (
      token endc
      ∷ token nsa
      ∷ codes "5g-nsa"
      ∷ codes "5g_nsa"
      ∷ codes "5g-endc"
      ∷ codes "5g_endc"
      ∷ [])
    then some endc
    else if one_of t (token nr_sa ∷ codes "5g_sa" ∷ codes "sa" ∷ [])
    then some nr_sa
    else if one_of t (token nr_only ∷ codes "5g-only" ∷ codes "5g_only" ∷ [])
    then some nr_only
    else if one_of t (token lte ∷ codes "4g" ∷ codes "lte-only" ∷ codes "lte_only" ∷ [])
    then some lte
    else if one_of t (token auto ∷ codes "all" ∷ [])
    then some auto
    else if one_of t (token th_nsa ∷ codes "thai-nsa" ∷ codes "thailand-nsa" ∷ [])
    then some th_nsa
    else if one_of t (token th_nsa_b40_n41 ∷ codes "thai-nsa-b40-n41" ∷ [])
    then some th_nsa_b40_n41
    else if one_of t (token th_lte ∷ codes "thai-lte" ∷ codes "thailand-lte" ∷ [])
    then some th_lte
    else if one_of t (token th_lte_b40_b41 ∷ codes "thai-lte-b40-b41" ∷ [])
    then some th_lte_b40_b41
    else none

-- `RATMode`: the texts that are shown
abbrev pub rat_5g_only : Text
rat_5g_only = codes "5G Only"

abbrev pub rat_5g_sa : Text
rat_5g_sa = codes "5G SA"

abbrev pub rat_endc : Text
rat_endc = codes "5G NSA (EN-DC)"

abbrev pub rat_lte_only : Text
rat_lte_only = codes "LTE Only"

abbrev pub rat_auto : Text
rat_auto = codes "Auto (5G/LTE/3G)"

abbrev pub rat_unspecified : Text
rat_unspecified = codes "Auto"

-- `RATModePref.GTACTCode`
unfoldable pub gtact_code : RatModePref → ℕ
gtact_code endc = 17
gtact_code nsa = 17
gtact_code th_nsa = 17
gtact_code th_nsa_b40_n41 = 17
gtact_code nr_only = 14
gtact_code nr_sa = 14
gtact_code lte = 4
gtact_code th_lte = 4
gtact_code th_lte_b40_b41 = 4
gtact_code auto = 20

-- `RATModePref.ToDisplay`
unfoldable pub to_display : RatModePref → Text
to_display endc = rat_endc
to_display nsa = rat_endc
to_display th_nsa = rat_endc
to_display th_nsa_b40_n41 = rat_endc
to_display nr_sa = rat_5g_sa
to_display nr_only = rat_5g_only
to_display lte = rat_lte_only
to_display th_lte = rat_lte_only
to_display th_lte_b40_b41 = rat_lte_only
to_display auto = rat_auto

-- `%d`
abbrev decimal : ℤ → Text
decimal (pos n) = itoa n
decimal (negsuc n) = b'-' ∷ itoa (suc n)

-- `ParseGTACTCode`
unfoldable pub parse_gtact_code : ℤ → Text
unfolding itoa
parse_gtact_code code =
    if eqb_ℤ code (pos 17)
    then rat_endc
    else if eqb_ℤ code (pos 14)
    then rat_5g_only
    else if eqb_ℤ code (pos 4) || eqb_ℤ code (pos 2)
    then rat_lte_only
    else if eqb_ℤ code (pos 20)
    then rat_auto
    else codes "Mode " ++ decimal code

-- `ParseGTACTCodeString`
unfoldable pub parse_gtact_code_string : Text → Text
unfolding parse_gtact_code
parse_gtact_code_string s =
    let n = atoi (trim_space s) in
    if n.good then parse_gtact_code n.value else codes "Mode " ++ trim_space s

-- `RATMode.GTACTCode`
unfoldable pub mode_gtact_code : Text → ℕ
mode_gtact_code m =
    if same m rat_endc
    then 17
    else if same m rat_5g_only || same m rat_5g_sa
    then 14
    else if same m rat_lte_only
    then 4
    else 20

-- `CmdGTACTSet`
unfoldable pub cmd_gtact_set : ℕ → Text
unfolding itoa
cmd_gtact_set code = codes "AT+GTACT=" ++ itoa code

-- `CmdGTACTSetByPref`
unfoldable pub cmd_gtact_set_by_pref : RatModePref → Text
unfolding cmd_gtact_set
cmd_gtact_set_by_pref endc = codes "AT+GTACT=17,3,6,0"
cmd_gtact_set_by_pref nsa = codes "AT+GTACT=17,3,6,0"
cmd_gtact_set_by_pref th_nsa = codes "AT+GTACT=17,3,6,101,103,108,128,140,5041"
cmd_gtact_set_by_pref th_nsa_b40_n41 = codes "AT+GTACT=17,3,6,140,5041"
cmd_gtact_set_by_pref nr_sa = codes "AT+GTACT=14,6,6,0"
cmd_gtact_set_by_pref nr_only = cmd_gtact_set 14
cmd_gtact_set_by_pref lte = cmd_gtact_set 4
cmd_gtact_set_by_pref th_lte = codes "AT+GTACT=2,3,3,101,103,108,128,140,141"
cmd_gtact_set_by_pref th_lte_b40_b41 = codes "AT+GTACT=2,3,3,140,141"
cmd_gtact_set_by_pref auto = codes "AT+GTACT=20,6,3,0"
