-- ===== src/Domain/Enums.antt =====
-- internal/pkg/domain/enum_*.go, usb_mode.go and device.go: the constants of the string types, and
-- what turns the texts of the modem and of requests into them.
pub mod Rat
pub mod Usb
use proton5g.Base.{
  Bool, true, false, ◌||◌, ◌++◌, Option, none, some, if◌then◌else◌, Text, codes, same, is_empty,
  trim_space, to_lower, to_upper, atoi,
}
use proton5g.Base.Int.{ℤ, pos, negsuc, eqb_ℤ}

-- enum_pdp.go
abbrev pub pdp_ipv4v6 : Text
pdp_ipv4v6 = codes "IPV4V6"

abbrev pub pdp_ip : Text
pdp_ip = codes "IP"

abbrev pub pdp_ipv6 : Text
pdp_ipv6 = codes "IPV6"

-- `ParsePDPType`, with `none` for its error
unfoldable pub parse_pdp_type : Text → Option Text
parse_pdp_type s =
    let t = to_upper (trim_space s) in
    if is_empty t || same t pdp_ipv4v6
    then some pdp_ipv4v6
    else if same t pdp_ip
    then some pdp_ip
    else if same t pdp_ipv6
    then some pdp_ipv6
    else none

-- `NormalizePDPType`
unfoldable pub normalize_pdp_type : Text → Text
normalize_pdp_type s = elim (parse_pdp_type s) [
  | some p ↦ p
  | none ↦ if is_empty (trim_space s) then pdp_ipv4v6 else trim_space s
]

-- enum_power.go
abbrev pub power_unknown : Text
power_unknown = codes "unknown"

-- `NormalizePowerControl`
unfoldable pub normalize_power_control : Text → Text
normalize_power_control raw =
    let t = to_lower (trim_space raw) in
    if same t (codes "on")
    then codes "on"
    else if same t (codes "auto")
    then codes "auto"
    else if is_empty t
    then power_unknown
    else trim_space raw

-- enum_reg.go
abbrev pub reg_not_registered : Text
reg_not_registered = codes "Not Registered"

abbrev pub reg_home : Text
reg_home = codes "Registered (Home)"

abbrev pub reg_searching : Text
reg_searching = codes "Searching"

abbrev pub reg_denied : Text
reg_denied = codes "Denied"

abbrev pub reg_unknown : Text
reg_unknown = codes "Unknown"

abbrev pub reg_roaming : Text
reg_roaming = codes "Registered (Roaming)"

-- `ParseRegStat`
unfoldable pub parse_reg_stat : ℤ → Text
parse_reg_stat code =
    if eqb_ℤ code (pos 1)
    then reg_home
    else if eqb_ℤ code (pos 2)
    then reg_searching
    else if eqb_ℤ code (pos 3)
    then reg_denied
    else if eqb_ℤ code (pos 4)
    then reg_unknown
    else if eqb_ℤ code (pos 5)
    then reg_roaming
    else reg_not_registered

-- `ParseRegStatString`
unfoldable pub parse_reg_stat_string : Text → Text
unfolding parse_reg_stat
parse_reg_stat_string s = let n = atoi s in if n.good then parse_reg_stat n.value else reg_unknown

-- `RegState.IsRegistered`
unfoldable pub is_registered : Text → Bool
is_registered r = same r reg_home || same r reg_roaming

-- enum_sim.go
abbrev pub sim_missing : Text
sim_missing = codes "MISSING"

abbrev pub sim_ready : Text
sim_ready = codes "READY"

-- `NormalizeSIMState`
unfoldable pub normalize_sim_state : Text → Text
normalize_sim_state raw =
    let s = trim_space raw in
    let u = to_upper s in
    if is_empty s
    then sim_missing
    else if same u sim_ready
    then sim_ready
    else if same u (codes "SIM PIN")
    then codes "SIM PIN"
    else if same u (codes "SIM PUK")
    then codes "SIM PUK"
    else if same u sim_missing
    then sim_missing
    else s

-- enum_tech.go
abbrev pub tech_unknown : Text
tech_unknown = codes "Unknown"

abbrev pub tech_5g_nr : Text
tech_5g_nr = codes "5G NR"

abbrev pub tech_5g_sa : Text
tech_5g_sa = codes "5G SA"

abbrev pub tech_5g_nsa : Text
tech_5g_nsa = codes "5G NSA (EN-DC)"

abbrev pub tech_lte : Text
tech_lte = codes "LTE"

abbrev pub tech_umts : Text
tech_umts = codes "UMTS"

-- `RadioTechFromCellRAT`
unfoldable pub radio_tech_from_cell_rat : Text → Text
radio_tech_from_cell_rat code =
    let t = trim_space code in
    if same t (codes "2")
    then tech_umts
    else if same t (codes "4") || same t (codes "7")
    then tech_lte
    else if same t (codes "8") || same t (codes "9") || same t (codes "11")
    then tech_5g_nr
    else tech_unknown
