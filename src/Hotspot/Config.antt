-- ===== src/Hotspot/Config.antt =====
-- internal/pkg/domain/hotspot.go: the configuration of the hotspot, and what makes it valid.
-- `net.ParseCIDR` is a parameter.
use proton5g.Base.{
  ℕ, ◌+◌, ◌-◌, ◌^◌, Bool, not, ◌&&◌, ◌||◌, [], Option, none, some, ltb, ◌==◌, if◌then◌else◌, any,
  all, Text, codes, same, is_empty, is_digit, within, trim_space, to_upper, byte_length,
}
use proton5g.Base.Int.{ℤ, pos, ltb_ℤ}

-- `HotspotConfig`
pub record HotspotConfig : Type 0 where
  pub enabled : Bool
  pub ssid : Text
  pub password : Text
  pub wlan_iface : Text
  pub uplink_iface : Text
  pub channel : ℤ
  pub band : Text
  pub lan_cidr : Text
  pub country : Text

abbrev pub band_24 : Text
band_24 = codes "2.4"

abbrev pub band_5 : Text
band_5 = codes "5"

-- the text that is shown for a password
abbrev pub placeholder : Text
placeholder = codes "********"

-- `RedactedConfig`
unfoldable pub redacted_config : HotspotConfig → HotspotConfig
redacted_config c = record c { password = if is_empty c.password then [] else placeholder }

-- what `net.ParseCIDR` reads: the address as a number if it is one of IPv4, the ones and the bits of the mask, and
-- the address of the network, which is masked
pub record Cidr : Type 0 where
  pub ip4 : Option ℕ
  pub ones : ℕ
  pub bits : ℕ
  pub network : ℕ

-- the errors of `ValidateIfaceName`
pub data NameFault : Type 0 where
  no_name long_name bad_character : NameFault

-- the errors of `ValidateHotspotConfig` and of the service
pub data HotspotFault : Type 0 where
  ssid_required : HotspotFault
  ssid_too_long : ℕ → HotspotFault
  ssid_control : HotspotFault
  password_length : HotspotFault
  password_control : HotspotFault
  wlan_name : NameFault → HotspotFault
  uplink_name : NameFault → HotspotFault
  unknown_band : HotspotFault
  invalid_channel : ℤ → HotspotFault
  lan_required : HotspotFault
  lan_syntax : HotspotFault
  lan_not_ipv4 : HotspotFault
  lan_too_small : HotspotFault
  lan_not_host : HotspotFault
  bad_country : HotspotFault
  no_repository : HotspotFault
  no_uplink : HotspotFault
  refused : Text → HotspotFault

-- `unicode.IsControl`, which the other tests of `containsHotspotControl` are part of
abbrev pub is_control : ℕ → Bool
is_control c = within 0 0x1F c || within 0x7F 0x9F c

-- `containsHotspotControl`
unfoldable pub contains_hotspot_control : Text → Bool
contains_hotspot_control = any is_control

abbrev pub is_iface_rune : ℕ → Bool
is_iface_rune c =
    within b'a' b'z' c || within b'A' b'Z' c || is_digit c || c == b'.' || c == b'_' || c == b'-'

-- `ValidateIfaceName`
unfoldable pub validate_iface_name : Text → Option NameFault
validate_iface_name given =
    let name = trim_space given in
    if is_empty name
    then some no_name
    else if ltb 15 (byte_length name)
    then some long_name
    else if all is_iface_rune name
    then none
    else some bad_character

-- the first error, with what is said about it
abbrev pub or_else :
    (NameFault → HotspotFault) → Option NameFault → Option HotspotFault → Option HotspotFault
or_else wrap none rest = rest
or_else wrap (some e) rest = some (wrap e)

-- the checks of SSID and password
unfoldable pub check_secrets : HotspotConfig → Option HotspotFault → Option HotspotFault
unfolding contains_hotspot_control
check_secrets cfg rest =
    let ssid = trim_space cfg.ssid in
    let size = byte_length cfg.password in
    if is_empty ssid
    then some ssid_required
    else if ltb 32 (byte_length ssid)
    then some (ssid_too_long (byte_length ssid))
    else if contains_hotspot_control ssid
    then some ssid_control
    else if ltb size 8 || ltb 63 size
    then some password_length
    else if contains_hotspot_control cfg.password
    then some password_control
    else rest

-- the checks of the interfaces
unfoldable pub check_ifaces : HotspotConfig → Option HotspotFault → Option HotspotFault
unfolding validate_iface_name
check_ifaces cfg rest = or_else wlan_name (validate_iface_name cfg.wlan_iface) (
    if is_empty cfg.uplink_iface
    then rest
    else or_else uplink_name (validate_iface_name cfg.uplink_iface) rest)

-- the checks of band and channel
unfoldable pub check_radio : HotspotConfig → Option HotspotFault → Option HotspotFault
check_radio cfg rest =
    let band = if is_empty cfg.band then band_24 else cfg.band in
    if not (same band band_24) && not (same band band_5)
    then some unknown_band
    else if ltb_ℤ cfg.channel (pos 0)
    then some (invalid_channel cfg.channel)
    else if same band band_24 && ltb_ℤ (pos 14) cfg.channel
    then some (invalid_channel cfg.channel)
    else if same band band_5 && ltb_ℤ (pos 0) cfg.channel && ltb_ℤ cfg.channel (pos 36)
    then some (invalid_channel cfg.channel)
    else rest

-- the checks of a network that was read: the host is neither its first nor its last address
unfoldable pub check_network : Option Cidr → Option HotspotFault → Option HotspotFault
check_network none rest = some lan_syntax
check_network (some c) rest = elim c.ip4 [
  | none ↦ some lan_not_ipv4
  | some ip ↦
      if not (c.bits == 32) || ltb 30 c.ones
      then some lan_too_small
      else if ip == c.network || ip == c.network + (2 ^ (32 - c.ones) - 1)
      then some lan_not_host
      else rest
]

-- the check of the country
unfoldable pub check_country : HotspotConfig → Option HotspotFault
check_country cfg =
    if not (is_empty cfg.country) && not (byte_length (to_upper (trim_space cfg.country)) == 2)
    then some bad_country
    else none

module _ (parse_cidr : Text → Option Cidr) where
  -- `ValidateHotspotConfig`, with `none` for no error
  unfoldable pub validate_hotspot_config : HotspotConfig → Option HotspotFault
  unfolding check_secrets check_ifaces check_radio check_network check_country
  validate_hotspot_config cfg =
      let cidr = trim_space cfg.lan_cidr in
      check_secrets cfg (
        check_ifaces cfg (
          check_radio cfg (
            if is_empty cidr
            then some lan_required
            else check_network (parse_cidr cidr) (check_country cfg))))
