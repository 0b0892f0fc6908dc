-- ===== src/Domain/Enums/Usb.antt =====
-- internal/pkg/domain/device.go and usb_mode.go: the USB identity of the modem, and its compositions.
pub mod Family
use proton5g.Base.{
  Bool, true, false, not, ◌&&◌, ◌||◌, if◌then◌else◌, Text, codes, same, is_empty, trim_space,
  trim_prefix, to_lower,
}
use proton5g.Base.Int.{ℤ, pos, eqb_ℤ}

abbrev pub fm350_vendor : Text
fm350_vendor = codes "0e8d"

-- `NormalizeUSBHex`
unfoldable pub normalize_usb_hex : Text → Text
normalize_usb_hex s = trim_prefix (codes "0x") (trim_space (to_lower s))

-- `FM350Products`
abbrev pub is_fm350_product : Text → Bool
is_fm350_product p = same p (codes "7127") || same p (codes "7126")

-- `IsFM350`
unfoldable pub is_fm350 : Text → Text → Bool
is_fm350 vendor product =
    same (normalize_usb_hex vendor) fm350_vendor && is_fm350_product (normalize_usb_hex product)

-- the guards of `MatchFM350Filter`, on normal forms
unfoldable pub match_normal : Text → Text → Text → Text → Bool
match_normal fv fp gv gp =
    if not (same gv fv)
    then false
    else if is_empty fp || same fp (codes "*")
    then is_fm350 gv gp
    else if same fp gp
    then true
    else is_fm350 fv fp && is_fm350 gv gp

-- `MatchFM350Filter`
unfoldable pub match_fm350_filter : Text → Text → Text → Text → Bool
unfolding match_normal
match_fm350_filter filter_vendor filter_product got_vendor got_product =
    let fv = normalize_usb_hex filter_vendor in
    match_normal (if is_empty fv then fm350_vendor else fv) (normalize_usb_hex filter_product)
      (normalize_usb_hex got_vendor) (normalize_usb_hex got_product)

-- `USBModeLabel`
unfoldable pub usb_mode_label : ℤ → Text
usb_mode_label mode =
    if eqb_ℤ mode (pos 40)
    then codes "40 — RNDIS + AT (compact)"
    else if eqb_ℤ mode (pos 41)
    then codes "41 — RNDIS + AT (default)"
    else if eqb_ℤ mode (pos 0)
    then codes "unknown"
    else codes "custom"
