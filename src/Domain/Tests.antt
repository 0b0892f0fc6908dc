-- ===== src/Domain/Tests.antt =====
-- A filter and a device of the FM350.
use proton5g.Base.{true, ◌≡◌, refl, codes, same, trim_prefix, trim_space, to_lower}
use proton5g.Domain.Enums.Usb.{is_fm350, match_fm350_filter, normalize_usb_hex}
use proton5g.Domain.Enums.Usb.Family.{match_fm350_filter-family}

match_fm350_filter-family_example :
    match_fm350_filter (codes "0x0E8D") (codes "7127") (codes "0e8d") (codes "7126") ≡ true
unfolding is_fm350 normalize_usb_hex same trim_prefix trim_space to_lower
match_fm350_filter-family_example =
    match_fm350_filter-family (codes "0x0E8D") (codes "7127") (codes "0e8d") (codes "7126") refl
      refl
