-- ===== src/Domain/Enums/Usb/Family.antt =====
-- internal/pkg/domain/device.go: which devices a filter for the FM350 takes.
use proton5g.Base.{
  true, ◌≡◌, ◌∙◌, sym, arith, Bool-cases, inl, inr, if◌then◌else◌, Text, codes, same, same_iff,
  same_refl, is_empty, and_true, if_cases, trim_space, to_lower, trim_prefix, has_prefix,
}
use proton5g.Domain.Enums.Usb.{
  fm350_vendor, normalize_usb_hex, is_fm350_product, is_fm350, match_normal, match_fm350_filter,
}

-- a normal form of the family stays as it is
vendor_normal :
    (v : Text) → same v fm350_vendor ≡ true → same (normalize_usb_hex v) fm350_vendor ≡ true
unfolding normalize_usb_hex same trim_space to_lower trim_prefix has_prefix
vendor_normal v h = rw ((same_iff v fm350_vendor).0 h)

product_normal :
    (p : Text) → is_fm350_product p ≡ true → is_fm350_product (normalize_usb_hex p) ≡ true
unfolding normalize_usb_hex same trim_space to_lower trim_prefix has_prefix
product_normal p h = elim (Bool-cases (same p (codes "7127"))) [
  | inl e ↦ rw ((same_iff p (codes "7127")).0 e)
  | inr ne ↦ rw ((same_iff p (codes "7126")).0 (ground (arith, h, ne)))
]

normal_family :
    (v p : Text) → same v fm350_vendor ≡ true → is_fm350_product p ≡ true → is_fm350 v p ≡ true
unfolding is_fm350
normal_family v p h k = rw (vendor_normal v h, product_normal p k)

match_normal-family :
    (fv fp gv gp : Text)
    → same fv fm350_vendor ≡ true
    → is_fm350_product fp ≡ true
    → same gv fm350_vendor ≡ true
    → is_fm350_product gp ≡ true
    → match_normal fv fp gv gp ≡ true
unfolding match_normal
match_normal-family fv fp gv gp hv hp kv kp =
    let one_vendor : same gv fv ≡ true =
      (same_iff gv fv).1
        ((same_iff gv fm350_vendor).0 kv ∙ sym ((same_iff fv fm350_vendor).0 hv)) in
    ground (arith, one_vendor, normal_family fv fp hv hp, normal_family gv gp kv kp)

-- A filter that names an FM350 takes every device that is an FM350, whichever of the product ids each of them has and
-- however the ids are written.
pub match_fm350_filter-family :
    (filter_vendor filter_product vendor product : Text)
    → is_fm350 filter_vendor filter_product ≡ true
    → is_fm350 vendor product ≡ true
    → match_fm350_filter filter_vendor filter_product vendor product ≡ true
unfolding match_fm350_filter is_fm350
match_fm350_filter-family filter_vendor filter_product vendor product h k =
    let fv = normalize_usb_hex filter_vendor in
    let gv = normalize_usb_hex vendor in
    let hs =
      and_true (same fv fm350_vendor) (is_fm350_product (normalize_usb_hex filter_product)) h in
    let ks = and_true (same gv fm350_vendor) (is_fm350_product (normalize_usb_hex product)) k in
    match_normal-family (if is_empty fv then fm350_vendor else fv)
      (normalize_usb_hex filter_product) gv (normalize_usb_hex product)
      (if_cases (λ (v : Text). same v fm350_vendor ≡ true) (is_empty fv) fm350_vendor fv
        (λ _. same_refl fm350_vendor) (λ _. hs.0))
      hs.1 ks.0 ks.1
