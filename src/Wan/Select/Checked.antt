-- ===== src/Wan/Select/Checked.antt =====
-- internal/usecase/wan_service.go: what the checks of `SelectModem` let through.
use mathlib.Core.Path.{subst}
use proton5g.Base.{
  true, false, List, [], ◌∷◌, Option, none, some, ◌≡◌, ◌⊎◌, inl, inr, refl, sym, ap, ◌∙◌, arith,
  Bool-cases, Option-cases, if◌then◌else◌, Text, is_empty, same, same_iff, ok, err, Result-cases,
  err_ne_ok, ok_injective,
}
use proton5g.Domain.{ModemDevice, ModemInterface, ModemSelectRequest}
use proton5g.Ports
use proton5g.Ports.{Fault}
use proton5g.Service.Inventory.{modem_owns, find_modem}
use proton5g.Wan.Select.{
  modem_by_path, target_of, check_owner, validate_data_path, validate_request,
}

abbrev pub Member : ModemDevice → List ModemDevice → Type 0
Member m [] = ⊥
Member m (n ∷ modems) = (m ≡ n) ⊎ Member m modems

-- The data path `path` is one of a listed modem that has the id of `m`.
pub record IsDiscovered (f : ModemDevice → List ModemInterface) (modems : List ModemDevice)
    (path : Text) (m : ModemDevice) : Type 0 where
  pub owner : ModemDevice
  pub listed : Member owner modems
  pub same_modem : owner.id ≡ m.id
  pub owned : modem_owns (f owner) path ≡ true

some_injective : (n m : ModemDevice) → some n ≡ some m → n ≡ m
some_injective n m h = ground arith

module _ (f : ModemDevice → List ModemInterface) where
  modem_by_path-Member :
      (modems : List ModemDevice) (path : Text) (m : ModemDevice)
      → modem_by_path f modems path ≡ some m
      → Member m modems × (modem_owns (f m) path ≡ true)
  unfolding modem_by_path
  modem_by_path-Member [] path m h = absurd (ground arith)
  modem_by_path-Member (n ∷ modems) path m h =
      let rest = modem_by_path f modems path in
      elim (Bool-cases (modem_owns (f n) path)) [
        | inl here ↦
            let same_modem : n ≡ m =
              some_injective n m (subst (λ b. (if b then some n else rest) ≡ some m) here h) in
            (inl (sym same_modem), subst (λ k. modem_owns (f k) path ≡ true) same_modem here)
        | inr not_here ↦
            let (listed, owned) =
              modem_by_path-Member modems path m
                (subst (λ b. (if b then some n else rest) ≡ some m) not_here h) in
            (inr listed, owned)
      ]

  check_owner-IsDiscovered :
      (modems : List ModemDevice) (path : Text) (target target' : Option ModemDevice)
      → check_owner path (modem_by_path f modems path) target ≡ ok target'
      → (m : ModemDevice) × (target' ≡ some m)
        × IsDiscovered f modems path m
        × ((t : ModemDevice) → target ≡ some t → t ≡ m)
  unfolding check_owner
  check_owner-IsDiscovered modems path target target' h =
      elim (Option-cases (modem_by_path f modems path)) [
        | inl missing ↦
            absurd
              (err_ne_ok _ target' (subst (λ k. check_owner path k target ≡ ok target') missing h))
        | inr (owner, found) ↦
            let (listed, owned) = modem_by_path-Member modems path owner found in
            checked owner listed owned target
              (subst (λ k. check_owner path k target ≡ ok target') found h)
      ]
    where
      checked :
          (owner : ModemDevice)
          → Member owner modems
          → modem_owns (f owner) path ≡ true
          → (target : Option ModemDevice) → check_owner path (some owner) target ≡ ok target'
          → (m : ModemDevice) × (target' ≡ some m)
            × IsDiscovered f modems path m
            × ((t : ModemDevice) → target ≡ some t → t ≡ m)
      checked owner listed owned none h = (
        owner,
        sym (ok_injective _ target' _ refl h),
        record { owner = owner; listed = listed; same_modem = refl; owned = owned },
        λ t e. absurd (ground arith),
      )
      checked owner listed owned (some t) h = elim (Bool-cases (same owner.id t.id)) [
        | inl agree ↦ (
          t,
          sym (
              ok_injective (some t) target' (ok (some t)) refl (
                subst
                  (λ b.
                    (if b then ok (some t) else err (Ports.foreign_endpoint path t.id))
                    ≡ ok target')
                  agree h)),
          record {
            owner = owner;
            listed = listed;
            same_modem = (same_iff owner.id t.id).0 agree;
            owned = owned;
          },
          λ k e. sym (some_injective t k e),
        )
        | inr differ ↦ absurd (
            err_ne_ok _ target' (
              subst
                (λ b.
                  (if b then ok (some t) else err (Ports.foreign_endpoint path t.id)) ≡ ok target')
                differ h))
      ]

  validate_data_path-IsDiscovered :
      (modems : List ModemDevice) (path : Text) (target target' : Option ModemDevice)
      → validate_data_path f modems path target ≡ ok target'
      → is_empty path ≡ false
      → (m : ModemDevice) × (target' ≡ some m)
        × IsDiscovered f modems path m
        × ((t : ModemDevice) → target ≡ some t → t ≡ m)
  unfolding validate_data_path
  validate_data_path-IsDiscovered modems path target target' h named =
      check_owner-IsDiscovered modems path target target' (rw (named, validate_data_path) at h)

-- a target that is settled stays
validate_data_path-keeps :
    (f : ModemDevice → List ModemInterface) (modems : List ModemDevice) (path : Text)
    (m : ModemDevice) (target : Option ModemDevice)
    → validate_data_path f modems path (some m) ≡ ok target
    → target ≡ some m
unfolding validate_data_path
validate_data_path-keeps f modems path m target h = elim (Bool-cases (is_empty path)) [
  | inl unnamed ↦
      sym (ok_injective (some m) target (ok (some m)) refl (rw (unnamed, validate_data_path) at h))
  | inr named ↦
      let (k, settled, _, kept) =
        validate_data_path-IsDiscovered f modems path (some m) target h named in
      settled ∙ ap some (sym (kept m refl))
]

pub find_modem-Member :
    (modems : List ModemDevice) (id : Text) (m : ModemDevice)
    → find_modem modems id ≡ some m
    → Member m modems × (m.id ≡ id)
unfolding find_modem
find_modem-Member [] id m h = absurd (ground arith)
find_modem-Member (n ∷ modems) id m h =
    let rest = find_modem modems id in
    elim (Bool-cases (same n.id id)) [
      | inl here ↦
          let e : n ≡ m =
            some_injective n m (subst (λ b. (if b then some n else rest) ≡ some m) here h) in
          (inl (sym e), subst (λ (k : ModemDevice). k.id ≡ id) e ((same_iff n.id id).0 here))
      | inr not_here ↦
          let (listed, named) =
            find_modem-Member modems id m
              (subst (λ b. (if b then some n else rest) ≡ some m) not_here h) in
          (inr listed, named)
    ]

modem_by_path-none :
    (f : ModemDevice → List ModemInterface) (modems : List ModemDevice) (path : Text)
    → modem_by_path f modems path ≡ none
    → (m : ModemDevice) → Member m modems
    → modem_owns (f m) path ≡ false
unfolding modem_by_path
modem_by_path-none f [] path h m listed = elim listed [ ]
modem_by_path-none f (n ∷ modems) path h m listed =
    let rest = modem_by_path f modems path in
    elim (Bool-cases (modem_owns (f n) path)) [
      | inl here ↦ absurd (ground (arith, subst (λ b. (if b then some n else rest) ≡ none) here h))
      | inr not_here ↦ elim listed [
        | inl e ↦ subst (λ (k : ModemDevice). modem_owns (f k) path ≡ false) (sym e) not_here
        | inr later ↦
            modem_by_path-none f modems path
              (subst (λ b. (if b then some n else rest) ≡ none) not_here h) m later
      ]
    ]

-- a target that is settled passes both checks unchanged
validate_request-keeps :
    (modems : List ModemDevice) (req : ModemSelectRequest) (m : ModemDevice)
    (target : Option ModemDevice)
    → target_of modems req ≡ ok (some m)
    → validate_request modems req ≡ ok target
    → target ≡ some m
unfolding validate_request
validate_request-keeps modems req m target first h =
    let h1 = rw (first, validate_request) at h in
    elim (Result-cases (validate_data_path (λ m. m.mbim_nodes) modems req.mbim_device (some m))) [
      | inl (e, failed) ↦ absurd (err_ne_ok e target (rw (first, failed, validate_request) at h))
      | inr (second, passed) ↦
          let settled =
            validate_data_path-keeps (λ m. m.mbim_nodes) modems req.mbim_device m second passed in
          let last : validate_data_path (λ m. m.net_ifaces) modems req.net_iface second
              ≡ ok target =
            rw (first, passed, validate_request) at h in
          validate_data_path-keeps (λ m. m.net_ifaces) modems req.net_iface m target
            (rw settled at last)
    ]

-- The modem of the target is the one that the request names: by its id, or else by an AT port of it.
abbrev pub NamedBy : List ModemDevice → ModemSelectRequest → Option ModemDevice → Type 0
NamedBy modems req target =
    ((is_empty req.modem_id ≡ false)
      × (m : ModemDevice) × (target ≡ some m)
      × Member m modems
      × (m.id ≡ req.modem_id))
    ⊎ ((is_empty req.modem_id ≡ true)
        × (is_empty req.at_port ≡ false)
        × (((m : ModemDevice) × (target ≡ some m)
              × Member m modems
              × (modem_owns m.at_ports req.at_port ≡ true))
            ⊎ ((m : ModemDevice) → Member m modems → modem_owns m.at_ports req.at_port ≡ false)))
    ⊎ ((is_empty req.modem_id ≡ true) × (is_empty req.at_port ≡ true))

validate_request-NamedBy :
    (modems : List ModemDevice) (req : ModemSelectRequest) (target : Option ModemDevice)
    → validate_request modems req ≡ ok target
    → NamedBy modems req target
unfolding validate_request target_of
validate_request-NamedBy modems req target h = elim (Bool-cases (is_empty req.modem_id)) [
  | inr by_id ↦ elim (Option-cases (find_modem modems req.modem_id)) [
    | inl missing ↦
        absurd (err_ne_ok _ target (rw (by_id, target_of, missing, validate_request) at h))
    | inr (m, found) ↦
        let (listed, named) = find_modem-Member modems req.modem_id m found in
        inl (
          by_id,
          m,
          validate_request-keeps modems req m target (rw (by_id, target_of, found) refl) h,
          listed,
          named,
        )
  ]
  | inl no_id ↦ elim (Bool-cases (is_empty req.at_port)) [
    | inl no_port ↦ inr (inr (no_id, no_port))
    | inr by_port ↦ inr (
        inl (
          no_id,
          by_port,
          elim (Option-cases (modem_by_path (λ m. m.at_ports) modems req.at_port)) [
            | inl missing ↦ inr (modem_by_path-none (λ m. m.at_ports) modems req.at_port missing)
            | inr (m, found) ↦
                let (listed, owned) =
                  modem_by_path-Member (λ m. m.at_ports) modems req.at_port m found in
                inl (
                  m,
                  validate_request-keeps modems req m target
                      (rw (no_id, by_port, target_of, found) refl) h,
                  listed,
                  owned,
                )
          ],
        ))
  ]
]

-- Each data path that a request names is one of a listed modem with the id of the target.
abbrev pub Paths : List ModemDevice → ModemSelectRequest → Option ModemDevice → Type 0
Paths modems req target =
    ((is_empty req.mbim_device ≡ true)
      ⊎ ((m : ModemDevice) × (target ≡ some m)
          × IsDiscovered (λ k. k.mbim_nodes) modems req.mbim_device m))
    × ((is_empty req.net_iface ≡ true)
        ⊎ ((m : ModemDevice) × (target ≡ some m)
            × IsDiscovered (λ k. k.net_ifaces) modems req.net_iface m))

validate_request-Paths :
    (modems : List ModemDevice) (req : ModemSelectRequest) (target : Option ModemDevice)
    → validate_request modems req ≡ ok target
    → Paths modems req target
unfolding validate_request
validate_request-Paths modems req target h = elim (Result-cases (target_of modems req)) [
  | inl (e, failed) ↦ absurd (err_ne_ok e target (rw (failed, validate_request) at h))
  | inr (first, named) ↦
      elim (Result-cases (validate_data_path (λ m. m.mbim_nodes) modems req.mbim_device first)) [
        | inl (e, failed) ↦ absurd (err_ne_ok e target (rw (named, failed, validate_request) at h))
        | inr (second, passed) ↦
            let last : validate_data_path (λ m. m.net_ifaces) modems req.net_iface second
                ≡ ok target =
              rw (named, passed, validate_request) at h in
            (
              elim (Bool-cases (is_empty req.mbim_device)) [
                | inl unnamed ↦ inl unnamed
                | inr asked ↦
                    let (m, settled, found, _) =
                      validate_data_path-IsDiscovered (λ m. m.mbim_nodes) modems req.mbim_device
                        first second passed asked in
                    inr (
                      m,
                      validate_data_path-keeps (λ m. m.net_ifaces) modems req.net_iface m target
                          (rw settled at last),
                      found,
                    )
              ],
              elim (Bool-cases (is_empty req.net_iface)) [
                | inl unnamed ↦ inl unnamed
                | inr asked ↦
                    let (m, settled, found, _) =
                      validate_data_path-IsDiscovered (λ m. m.net_ifaces) modems req.net_iface
                        second target last asked in
                    inr (m, settled, found)
              ],
            )
      ]
]

-- `SelectModem` checks a request against the listed modems. Where the checks pass, the modem that they settle on
-- is the one that the request names: a listed modem with its id; or, without an id, a listed modem with the AT
-- port, unless no listed modem has that port. Each data path that the request names, the MBIM node and the
-- network interface, is one of a listed modem with the id of the modem that is settled on. So a path of another
-- modem than the one that is named, or of none, is refused.
pub validate_request-IsDiscovered :
    (modems : List ModemDevice) (req : ModemSelectRequest) (target : Option ModemDevice)
    → validate_request modems req ≡ ok target
    → NamedBy modems req target × Paths modems req target
validate_request-IsDiscovered modems req target h =
    (validate_request-NamedBy modems req target h, validate_request-Paths modems req target h)
