-- ===== src/Wan/Endpoint/Owned.antt =====
-- internal/usecase/wan_service.go: the modem that the endpoint of `resolveDataEndpoint` belongs to.
use proton5g.Base.{
  true, false, not, ◌||◌, List, [], ◌∷◌, Option, none, some, ◌≡◌, ◌≢◌, ◌⊎◌, inl, inr, refl, arith,
  Option-cases, Text, is_empty, same, same_iff, same_refl, ok, guard_passed, ok_injective, or_false,
  err_ne_ok, true_of_not,
}
use mathlib.Core.Path.{subst}
use proton5g.Base.Int.{ℤ}
use proton5g.Domain.{ModemDevice, ModemInterface, ModemInventory, DataConnectRequest}
use proton5g.Domain.Modes.{DataMode, parse_data_mode}
use proton5g.Ports.{Env}
use proton5g.Service.{Service}
use proton5g.Service.Inventory.{modem_owns, find_modem, build_inventory}
use proton5g.Wan.Endpoint.{
  Endpoint, nodes, chosen_iface, paired_iface, mbim_endpoint, rndis_endpoint, endpoint_by,
  resolve_data_endpoint,
}

-- The endpoint `e` is one of the modem that is selected in `inv`.
pub record IsOwned (inv : ModemInventory) (e : Endpoint) : Type 0 where
  pub modem : ModemDevice
  pub selected : find_modem inv.modems inv.selected_modem_id ≡ some modem
  pub host_owned : modem_owns modem.net_ifaces e.host_iface ≡ true
  pub host_named : e.host_iface ≢ []
  pub by_mode :
      ((e.mode ≡ DataMode.rndis) × (e.host_iface ≡ inv.selected_net))
      ⊎ ((e.mode ≡ DataMode.mbim)
          × (e.control ≡ inv.selected_mbim)
          × (modem_owns modem.mbim_nodes e.control ≡ true))

paired_iface_owned :
    (net : Text) (ifaces : List ModemInterface)
    → is_empty (paired_iface net ifaces) ≡ false
    → modem_owns ifaces (paired_iface net ifaces) ≡ true
unfolding paired_iface modem_owns
paired_iface_owned net [] h = ground arith
paired_iface_owned net (i ∷ is) h = ground (arith, same_refl i.path)

ne_of_is_empty {ℓ} : {A : Type ℓ} (s : List A) → is_empty s ≡ false → s ≢ []
ne_of_is_empty s h e = ground arith

nodes_none :
    (f : ModemDevice → List ModemInterface) (selected : Option ModemDevice) (path : Text)
    → modem_owns (nodes f selected) path ≡ true
    → (m : ModemDevice) × (selected ≡ some m)
unfolding modem_owns
nodes_none f none path h = cc
nodes_none f (some m) path h = (m, refl)

-- an interface that the checks of the two modes let through
chosen_same :
    (iface chosen : Text)
    → is_empty iface || is_empty chosen || not (same iface chosen) ≡ false
    → (is_empty iface ≡ false) × (iface ≡ chosen)
chosen_same iface chosen h =
    let (empty, differ) = or_false (is_empty iface || is_empty chosen) _ h in
    let (named, _) = or_false (is_empty iface) _ empty in
    (named, (same_iff iface chosen).0 (true_of_not (same iface chosen) differ))

module _ (inv : ModemInventory) (m : ModemDevice) (given apn : Text) (cid : ℤ)
    (found : find_modem inv.modems inv.selected_modem_id ≡ some m) where
  rndis_endpoint-IsOwned :
      (e : Endpoint) → rndis_endpoint inv (some m) given apn cid ≡ ok e → IsOwned inv e
  unfolding rndis_endpoint
  rndis_endpoint-IsOwned e h =
      let (checked, h1) = guard_passed _ _ _ e h in
      let (owned, h2) = guard_passed _ _ _ e h1 in
      let (named, chosen) =
        chosen_same (chosen_iface given inv.selected_net) inv.selected_net checked in
      subst (IsOwned inv) (ok_injective _ e _ refl h2) (record {
        modem = m;
        selected = found;
        host_owned = true_of_not _ owned;
        host_named = ne_of_is_empty _ named;
        by_mode = inl (refl, chosen);
      })

  mbim_endpoint-IsOwned :
      (e : Endpoint) → mbim_endpoint inv (some m) given apn cid ≡ ok e → IsOwned inv e
  unfolding mbim_endpoint
  mbim_endpoint-IsOwned e h =
      let (checked, h1) = guard_passed _ _ _ e h in
      let (owned, h2) = guard_passed _ _ _ e h1 in
      let (host, h3) = guard_passed _ _ _ e h2 in
      let (named, chosen) =
        chosen_same (chosen_iface given inv.selected_mbim) inv.selected_mbim checked in
      subst (IsOwned inv) (ok_injective _ e _ refl h3) (record {
        modem = m;
        selected = found;
        host_owned = paired_iface_owned inv.selected_net m.net_ifaces host;
        host_named = ne_of_is_empty _ host;
        by_mode = inr (refl, chosen, true_of_not _ owned);
      })

  endpoint_by-some :
      (e : Endpoint) (mode : DataMode)
      → endpoint_by inv (some m) mode given apn cid ≡ ok e
      → IsOwned inv e
  unfolding endpoint_by
  endpoint_by-some e DataMode.auto h = absurd (ground arith)
  endpoint_by-some e DataMode.mbim h = mbim_endpoint-IsOwned e h
  endpoint_by-some e DataMode.rndis h = rndis_endpoint-IsOwned e h

module _ (inv : ModemInventory) (given apn : Text) (cid : ℤ) (e : Endpoint) where
  -- with no modem that is selected, neither mode has an endpoint
  endpoint_by-none : (mode : DataMode) → endpoint_by inv none mode given apn cid ≢ ok e
  unfolding endpoint_by mbim_endpoint rndis_endpoint modem_owns
  endpoint_by-none DataMode.auto h = cc
  endpoint_by-none DataMode.mbim h =
      let (_, h1) = guard_passed _ _ _ e h in absurd (err_ne_ok _ e h1)
  endpoint_by-none DataMode.rndis h =
      let (_, h1) = guard_passed _ _ _ e h in absurd (err_ne_ok _ e h1)

  endpoint_by-IsOwned :
      (mode : DataMode)
      → endpoint_by inv (find_modem inv.modems inv.selected_modem_id) mode given apn cid ≡ ok e
      → IsOwned inv e
  unfolding endpoint_by
  endpoint_by-IsOwned mode h = elim (Option-cases (find_modem inv.modems inv.selected_modem_id)) [
    | inl missing ↦
        absurd (
          endpoint_by-none mode
            (subst (λ k. endpoint_by inv k mode given apn cid ≡ ok e) missing h))
    | inr (m, found) ↦
        endpoint_by-some inv m given apn cid found e mode
          (subst (λ k. endpoint_by inv k mode given apn cid ≡ ok e) found h)
  ]

-- Whatever the environment answers, an endpoint that a request resolves to is one of the modem that is
-- selected in the inventory of that moment: its host interface is a nonempty name among that modem's
-- network interfaces; in RNDIS mode it is the selected interface itself, and in MBIM mode the control
-- node is the selected one and among that modem's control nodes.
pub resolve_data_endpoint-IsOwned :
    (env : Env) (req : DataConnectRequest) (s : Service) (e : Endpoint)
    → (resolve_data_endpoint env req s).0 ≡ ok e
    → IsOwned ((build_inventory env s).0) e
unfolding resolve_data_endpoint
resolve_data_endpoint-IsOwned env req s e h = elim (Option-cases (parse_data_mode req.mode)) [
  | inl bad ↦ absurd (ground (arith, bad))
  | inr (mode, parsed) ↦
      endpoint_by-IsOwned ((build_inventory env s).0) _ _ _ e _
        (rw (parsed, resolve_data_endpoint) at h)
]
