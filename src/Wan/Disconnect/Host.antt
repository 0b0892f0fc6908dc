-- ===== src/Wan/Disconnect/Host.antt =====
-- internal/usecase/wan_service.go: the host interface that `MBIMDisconnect` clears.
use proton5g.Base.{
  true, false, List, [], ◌∷◌, none, some, ◌≡◌, ◌⊎◌, inl, inr, refl, ap, ◌∙◌, arith, Text, is_empty,
  same_refl,
}
use proton5g.Domain.{ModemDevice, ModemInterface}
use proton5g.Ports
use proton5g.Ports.{Env, History, MbimPort, NetPort, Reply}
use proton5g.Service.{Service}
use proton5g.Service.Inventory.{modem_owns, find_modem, build_inventory}
use proton5g.Service.Data.{mbim_disconnect}
use proton5g.Wan.{WanService, set_overrides}
use proton5g.Wan.Disconnect.{
  clear_host, finish_disconnect, drop_bearer, disconnect_host, wan_mbim_disconnect,
}

-- the interface that is chosen
disconnect_host-cases :
    (chosen : Text) (ifaces : List ModemInterface)
    → ((is_empty ifaces ≡ false) × (modem_owns ifaces (disconnect_host chosen ifaces) ≡ true))
      ⊎ ((ifaces ≡ []) × (disconnect_host chosen ifaces ≡ chosen))
unfolding disconnect_host modem_owns
disconnect_host-cases chosen [] = inr (refl, ground arith)
disconnect_host-cases chosen (i ∷ is) = inl (refl, ground (arith, same_refl i.path))

module _ (env : Env) (p : MbimPort) (has_mbim : env.mbim ≡ some p) (net : NetPort)
    (has_net : env.net ≡ some net) (clear : History → Text → Reply)
    (clears : net.clear_interface ≡ some clear) where
  disconnect-parts :
      (device : Text) (s : Service)
      → is_empty device ≡ false
      → (p.disconnect s.calls device).fault ≡ none
      → ((mbim_disconnect env device s).1 ≡ none)
        × ((mbim_disconnect env device s).2.calls ≡ Ports.mbim_disconnect device ∷ s.calls)
  unfolding mbim_disconnect
  disconnect-parts device s named down =
      (rw (has_mbim, named, mbim_disconnect) down, rw (has_mbim, named, mbim_disconnect) refl)

  clear_host-calls :
      (host : Text) (s : Service)
      → is_empty host ≡ false
      → (clear_host env host s).2.calls ≡ Ports.clear_interface host ∷ s.calls
  unfolding clear_host
  clear_host-calls host s hosted = rw (has_net, clears, hosted, clear_host) refl

  -- the bearer goes down, and then the addresses of the host interface are cleared
  drop_bearer-calls :
      (device host : Text) (w : WanService)
      → is_empty device ≡ false
      → is_empty host ≡ false
      → (p.disconnect w.service.calls device).fault ≡ none
      → (drop_bearer env device host w).2.service.calls
        ≡ Ports.clear_interface host ∷ Ports.mbim_disconnect device ∷ w.service.calls
  unfolding drop_bearer finish_disconnect set_overrides
  drop_bearer-calls device host w named hosted down =
      let (quiet, calls) = disconnect-parts device w.service named down in
      rw (quiet, drop_bearer)
        (clear_host-calls host (mbim_disconnect env device w.service).2 hosted
          ∙ ap (λ k. Ports.clear_interface host ∷ k) calls)

  -- the guards of `MBIMDisconnect`, passed
  wan_mbim_disconnect-drops :
      (m : ModemDevice) (w : WanService)
      → let (inv, s) = build_inventory env w.service in
        find_modem inv.modems inv.selected_modem_id ≡ some m
        → is_empty inv.selected_mbim ≡ false
        → modem_owns m.mbim_nodes inv.selected_mbim ≡ true
        → wan_mbim_disconnect env inv.selected_mbim w
          ≡ drop_bearer env inv.selected_mbim
              (disconnect_host inv.selected_net m.net_ifaces)
              (record w { service = s })
  unfolding wan_mbim_disconnect
  wan_mbim_disconnect-drops m w found named owned =
      rw
        (
          found,
          named,
          same_refl ((build_inventory env w.service).0.selected_mbim),
          named,
          owned,
          wan_mbim_disconnect,
        )
        refl

  -- The MBIM port takes the bearer down, the host can clear interfaces, and the selected modem owns the
  -- selected control node. Then `MBIMDisconnect` of that node ends with two calls: the bearer goes down, and
  -- the addresses of one host interface are cleared, where there is one to name. This is an interface of
  -- the selected modem if that modem has any. If it has none, it is whatever interface is selected, which
  -- is then not one of that modem's.
  pub wan_mbim_disconnect-clears :
      (m : ModemDevice) (w : WanService)
      → let (inv, s) = build_inventory env w.service in
        let host = disconnect_host inv.selected_net m.net_ifaces in
        find_modem inv.modems inv.selected_modem_id ≡ some m
        → is_empty inv.selected_mbim ≡ false
        → modem_owns m.mbim_nodes inv.selected_mbim ≡ true
        → is_empty host ≡ false
        → (p.disconnect s.calls inv.selected_mbim).fault ≡ none
        → ((wan_mbim_disconnect env inv.selected_mbim w).2.service.calls
            ≡ Ports.clear_interface host ∷ Ports.mbim_disconnect inv.selected_mbim ∷ s.calls)
          × ((modem_owns m.net_ifaces host ≡ true)
              ⊎ ((m.net_ifaces ≡ [])
                  × (host ≡ inv.selected_net)
                  × (modem_owns m.net_ifaces host ≡ false)))
  wan_mbim_disconnect-clears m w found named owned hosted down =
      let inv = (build_inventory env w.service).0 in
      let s = (build_inventory env w.service).1 in
      let host = disconnect_host inv.selected_net m.net_ifaces in
      (
        rw (wan_mbim_disconnect-drops m w found named owned)
            (drop_bearer-calls inv.selected_mbim host (record w { service = s }) named hosted down),
        elim (disconnect_host-cases inv.selected_net m.net_ifaces) [
          | inl (_, mine) ↦ inl mine
          | inr (bare, other) ↦ inr (bare, other, rw bare (unfold modem_owns in refl))
        ],
      )
