-- ===== src/Wan/Tests.antt =====
-- The facade on a host with two modems, the second of which has no network interface.
use proton5g.Base.{true, false, [], ◌∷◌, none, some, ◌≡◌, ◌≢◌, ◌⊎◌, refl, codes, trim_space, same}
use proton5g.Base.Int.{pos}
use proton5g.Domain.{WanSession, ModemSelectRequest, DataConnectRequest}
use proton5g.Domain.Modes.{DataMode, parse_data_mode}
use proton5g.Ports
use proton5g.Ports.{Env, Fault, History, MbimPort, NetPort, InventoryPort, UsbPort, Reply}
use proton5g.Service.Inventory.{build_inventory, default_modem, find_modem, modem_owns}
use proton5g.Service.Data.{mbim_connect}
use proton5g.Wan.{new_wan_service}
use proton5g.Wan.Endpoint.{
  Endpoint, resolve_data_endpoint, settle, settle_auto, endpoint_by, mbim_endpoint, paired_iface,
}
use proton5g.Wan.Endpoint.Owned.{IsOwned, resolve_data_endpoint-IsOwned}
use proton5g.Wan.Connect.{connect_mbim}
use proton5g.Wan.Connect.Rollback.{Undone, Connected, connect_mbim-settles}
use proton5g.Wan.Disconnect.{wan_mbim_disconnect, disconnect_host}
use proton5g.Wan.Select.{
  validate_request, validate_data_path, check_owner, modem_by_path, target_of,
}
use proton5g.Wan.Select.{wan_select_modem}
use proton5g.Base.{Option}
use proton5g.Domain.{ModemInventory}
use proton5g.Wan.{WanService}
use proton5g.Wan.Select.Checked.{NamedBy, Paths, validate_request-IsDiscovered}
use proton5g.Service.Session.{data_disconnect}
use proton5g.Wan.{cached_status}
use proton5g.Wan.Disconnect.{drop_rndis}
use proton5g.Wan.Disconnect.Shown.{Alike, rndis_request, drop_rndis-shown}
use proton5g.Wan.Disconnect.Host.{wan_mbim_disconnect-clears}
use proton5g.Service.Fixtures.{
  first_modem, bare_modem, mbim_port, clear, net_port, env, first_service, bare_service,
}

abbrev auto_request : DataConnectRequest
auto_request = record { mode = codes "auto"; iface = []; apn = codes "internet"; method = [] }

abbrev endpoint : Endpoint
endpoint = record {
  mode = DataMode.mbim;
  control = codes "wdm0";
  host_iface = codes "wwan0";
  apn = codes "internet";
  cid = pos 1;
}

resolve_data_endpoint-IsOwned_example : IsOwned (build_inventory env first_service).0 endpoint
unfolding resolve_data_endpoint parse_data_mode build_inventory trim_space endpoint_by settle
    settle_auto mbim_endpoint find_modem default_modem paired_iface
resolve_data_endpoint-IsOwned_example =
    resolve_data_endpoint-IsOwned env auto_request first_service endpoint refl

-- the host refuses the address, and the bearer goes down again
connect_mbim-settles_example :
    let w = new_wan_service first_service in
    let (_, e, s) = mbim_connect env (codes "wdm0") [] w.service in
    let outcome = connect_mbim env (codes "wdm0") (codes "wwan0") [] w in
    ((f : Fault) × (e ≡ some f) × (outcome.1 ≡ some f) × (outcome.2 ≡ record w { service = s }))
    ⊎ ((e ≡ none)
        × (Undone (codes "wdm0") w outcome ⊎ Connected env (codes "wdm0") (codes "wwan0") outcome))
connect_mbim-settles_example =
    connect_mbim-settles env mbim_port refl (codes "wdm0") refl (codes "wwan0") []
      (new_wan_service first_service)

wan_mbim_disconnect-clears_example :
    let w = new_wan_service bare_service in
    ((wan_mbim_disconnect env (codes "wdm1") w).2.service.calls
      ≡ Ports.clear_interface (codes "wwan0")
        ∷ Ports.mbim_disconnect (codes "wdm1")
        ∷ Ports.list_modems []
        ∷ [])
    × ((modem_owns [] (codes "wwan0") ≡ true)
        ⊎ ((bare_modem.net_ifaces ≡ [])
            × (codes "wwan0" ≡ codes "wwan0")
            × (modem_owns [] (codes "wwan0") ≡ false)))
unfolding new_wan_service build_inventory modem_owns find_modem same default_modem disconnect_host
wan_mbim_disconnect-clears_example =
    wan_mbim_disconnect-clears env mbim_port refl net_port refl clear refl bare_modem
      (new_wan_service bare_service) refl refl refl refl refl

abbrev select_request : ModemSelectRequest
select_request = record {
  modem_id = codes "m0";
  at_port = [];
  mbim_device = codes "wdm0";
  net_iface = codes "wwan0";
}

validate_request-IsDiscovered_example :
    NamedBy (first_modem ∷ bare_modem ∷ []) select_request (some first_modem)
    × Paths (first_modem ∷ bare_modem ∷ []) select_request (some first_modem)
unfolding validate_request validate_data_path check_owner modem_by_path target_of find_modem
    modem_owns same
validate_request-IsDiscovered_example =
    validate_request-IsDiscovered (first_modem ∷ bare_modem ∷ []) select_request (some first_modem)
      refl

abbrev net_endpoint : Endpoint
net_endpoint = record {
  mode = DataMode.rndis;
  control = [];
  host_iface = codes "wwan0";
  apn = [];
  cid = pos 1;
}

drop_rndis-shown_example :
    let w = new_wan_service first_service in
    let (_, e, _) = data_disconnect env (rndis_request (codes "wwan0")) w.service in
    let after = (drop_rndis env net_endpoint w).2 in
    ((e ≢ none) × Alike (cached_status after).wan (cached_status w).wan)
    ⊎ ((e ≡ none) × ((cached_status after).wan.session ≡ WanSession.disconnected))
drop_rndis-shown_example = drop_rndis-shown env net_endpoint (new_wan_service first_service)

abbrev selected : ModemInventory × Option Fault × WanService
selected = wan_select_modem env select_request (new_wan_service first_service)
