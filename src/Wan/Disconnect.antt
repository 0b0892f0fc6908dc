-- ===== src/Wan/Disconnect.antt =====
-- internal/usecase/wan_service.go: `DataDisconnect` and `MBIMDisconnect`.
pub mod Host
pub mod Shown
use proton5g.Base.{
  Bool, true, false, not, ◌&&◌, ◌||◌, List, [], ◌∷◌, Option, none, some, if◌then◌else◌, Text, codes,
  is_empty, same, has_prefix, trim_space, Result, ok, err,
}
use proton5g.Base.Int.{ℤ}
use proton5g.Domain.{
  DataConnectRequest, ModemDevice, ModemInterface, ModemInventory, WanInfo, WanSession, no_pdp,
  no_wan,
}
use proton5g.Domain.Modes.{DataMode, parse_data_mode}
use proton5g.Ports
use proton5g.Ports.{Env, Fault, AtPort, NetPort}
use proton5g.Service.{Service, record_call, default_cid}
use proton5g.Service.Inventory.{modem_owns, find_modem, first_path, build_inventory}
use proton5g.Service.Data.{mbim_disconnect}
use proton5g.Service.Session.{data_disconnect}
use proton5g.Wan.{WanService, is_connected, cached_status, set_overrides, clear_overrides}
use proton5g.Wan.Endpoint.{Endpoint, nodes, resolve_data_endpoint}
use proton5g.Wan.Connect.{WanOutcome, join_wan_output}

-- the addresses of the host interface are cleared, where the host can do that
unfoldable pub clear_host : Env → Text → Service → Text × Option Fault × Service
clear_host env host s = elim (env.net) [
  | none ↦ ([], none, s)
  | some net ↦ elim (net.clear_interface) [
    | none ↦ ([], none, s)
    | some clear ↦
        if is_empty host
        then ([], none, s)
        else (let r = clear s.calls host in
            (r.out, r.fault, record_call (Ports.clear_interface host) s))
  ]
]

abbrev pub cleanup_fault : Option Fault → Option Fault
cleanup_fault none = none
cleanup_fault (some e) = some (Ports.host_cleanup e)

-- behind a bearer that is down
unfoldable pub finish_disconnect : Env → Text → Text → WanService → WanOutcome
finish_disconnect env host out w =
    let (cleanup_out, cleanup, s) = clear_host env host w.service in
    let wan = record no_wan { iface = host; session = WanSession.disconnected } in
    let pdp = record no_pdp { cid = default_cid s.status.apn.cid } in
    (
      join_wan_output (out ∷ cleanup_out ∷ []),
      cleanup_fault cleanup,
      set_overrides wan pdp true (record w { service = s }),
    )

-- the bearer of a checked device is taken down
unfoldable pub drop_bearer : Env → Text → Text → WanService → WanOutcome
drop_bearer env device host w =
    let (out, e, s) = mbim_disconnect env device w.service in
    elim e [
      | some f ↦ (out, some f, record w { service = s })
      | none ↦ finish_disconnect env host out (record w { service = s })
    ]

-- the host interface that is cleared with a bearer
unfoldable pub disconnect_host : Text → List ModemInterface → Text
disconnect_host selected_net ifaces =
    if is_empty selected_net || not (modem_owns ifaces selected_net)
    then (if is_empty ifaces then selected_net else first_path ifaces)
    else selected_net

-- `MBIMDisconnect`
unfoldable pub wan_mbim_disconnect : Env → Text → WanService → WanOutcome
wan_mbim_disconnect env given w =
    let (inv, s) = build_inventory env w.service in
    let selected = find_modem inv.modems inv.selected_modem_id in
    let device = if is_empty given then inv.selected_mbim else given in
    let host = disconnect_host inv.selected_net (nodes (λ m. m.net_ifaces) selected) in
    let w' = record w { service = s } in
    if is_empty device || not (same device inv.selected_mbim)
    then ([], some (Ports.mbim_not_selected device), w')
    else if not (modem_owns (nodes (λ m. m.mbim_nodes) selected) device)
    then ([], some (Ports.mbim_not_owned device), w')
    else drop_bearer env device host w'

-- the deactivation of the PDP context, behind a host interface that is down
unfoldable pub deactivate : Env → Text → ℤ → WanService → WanOutcome
deactivate env out cid w = elim (env.at) [
  | none ↦ (out, none, w)
  | some p ↦ elim (p.deactivate_pdp) [
    | none ↦ (out, none, w)
    | some run ↦
        let w' = record w { service = record_call (Ports.deactivate_pdp cid) w.service } in
        elim (run w.service.calls cid) [
          | none ↦ (out, none, w')
          | some e ↦ (out, some (Ports.pdp_deactivation e), w')
        ]
  ]
]

-- behind an RNDIS endpoint that resolved
unfoldable pub drop_rndis : Env → Endpoint → WanService → WanOutcome
drop_rndis env endpoint w =
    let before = (cached_status w).wan in
    let (out, e, s) =
      data_disconnect env
        (record { mode = codes "rndis"; iface = endpoint.host_iface; apn = []; method = [] })
        w.service in
    elim e [
      | some f ↦ (out, some f, set_overrides before no_pdp false (record w { service = s }))
      | none ↦ deactivate env out endpoint.cid (clear_overrides (record w { service = s }))
    ]

-- a request with no interface, or in the mode `auto`, goes to the MBIM session that is shown
unfoldable pub disconnect_mode : DataMode → Text → WanService → DataMode
disconnect_mode mode iface w =
    let is_auto : Bool = elim mode [ DataMode.auto ↦ true | _ ↦ false ] in
    if (is_auto || is_empty iface)
      && (w.has_wan && is_connected w.wan_override.session && not (is_empty w.wan_override.iface))
      && w.has_pdp
    then DataMode.mbim
    else mode

-- the two paths of `DataDisconnect`
unfoldable pub disconnect_path : Env → DataMode → Text → WanService → WanOutcome
disconnect_path env DataMode.mbim given w =
    let (inv, s) = build_inventory env w.service in
    let trimmed = trim_space given in
    let device =
      if is_empty trimmed || not (has_prefix (codes "/dev/cdc-wdm") trimmed)
      then inv.selected_mbim
      else trimmed in
    wan_mbim_disconnect env device (record w { service = s })
disconnect_path env _ given w =
    let (found, s) =
      resolve_data_endpoint env
        (record { mode = codes "rndis"; iface = given; apn = []; method = [] }) w.service in
    elim found [
      | err e ↦ ([], some e, record w { service = s })
      | ok endpoint ↦ drop_rndis env endpoint (record w { service = s })
    ]

-- `DataDisconnect`
unfoldable pub wan_data_disconnect : Env → DataConnectRequest → WanService → WanOutcome
wan_data_disconnect env req w = elim (parse_data_mode req.mode) [
  | none ↦ ([], some (Ports.invalid_mode req.mode), w)
  | some mode ↦ disconnect_path env (disconnect_mode mode req.iface w) req.iface w
]
