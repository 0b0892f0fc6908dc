-- ===== src/Wan/Endpoint.antt =====
-- internal/usecase/wan_service.go: `resolveDataEndpoint`.
pub mod Owned
use proton5g.Base.{
  Bool, true, false, not, ◌&&◌, ◌||◌, List, [], ◌∷◌, Option, none, some, if◌then◌else◌, Text,
  is_empty, same, trim_space, Result, ok, err,
}
use proton5g.Base.Int.{ℤ}
use proton5g.Domain.{ModemDevice, ModemInterface, ModemInventory, DataConnectRequest}
use proton5g.Domain.Modes.{DataMode, parse_data_mode}
use proton5g.Ports
use proton5g.Ports.{Env, Fault}
use proton5g.Service.{Service, default_cid}
use proton5g.Service.Inventory.{modem_owns, find_modem, first_path, build_inventory}

-- resolvedDataEndpoint
pub record Endpoint : Type 0 where
  pub mode : DataMode
  pub control : Text
  pub host_iface : Text
  pub apn : Text
  pub cid : ℤ

-- the nodes of the selected modem; the zero modem has none
abbrev pub nodes : (ModemDevice → List ModemInterface) → Option ModemDevice → List ModemInterface
nodes f none = []
nodes f (some m) = f m

-- the switch on an `auto` request
unfoldable pub settle_auto : ModemInventory → Option ModemDevice → Text → DataMode × Text
unfolding modem_owns
settle_auto inv selected iface =
    if not (is_empty iface) && same iface inv.selected_mbim
    then (DataMode.mbim, iface)
    else if not (is_empty iface) && modem_owns (nodes (λ m. m.mbim_nodes) selected) iface
    then (DataMode.mbim, iface)
    else if not (is_empty iface)
        && modem_owns (nodes (λ m. m.net_ifaces) selected) iface
        && not (is_empty (nodes (λ m. m.mbim_nodes) selected))
    then (DataMode.mbim, inv.selected_mbim)
    else if not (is_empty iface)
    then (DataMode.rndis, iface)
    else if not (is_empty inv.selected_mbim)
    then (DataMode.mbim, inv.selected_mbim)
    else (DataMode.rndis, inv.selected_net)

-- the host interface that goes with the control node of the selected modem
unfoldable pub paired_iface : Text → List ModemInterface → Text
paired_iface selected_net ifaces =
    if not (is_empty selected_net) && modem_owns ifaces selected_net
    then selected_net
    else first_path ifaces

-- a request with no interface takes the selected one
abbrev pub chosen_iface : Text → Text → Text
chosen_iface given chosen = if is_empty given then chosen else given

-- `case domain.DataModeMBIM`
unfoldable pub mbim_endpoint :
    ModemInventory → Option ModemDevice → Text → Text → ℤ → Result Fault Endpoint
mbim_endpoint inv selected given apn cid =
    let iface = chosen_iface given inv.selected_mbim in
    let host = paired_iface inv.selected_net (nodes (λ m. m.net_ifaces) selected) in
    if is_empty iface || is_empty inv.selected_mbim || not (same iface inv.selected_mbim)
    then err (Ports.mbim_not_selected iface)
    else if not (modem_owns (nodes (λ m. m.mbim_nodes) selected) iface)
    then err (Ports.mbim_not_owned iface)
    else if is_empty host
    then err Ports.no_paired_iface
    else ok
        (record { mode = DataMode.mbim; control = iface; host_iface = host; apn = apn; cid = cid })

-- `case domain.DataModeRNDIS`
unfoldable pub rndis_endpoint :
    ModemInventory → Option ModemDevice → Text → Text → ℤ → Result Fault Endpoint
rndis_endpoint inv selected given apn cid =
    let iface = chosen_iface given inv.selected_net in
    if is_empty iface || is_empty inv.selected_net || not (same iface inv.selected_net)
    then err (Ports.rndis_not_selected iface)
    else if not (modem_owns (nodes (λ m. m.net_ifaces) selected) iface)
    then err (Ports.rndis_not_owned iface)
    else ok
        (record { mode = DataMode.rndis; control = []; host_iface = iface; apn = apn; cid = cid })

-- the mode that is settled, and its endpoint
unfoldable pub endpoint_by :
    ModemInventory → Option ModemDevice → DataMode → Text → Text → ℤ → Result Fault Endpoint
endpoint_by inv selected DataMode.auto iface apn cid = err Ports.unknown_mode
endpoint_by inv selected DataMode.mbim iface apn cid = mbim_endpoint inv selected iface apn cid
endpoint_by inv selected DataMode.rndis iface apn cid = rndis_endpoint inv selected iface apn cid

-- an `auto` request is settled first
unfoldable pub settle : ModemInventory → Option ModemDevice → DataMode → Text → DataMode × Text
settle inv selected DataMode.auto iface = settle_auto inv selected iface
settle inv selected mode iface = (mode, iface)

-- `resolveDataEndpoint`
unfoldable pub resolve_data_endpoint :
    Env → DataConnectRequest → Service → Result Fault Endpoint × Service
resolve_data_endpoint env req s = elim (parse_data_mode req.mode) [
  | none ↦ (err (Ports.invalid_mode req.mode), s)
  | some mode ↦
      let (inv, s') = build_inventory env s in
      let selected = find_modem inv.modems inv.selected_modem_id in
      let (mode', iface) = settle inv selected mode (trim_space req.iface) in
      let apn = trim_space req.apn in
      (
        endpoint_by inv selected mode' iface (if is_empty apn then s'.status.apn.apn else apn)
            (default_cid s'.status.apn.cid),
        s',
      )
]
