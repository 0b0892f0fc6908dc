-- ===== src/Service/Session.antt =====
-- internal/usecase/modem.go: `DataConnect` and `DataDisconnect`.
use proton5g.Base.{
  not, none, some, [], Text, codes, is_empty, has_prefix, trim_space, if◌then◌else◌,
}
use proton5g.Domain.{DataConnectRequest, WanSession, WanMethod}
use proton5g.Domain.Modes.{DataMode, parse_data_mode}
use proton5g.Ports
use proton5g.Ports.{Env, Fault}
use proton5g.Service.{Service, record_call}
use proton5g.Service.Data.{Outcome, connect_rndis_configured}

-- the mode and the interface of a request with no interface
unfoldable pub default_endpoint : DataMode → Service → DataMode × Text
default_endpoint DataMode.rndis s = (DataMode.rndis, s.selected_net)
default_endpoint DataMode.mbim s = (DataMode.mbim, s.selected_mbim)
default_endpoint DataMode.auto s =
    if not (is_empty s.selected_net)
    then (DataMode.rndis, s.selected_net)
    else if not (is_empty s.selected_mbim)
    then (DataMode.mbim, s.selected_mbim)
    else (DataMode.auto, [])

-- the mode that the name of the interface tells, where the request says `auto`
unfoldable pub settle_mode : DataMode → Text → DataMode
settle_mode DataMode.auto iface =
    if has_prefix (codes "/dev/cdc-wdm") iface
    then DataMode.mbim
    else if not (is_empty iface)
    then DataMode.rndis
    else DataMode.auto
settle_mode mode iface = mode

-- the session is marked connected where the connection succeeded
unfoldable pub mark_connected : Text → Outcome → Outcome
mark_connected iface (out, some e, s) = (out, some e, s)
mark_connected iface (out, none, s) = (
  out,
  none,
  record s {
    status = record (s.status) {
      wan = record (s.status.wan) { iface = iface; session = WanSession.connected };
    };
  },
)

-- the switch of `DataConnect`
unfoldable pub connect_by : Env → DataMode → Text → DataConnectRequest → Text → Service → Outcome
unfolding mark_connected
connect_by env DataMode.auto iface req apn s = ([], some Ports.unknown_mode, s)
connect_by env DataMode.mbim iface req apn s = elim (env.mbim) [
  | none ↦ ([], some Ports.modem_unavailable, s)
  | some p ↦
      if is_empty iface
      then ([], some Ports.no_mbim_selected, s)
      else (let r = p.connect s.calls iface apn in
          (r.out, r.fault, record_call (Ports.mbim_connect iface apn) s))
]
connect_by env DataMode.rndis iface req apn s =
    if is_empty iface then ([], some Ports.no_net_selected, s) else elim (env.net) [
      | none ↦ ([], some Ports.net_not_configured, s)
      | some net ↦
          mark_connected iface
            (connect_rndis_configured env net iface req.method s.status.apn.cid s)
    ]

-- `DataConnect`
unfoldable pub data_connect : Env → DataConnectRequest → Service → Outcome
unfolding default_endpoint settle_mode connect_by
data_connect env req s = elim (parse_data_mode req.mode) [
  | none ↦ ([], some (Ports.invalid_mode req.mode), s)
  | some mode ↦
      let given = trim_space req.iface in
      let (mode', iface) = if is_empty given then default_endpoint mode s else (mode, given) in
      let apn = if is_empty req.apn then s.status.apn.apn else req.apn in
      connect_by env (settle_mode mode' iface) iface req apn s
]

-- the mode and the interface of a disconnection with no interface
unfoldable pub disconnect_endpoint : DataMode → Service → DataMode × Text
disconnect_endpoint DataMode.rndis s = (DataMode.rndis, s.selected_net)
disconnect_endpoint DataMode.mbim s = (DataMode.mbim, s.selected_mbim)
disconnect_endpoint DataMode.auto s =
    if not (is_empty s.selected_net)
    then (DataMode.rndis, s.selected_net)
    else if not (is_empty s.selected_mbim)
    then (DataMode.mbim, s.selected_mbim)
    else (DataMode.auto, [])

-- the session is marked disconnected, whatever the port answers
unfoldable pub mark_disconnected : Service → Service
mark_disconnected s = record s {
  status = record (s.status) {
    wan = record (s.status.wan) { session = WanSession.disconnected; method = WanMethod.no_method };
  };
}

-- the switch of `DataDisconnect`
unfoldable pub disconnect_by : Env → DataMode → Text → Service → Outcome
unfolding mark_disconnected
disconnect_by env DataMode.auto iface s = ([], some Ports.unknown_mode, s)
disconnect_by env DataMode.mbim iface s = elim (env.mbim) [
  | none ↦ ([], some Ports.modem_unavailable, s)
  | some p ↦
      let r = p.disconnect s.calls iface in
      (r.out, r.fault, record_call (Ports.mbim_disconnect iface) s)
]
disconnect_by env DataMode.rndis iface s =
    if is_empty iface then ([], some Ports.no_net_selected, s) else elim (env.net) [
      | none ↦ ([], some Ports.net_not_configured, s)
      | some net ↦
          let r = net.disconnect_rndis s.calls iface in
          (r.out, r.fault, mark_disconnected (record_call (Ports.rndis_disconnect iface) s))
    ]

-- `DataDisconnect`
unfoldable pub data_disconnect : Env → DataConnectRequest → Service → Outcome
unfolding disconnect_endpoint disconnect_by
data_disconnect env req s = elim (parse_data_mode req.mode) [
  | none ↦ ([], some (Ports.invalid_mode req.mode), s)
  | some mode ↦
      let given = trim_space req.iface in
      let (mode', iface) = if is_empty given then disconnect_endpoint mode s else (mode, given) in
      disconnect_by env mode' iface s
]
