-- ===== src/Service/Data.antt =====
-- internal/usecase/modem.go and rndis_config.go: data sessions. The first component of a result is
-- the text for the operator.
use proton5g.Base.{
  ℕ, zero, suc, Bool, false, not, ◌&&◌, List, [], ◌∷◌, ◌++◌, Option, none, some, ◌==◌,
  if◌then◌else◌, get_or, Result, ok, err, Text, codes, is_empty, trim_space, join_lines,
}
use proton5g.Base.Int.{ℤ}
use proton5g.Domain.{PdpSession, WanIpConfig, WanMethod, no_pdp}
use proton5g.Domain.Modes.{DataMethod, parse_data_method}
use proton5g.Ports
use proton5g.Ports.{Env, Fault, Reply, AtPort, NetPort, MbimPort, History}
use proton5g.Service.{Service, record_call, cache_pdp_session, set_wan_method, default_cid}

-- `(string, error)`, and the state behind the call
abbrev pub Outcome : Type 0
Outcome = Text × Option Fault × Service

unfoldable pub joined : List Text → Text
unfolding join_lines trim_space
joined notes = trim_space (join_lines notes)

-- a note, unless it is blank
unfoldable pub add_note : Text → List Text → List Text
unfolding trim_space
add_note out notes = if is_empty (trim_space out) then notes else notes ++ trim_space out ∷ []

-- `MBIMConnect`
unfoldable pub mbim_connect : Env → Text → Text → Service → Outcome
mbim_connect env device apn s = elim (env.mbim) [
  | none ↦ ([], some Ports.modem_unavailable, s)
  | some p ↦
      let device' = if is_empty device then s.selected_mbim else device in
      let apn' = if is_empty apn then s.status.apn.apn else apn in
      let r = p.connect s.calls device' apn' in
      (r.out, r.fault, record_call (Ports.mbim_connect device' apn') s)
]

-- `MBIMDisconnect`
unfoldable pub mbim_disconnect : Env → Text → Service → Outcome
mbim_disconnect env device s = elim (env.mbim) [
  | none ↦ ([], some Ports.modem_unavailable, s)
  | some p ↦
      let device' = if is_empty device then s.selected_mbim else device in
      let r = p.disconnect s.calls device' in
      (r.out, r.fault, record_call (Ports.mbim_disconnect device') s)
]

-- `ActivatePDP`, then `QueryPDP` where that succeeds: the activation's error, the session and the
-- query's error
unfoldable pub activate_and_query :
    AtPort → ℤ → Service → Option Fault × PdpSession × Option Fault × Service
activate_and_query p cid s =
    let s1 = record_call (Ports.activate_pdp cid) s in
    elim (p.activate_pdp s.calls cid) [
      | some e ↦ (some e, no_pdp, none, s1)
      | none ↦
          let (pdp, e) = p.query_pdp s1.calls cid in
          (none, pdp, e, record_call (Ports.query_pdp cid) s1)
    ]

-- a configuration that `waitRNDISIPConfig` accepts
abbrev usable_config : WanIpConfig → Option Fault → Bool
usable_config cfg (some _) = false
usable_config cfg none = not (is_empty cfg.address_cidr) && not (is_empty cfg.gateway)

-- the error of the last query that had one, and else the one before
abbrev latest : Option Fault → Option Fault → Option Fault
latest none before = before
latest (some e) before = some e

-- the error of the loop, when its time is over
abbrev pub give_up : ℤ → Option Fault → Fault
give_up cid none = Ports.pdp_config_missing cid
give_up cid (some e) = Ports.pdp_config_unavailable cid e

-- the loop of `waitRNDISIPConfig`, with the rounds that are left after this one
unfoldable pub poll_pdp_config :
    (History → ℤ → WanIpConfig × Option Fault)
    → ℤ
    → ℕ
    → Option Fault
    → Service
    → Result Fault WanIpConfig × Service
poll_pdp_config query cid zero last s =
    let (cfg, e) = query s.calls cid in
    let s' = record_call (Ports.query_pdp_config cid) s in
    if usable_config cfg e then (ok cfg, s') else (err (give_up cid (latest e last)), s')
poll_pdp_config query cid (suc rounds) last s =
    let (cfg, e) = query s.calls cid in
    let s' = record_call (Ports.query_pdp_config cid) s in
    let rest = poll_pdp_config query cid rounds (latest e last) s' in
    if usable_config cfg e then (ok cfg, s') else rest

-- `waitRNDISIPConfig`
unfoldable pub wait_rndis_ip_config : Env → ℤ → Service → Result Fault WanIpConfig × Service
unfolding poll_pdp_config
wait_rndis_ip_config env cid s = elim (env.at) [
  | none ↦ (err Ports.pdp_config_unsupported, s)
  | some p ↦ elim (p.query_pdp_config) [
    | none ↦ (err Ports.pdp_config_unsupported, s)
    | some query ↦ poll_pdp_config query cid env.pdp_rounds none s
  ]
]

-- `configureRNDISDNS`: the notes and the state behind it
unfoldable pub configure_rndis_dns :
    Env → NetPort → Text → List Text → List Text → Service → List Text × Service
unfolding add_note
configure_rndis_dns env net iface [] notes s = (notes, s)
configure_rndis_dns env net iface (d ∷ dns) notes s = elim (net.configure_dns) [
  | none ↦ (notes ++ codes "DNS warning: network repository cannot apply modem DNS" ∷ [], s)
  | some configure ↦
      let r = configure s.calls iface (d ∷ dns) in
      let noted = add_note r.out notes in
      let warned : List Text = elim (r.fault) [
        | none ↦ noted
        | some e ↦ noted ++ (codes "DNS warning: " ++ env.error_text e) ∷ []
      ] in
      (warned, record_call (Ports.configure_dns iface (d ∷ dns)) s)
]

-- the address in front of the prefix: `strings.SplitN(cidr, "/", 2)[0]`
unfoldable pub before_slash : Text → Text
before_slash [] = []
before_slash (c ∷ s) = if c == b'/' then [] else c ∷ before_slash s

-- the session with what the modem reported
unfoldable pub with_config : WanIpConfig → PdpSession → PdpSession
unfolding before_slash
with_config cfg pdp = record {
  cid = pdp.cid;
  ip = if is_empty pdp.ip then before_slash cfg.address_cidr else pdp.ip;
  dns1 = get_or cfg.dns 0 pdp.dns1;
  dns2 = get_or cfg.dns 1 pdp.dns2;
  gateway = cfg.gateway;
}

-- DHCP, the last part of `connectRNDISConfigured`
unfoldable pub connect_dhcp : NetPort → Text → List Text → Service → Outcome
unfolding add_note joined set_wan_method
connect_dhcp net iface notes s =
    let r = net.connect_rndis s.calls iface in
    let noted = add_note r.out notes in
    let s' = record_call (Ports.rndis_connect iface) s in
    elim (r.fault) [
      | some e ↦ (joined noted, some e, s')
      | none ↦ (joined noted, none, set_wan_method WanMethod.dhcp s')
    ]

-- where the static configuration fails: the end for the static method, and DHCP for `auto`
unfoldable pub fall_back : NetPort → Text → DataMethod → List Text → Fault → Service → Outcome
unfolding connect_dhcp
fall_back net iface DataMethod.static notes e s = (joined notes, some e, s)
fall_back net iface _ notes e s = connect_dhcp net iface notes s

-- the static configuration with what the modem reported
unfoldable pub connect_static :
    Env → NetPort → Text → DataMethod → PdpSession → WanIpConfig → List Text → Service → Outcome
unfolding fall_back configure_rndis_dns with_config cache_pdp_session set_wan_method joined add_note
connect_static env net iface method pdp cfg notes s =
    let r = net.connect_rndis_static s.calls iface cfg.address_cidr cfg.gateway in
    let noted = add_note r.out notes in
    let s1 = record_call (Ports.rndis_static iface cfg.address_cidr cfg.gateway) s in
    elim (r.fault) [
      | some e ↦
          fall_back net iface method (noted ++ (codes "static: " ++ env.error_text e) ∷ []) e s1
      | none ↦
          let s2 = cache_pdp_session (with_config cfg pdp) s1 in
          let (noted', s3) = configure_rndis_dns env net iface cfg.dns noted s2 in
          let last =
            codes "RNDIS "
            ++ (cfg.address_cidr
                ++ (codes " via " ++ (cfg.gateway ++ codes " (modem-reported)"))) in
          (joined (noted' ++ last ∷ []), none, set_wan_method WanMethod.static s3)
    ]

-- the address of the host interface, by the method
unfoldable pub configure_address :
    Env → NetPort → Text → DataMethod → ℤ → PdpSession → List Text → Service → Outcome
unfolding connect_static connect_dhcp fall_back
configure_address env net iface DataMethod.dhcp cid pdp notes s = connect_dhcp net iface notes s
configure_address env net iface method cid pdp notes s =
    let (found, s1) = wait_rndis_ip_config env cid s in
    elim found [
      | ok cfg ↦ connect_static env net iface method pdp cfg notes s1
      | err e ↦
          fall_back net iface method (notes ++ (codes "modem config: " ++ env.error_text e) ∷ []) e
            s1
    ]

-- behind a successful activation: the notes on the session, and its cache
unfoldable pub note_session : Env → PdpSession → Option Fault → Service → List Text × Service
unfolding cache_pdp_session
note_session env pdp e s =
    let noted : List Text = elim e [
      | none ↦ []
      | some f ↦ (codes "PDP telemetry: " ++ env.error_text f) ∷ []
    ] in
    if is_empty pdp.ip
    then (noted, s)
    else (noted ++ (codes "PDP " ++ pdp.ip) ∷ [], cache_pdp_session pdp s)

-- `connectRNDISConfigured`
unfoldable pub connect_rndis_configured : Env → NetPort → Text → Text → ℤ → Service → Outcome
unfolding activate_and_query note_session configure_address
connect_rndis_configured env net iface raw_method cid0 s =
    let cid = default_cid cid0 in
    elim (parse_data_method raw_method) [
      | none ↦ ([], some (Ports.invalid_method raw_method), s)
      | some method ↦ elim (env.at) [
        | none ↦ configure_address env net iface method cid no_pdp [] s
        | some p ↦
            let (failed, pdp, query_fault, s1) = activate_and_query p cid s in
            let (notes, s2) = note_session env pdp query_fault s1 in
            elim failed [
              | some e ↦ ([], some (Ports.pdp_activation cid e), s1)
              | none ↦ configure_address env net iface method cid pdp notes s2
            ]
      ]
    ]
