-- ===== src/Wan/Connect.antt =====
-- internal/usecase/wan_service.go: `DataConnect`, `MBIMConnect` and `connectMBIM`.
pub mod Rollback
use proton5g.Base.{
  ℕ, zero, suc, Bool, true, false, not, ◌&&◌, ◌||◌, List, [], ◌∷◌, ◌++◌, Option, none, some,
  if◌then◌else◌, Text, codes, is_empty, trim_space, join_lines, Result, ok, err, get_or,
}
use proton5g.Base.Int.{ℤ, pos, pos_part, ltb_ℤ}
use proton5g.Base.{itoa}
use proton5g.Domain.{DataConnectRequest, PdpSession, WanInfo, WanIpConfig, WanSession, no_wan}
use proton5g.Domain.Modes.{DataMode}
use proton5g.Ports
use proton5g.Ports.{Env, Fault, History, NetPort}
use proton5g.Service.{Service, record_call, default_cid}
use proton5g.Service.Data.{joined, add_note, mbim_connect, mbim_disconnect}
use proton5g.Service.Session.{data_connect}
use proton5g.Wan.{WanService, set_overrides, clear_overrides}
use proton5g.Wan.Endpoint.{Endpoint, resolve_data_endpoint}

abbrev pub WanOutcome : Type 0
WanOutcome = Text × Option Fault × WanService

-- `joinWANOutput`: the parts that are not blank
unfoldable pub nonblank : List Text → List Text
nonblank [] = []
nonblank (p ∷ ps) = if is_empty (trim_space p) then nonblank ps else trim_space p ∷ nonblank ps

unfoldable pub join_wan_output : List Text → Text
join_wan_output parts = join_lines (nonblank parts)

-- `queryErr == nil && cfg.Valid()`
abbrev pub valid_config : WanIpConfig → Option Fault → Bool
valid_config cfg (some _) = false
valid_config cfg none = not (is_empty cfg.address_cidr)

-- the attempts at the configuration, with those left after this one
unfoldable pub query_attempts :
    (History → Text → WanIpConfig × Option Fault)
    → Text
    → ℕ
    → Service
    → WanIpConfig × Option Fault × Service
query_attempts query device zero s =
    let (cfg, e) = query s.calls device in (cfg, e, record_call (Ports.mbim_query device) s)
query_attempts query device (suc left) s =
    let (cfg, e) = query s.calls device in
    let s' = record_call (Ports.mbim_query device) s in
    let rest = query_attempts query device left s' in
    if valid_config cfg e then (cfg, e, s') else rest

-- the bearer is dropped, and the error is reported
unfoldable pub roll_back : Env → Text → Text → Fault → WanService → WanOutcome
roll_back env device out e w =
    let (_, _, s) = mbim_disconnect env device w.service in (out, some e, record w { service = s })

-- the DNS servers of the configuration, where the host can take them
unfoldable pub apply_dns :
    Env → NetPort → Text → List Text → List Text → Service → List Text × Service
apply_dns env net host [] notes s = (notes, s)
apply_dns env net host (d ∷ dns) notes s = elim (net.configure_dns) [
  | none ↦ (notes, s)
  | some configure ↦
      let r = configure s.calls host (d ∷ dns) in
      let noted = add_note r.out notes in
      let warned : List Text = elim (r.fault) [
        | none ↦ noted
        | some e ↦ noted ++ (codes "DNS warning: " ++ env.error_text e) ∷ []
      ] in
      (warned, record_call (Ports.configure_dns host (d ∷ dns)) s)
]

-- the session that is shown for the bearer
unfoldable pub bearer_session : Env → WanIpConfig → ℤ → PdpSession
bearer_session env cfg cid = record {
  cid = cid;
  ip = elim (env.cidr_address cfg.address_cidr) [ none ↦ [] | some ip ↦ ip ];
  dns1 = get_or cfg.dns 0 [];
  dns2 = get_or cfg.dns 1 [];
  gateway = cfg.gateway;
}

-- a text in front of the notes, unless it is empty
abbrev noted_output : Text → List Text
noted_output out = if is_empty out then [] else trim_space out ∷ []

-- what follows the configuration of the host interface
unfoldable pub finish_mbim :
    Env → NetPort → Text → Text → Text → WanIpConfig → WanService → WanOutcome
finish_mbim env net host out ip_out cfg w =
    let (notes, s) =
      apply_dns env net host cfg.dns (noted_output out ++ noted_output ip_out) w.service in
    let notes' =
      if ltb_ℤ (pos 0) cfg.mtu
      then notes ++ (codes "MBIM reported MTU " ++ itoa (pos_part cfg.mtu)) ∷ []
      else notes in
    let wan = record no_wan { iface = host; session = WanSession.connected } in
    (
      joined notes',
      none,
      set_overrides wan (bearer_session env cfg (default_cid s.status.apn.cid)) true
          (record w { service = s }),
    )

-- the configuration of the host interface
unfoldable pub configure_host : Env → Text → Text → Text → WanIpConfig → WanService → WanOutcome
configure_host env device host out cfg w = elim (env.net) [
  | none ↦ roll_back env device out Ports.host_config_unsupported w
  | some net ↦ elim (net.configure_static) [
    | none ↦ roll_back env device out Ports.host_config_unsupported w
    | some configure ↦
        let r = configure w.service.calls host cfg.address_cidr cfg.gateway in
        let w' = record w {
          service =
              record_call (Ports.configure_static host cfg.address_cidr cfg.gateway) w.service;
        } in
        elim (r.fault) [
          | some e ↦
              roll_back env device (join_wan_output (out ∷ r.out ∷ [])) (Ports.host_configuration e)
                w'
          | none ↦ finish_mbim env net host out r.out cfg w'
        ]
  ]
]

-- the configuration that the bearer reports, if it can
abbrev pub ip_config_provider : Env → Option (History → Text → WanIpConfig × Option Fault)
ip_config_provider env = elim (env.mbim) [ none ↦ none | some p ↦ p.query_ip_config ]

-- behind a bearer that is up
unfoldable pub with_bearer : Env → Text → Text → Text → WanService → WanOutcome
with_bearer env device host out w = elim (ip_config_provider env) [
  | none ↦ roll_back env device out Ports.ip_config_unsupported w
  | some query ↦
      let (cfg, e, s) = query_attempts query device 2 w.service in
      let w' = record w { service = s } in
      elim e [
        | some f ↦ roll_back env device out f w'
        | none ↦
            if is_empty cfg.address_cidr
            then roll_back env device out Ports.ip_config_missing w'
            else configure_host env device host out cfg w'
      ]
]

-- `connectMBIM`
unfoldable pub connect_mbim : Env → Text → Text → Text → WanService → WanOutcome
connect_mbim env device host apn w =
    let (out, e, s) = mbim_connect env device apn w.service in
    elim e [
      | some f ↦ (out, some f, record w { service = s })
      | none ↦ with_bearer env device host out (record w { service = s })
    ]

-- the overrides go with a connection that succeeds
unfoldable pub after_connect : Option Fault → WanService → WanService
after_connect none w = clear_overrides w
after_connect (some _) w = w

-- the endpoint that a request resolved to is brought up
unfoldable pub connect_endpoint :
    Env → DataConnectRequest → DataMode → Endpoint → WanService → WanOutcome
connect_endpoint env req DataMode.mbim endpoint w =
    connect_mbim env endpoint.control endpoint.host_iface endpoint.apn w
connect_endpoint env req _ endpoint w =
    let (out, e, s) =
      data_connect env (record req { mode = codes "rndis"; iface = endpoint.host_iface })
        w.service in
    (out, e, after_connect e (record w { service = s }))

-- `DataConnect`
unfoldable pub wan_data_connect : Env → DataConnectRequest → WanService → WanOutcome
wan_data_connect env req w =
    let (found, s) = resolve_data_endpoint env req w.service in
    elim found [
      | err e ↦ ([], some e, record w { service = s })
      | ok endpoint ↦ connect_endpoint env req endpoint.mode endpoint (record w { service = s })
    ]

-- `MBIMConnect`
unfoldable pub wan_mbim_connect : Env → Text → Text → WanService → WanOutcome
wan_mbim_connect env device apn w =
    let (found, s) =
      resolve_data_endpoint env
        (record { mode = codes "mbim"; iface = device; apn = apn; method = [] }) w.service in
    elim found [
      | err e ↦ ([], some e, record w { service = s })
      | ok endpoint ↦
          connect_mbim env endpoint.control endpoint.host_iface endpoint.apn
            (record w { service = s })
    ]
