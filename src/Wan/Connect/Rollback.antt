-- ===== src/Wan/Connect/Rollback.antt =====
-- internal/usecase/wan_service.go: what `connectMBIM` leaves behind, when it succeeds and when it fails.
use proton5g.Base.{
  ℕ, zero, suc, true, false, List, [], ◌∷◌, ◌++◌, Option, none, some, ◌≡◌, ◌⊎◌, inl, inr, refl,
  Bool-cases, Option-cases, Text, is_empty, ap, sym, if_cases,
}
use mathlib.Core.Path.{subst}
use proton5g.Domain.{WanIpConfig, WanSession, no_wan}
use proton5g.Ports
use proton5g.Ports.{Env, Fault, History, MbimPort, NetPort, Reply}
use proton5g.Service.{Service, record_call, default_cid}
use proton5g.Service.Data.{mbim_connect, mbim_disconnect}
use proton5g.Wan.{WanService, set_overrides}
use proton5g.Wan.Connect.{
  WanOutcome, query_attempts, roll_back, apply_dns, bearer_session, finish_mbim, configure_host,
  ip_config_provider, with_bearer, connect_mbim, valid_config,
}

-- The outcome reports a fault, its last call took the bearer of `device` down, and the overrides are
-- those of `w`.
abbrev pub Undone : Text → WanService → WanOutcome → Type 0
Undone device w (out, e, w') =
    ((f : Fault) × (e ≡ some f))
    × ((earlier : History) × (w'.service.calls ≡ Ports.mbim_disconnect device ∷ earlier))
    × (w'.wan_override ≡ w.wan_override)
    × (w'.has_wan ≡ w.has_wan)
    × (w'.pdp_override ≡ w.pdp_override)
    × (w'.has_pdp ≡ w.has_pdp)

-- The modem was asked for the configuration of its bearer, and answered `cfg`, with a nonempty address; in
-- the next call the host gave `host` the address and the gateway of `cfg`, and reported no fault.
pub record Configured (env : Env) (device host : Text) (cfg : WanIpConfig) (calls : History)
    : Type 0 where
  pub query : History → Text → WanIpConfig × Option Fault
  pub can_query : ip_config_provider env ≡ some query
  pub asked : History
  pub answered : query asked device ≡ (cfg, none)
  pub usable : is_empty cfg.address_cidr ≡ false
  pub net : NetPort
  pub has_net : env.net ≡ some net
  pub configure : History → Text → Text → Text → Reply
  pub can_configure : net.configure_static ≡ some configure
  pub accepted :
      (configure (Ports.mbim_query device ∷ asked) host cfg.address_cidr cfg.gateway).fault ≡ none
  pub later : History
  pub made :
      calls
      ≡ later
        ++ Ports.configure_static host cfg.address_cidr cfg.gateway
          ∷ Ports.mbim_query device
          ∷ asked

-- The outcome reports no fault, `host` was configured as the modem answered, and the overrides show it
-- connected, with a session of that answer.
abbrev pub Connected : Env → Text → Text → WanOutcome → Type 0
Connected env device host (out, e, w') =
    (e ≡ none)
    × (cfg : WanIpConfig) × Configured env device host cfg w'.service.calls
    × (w'.wan_override ≡ record no_wan { iface = host; session = WanSession.connected })
    × (w'.has_wan ≡ true)
    × (w'.pdp_override ≡ bearer_session env cfg (default_cid w'.service.status.apn.cid))
    × (w'.has_pdp ≡ true)

-- The last call was the query, and the modem answered `cfg`.
abbrev Asked : (History → Text → WanIpConfig × Option Fault) → Text → WanIpConfig → History → Type 0
Asked query device cfg calls =
    (asked : History) × (query asked device ≡ (cfg, none))
    × (calls ≡ Ports.mbim_query device ∷ asked)

-- the attempts end with the answer that they return
query_attempts-Asked :
    (query : History → Text → WanIpConfig × Option Fault) (device : Text) (left : ℕ) (s : Service)
    → (query_attempts query device left s).1 ≡ none
    → Asked query device
        (query_attempts query device left s).0
        (query_attempts query device left s).2.calls
unfolding query_attempts
query_attempts-Asked query device zero s h =
    (s.calls, ap (λ e. ((query s.calls device).0, e)) h, refl)
query_attempts-Asked query device (suc left) s h =
    let cfg = (query s.calls device).0 in
    let e = (query s.calls device).1 in
    let s' = record_call (Ports.mbim_query device) s in
    if_cases
      (λ (r : WanIpConfig × Option Fault × Service). r.1 ≡ none → Asked query device r.0 r.2.calls)
      (valid_config cfg e) (cfg, e, s') (query_attempts query device left s')
      (λ _ done. (s.calls, ap (λ e. (cfg, e)) done, refl))
      (λ _. query_attempts-Asked query device left s') h

module _ (env : Env) (p : MbimPort) (present : env.mbim ≡ some p) (device : Text)
    (named : is_empty device ≡ false) where
  disconnect_calls :
      (s : Service)
      → (mbim_disconnect env device s).2.calls ≡ Ports.mbim_disconnect device ∷ s.calls
  unfolding mbim_disconnect
  disconnect_calls s = rw (present, named, mbim_disconnect) refl

  roll_back-Undone :
      (out : Text) (e : Fault) (w : WanService) → Undone device w (roll_back env device out e w)
  unfolding roll_back
  roll_back-Undone out e w =
      ((e, refl), (w.service.calls, disconnect_calls w.service), refl, refl, refl, refl)

  -- what is made of the DNS servers comes behind all calls before
  apply_dns-later :
      (net : NetPort) (host : Text) (dns notes : List Text) (s : Service)
      → (later : History) × ((apply_dns env net host dns notes s).1.calls ≡ later ++ s.calls)
  unfolding apply_dns
  apply_dns-later net host [] notes s = ([], refl)
  apply_dns-later net host (d ∷ dns) notes s = elim (Option-cases net.configure_dns) [
    | inl missing ↦ rw (missing, apply_dns) ([], refl)
    | inr (configure, can) ↦ rw (can, apply_dns) (Ports.configure_dns host (d ∷ dns) ∷ [], refl)
  ]

  finish_mbim-Connected :
      (net : NetPort) (host out ip_out : Text) (cfg : WanIpConfig) (w : WanService)
      → ((later : History) → Configured env device host cfg (later ++ w.service.calls))
      → Connected env device host (finish_mbim env net host out ip_out cfg w)
  unfolding finish_mbim set_overrides
  finish_mbim-Connected net host out ip_out cfg w configured =
      let (later, behind) = apply_dns-later net host cfg.dns _ w.service in
      (
        refl,
        cfg,
        subst (Configured env device host cfg) (sym behind) (configured later),
        refl,
        refl,
        refl,
        refl,
      )

  configure_host-accepted :
      (host out : Text) (cfg : WanIpConfig) (w : WanService) (net : NetPort)
      → env.net ≡ some net
      → (configure : History → Text → Text → Text → Reply) → net.configure_static ≡ some configure
      → (configure w.service.calls host cfg.address_cidr cfg.gateway).fault ≡ none
      → configure_host env device host out cfg w
        ≡ finish_mbim env net host out
            (configure w.service.calls host cfg.address_cidr cfg.gateway).out
            cfg
            (record w {
              service =
                  record_call (Ports.configure_static host cfg.address_cidr cfg.gateway) w.service;
            })
  unfolding configure_host finish_mbim apply_dns bearer_session
  configure_host-accepted host out cfg w net has_net configure can done =
      rw (has_net, can, done, configure_host) refl

  configure_host-settles :
      (host out : Text) (cfg : WanIpConfig) (w : WanService)
      (query : History → Text → WanIpConfig × Option Fault)
      → ip_config_provider env ≡ some query
      → Asked query device cfg w.service.calls
      → is_empty cfg.address_cidr ≡ false
      → Undone device w (configure_host env device host out cfg w)
        ⊎ Connected env device host (configure_host env device host out cfg w)
  unfolding configure_host bearer_session
  configure_host-settles host out cfg w query can_query (asked, answered, last) usable =
      elim (Option-cases env.net) [
        | inl missing ↦ rw (missing, configure_host) (inl (roll_back-Undone out _ w))
        | inr (net, has_net) ↦ elim (Option-cases net.configure_static) [
          | inl missing ↦ rw (has_net, missing, configure_host) (inl (roll_back-Undone out _ w))
          | inr (configure, can) ↦
              let r = configure w.service.calls host cfg.address_cidr cfg.gateway in
              let w' : WanService = record w {
                service =
                    record_call (Ports.configure_static host cfg.address_cidr cfg.gateway)
                      w.service;
              } in
              elim (Option-cases r.fault) [
                | inl done ↦
                    subst (λ (o : WanOutcome). Undone device w o ⊎ Connected env device host o)
                      (sym (configure_host-accepted host out cfg w net has_net configure can done))
                      (inr (
                        finish_mbim-Connected net host out r.out cfg w' (λ later. record {
                          query = query;
                          can_query = can_query;
                          asked = asked;
                          answered = answered;
                          usable = usable;
                          net = net;
                          has_net = has_net;
                          configure = configure;
                          can_configure = can;
                          accepted =
                              subst
                                (λ (k : History).
                                  (configure k host cfg.address_cidr cfg.gateway).fault ≡ none)
                                last done;
                          later = later;
                          made =
                              ap
                                (λ (k : History).
                                  later
                                  ++ Ports.configure_static host cfg.address_cidr cfg.gateway ∷ k)
                                last;
                        })))
                | inr (e, failed) ↦
                    rw (has_net, can, failed, configure_host) (inl (roll_back-Undone _ _ w'))
              ]
        ]
      ]

  with_bearer-settles :
      (host out : Text) (w : WanService)
      → Undone device w (with_bearer env device host out w)
        ⊎ Connected env device host (with_bearer env device host out w)
  unfolding with_bearer bearer_session
  with_bearer-settles host out w = elim (Option-cases (ip_config_provider env)) [
    | inl missing ↦ rw (missing, with_bearer) (inl (roll_back-Undone out _ w))
    | inr (query, can) ↦
        let cfg = (query_attempts query device 2 w.service).0 in
        let w' : WanService = record w { service = (query_attempts query device 2 w.service).2 } in
        elim (Option-cases (query_attempts query device 2 w.service).1) [
          | inr (e, failed) ↦ rw (can, failed, with_bearer) (inl (roll_back-Undone out e w'))
          | inl done ↦ elim (Bool-cases (is_empty cfg.address_cidr)) [
            | inl missing ↦ rw (can, done, missing, with_bearer) (inl (roll_back-Undone out _ w'))
            | inr usable ↦
                rw (can, done, usable, with_bearer)
                  (configure_host-settles host out cfg w' query can
                    (query_attempts-Asked query device 2 w.service done) usable)
          ]
        ]
  ]

  -- The port of the MBIM bearer exists and the device has a name. When the port refuses the connection,
  -- `connectMBIM` reports that fault, has made that one call, and leaves the overrides as they are. When the
  -- bearer is up, one of two things holds. Either `connectMBIM` reports a fault, its last call took the
  -- bearer of that device down again, and the overrides are as before; or it reports none, and then the modem
  -- answered the query for its configuration with a nonempty address, the host accepted that address and gateway
  -- for the interface in the next call, and the overrides show it connected with the session of that answer.
  pub connect_mbim-settles :
      (host apn : Text) (w : WanService)
      → let (_, e, s) = mbim_connect env device apn w.service in
        let outcome = connect_mbim env device host apn w in
        ((f : Fault) × (e ≡ some f) × (outcome.1 ≡ some f) × (outcome.2 ≡ record w { service = s }))
        ⊎ ((e ≡ none) × (Undone device w outcome ⊎ Connected env device host outcome))
  unfolding connect_mbim
  connect_mbim-settles host apn w =
      let e = (mbim_connect env device apn w.service).1 in
      let out = (mbim_connect env device apn w.service).0 in
      let w' : WanService = record w { service = (mbim_connect env device apn w.service).2 } in
      elim (Option-cases e) [
        | inr (f, refused) ↦
            inl (f, refused, rw (refused, connect_mbim) refl, rw (refused, connect_mbim) refl)
        | inl up ↦ inr (up, rw (up, connect_mbim) (with_bearer-settles host out w'))
      ]
