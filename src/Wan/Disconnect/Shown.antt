-- ===== src/Wan/Disconnect/Shown.antt =====
-- internal/usecase/wan_service.go: what the status shows behind an RNDIS disconnection.
use proton5g.Base.{
  Bool, true, false, [], none, some, ◌≡◌, ◌≢◌, ◌⊎◌, inl, inr, refl, ap, ◌∙◌, sym, arith, Bool-cases,
  Option-cases, if_cases, if◌then◌else◌, Text, codes, is_empty, same, trim_space, to_lower,
}
use proton5g.Base.Int.{ℤ}
use proton5g.Domain.{DataConnectRequest, WanInfo, WanSession}
use proton5g.Domain.Modes.{DataMode, parse_data_mode}
use proton5g.Ports.{Env, Fault}
use proton5g.Service.{Service}
use proton5g.Service.Session.{
  data_disconnect, disconnect_by, disconnect_endpoint, mark_disconnected,
}
use proton5g.Wan.{
  WanService, live_wan, decorate_status, cached_status, set_overrides, clear_overrides,
}
use proton5g.Wan.Endpoint.{Endpoint}
use proton5g.Wan.Disconnect.{drop_rndis, deactivate}

some_ne_none : (e : Fault) → some e ≢ none
some_ne_none e h = ground arith

-- two data sessions that are shown alike, but for what the poller samples
abbrev pub Alike : WanInfo → WanInfo → Type 0
Alike a b = (a.iface ≡ b.iface) × (a.method ≡ b.method) × (a.session ≡ b.session)

live_wan-Alike : (wan sampled : WanInfo) → Alike (live_wan wan sampled) wan
unfolding live_wan
live_wan-Alike wan sampled =
    if_cases (λ k. Alike k wan) _ _ _ (λ _. (refl, refl, refl)) (λ _. (refl, refl, refl))

-- the request that `DataDisconnect` passes on
abbrev pub rndis_request : Text → DataConnectRequest
rndis_request iface = record { mode = codes "rndis"; iface = iface; apn = []; method = [] }

disconnect_by-session :
    (env : Env) (iface : Text) (s : Service)
    → (disconnect_by env DataMode.rndis iface s).1 ≡ none
    → (disconnect_by env DataMode.rndis iface s).2.status.wan.session ≡ WanSession.disconnected
unfolding disconnect_by mark_disconnected
disconnect_by-session env iface s h = elim (Bool-cases (is_empty iface)) [
  | inl unnamed ↦ absurd (some_ne_none _ (rw (unnamed, disconnect_by) at h))
  | inr named ↦ elim (Option-cases env.net) [
    | inl missing ↦ absurd (some_ne_none _ (rw (named, missing, disconnect_by) at h))
    | inr (net, present) ↦ rw (named, present, disconnect_by) refl
  ]
]

parse_rndis : parse_data_mode (codes "rndis") ≡ some DataMode.rndis
unfolding parse_data_mode to_lower trim_space same
parse_rndis = refl

-- both targets are in RNDIS mode
either_target :
    (env : Env) (b : Bool) (x y : Text) (s : Service)
    → let chosen : DataMode × Text = if b then (DataMode.rndis, x) else (DataMode.rndis, y) in
      (target : Text) × (disconnect_by env chosen.0 chosen.1 s
        ≡ disconnect_by env DataMode.rndis target s)
either_target env true x y s = (x, refl)
either_target env false x y s = (y, refl)

data_disconnect-rndis :
    (env : Env) (iface : Text) (s : Service)
    → (target : Text) × (data_disconnect env (rndis_request iface) s
        ≡ disconnect_by env DataMode.rndis target s)
unfolding data_disconnect disconnect_endpoint
data_disconnect-rndis env iface s =
    rw (parse_rndis, data_disconnect)
      (either_target env (is_empty (trim_space iface)) s.selected_net (trim_space iface) s)

data_disconnect-session :
    (env : Env) (iface : Text) (s : Service)
    → (data_disconnect env (rndis_request iface) s).1 ≡ none
    → (data_disconnect env (rndis_request iface) s).2.status.wan.session ≡ WanSession.disconnected
data_disconnect-session env iface s h =
    let (target, step) = data_disconnect-rndis env iface s in
    rw step (disconnect_by-session env target s (rw step at h))

deactivate-shown :
    (env : Env) (out : Text) (cid : ℤ) (w : WanService)
    → (cached_status (deactivate env out cid w).2).wan ≡ (cached_status w).wan
unfolding deactivate cached_status decorate_status
deactivate-shown env out cid w = elim (Option-cases env.at) [
  | inl missing ↦ rw (missing, deactivate) refl
  | inr (p, present) ↦ elim (Option-cases p.deactivate_pdp) [
    | inl missing ↦ rw (present, missing, deactivate) refl
    | inr (run, can) ↦ elim (Option-cases (run w.service.calls cid)) [
      | inl done ↦ rw (present, can, done, deactivate) refl
      | inr (e, failed) ↦ rw (present, can, failed, deactivate) refl
    ]
  ]
]

-- An RNDIS session is taken down. Where the service reports a fault, the status shows the session with
-- the interface, the method and the state that it showed before. Where the service reports none, the
-- status shows the session as disconnected, whether or not the PDP context could be deactivated after that.
pub drop_rndis-shown :
    (env : Env) (endpoint : Endpoint) (w : WanService)
    → let (_, e, _) = data_disconnect env (rndis_request endpoint.host_iface) w.service in
      let after = (drop_rndis env endpoint w).2 in
      ((e ≢ none) × Alike (cached_status after).wan (cached_status w).wan)
      ⊎ ((e ≡ none) × ((cached_status after).wan.session ≡ WanSession.disconnected))
unfolding drop_rndis
drop_rndis-shown env endpoint w =
    let before = (cached_status w).wan in
    let out = (data_disconnect env (rndis_request endpoint.host_iface) w.service).0 in
    let s = (data_disconnect env (rndis_request endpoint.host_iface) w.service).2 in
    elim (Option-cases (data_disconnect env (rndis_request endpoint.host_iface) w.service).1) [
      | inr (e, failed) ↦ inl (
        (λ none_there. some_ne_none e (sym failed ∙ none_there)),
        rw (failed, drop_rndis)
            (unfold cached_status decorate_status set_overrides in
              live_wan-Alike before s.status.wan),
      )
      | inl done ↦ inr (
        done,
        rw (done, drop_rndis)
            (ap (λ wan. wan.session)
                (deactivate-shown env out endpoint.cid (clear_overrides (record w { service = s })))
              ∙ (unfold cached_status decorate_status clear_overrides in
                  data_disconnect-session env endpoint.host_iface w.service done)),
      )
    ]
