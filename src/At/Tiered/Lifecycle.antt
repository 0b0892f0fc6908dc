-- ===== src/At/Tiered/Lifecycle.antt =====
-- internal/repository/at_client.go and at_tiered.go: the port through any sequence of operations.
use proton5g.Base.{
  ℕ, false, not, ◌&&◌, List, [], ◌∷◌, Option, none, some, if_cases, Text, codes, is_empty, same,
}
use proton5g.Base.Int.{ℤ}
use proton5g.Domain.{PdpSession, no_pdp}
use proton5g.Domain.Enums.Rat.{RatModePref}
use proton5g.At.Info.{parse_iccid}
use proton5g.At.Serial.{
  AtEnv, Client, Outcome, done, failed, close_client, rename_port, connect, ensure_connected,
}
use proton5g.At.Serial.Lifecycle.{
  Sound, close_client-Sound, rename_port-Sound, connect-Sound, ensure_connected-Sound,
}
use proton5g.At.Client.{
  continue, ask, raw_at, get_usb_mode, query_pdp, activate_pdp, deactivate_pdp, set_apn,
  set_rat_mode, set_usb_mode,
}
use proton5g.At.Client.Commands.{cid_or_one, cmd_cgact_set, cmd_cgdcont_set}
use proton5g.At.Tiered.{
  Tiered, set_port, with_cache, query, refresh, retry_iccid, after_ccid, query_iccid, refresh_slow,
  with_cid, refresh_medium, refresh_slow_at, refresh_medium_at, is_due, fast_queries, Fast,
  ensure_open, after_fast, full_status, set_apn_tiered, set_rat_tiered, set_usb_mode_tiered,
  activate_pdp_tiered, deactivate_pdp_tiered, after_query, query_pdp_tiered, put_temp,
  invalidate_slow, invalidate_medium,
}
use proton5g.At.Tiered.Answers.{put_iccid, put_cops, with_answer}
use proton5g.At.Tiered.Cached.{Cache, empty_cache, slow_interval, medium_interval}
use proton5g.At.Client.Sound.{
  Keeping, keeping, raw_at-Keeping, get_usb_mode-Keeping, continue-Sound, bind-Keeping, ask-Keeping,
  sent, given, query_pdp-Keeping, command-Keeping, activate_pdp-Keeping, set_rat_mode-Keeping,
  set_usb_mode-Keeping,
}

module _ (env : AtEnv) where
  refresh-Sound :
      (f : Text → Cache → Cache) (o : Client × Outcome (Option Text)) (a : Cache)
      → Sound o.0
      → Sound (refresh env f o a).0
  unfolding refresh
  refresh-Sound f (c, done r) a s = s
  refresh-Sound f (c, failed e) a s = s

  query-Sound :
      (cmd : Text) (f : Text → Cache → Cache) (s : Client × Cache)
      → Sound s.0
      → Sound (query env cmd f s).0
  unfolding query
  query-Sound cmd f (c, a) s = refresh-Sound f (ask env cmd c) a ((ask-Keeping env cmd).after c s)

  retry_iccid-Sound :
      (o : Option Text) (s : Client × Cache) → Sound s.0 → Sound (retry_iccid env o s).0
  unfolding retry_iccid
  retry_iccid-Sound none s h = h
  retry_iccid-Sound (some resp) s h =
      if_cases (λ (r : Client × Cache). Sound r.0) (is_empty (parse_iccid resp))
        (query env (codes "AT+ICCID") put_iccid s) s
        (λ _. query-Sound (codes "AT+ICCID") put_iccid s h) (λ _. h)

  after_ccid-Sound :
      (o : Client × Outcome (Option Text)) (a : Cache) → Sound o.0 → Sound (after_ccid env o a).0
  unfolding after_ccid
  after_ccid-Sound (c, done answer) a s =
      retry_iccid-Sound answer (c, with_answer put_iccid answer a) s
  after_ccid-Sound (c, failed e) a s = s

  query_iccid-Sound : (s : Client × Cache) → Sound s.0 → Sound (query_iccid env s).0
  unfolding query_iccid
  query_iccid-Sound (c, a) s =
      after_ccid-Sound (ask env (codes "AT+CCID") c) a
        ((ask-Keeping env (codes "AT+CCID")).after c s)

  refresh_slow-Sound : (s : Client × Cache) → Sound s.0 → Sound (refresh_slow env s).0
  unfolding refresh_slow
  refresh_slow-Sound s h = query-Sound _ _ _ (
      query-Sound _ _ _ (
        query-Sound _ _ _ (
          query-Sound _ _ _ (
            query-Sound _ _ _ (
              query-Sound _ _ _ (query_iccid-Sound _ (query-Sound _ _ _ (query-Sound _ _ _ h))))))))

  with_cid-Sound : (s : Client × Cache) → Sound s.0 → Sound (with_cid s).0
  unfolding with_cid
  with_cid-Sound (c, a) h = h

  refresh_medium-Sound : (s : Client × Cache) → Sound s.0 → Sound (refresh_medium env s).0
  unfolding refresh_medium
  refresh_medium-Sound s h =
      let s2 =
        query env (codes "AT+GTSENRDTEMP=1") (put_temp env)
          (query env (codes "AT+COPS?") put_cops s) in
      query-Sound _ _ _
        (query-Sound _ _ _ (with_cid-Sound s2 (query-Sound _ _ _ (query-Sound _ _ _ h))))

  refresh_slow_at-Sound :
      (now : ℕ) (s : Client × Cache) → Sound s.0 → Sound (refresh_slow_at env now s).0
  unfolding refresh_slow_at
  refresh_slow_at-Sound now s h =
      let r = refresh_slow env s in
      if_cases (λ (r : Client × Cache). Sound r.0) (is_due s.1.slow_at slow_interval now)
        (r.0, record r.1 { slow_at = now }) s (λ _. refresh_slow-Sound s h) (λ _. h)

  refresh_medium_at-Sound :
      (now : ℕ) (s : Client × Cache) → Sound s.0 → Sound (refresh_medium_at env now s).0
  unfolding refresh_medium_at
  refresh_medium_at-Sound now s h =
      let r = refresh_medium env s in
      if_cases (λ (r : Client × Cache). Sound r.0) (is_due s.1.medium_at medium_interval now)
        (r.0, record r.1 { medium_at = now }) s (λ _. refresh_medium-Sound s h) (λ _. h)

  ensure_open-Keeping : Keeping (ensure_open env)
  unfolding ensure_open
  ensure_open-Keeping = keeping (λ c s.
      if_cases (λ (r : Client × Outcome Text). Sound r.0) c.is_open (c, done []) (connect env c)
        (λ _. s) (λ _. connect-Sound env c s))

  fast_queries-Keeping : Keeping (fast_queries env)
  unfolding fast_queries
  fast_queries-Keeping = bind-Keeping (sent env (codes "AT+CSQ")) (λ csq.
      bind-Keeping (ask-Keeping env (codes "AT+CESQ")) (λ cesq.
        bind-Keeping (ask-Keeping env (codes "AT+C5GREG?")) (λ c5g.
          bind-Keeping (ask-Keeping env (codes "AT+CEREG?")) (λ clte.
            bind-Keeping (ask-Keeping env (codes "AT+GTCAINFO?")) (λ gtca.
              bind-Keeping (ask-Keeping env (codes "AT+GTCCINFO?")) (λ gtcc. given env _))))))

  after_fast-Sound :
      (now : ℕ) (cache : Cache) (o : Client × Outcome Fast)
      → Sound o.0
      → Sound (after_fast env now cache o).0.client
  unfolding after_fast
  after_fast-Sound now cache (c, failed e) s = s
  after_fast-Sound now cache (c, done fast) s =
      refresh_medium_at-Sound now (refresh_slow_at env now (c, cache))
        (refresh_slow_at-Sound now (c, cache) s)

  full_status-Sound :
      (now : ℕ) (t : Tiered) → Sound t.client → Sound (full_status env now t).0.client
  unfolding full_status
  full_status-Sound now t s =
      after_fast-Sound now t.cache (continue (ensure_open env t.client) (λ _. fast_queries env)) (
        continue-Sound (ensure_open env t.client) (λ _. fast_queries env)
          (ensure_open-Keeping.after t.client s) (λ _. fast_queries-Keeping))

  with_cache-Sound :
      (cache : Cache) (f : Cache → Cache) (o : Client × Outcome Text)
      → Sound o.0
      → Sound (with_cache cache f o).0.client
  with_cache-Sound cache f (c, done a) s = s
  with_cache-Sound cache f (c, failed e) s = s

  after_query-Sound :
      (now : ℕ) (cache : Cache) (o : Client × Outcome PdpSession)
      → Sound o.0
      → Sound (after_query env now cache o).0.client
  unfolding after_query
  after_query-Sound now cache (c, failed e) s = s
  after_query-Sound now cache (c, done sess) s = s

-- a call of one of the operations of a tiered client, with the time where it reads the clock
pub data Op : Type 0 where
  polling : ℕ → Op
  renaming : Text → Op
  closing : Op
  apn_change : ℤ → Text → Text → Op
  rat_change : RatModePref → Op
  usb_change : ℤ → Op
  activation : ℤ → Op
  deactivation : ℤ → Op
  pdp_query : ℤ → ℕ → Op
  usb_query : Op
  connecting : Op
  raw_command : Text → Op

set_port-Sound : (name : Text) (t : Tiered) → Sound t.client → Sound (set_port name t).client
unfolding set_port
set_port-Sound name t s =
    let client = rename_port name t.client in
    if_cases (λ (t : Tiered). Sound t.client)
      (not (is_empty name) && not (same name t.client.port_name))
      (record { client = client; cache = empty_cache }) (record t { client = client })
      (λ _. rename_port-Sound name t.client s) (λ _. rename_port-Sound name t.client s)

module _ (env : AtEnv) where
  pub perform : Op → Tiered → Tiered
  perform (polling now) t = (full_status env now t).0
  perform (renaming name) t = set_port name t
  perform closing t = record t { client = close_client t.client }
  perform (apn_change cid pdp apn) t = (set_apn_tiered env cid pdp apn t).0
  perform (rat_change pref) t = (set_rat_tiered env pref t).0
  perform (usb_change mode) t = (set_usb_mode_tiered env mode t).0
  perform (activation cid) t = (activate_pdp_tiered env cid t).0
  perform (deactivation cid) t = (deactivate_pdp_tiered env cid t).0
  perform (pdp_query cid now) t = (query_pdp_tiered env cid now t).0
  perform usb_query t = record t { client = (get_usb_mode env t.client).0 }
  perform connecting t = record t { client = (ensure_connected env t.client).0 }
  perform (raw_command cmd) t = record t { client = (raw_at env cmd t.client).0 }

  pub perform_all : List Op → Tiered → Tiered
  perform_all [] t = t
  perform_all (op ∷ ops) t = perform_all ops (perform op t)

  perform-Sound : (op : Op) (t : Tiered) → Sound t.client → Sound (perform op t).client
  unfolding perform set_apn_tiered set_rat_tiered set_usb_mode_tiered activate_pdp_tiered
      deactivate_pdp_tiered query_pdp_tiered set_apn deactivate_pdp
  perform-Sound (polling now) t s = full_status-Sound env now t s
  perform-Sound (renaming name) t s = set_port-Sound name t s
  perform-Sound closing t s = close_client-Sound t.client s
  perform-Sound (apn_change cid pdp apn) t s =
      with_cache-Sound env t.cache invalidate_slow (set_apn env cid pdp apn t.client)
        ((command-Keeping env (cmd_cgdcont_set cid pdp apn)).after t.client s)
  perform-Sound (rat_change pref) t s =
      with_cache-Sound env t.cache invalidate_slow (set_rat_mode env pref t.client)
        ((set_rat_mode-Keeping env pref).after t.client s)
  perform-Sound (usb_change mode) t s =
      with_cache-Sound env t.cache (λ _. empty_cache) (set_usb_mode env mode t.client)
        ((set_usb_mode-Keeping env mode).after t.client s)
  perform-Sound (activation cid) t s =
      with_cache-Sound env t.cache invalidate_medium (activate_pdp env cid t.client)
        ((activate_pdp-Keeping env cid).after t.client s)
  perform-Sound (deactivation cid) t s =
      with_cache-Sound env t.cache
        (λ cache. invalidate_medium (record cache { pdp = record no_pdp { cid = cid_or_one cid } }))
        (deactivate_pdp env cid t.client)
        ((command-Keeping env (cmd_cgact_set cid false)).after t.client s)
  perform-Sound (pdp_query cid now) t s =
      after_query-Sound env now t.cache (query_pdp env cid t.client)
        ((query_pdp-Keeping env cid).after t.client s)
  perform-Sound usb_query t s = (get_usb_mode-Keeping env).after t.client s
  perform-Sound connecting t s = ensure_connected-Sound env t.client s
  perform-Sound (raw_command cmd) t s = (raw_at-Keeping env cmd).after t.client s

  -- Take any sequence of these operations of a tiered client: `EnsureConnected`, `RawAT`, `Close`, `SetPortName`,
  -- `GetFullStatus`, `SetAPN`, `SetRATMode`, `GetUSBMode`, `SetUSBMode`, `ActivatePDP`, `DeactivatePDP` and
  -- `QueryPDP`. Whatever the serial library answers, a client that knows whether its port is open, and whose actions
  -- on it were orderly (opened and tried to be opened only while closed; written to and closed only while
  -- open), stays such a client. The operations on text messages and `QueryPDPIPConfig` are not among them.
  pub perform_all-Sound :
      (ops : List Op) (t : Tiered) → Sound t.client → Sound (perform_all ops t).client
  unfolding perform_all
  perform_all-Sound [] t s = s
  perform_all-Sound (op ∷ ops) t s = perform_all-Sound ops (perform op t) (perform-Sound op t s)
