-- ===== src/At/Tiered.antt =====
-- internal/repository/at_tiered.go, at_tiered_control.go and at_pdp_control.go: the client of the
-- services, which asks for slowly changing values less often. A time is a number of nanoseconds, 0 for
-- the zero time, and an argument of an operation that reads the clock. The test hooks are left out.
pub mod Cached
pub mod Answers
pub mod Steps
pub mod Tried
pub mod Refreshes
pub mod Asked
pub mod Fresh
pub mod Lifecycle
use proton5g.Base.{
  ℕ, ◌+◌, ◌-◌, ◌*◌, Bool, true, false, not, ◌&&◌, ◌||◌, List, [], ◌∷◌, Option, none, some, ltb, leb,
  ◌==◌, if◌then◌else◌, Text, codes, is_empty, same, trim_space,
}
use proton5g.Base.Int.{ℤ, pos, leb_ℤ}
use proton5g.Domain.{ApnConfig, PdpSession, ModemIdentity, AtPoll, no_pdp}
use proton5g.Domain.Enums.{pdp_ipv4v6}
use proton5g.Domain.Enums.Rat.{RatModePref}
use proton5g.At.Info.{
  Cops, unknown_operator, parse_cops_full, parse_registration, parse_cpin, parse_cimi, parse_iccid,
  parse_cgdcont, parse_gtsenrdtemp, parse_gtact, parse_info_line,
}
use proton5g.At.Info.Ips.{parse_cgpaddr, parse_gtdns}
use proton5g.At.Serial.{
  AtEnv, Client, Trouble, Outcome, done, failed, no_identity, rename_port, connect, send_raw,
}
use proton5g.At.Client.{
  M, ◌>>=◌, ◌>>◌, give, continue, or_blank, ask, query_pdp, activate_pdp, deactivate_pdp, set_apn,
  set_rat_mode, set_usb_mode,
}
use proton5g.At.Client.Polled.{Radio, radio_of, network_of}
use proton5g.At.Client.Commands.{cid_or_one, cmd_cgpaddr, cmd_gtdns}
use proton5g.At.Tiered.Cached.{Cache, empty_cache, medium_interval, slow_interval}
use proton5g.At.Tiered.Answers.{
  put_address, put_apn, put_cops, put_cpin, put_dns, put_firmware, put_iccid, put_identity,
  put_imei, put_imsi, put_maker, put_model, put_rat, unless_blank, with_answer,
}

-- `TieredClient`
pub record Tiered : Type 0 where
  pub client : Client
  pub cache : Cache

-- `TieredClient.SetPortName`
unfoldable pub set_port : Text → Tiered → Tiered
set_port name t =
    let client = rename_port name t.client in
    if not (is_empty name) && not (same name t.client.port_name)
    then record { client = client; cache = empty_cache }
    else record t { client = client }

-- an operation of the client, and what it does to the cache if it succeeds
abbrev pub with_cache : Cache → (Cache → Cache) → Client × Outcome Text → Tiered × Outcome Text
with_cache cache f (c, done a) = (record { client = c; cache = f cache }, done a)
with_cache cache f (c, failed e) = (record { client = c; cache = cache }, failed e)

-- `invalidateSlowCache`, and the invalidation of the medium tier
unfoldable pub invalidate_slow : Cache → Cache
invalidate_slow cache = record cache { slow_at = 0 }

unfoldable pub invalidate_medium : Cache → Cache
invalidate_medium cache = record cache { medium_at = cache.medium_at - medium_interval }

-- a poll is due for a tier that was refreshed at the time
unfoldable pub is_due : ℕ → ℕ → ℕ → Bool
is_due at interval now = at == 0 || leb interval (now - at)

-- the context that the PDP values are asked for
unfoldable pub with_cid : Client × Cache → Client × Cache
with_cid (c, cache) =
    (c, record cache { pdp = record cache.pdp { cid = cid_or_one cache.apn.cid } })

-- the defaults of the PDP context
unfoldable pub shown_apn : Cache → ApnConfig
shown_apn cache = record {
  cid = cid_or_one cache.apn.cid;
  pdp_type = if is_empty cache.apn.pdp_type then pdp_ipv4v6 else cache.apn.pdp_type;
  apn = cache.apn.apn;
  ip_addr = if is_empty cache.apn.ip_addr then cache.pdp.ip else cache.apn.ip_addr;
}

-- what a poll shows
unfoldable pub poll_of : Cache → Radio → Text → Text → AtPoll
unfolding shown_apn network_of
poll_of cache radio reg_5g reg_lte = record {
  signal = radio.signal;
  network =
      network_of (if is_empty (trim_space cache.operator) then unknown_operator else cache.operator)
        cache.cops_act cache.has_cops_act reg_5g reg_lte radio;
  sim = record { state = cache.sim_state; imsi = cache.imsi; iccid = cache.iccid };
  apn = shown_apn cache;
  rat_mode = cache.rat;
  identity = cache.identity;
  temp_c = cache.temp_c;
  cells = radio.cells;
  ca = radio.ca;
  pdp = cache.pdp;
}

-- the answers to the queries that every poll makes
pub record Fast : Type 0 where
  pub csq : Text
  pub cesq : Text
  pub c5g : Text
  pub clte : Text
  pub gtca : Text
  pub gtcc : Text

module _ (env : AtEnv) where
  unfoldable pub put_temp : Text → Cache → Cache
  put_temp resp cache = record cache {
    temp_c = elim (parse_gtsenrdtemp env.parse_float resp) [ none ↦ cache.temp_c | some t ↦ t ];
  }

  -- one query of a refresh
  unfoldable pub refresh :
      (Text → Cache → Cache) → Client × Outcome (Option Text) → Cache → Client × Cache
  unfolding with_answer
  refresh f (c, done answer) cache = (c, with_answer f answer cache)
  refresh f (c, failed e) cache = (c, cache)

  -- a query of the cache's owner: the command, and what its answer is put into
  unfoldable pub query : Text → (Text → Cache → Cache) → Client × Cache → Client × Cache
  unfolding refresh ask
  query cmd f (c, cache) = refresh f (ask env cmd c) cache

  -- the other command for the ICCID, after an answer without one
  unfoldable pub retry_iccid : Option Text → Client × Cache → Client × Cache
  unfolding query
  retry_iccid none s = s
  retry_iccid (some resp) s =
      if is_empty (parse_iccid resp) then query (codes "AT+ICCID") put_iccid s else s

  unfoldable pub after_ccid : Client × Outcome (Option Text) → Cache → Client × Cache
  unfolding retry_iccid with_answer
  after_ccid (c, done answer) cache = retry_iccid answer (c, with_answer put_iccid answer cache)
  after_ccid (c, failed e) cache = (c, cache)

  unfoldable pub query_iccid : Client × Cache → Client × Cache
  unfolding after_ccid ask
  query_iccid (c, cache) = after_ccid (ask env (codes "AT+CCID") c) cache

  -- `refreshSlow`
  unfoldable pub refresh_slow : Client × Cache → Client × Cache
  unfolding query query_iccid
  refresh_slow s =
      let s = query (codes "AT+CPIN?") put_cpin s in
      let s = query (codes "AT+CIMI") put_imsi s in
      let s = query_iccid s in
      let s = query (codes "AT+CGDCONT?") put_apn s in
      let s = query (codes "AT+GTACT?") put_rat s in
      let s = query (codes "AT+CGMI") (put_identity put_maker) s in
      let s = query (codes "AT+CGMM") (put_identity put_model) s in
      let s = query (codes "AT+CGMR") (put_identity put_firmware) s in
      query (codes "AT+CGSN") (put_identity put_imei) s

  -- `refreshMedium`
  unfoldable pub refresh_medium : Client × Cache → Client × Cache
  unfolding query with_cid
  refresh_medium s =
      let s = query (codes "AT+COPS?") put_cops s in
      let s = query (codes "AT+GTSENRDTEMP=1") put_temp s in
      let s = with_cid s in
      let cid = s.1.pdp.cid in
      let s = query (cmd_cgpaddr cid) put_address s in query (cmd_gtdns cid) put_dns s

  -- the two tiers, the slow one first
  unfoldable pub refresh_slow_at : ℕ → Client × Cache → Client × Cache
  unfolding refresh_slow
  refresh_slow_at now s =
      let (c, cache) = refresh_slow s in
      if is_due s.1.slow_at slow_interval now then (c, record cache { slow_at = now }) else s

  unfoldable pub refresh_medium_at : ℕ → Client × Cache → Client × Cache
  unfolding refresh_medium
  refresh_medium_at now s =
      let (c, cache) = refresh_medium s in
      if is_due s.1.medium_at medium_interval now then (c, record cache { medium_at = now }) else s

  unfoldable pub fast_queries : M Fast
  fast_queries = do
    csq ← send_raw env (codes "AT+CSQ")
    cesq ← ask env (codes "AT+CESQ")
    c5g ← ask env (codes "AT+C5GREG?")
    clte ← ask env (codes "AT+CEREG?")
    gtca ← ask env (codes "AT+GTCAINFO?")
    gtcc ← ask env (codes "AT+GTCCINFO?")
    give (record {
      csq = csq;
      cesq = or_blank cesq;
      c5g = or_blank c5g;
      clte = or_blank clte;
      gtca = or_blank gtca;
      gtcc = or_blank gtcc;
    })

  -- `TieredClient.ensureOpen`
  unfoldable pub ensure_open : M Text
  ensure_open c = if c.is_open then (c, done []) else connect env c

  -- what follows the queries of every poll
  unfoldable pub after_fast : ℕ → Cache → Client × Outcome Fast → Tiered × Outcome AtPoll
  unfolding refresh_slow_at refresh_medium_at poll_of
  after_fast now cache (c, failed e) = (record { client = c; cache = cache }, failed e)
  after_fast now cache (c, done fast) =
      let (c', cache') = refresh_medium_at now (refresh_slow_at now (c, cache)) in
      (
        record { client = c'; cache = cache' },
        done (
            poll_of cache' (radio_of env fast.csq fast.cesq fast.gtca fast.gtcc)
              (parse_registration fast.c5g) (parse_registration fast.clte)),
      )

  -- `TieredClient.GetFullStatus` at the time that it reads
  unfoldable pub full_status : ℕ → Tiered → Tiered × Outcome AtPoll
  unfolding after_fast ensure_open fast_queries
  full_status now t = after_fast now t.cache ((do ensure_open; fast_queries) t.client)

  -- `TieredClient.SetAPN`, `SetRATMode`, `SetUSBMode`, `ActivatePDP` and `DeactivatePDP`
  unfoldable pub set_apn_tiered : ℤ → Text → Text → Tiered → Tiered × Outcome Text
  unfolding invalidate_slow
  set_apn_tiered cid pdp apn t =
      with_cache t.cache invalidate_slow (set_apn env cid pdp apn t.client)

  unfoldable pub set_rat_tiered : RatModePref → Tiered → Tiered × Outcome Text
  unfolding invalidate_slow
  set_rat_tiered pref t = with_cache t.cache invalidate_slow (set_rat_mode env pref t.client)

  unfoldable pub set_usb_mode_tiered : ℤ → Tiered → Tiered × Outcome Text
  set_usb_mode_tiered mode t =
      with_cache t.cache (λ _. empty_cache) (set_usb_mode env mode t.client)

  unfoldable pub activate_pdp_tiered : ℤ → Tiered → Tiered × Outcome Text
  unfolding invalidate_medium
  activate_pdp_tiered cid t = with_cache t.cache invalidate_medium (activate_pdp env cid t.client)

  unfoldable pub deactivate_pdp_tiered : ℤ → Tiered → Tiered × Outcome Text
  unfolding invalidate_medium
  deactivate_pdp_tiered cid t =
      with_cache t.cache
        (λ cache. invalidate_medium (record cache { pdp = record no_pdp { cid = cid_or_one cid } }))
        (deactivate_pdp env cid t.client)

  -- `TieredClient.QueryPDP` at the time that it reads
  unfoldable pub after_query : ℕ → Cache → Client × Outcome PdpSession → Tiered × Outcome PdpSession
  after_query now cache (c, failed e) = (record { client = c; cache = cache }, failed e)
  after_query now cache (c, done given) =
      let sess = record given { gateway = [] } in
      (record { client = c; cache = record cache { pdp = sess; medium_at = now } }, done sess)

  unfoldable pub query_pdp_tiered : ℤ → ℕ → Tiered → Tiered × Outcome PdpSession
  unfolding after_query
  query_pdp_tiered cid now t = after_query now t.cache (query_pdp env cid t.client)
