-- ===== src/At/Tiered/Fresh.antt =====
-- internal/repository/at_tiered.go: the times of the tiers behind a poll, the commands that a poll writes, and
-- what it never forgets.
use mathlib.Core.Path.{subst}
use proton5g.Base.{ℕ, ◌+◌, ◌≤◌, ◌<◌, true, false, [], ◌≡◌, refl, sym, ap, arith, if_cases, Text}
use proton5g.Base.Int.{ℤ}
use proton5g.Domain.{AtPoll, no_pdp}
use proton5g.At.Serial.{AtEnv, Client, Outcome, done, failed, failed_ne_done}
use proton5g.At.Client.{continue, set_apn, deactivate_pdp}
use proton5g.At.Client.Commands.{cid_or_one}
use proton5g.At.Tiered.{
  Tiered, is_due, refresh_slow, refresh_medium, refresh_slow_at, refresh_medium_at, after_fast,
  full_status, with_cache, set_apn_tiered, deactivate_pdp_tiered, invalidate_slow,
  invalidate_medium, Fast, ensure_open, fast_queries,
}
use proton5g.At.Tiered.Tried.{Asked, Grown, slow_commands, medium_commands}
use proton5g.At.Tiered.Asked.{start-Grown, slow-Asked, medium-Asked}
use proton5g.At.Tiered.Cached.{Cache, medium_interval, slow_interval}
use proton5g.At.Tiered.Steps.{
  Keeps, Keeps-by, Keeps-refl, Keeps-trans, refresh_slow-Step, refresh_medium-Step,
}

-- the time of a tier behind a poll: it is the poll's, or the old one, and the tier was not due
pub record Tier (now interval old new : ℕ) : Type 0 where
  pub recent : (0 < new) × (now < new + interval)
  pub due_now : is_due old interval now ≡ true → new ≡ now

refreshed : (now interval old : ℕ) → 0 < now → 0 < interval → Tier now interval old now
refreshed now interval old h k = record { recent = omega arith; due_now = λ _. refl }

not_due : (now interval old : ℕ) → is_due old interval now ≡ false → Tier now interval old old
unfolding is_due
not_due now interval old early = record {
  recent = ground arith;
  due_now = λ due. absurd (ground (arith, due, early));
}

with_slow : {a b : Cache} (now : ℕ) → Keeps a b → Keeps a (record b { slow_at = now })
with_slow now k = Keeps-by k.operator k.imsi k.iccid k.manufacturer k.model k.firmware k.imei

with_medium : {a b : Cache} (now : ℕ) → Keeps a b → Keeps a (record b { medium_at = now })
with_medium now k = Keeps-by k.operator k.imsi k.iccid k.manufacturer k.model k.firmware k.imei

-- what one tier does to the time of the other
record Others (a b : Cache) : Type 0 where
  keeps : Keeps a b
  medium : b.medium_at ≡ a.medium_at

record OthersSlow (a b : Cache) : Type 0 where
  keeps : Keeps a b
  slow : b.slow_at ≡ a.slow_at

module _ (env : AtEnv) where
  -- what the slow tier leaves behind at a time
  slow-Tier :
      (now : ℕ) (s : Client × Cache)
      → 0 < now
      → Tier now slow_interval s.1.slow_at (refresh_slow_at env now s).1.slow_at
  unfolding refresh_slow_at
  slow-Tier now s h =
      let r = refresh_slow env s in
      if_cases (λ (r : Client × Cache). Tier now slow_interval s.1.slow_at r.1.slow_at)
        (is_due s.1.slow_at slow_interval now) (r.0, record r.1 { slow_at = now }) s
        (λ _. refreshed now slow_interval s.1.slow_at h (omega arith))
        (λ early. not_due now slow_interval s.1.slow_at early)

  medium-Tier :
      (now : ℕ) (s : Client × Cache)
      → 0 < now
      → Tier now medium_interval s.1.medium_at (refresh_medium_at env now s).1.medium_at
  unfolding refresh_medium_at
  medium-Tier now s h =
      let r = refresh_medium env s in
      if_cases (λ (r : Client × Cache). Tier now medium_interval s.1.medium_at r.1.medium_at)
        (is_due s.1.medium_at medium_interval now) (r.0, record r.1 { medium_at = now }) s
        (λ _. refreshed now medium_interval s.1.medium_at h (omega arith))
        (λ early. not_due now medium_interval s.1.medium_at early)

  slow-Others : (now : ℕ) (s : Client × Cache) → Others s.1 (refresh_slow_at env now s).1
  unfolding refresh_slow_at
  slow-Others now s =
      let r = refresh_slow env s in
      if_cases (λ (r : Client × Cache). Others s.1 r.1) (is_due s.1.slow_at slow_interval now)
        (r.0, record r.1 { slow_at = now }) s
        (λ _. record {
          keeps = with_slow now (refresh_slow-Step env s).keeps;
          medium = (refresh_slow-Step env s).medium;
        })
        (λ _. record { keeps = Keeps-refl s.1; medium = refl })

  medium-OthersSlow :
      (now : ℕ) (s : Client × Cache) → OthersSlow s.1 (refresh_medium_at env now s).1
  unfolding refresh_medium_at
  medium-OthersSlow now s =
      let r = refresh_medium env s in
      if_cases (λ (r : Client × Cache). OthersSlow s.1 r.1)
        (is_due s.1.medium_at medium_interval now) (r.0, record r.1 { medium_at = now }) s
        (λ _. record {
          keeps = with_medium now (refresh_medium-Step env s).keeps;
          slow = (refresh_medium-Step env s).slow;
        })
        (λ _. record { keeps = Keeps-refl s.1; slow = refl })

  -- what the two tiers do to the cache at a time
  record Stamped (now : ℕ) (old new : Cache) : Type 0 where
    keeps : Keeps old new
    slow : Tier now slow_interval old.slow_at new.slow_at
    medium : Tier now medium_interval old.medium_at new.medium_at

  refresh-Stamped :
      (now : ℕ) (s : Client × Cache)
      → 0 < now
      → Stamped now s.1 (refresh_medium_at env now (refresh_slow_at env now s)).1
  refresh-Stamped now s h =
      let s' = refresh_slow_at env now s in
      let o = slow-Others now s in
      let p = medium-OthersSlow now s' in
      record {
        keeps = Keeps-trans o.keeps p.keeps;
        slow = subst (Tier now slow_interval s.1.slow_at) (sym p.slow) (slow-Tier now s h);
        medium =
            subst (λ old. Tier now medium_interval old (refresh_medium_at env now s').1.medium_at)
              o.medium (medium-Tier now s' h);
      }

  -- What a poll at a time leaves behind: what stays known, the times of the tiers, and the commands of a tier
  -- that was due.
  pub record Polled (now : ℕ) (t t' : Tiered) : Type 0 where
    pub keeps : Keeps t.cache t'.cache
    pub slow : Tier now slow_interval t.cache.slow_at t'.cache.slow_at
    pub medium : Tier now medium_interval t.cache.medium_at t'.cache.medium_at
    pub slow_asked :
        is_due t.cache.slow_at slow_interval now ≡ true → Asked slow_commands t.client t'.client
    pub medium_asked :
        is_due t.cache.medium_at medium_interval now ≡ true
        → Asked (medium_commands t'.cache.apn) t.client t'.client

  after_fast-Polled :
      (now : ℕ) (t : Tiered) (o : Client × Outcome Fast) (t' : Tiered) (poll : AtPoll)
      → Grown t.client o.0
      → 0 < now
      → after_fast env now t.cache o ≡ (t', done poll)
      → Polled now t t'
  unfolding after_fast
  after_fast-Polled now t (c, failed e) t' poll grown h eq =
      absurd (failed_ne_done e poll (ap (λ (r : Tiered × Outcome AtPoll). r.1) eq))
  after_fast-Polled now t (c, done fast) t' poll grown h eq =
      let s = refresh_slow_at env now (c, t.cache) in
      let r = refresh_medium_at env now s in
      let stamped = refresh-Stamped now (c, t.cache) h in
      let behind : Tiered = record { client = r.0; cache = r.1 } in
      let same_state : behind ≡ t' = ap (λ (r : Tiered × Outcome AtPoll). r.0) eq in
      let polled : Polled now t behind = record {
        keeps = stamped.keeps;
        slow = stamped.slow;
        medium = stamped.medium;
        slow_asked = λ due. slow-Asked env now t.client c t.cache grown due;
        medium_asked = λ due. medium-Asked env now t.client c t.cache grown (
            subst (λ (at : ℕ). is_due at medium_interval now ≡ true)
              (sym (slow-Others now (c, t.cache)).medium) due);
      } in
      subst (Polled now t) same_state polled

  pub full_status-Polled :
      (now : ℕ) (t t' : Tiered) (poll : AtPoll)
      → 0 < now
      → full_status env now t ≡ (t', done poll)
      → Polled now t t'
  unfolding full_status
  full_status-Polled now t t' poll h eq =
      after_fast-Polled now t (continue (ensure_open env t.client) (λ _. fast_queries env)) t' poll
        (start-Grown env t.client) h eq

  with_cache-success :
      (cache : Cache) (f : Cache → Cache) (o : Client × Outcome Text) (t : Tiered) (r : Text)
      → with_cache cache f o ≡ (t, done r)
      → t.cache ≡ f cache
  with_cache-success cache f (c, done a) t r eq =
      sym (ap (λ (r : Tiered × Outcome Text). r.0.cache) eq)
  with_cache-success cache f (c, failed e) t r eq =
      absurd (failed_ne_done e r (ap (λ (r : Tiered × Outcome Text). r.1) eq))

  slow_due :
      (now : ℕ) (cache : Cache) → is_due (invalidate_slow cache).slow_at slow_interval now ≡ true
  unfolding is_due invalidate_slow
  slow_due now cache = refl

  medium_due :
      (now : ℕ) (cache : Cache)
      → cache.medium_at ≤ now
      → is_due (invalidate_medium cache).medium_at medium_interval now ≡ true
  unfolding is_due invalidate_medium
  medium_due now cache h = ground arith

  -- After `SetAPN` of the tiered client has succeeded, the next poll that succeeds, with nothing in between,
  -- stamps the slow tier and writes each of its commands to the port, AT+CGDCONT? among them, unless the port broke
  -- and is closed behind the poll. This holds however short ago the tier was refreshed.
  pub set_apn-refreshes :
      (cid : ℤ) (pdp apn r : Text) (now : ℕ) (t t' t'' : Tiered) (poll : AtPoll)
      → 0 < now
      → set_apn_tiered env cid pdp apn t ≡ (t', done r)
      → full_status env now t' ≡ (t'', done poll)
      → (t''.cache.slow_at ≡ now) × Asked slow_commands t'.client t''.client
  unfolding set_apn_tiered
  set_apn-refreshes cid pdp apn r now t t' t'' poll h set_eq poll_eq =
      let cached =
        with_cache-success t.cache invalidate_slow (set_apn env cid pdp apn t.client) t' r set_eq in
      let due =
        subst (λ (cache : Cache). is_due cache.slow_at slow_interval now ≡ true) (sym cached)
          (slow_due now t.cache) in
      let polled = full_status-Polled now t' t'' poll h poll_eq in
      (polled.slow.due_now due, polled.slow_asked due)

  -- After `DeactivatePDP` of the tiered client has succeeded, the session that it keeps has no address. The next
  -- poll that succeeds, with nothing in between and at a time not before the last refresh of the medium tier,
  -- stamps that tier and writes each of its commands to the port, those for the address and the DNS servers of
  -- the context that is shown among them, unless the port broke and is closed behind the poll. This holds however
  -- short ago the tier was refreshed.
  pub deactivate_pdp-refreshes :
      (cid : ℤ) (r : Text) (now : ℕ) (t t' t'' : Tiered) (poll : AtPoll)
      → 0 < now
      → t.cache.medium_at ≤ now
      → deactivate_pdp_tiered env cid t ≡ (t', done r)
      → full_status env now t' ≡ (t'', done poll)
      → (t'.cache.pdp.ip ≡ [])
        × (t''.cache.medium_at ≡ now)
        × Asked (medium_commands t''.cache.apn) t'.client t''.client
  unfolding deactivate_pdp_tiered invalidate_medium
  deactivate_pdp-refreshes cid r now t t' t'' poll h past set_eq poll_eq =
      let dropped : Cache → Cache =
        λ cache. record cache { pdp = record no_pdp { cid = cid_or_one cid } } in
      let cached =
        with_cache-success t.cache (λ cache. invalidate_medium (dropped cache))
          (deactivate_pdp env cid t.client) t' r set_eq in
      let due =
        subst (λ (cache : Cache). is_due cache.medium_at medium_interval now ≡ true) (sym cached)
          (medium_due now (dropped t.cache) past) in
      let polled = full_status-Polled now t' t'' poll h poll_eq in
      (
        ap (λ (cache : Cache). cache.pdp.ip) cached,
        polled.medium.due_now due,
        polled.medium_asked due,
      )
