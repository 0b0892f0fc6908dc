-- ===== src/At/Tiered/Asked.antt =====
-- internal/repository/at_tiered.go: the commands that a poll writes to the port.
use mathlib.Core.Path.{subst}
use proton5g.Base.{
  ℕ, Bool, true, false, List, [], ◌≡◌, refl, sym, if_cases, if◌then◌else◌, Text, codes, is_empty,
}
use proton5g.Domain.{ApnConfig}
use proton5g.At.Serial.{
  AtEnv, Client, Outcome, done, failed, no_port_name, close_client, after_open, connect, send_raw,
}
use proton5g.At.Client.{M, continue, ask}
use proton5g.At.Tiered.{
  refresh_slow, refresh_medium, fast_queries, ensure_open, is_due, refresh_slow_at,
  refresh_medium_at,
}
use proton5g.At.Tiered.Cached.{Cache, slow_interval, medium_interval}
use proton5g.At.Tiered.Tried.{
  Asked, Grown, Grown-trans, Tried, Tried-Asked, Tried-refl, Tried-trans, after_open-Grown,
  ask-Tried, besides, close_client-Tried, medium_commands, send_raw-Tried, slow_commands,
}
use proton5g.At.Tiered.Refreshes.{refresh_medium-Tried, refresh_medium-apn, refresh_slow-Tried}

module _ (env : AtEnv) where
  connect-Grown : (c : Client) → Grown c (connect env c).0
  unfolding connect
  connect-Grown c =
      let c' = close_client c in
      let t = close_client-Tried c in
      if_cases (λ (r : Client × Outcome Text). Grown c r.0) (is_empty c'.port_name)
        (c', failed no_port_name) (after_open c' (env.open_port c'.log c'.port_name))
        (λ _. (t.new, t.behind))
        (λ _.
          Grown-trans c c' (after_open c' (env.open_port c'.log c'.port_name)).0 (t.new, t.behind)
            (after_open-Grown c' (env.open_port c'.log c'.port_name)))

  ensure_open-Grown : (c : Client) → Grown c (ensure_open env c).0
  unfolding ensure_open
  ensure_open-Grown c =
      if_cases (λ (r : Client × Outcome Text). Grown c r.0) c.is_open (c, done []) (connect env c)
        (λ _. ([], refl)) (λ _. connect-Grown c)

  continue-Grown :
      {A B : Type 0} (c : Client) (o : Client × Outcome A) (f : A → M B)
      → Grown c o.0
      → ((a : A) (d : Client) → Grown d (f a d).0)
      → Grown c (continue o f).0
  continue-Grown c (d, done a) f g k = Grown-trans c d (f a d).0 g (k a d)
  continue-Grown c (d, failed e) f g k = g

  ask-Grown : (cmd : Text) (c : Client) → Grown c (ask env cmd c).0
  ask-Grown cmd c = let t = ask-Tried env cmd c in (t.new, t.behind)

  fast_queries-Grown : (c : Client) → Grown c (fast_queries env c).0
  unfolding fast_queries
  fast_queries-Grown c =
      let first = send_raw-Tried env (codes "AT+CSQ") c in
      continue-Grown c (send_raw env (codes "AT+CSQ") c) _ (first.new, first.behind)
        (λ _ d. continue-Grown d (ask env (codes "AT+CESQ") d) _ (ask-Grown _ d) (λ _ d.
          continue-Grown d (ask env (codes "AT+C5GREG?") d) _ (ask-Grown _ d) (λ _ d.
            continue-Grown d (ask env (codes "AT+CEREG?") d) _ (ask-Grown _ d) (λ _ d.
              continue-Grown d (ask env (codes "AT+GTCAINFO?") d) _ (ask-Grown _ d) (λ _ d.
                continue-Grown d (ask env (codes "AT+GTCCINFO?") d) _ (ask-Grown _ d)
                  (λ _ d. ([], refl)))))))

  -- the queries of every poll, behind a port that is opened
  pub start-Grown : (c : Client) → Grown c (continue (ensure_open env c) (λ _. fast_queries env)).0
  start-Grown c =
      continue-Grown c (ensure_open env c) (λ _. fast_queries env) (ensure_open-Grown c)
        (λ _ d. fast_queries-Grown d)

  -- a tier that is due writes its commands
  if_due :
      (b : Bool) (cmds : List Text) (now : ℕ) (s r t : Client × Cache)
      → t.0 ≡ r.0
      → Tried cmds s.0 r.0
      → Tried (if b then cmds else []) s.0 (if b then t else s).0
  if_due true cmds now s r t e h = subst (Tried cmds s.0) (sym e) h
  if_due false cmds now s r t e h = Tried-refl s.0

  refresh_slow_at-Tried :
      (now : ℕ) (s : Client × Cache)
      → Tried
          (if is_due s.1.slow_at slow_interval now then slow_commands else [])
          s.0
          (refresh_slow_at env now s).0
  unfolding refresh_slow_at
  refresh_slow_at-Tried now s =
      if_due (is_due s.1.slow_at slow_interval now) slow_commands now s (refresh_slow env s)
        ((refresh_slow env s).0, record (refresh_slow env s).1 { slow_at = now }) refl
        (refresh_slow-Tried env s)

  refresh_medium_at-Tried :
      (now : ℕ) (s : Client × Cache)
      → Tried
          (if is_due s.1.medium_at medium_interval now then medium_commands s.1.apn else [])
          s.0
          (refresh_medium_at env now s).0
  unfolding refresh_medium_at
  refresh_medium_at-Tried now s =
      if_due (is_due s.1.medium_at medium_interval now) (medium_commands s.1.apn) now s
        (refresh_medium env s)
        ((refresh_medium env s).0, record (refresh_medium env s).1 { medium_at = now }) refl
        (refresh_medium-Tried env s)

  refresh_medium_at-apn :
      (now : ℕ) (s : Client × Cache) → (refresh_medium_at env now s).1.apn ≡ s.1.apn
  unfolding refresh_medium_at
  refresh_medium_at-apn now s =
      if_cases (λ (r : Client × Cache). r.1.apn ≡ s.1.apn)
        (is_due s.1.medium_at medium_interval now)
        ((refresh_medium env s).0, record (refresh_medium env s).1 { medium_at = now }) s
        (λ _. refresh_medium-apn env s) (λ _. refl)

  -- the tiers behind the queries of a poll
  pub slow-Asked :
      (now : ℕ) (b c : Client) (a : Cache)
      → Grown b c
      → is_due a.slow_at slow_interval now ≡ true
      → Asked slow_commands b (refresh_medium_at env now (refresh_slow_at env now (c, a))).0
  slow-Asked now b c a (n, e) due =
      let s = refresh_slow_at env now (c, a) in
      let t =
        subst (λ (d : Bool). Tried (if d then slow_commands else []) c s.0) due
          (refresh_slow_at-Tried now (c, a)) in
      Tried-Asked n e (Tried-trans slow_commands [] t (besides _ (refresh_medium_at-Tried now s)))

  pub medium-Asked :
      (now : ℕ) (b c : Client) (a : Cache)
      → Grown b c
      → is_due (refresh_slow_at env now (c, a)).1.medium_at medium_interval now ≡ true
      → let r = refresh_medium_at env now (refresh_slow_at env now (c, a)) in
        Asked (medium_commands r.1.apn) b r.0
  medium-Asked now b c a (n, e) due =
      let s = refresh_slow_at env now (c, a) in
      let r = refresh_medium_at env now s in
      let t =
        subst (λ (d : Bool). Tried (if d then medium_commands s.1.apn else []) s.0 r.0) due
          (refresh_medium_at-Tried now s) in
      subst (λ (k : ApnConfig). Asked (medium_commands k) b r.0) (sym (refresh_medium_at-apn now s))
        (Tried-Asked n e (
          Tried-trans [] (medium_commands s.1.apn) (besides _ (refresh_slow_at-Tried now (c, a)))
            t))
