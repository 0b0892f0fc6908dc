-- ===== src/At/Client/Sound.antt =====
-- internal/repository/at_client.go: the port through each operation of a client.
use proton5g.Base.{true, not, ◌&&◌, codes, [], if_cases, if◌then◌else◌, Text, is_empty, same}
use proton5g.Base.Int.{ℤ, pos, leb_ℤ, eqb_ℤ}
use proton5g.Domain.{PdpSession}
use proton5g.Domain.Enums.Rat.{RatModePref, cmd_gtact_set, cmd_gtact_set_by_pref, gtact_code}
use proton5g.At.Serial.{
  AtEnv, Client, Outcome, Trouble, done, failed, rejected, invalid_usb_mode, usb_query_failed,
  close_client, send_raw, ensure_connected, says_ok,
}
use proton5g.At.Info.{parse_gtusbmode}
use proton5g.At.Serial.Lifecycle.{Sound, close_client-Sound, send_raw-Sound, ensure_connected-Sound}
use proton5g.At.Client.{
  M, ◌>>=◌, ◌>>◌, continue, give, fail, answered, ask, query_pdp, session_of, active_after,
  finish_activate, activate_pdp, command, is_ok, rat_failure, after_fallback, after_gtact,
  set_rat_mode, set_usb_mode, raw_at, get_usb_mode,
}
use proton5g.At.Client.Commands.{
  cid_or_one, cmd_cgpaddr, cmd_gtdns, cmd_cgact_set, cmd_gtusbmode_set,
}

-- an operation of a client that keeps it sound
pub record Keeping {A : Type 0} (m : M A) : Type 0 where
  pub after : (c : Client) → Sound c → Sound (m c).0

pub keeping : {A : Type 0} {m : M A} → ((c : Client) → Sound c → Sound (m c).0) → Keeping m
keeping h = record { after = h }

pub continue-Sound :
    {A B : Type 0} (o : Client × Outcome A) (f : A → M B)
    → Sound o.0
    → ((a : A) → Keeping (f a))
    → Sound (continue o f).0
continue-Sound (c, done a) f s k = (k a).after c s
continue-Sound (c, failed e) f s k = s

pub bind-Keeping :
    {A B : Type 0} {m : M A} {f : A → M B}
    → Keeping m
    → ((a : A) → Keeping (f a))
    → Keeping (m >>= f)
bind-Keeping {m} {f} h k = keeping (λ c s. continue-Sound (m c) f (h.after c s) k)

pub then-Keeping : {A B : Type 0} {m : M A} {n : M B} → Keeping m → Keeping n → Keeping (m >> n)
then-Keeping {m} {n} h k = keeping (λ c s. continue-Sound (m c) (λ _. n) (h.after c s) (λ _. k))

module _ (env : AtEnv) where
  answered-Sound : (o : Client × Outcome Text) → Sound o.0 → Sound (answered o).0
  answered-Sound (c, done r) s = s
  answered-Sound (c, failed e) s = s

  pub ask-Keeping : (cmd : Text) → Keeping (ask env cmd)
  unfolding ask
  ask-Keeping cmd =
      keeping (λ c s. answered-Sound (send_raw env cmd c) (send_raw-Sound env cmd c s))

  ensured : Keeping (ensure_connected env)
  ensured = keeping (λ c s. ensure_connected-Sound env c s)

  pub sent : (cmd : Text) → Keeping (send_raw env cmd)
  sent cmd = keeping (send_raw-Sound env cmd)

  pub given : {A : Type 0} (a : A) → Keeping (give a)
  given a = keeping (λ c s. s)

  failing : {A : Type 0} (e : Trouble) → Keeping (fail {A = A} e)
  failing e = keeping (λ c s. s)

  pub query_pdp-Keeping : (cid : ℤ) → Keeping (query_pdp env cid)
  unfolding query_pdp
  query_pdp-Keeping cid = then-Keeping ensured (
      bind-Keeping (sent (cmd_cgpaddr cid)) (λ addr.
        bind-Keeping (ask-Keeping (cmd_gtdns cid))
          (λ dns. given (session_of env (cid_or_one cid) addr dns))))

  pub command-Keeping : (cmd : Text) → Keeping (command env cmd)
  unfolding command
  command-Keeping cmd = then-Keeping ensured (
      bind-Keeping (sent cmd) (λ resp.
        if_cases Keeping (says_ok resp) (give []) (fail (rejected cmd resp)) (λ _. given [])
          (λ _. failing (rejected cmd resp))))

  pub raw_at-Keeping : (cmd : Text) → Keeping (raw_at env cmd)
  unfolding raw_at
  raw_at-Keeping cmd = then-Keeping ensured (sent cmd)

  pub get_usb_mode-Keeping : Keeping (get_usb_mode env)
  unfolding get_usb_mode
  get_usb_mode-Keeping = then-Keeping ensured (
      bind-Keeping (sent (codes "AT+GTUSBMODE?")) (λ resp.
        let mode = parse_gtusbmode resp in
        if_cases Keeping (eqb_ℤ mode (pos 0) && not (says_ok resp)) (fail (usb_query_failed resp))
          (give mode) (λ _. failing (usb_query_failed resp)) (λ _. given mode)))

  active_after-Sound :
      (cmd resp : Text) (o : Client × Outcome PdpSession)
      → Sound o.0
      → Sound (active_after env cmd resp o).0
  unfolding active_after
  active_after-Sound cmd resp (c, failed e) s = s
  active_after-Sound cmd resp (c, done sess) s =
      if_cases (λ (r : Client × Outcome Text). Sound r.0) (is_empty sess.ip)
        (c, failed (rejected cmd resp)) (c, done []) (λ _. s) (λ _. s)

  finish_activate-Keeping : (cid : ℤ) (cmd resp : Text) → Keeping (finish_activate env cid cmd resp)
  unfolding finish_activate
  finish_activate-Keeping cid cmd resp = keeping (λ c s.
      if_cases (λ (r : Client × Outcome Text). Sound r.0) (says_ok resp) (c, done [])
        (active_after env cmd resp (query_pdp env cid c)) (λ _. s)
        (λ _.
          active_after-Sound cmd resp (query_pdp env cid c) ((query_pdp-Keeping cid).after c s)))

  pub activate_pdp-Keeping : (cid : ℤ) → Keeping (activate_pdp env cid)
  unfolding activate_pdp
  activate_pdp-Keeping cid = then-Keeping ensured (
      bind-Keeping (sent (cmd_cgact_set cid true))
        (λ resp. finish_activate-Keeping (cid_or_one cid) (cmd_cgact_set cid true) resp))

  after_fallback-Sound :
      (cmd : Text) (first : Outcome Text) (o : Client × Outcome Text)
      → Sound o.0
      → Sound (after_fallback env cmd first o).0
  unfolding after_fallback
  after_fallback-Sound cmd first (c, second) s = s

  after_gtact-Sound :
      (pref : RatModePref) (o : Client × Outcome Text)
      → Sound o.0
      → Sound (after_gtact env pref o).0
  unfolding after_gtact
  after_gtact-Sound pref (c, first) s =
      let cmd = cmd_gtact_set_by_pref pref in
      let fallback = cmd_gtact_set (gtact_code pref) in
      let rest : Client × Outcome Text =
        if same fallback cmd
        then (c, rat_failure env cmd first)
        else after_fallback env cmd first (send_raw env fallback c) in
      if_cases (λ (r : Client × Outcome Text). Sound r.0) (is_ok env first) (c, done []) rest
        (λ _. s)
        (λ _.
          if_cases (λ (r : Client × Outcome Text). Sound r.0) (same fallback cmd)
            (c, rat_failure env cmd first) (after_fallback env cmd first (send_raw env fallback c))
            (λ _. s)
            (λ _.
              after_fallback-Sound cmd first (send_raw env fallback c)
                (send_raw-Sound env fallback c s)))

  pub set_rat_mode-Keeping : (pref : RatModePref) → Keeping (set_rat_mode env pref)
  unfolding set_rat_mode
  set_rat_mode-Keeping pref = then-Keeping ensured (
      keeping (λ c s.
        after_gtact-Sound pref (send_raw env (cmd_gtact_set_by_pref pref) c)
          (send_raw-Sound env (cmd_gtact_set_by_pref pref) c s)))

  pub set_usb_mode-Keeping : (mode : ℤ) → Keeping (set_usb_mode env mode)
  unfolding set_usb_mode
  set_usb_mode-Keeping mode =
      if_cases Keeping (leb_ℤ mode (pos 0)) (fail (invalid_usb_mode mode))
        (command env (cmd_gtusbmode_set mode) >> λ c. (close_client c, done []))
        (λ _. failing (invalid_usb_mode mode))
        (λ _. then-Keeping (command-Keeping (cmd_gtusbmode_set mode)) (keeping close_client-Sound))
