-- ===== src/At/Serial/Lifecycle.antt =====
-- internal/repository/at_client.go: a port is opened, written to and closed in turn.
use proton5g.Base.{
  Bool, true, false, ◌||◌, [], ◌∷◌, Option, none, some, ◌≡◌, refl, sym, ◌∙◌, if_cases, Text, codes,
  is_empty, same,
}
use proton5g.At.Serial.{
  no_identity, no_port_name, not_connected, opened, refused, wrote, closed, Log, AtEnv, Client,
  Outcome, done, failed, new_client, close_client, rename_port, after_open, connect, line_of,
  ReadEnd, got, broken, read_loop, after_reads, after_write, send_raw, ping_again, ping,
  ping_opened, ensure_connected, answers_ping,
}

-- whether the port is open behind the actions
pub is_live : Log → Bool
is_live [] = false
is_live (opened name ∷ log) = true
is_live (closed ∷ log) = false
is_live (refused name ∷ log) = is_live log
is_live (wrote line ∷ log) = is_live log

-- each action at a time when it makes sense: no port is opened while one is open, and only an open
-- port is written to and closed
pub data Orderly : Log → Type 0 where
  start : Orderly []
  open_next :
      {log : Log} (name : Text) → is_live log ≡ false → Orderly log → Orderly (opened name ∷ log)
  refuse_next :
      {log : Log} (name : Text) → is_live log ≡ false → Orderly log → Orderly (refused name ∷ log)
  write_next :
      {log : Log} (line : Text) → is_live log ≡ true → Orderly log → Orderly (wrote line ∷ log)
  close_next : {log : Log} → is_live log ≡ true → Orderly log → Orderly (closed ∷ log)

-- the client knows whether its port is open
pub record Sound (c : Client) : Type 0 where
  pub known : c.is_open ≡ is_live c.log
  pub orderly : Orderly c.log

-- a step of the client, whose state is the first part of what it returns
abbrev pub SoundAfter {ℓ} : {A : Type ℓ} → Client × A → Type 0
SoundAfter r = Sound r.0

pub new_client-Sound : (name : Text) → Sound (new_client name)
unfolding new_client is_live
new_client-Sound name = record { known = refl; orderly = start }

pub close_client-Sound : (c : Client) → Sound c → Sound (close_client c)
unfolding close_client is_live
close_client-Sound c s =
    if_cases Sound c.is_open (record c { is_open = false; log = closed ∷ c.log }) c
      (λ on. record { known = refl; orderly = close_next (sym s.known ∙ on) s.orderly }) (λ _. s)

close_client-closed : (c : Client) → (close_client c).is_open ≡ false
unfolding close_client
close_client-closed c =
    if_cases (λ (d : Client). d.is_open ≡ false) c.is_open
      (record c { is_open = false; log = closed ∷ c.log }) c (λ _. refl) (λ off. off)

pub rename_port-Sound : (name : Text) (c : Client) → Sound c → Sound (rename_port name c)
unfolding rename_port
rename_port-Sound name c s =
    let closed_c = close_client-Sound c s in
    if_cases Sound (is_empty name || same name c.port_name) c
      (record (close_client c) { port_name = name; ident = no_identity }) (λ _. s)
      (λ _. record { known = closed_c.known; orderly = closed_c.orderly })

after_open-Sound :
    (c : Client) (o : Option Text) → Sound c → c.is_open ≡ false → Sound (after_open c o).0
unfolding after_open is_live
after_open-Sound c none s off = record {
  known = refl;
  orderly = open_next c.port_name (sym s.known ∙ off) s.orderly;
}
after_open-Sound c (some e) s off = record {
  known = s.known;
  orderly = refuse_next c.port_name (sym s.known ∙ off) s.orderly;
}

after_reads-Sound : (c : Client) (e : ReadEnd) → Sound c → Sound (after_reads c e).0
unfolding after_reads
after_reads-Sound c broken s = close_client-Sound c s
after_reads-Sound c (got []) s = s
after_reads-Sound c (got (r ∷ t)) s = record { known = s.known; orderly = s.orderly }

module _ (env : AtEnv) where
  pub connect-Sound : (c : Client) → Sound c → Sound (connect env c).0
  unfolding connect
  connect-Sound c s =
      let c' = close_client c in
      let s' = close_client-Sound c s in
      if_cases SoundAfter (is_empty c'.port_name) (c', failed no_port_name)
        (after_open c' (env.open_port c'.log c'.port_name)) (λ _. s')
        (λ _. after_open-Sound c' (env.open_port c'.log c'.port_name) s' (close_client-closed c))

  after_write-Sound : (c : Client) (o : Option Text) → Sound c → Sound (after_write env c o).0
  unfolding after_write
  after_write-Sound c none s = after_reads-Sound c (read_loop [] (env.reads c.log)) s
  after_write-Sound c (some e) s = close_client-Sound c s

  pub send_raw-Sound : (cmd : Text) (c : Client) → Sound c → Sound (send_raw env cmd c).0
  unfolding send_raw is_live
  send_raw-Sound cmd c s =
      let written : Client = record c { log = wrote (line_of cmd) ∷ c.log } in
      if_cases SoundAfter c.is_open (after_write env written (env.write c.log (line_of cmd)))
        (c, failed not_connected)
        (λ on. after_write-Sound written (env.write c.log (line_of cmd)) (record {
          known = s.known;
          orderly = write_next (line_of cmd) (sym s.known ∙ on) s.orderly;
        }))
        (λ _. s)

  ping_again-Sound : (c : Client) → Sound c → Sound (ping_again env c).0
  unfolding ping_again
  ping_again-Sound c s = send_raw-Sound (codes "AT") (connect env c).0 (connect-Sound c s)

  ping-Sound : (c : Client) → Sound c → Sound (ping env c).0
  unfolding ping
  ping-Sound c s =
      let (c', first) = send_raw env (codes "AT") c in
      let s' = send_raw-Sound (codes "AT") c s in
      if_cases SoundAfter (answers_ping first) (c', done []) (ping_again env c') (λ _. s')
        (λ _. ping_again-Sound c' s')

  ping_opened-Sound : (o : Client × Outcome Text) → Sound o.0 → Sound (ping_opened env o).0
  unfolding ping_opened
  ping_opened-Sound (c, failed e) s = s
  ping_opened-Sound (c, done r) s = ping-Sound c s

  pub ensure_connected-Sound : (c : Client) → Sound c → Sound (ensure_connected env c).0
  unfolding ensure_connected
  ensure_connected-Sound c s =
      if_cases SoundAfter c.is_open (ping env c) (ping_opened env (connect env c))
        (λ _. ping-Sound c s) (λ _. ping_opened-Sound (connect env c) (connect-Sound c s))
