-- ===== src/At/Tiered/Tried.antt =====
-- internal/repository/at_client.go: what is written to the port by commands that do not open it.
use mathlib.Core.Path.{subst}
use proton5g.Base.{
  true, false, List, [], ◌∷◌, ◌++◌, append_assoc, Option, none, some, ◌≡◌, ◌∙◌, refl, sym, ap,
  arith, if_cases, Text, codes, All, All-append,
}
use proton5g.Domain.{ApnConfig}
use proton5g.At.Serial.{
  wrote, opened, refused, closed, Log, AtEnv, Client, Outcome, done, failed, not_connected,
  close_client, after_open, line_of, ReadEnd, got, broken, read_loop, after_reads, after_write,
  send_raw,
}
use proton5g.At.Client.{answered, ask}
use proton5g.At.Client.Commands.{cid_or_one, cmd_cgpaddr, cmd_gtdns}

-- the line of a command is among the actions
abbrev pub Wrote : Log → Text → Type 0
Wrote log cmd = (later : Log) × (earlier : Log) × (log ≡ later ++ wrote (line_of cmd) ∷ earlier)

Wrote-later : (new log : Log) (cmd : Text) → Wrote log cmd → Wrote (new ++ log) cmd
Wrote-later new log cmd (later, earlier, e) =
    (new ++ later, earlier, ap (λ l. new ++ l) e ∙ sym (append_assoc new later _))

Wrote-earlier : (new log : Log) (cmd : Text) → Wrote new cmd → Wrote (new ++ log) cmd
Wrote-earlier new log cmd (later, earlier, e) =
    (later, earlier ++ log, ap (λ l. l ++ log) e ∙ append_assoc later _ log)

All-map :
    (P Q : Text → Type 0) (cmds : List Text)
    → ((cmd : Text) → P cmd → Q cmd)
    → All P cmds
    → All Q cmds
All-map P Q [] f a = tt
All-map P Q (cmd ∷ cmds) f (p, a) = (f cmd p, All-map P Q cmds f a)

-- the commands of the slow tier, but for the second one for the ICCID
abbrev pub slow_commands : List Text
slow_commands =
    codes "AT+CPIN?"
    ∷ codes "AT+CIMI"
    ∷ codes "AT+CCID"
    ∷ codes "AT+CGDCONT?"
    ∷ codes "AT+GTACT?"
    ∷ codes "AT+CGMI"
    ∷ codes "AT+CGMM"
    ∷ codes "AT+CGMR"
    ∷ codes "AT+CGSN"
    ∷ []

-- the commands for the address and the DNS servers of the context of an APN
abbrev pub pdp_commands : ApnConfig → List Text
pdp_commands apn = cmd_cgpaddr (cid_or_one apn.cid) ∷ cmd_gtdns (cid_or_one apn.cid) ∷ []

-- the commands of the medium tier
abbrev pub medium_commands : ApnConfig → List Text
medium_commands apn = codes "AT+COPS?" ∷ codes "AT+GTSENRDTEMP=1" ∷ pdp_commands apn

-- the log of the second client is that of the first with more actions
abbrev pub Grown : Client → Client → Type 0
Grown c c' = (new : Log) × (c'.log ≡ new ++ c.log)

pub Grown-trans : (a b c : Client) → Grown a b → Grown b c → Grown a c
Grown-trans a b c (n, e) (m, f) = (m ++ n, f ∙ ap (λ l. m ++ l) e ∙ sym (append_assoc m n a.log))

-- Between two states of a client that does not open its port, its log grows, and if the port is open behind,
-- each of the commands was written in between.
pub record Tried (cmds : List Text) (c c' : Client) : Type 0 where
  pub new : Log
  pub behind : c'.log ≡ new ++ c.log
  pub still_open : c'.is_open ≡ true → c.is_open ≡ true
  pub tried : c'.is_open ≡ true → All (Wrote new) cmds

pub Tried-refl : (c : Client) → Tried [] c c
Tried-refl c = record { new = []; behind = refl; still_open = λ h. h; tried = λ _. tt }

pub Tried-trans :
    {a b c : Client} (xs ys : List Text) → Tried xs a b → Tried ys b c → Tried (xs ++ ys) a c
Tried-trans {a} {b} {c} xs ys t u = record {
  new = u.new ++ t.new;
  behind = u.behind ∙ ap (λ l. u.new ++ l) t.behind ∙ sym (append_assoc u.new t.new a.log);
  still_open = λ h. t.still_open (u.still_open h);
  tried = λ h.
      All-append (Wrote (u.new ++ t.new)) xs ys
        (All-map (Wrote t.new) (Wrote (u.new ++ t.new)) xs (λ cmd. Wrote-later u.new t.new cmd)
          (t.tried (u.still_open h)))
        (All-map (Wrote u.new) (Wrote (u.new ++ t.new)) ys (λ cmd. Wrote-earlier u.new t.new cmd)
          (u.tried h));
}

-- Between two states of a client, if the port is open behind, each of the commands was written in between.
pub record Asked (cmds : List Text) (c c' : Client) : Type 0 where
  pub new : Log
  pub behind : c'.log ≡ new ++ c.log
  pub written : c'.is_open ≡ true → All (Wrote new) cmds

pub Tried-Asked :
    {a b c : Client} {cmds : List Text} (n : Log)
    → b.log ≡ n ++ a.log
    → Tried cmds b c
    → Asked cmds a c
Tried-Asked {a} {b} {c} {cmds} n e t = record {
  new = t.new ++ n;
  behind = t.behind ∙ ap (λ l. t.new ++ l) e ∙ sym (append_assoc t.new n a.log);
  written = λ h.
      All-map (Wrote t.new) (Wrote (t.new ++ n)) cmds (λ cmd. Wrote-earlier t.new n cmd)
        (t.tried h);
}

-- one command and then others
pub before :
    {a b c : Client} {cmd : Text} {cmds : List Text}
    → Tried (cmd ∷ []) a b
    → Tried cmds b c
    → Tried (cmd ∷ cmds) a c
before {cmd} {cmds} t u = Tried-trans (cmd ∷ []) cmds t u

-- a query that is not among the commands
pub besides : {c c' : Client} (cmds : List Text) → Tried cmds c c' → Tried [] c c'
besides cmds t = record {
  new = t.new;
  behind = t.behind;
  still_open = t.still_open;
  tried = λ _. tt;
}

pub close_client-Tried : (c : Client) → Tried [] c (close_client c)
unfolding close_client
close_client-Tried c =
    if_cases (Tried [] c) c.is_open (record c { is_open = false; log = closed ∷ c.log }) c
      (λ on. record { new = closed ∷ []; behind = refl; still_open = λ _. on; tried = λ _. tt })
      (λ _. Tried-refl c)

after_reads-Tried : (c : Client) (e : ReadEnd) → Tried [] c (after_reads c e).0
unfolding after_reads
after_reads-Tried c broken = close_client-Tried c
after_reads-Tried c (got []) = Tried-refl c
after_reads-Tried c (got (r ∷ s)) = record {
  new = [];
  behind = refl;
  still_open = λ h. h;
  tried = λ _. tt;
}

-- a command that is written before what follows
written-Tried :
    (cmd : Text) (c c' : Client)
    → c.is_open ≡ true
    → Tried [] (record c { log = wrote (line_of cmd) ∷ c.log }) c'
    → Tried (cmd ∷ []) c c'
written-Tried cmd c c' on t = record {
  new = t.new ++ wrote (line_of cmd) ∷ [];
  behind = t.behind ∙ sym (append_assoc t.new (wrote (line_of cmd) ∷ []) c.log);
  still_open = λ _. on;
  tried = λ _. ((t.new, [], refl), tt);
}

pub after_open-Grown : (c : Client) (o : Option Text) → Grown c (after_open c o).0
unfolding after_open
after_open-Grown c none = (opened c.port_name ∷ [], refl)
after_open-Grown c (some e) = (refused c.port_name ∷ [], refl)

module _ (env : AtEnv) where
  after_write-Tried : (c : Client) (o : Option Text) → Tried [] c (after_write env c o).0
  unfolding after_write
  after_write-Tried c (some e) = close_client-Tried c
  after_write-Tried c none = after_reads-Tried c (read_loop [] (env.reads c.log))

  pub send_raw-Tried : (cmd : Text) (c : Client) → Tried (cmd ∷ []) c (send_raw env cmd c).0
  unfolding send_raw
  send_raw-Tried cmd c =
      let c' : Client = record c { log = wrote (line_of cmd) ∷ c.log } in
      if_cases (λ (r : Client × Outcome Text). Tried (cmd ∷ []) c r.0) c.is_open
        (after_write env c' (env.write c.log (line_of cmd))) (c, failed not_connected)
        (λ on. written-Tried cmd c _ on (after_write-Tried c' (env.write c.log (line_of cmd))))
        (λ off. record {
          new = [];
          behind = refl;
          still_open = λ h. h;
          tried = λ h. absurd (ground (arith, off, h));
        })

  answered-client : (o : Client × Outcome Text) → (answered o).0 ≡ o.0
  answered-client (c, done r) = refl
  answered-client (c, failed e) = refl

  pub ask-Tried : (cmd : Text) (c : Client) → Tried (cmd ∷ []) c (ask env cmd c).0
  unfolding ask
  ask-Tried cmd c =
      subst (Tried (cmd ∷ []) c) (sym (answered-client (send_raw env cmd c))) (send_raw-Tried cmd c)
