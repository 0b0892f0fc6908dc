-- ===== src/At/Serial.antt =====
-- internal/repository/at_client.go and at_cmd.go: the serial port of a client, and the commands on it.
-- The serial library is a parameter: what it answers may depend on everything that was done before.
pub mod Lifecycle
use proton5g.Base.{
  ℕ, suc, Bool, true, false, not, ◌&&◌, ◌||◌, List, [], ◌∷◌, ◌++◌, Option, none, some,
  if◌then◌else◌, Text, codes, is_empty, same, trim_space, contains, has_suffix, itoa, ◌≢◌, arith,
}
use proton5g.Base.Int.{ℤ, pos, negsuc, leb_ℤ}
use proton5g.Domain.{ModemIdentity}
use proton5g.Sms.Urc.{store_and_strip}
use proton5g.At.Band.{format_int}

-- what is done to the port; `refused` is an `Open` with an error
pub data Action : Type 0 where
  opened : Text → Action
  refused : Text → Action
  wrote : Text → Action
  closed : Action

-- the actions so far, the newest first
abbrev pub Log : Type 0
Log = List Action

-- what one `Read` returns: the bytes, and whether there is an error
pub record Read : Type 0 where
  pub bytes : Text
  pub failed : Bool

-- The serial library, with `none` for no error: `Open`, `Write`, and the reads until the deadline of three seconds.
-- `tenths_mhz` and `parse_float` are those of the parsers.
pub record AtEnv : Type 0 where
  pub open_port : Log → Text → Option Text
  pub write : Log → Text → Option Text
  pub reads : Log → List Read
  pub tenths_mhz : ℕ → Text
  pub parse_float : Text → Option ℤ

-- the errors of a client
pub data Trouble : Type 0 where
  no_port_name : Trouble
  open_failed : Text → Text → Trouble
  not_connected : Trouble
  write_failed : Text → Trouble
  read_failed : Trouble
  empty_response : Text → Trouble
  ping_failed : Text → Text → Trouble
  rejected : Text → Text → Trouble
  invalid_usb_mode : ℤ → Trouble
  usb_query_failed : Text → Trouble

pub data Outcome {ℓ} (A : Type ℓ) : Type ℓ where
  done : A → Outcome A
  failed : Trouble → Outcome A

pub failed_ne_done {ℓ} : {A : Type ℓ} (e : Trouble) (a : A) → failed e ≢ done a
failed_ne_done e a h = ground (arith, h)

-- `Client`, with the queue of unsolicited result codes that `at_urc.go` keeps for it
pub record Client : Type 0 where
  pub port_name : Text
  pub is_open : Bool
  pub ident : ModemIdentity
  pub urcs : List Text
  pub log : Log

abbrev pub no_identity : ModemIdentity
no_identity = record { manufacturer = []; model = []; firmware = []; imei = [] }

-- `NewClient`
unfoldable pub new_client : Text → Client
new_client name = record {
  port_name = name;
  is_open = false;
  ident = no_identity;
  urcs = [];
  log = [];
}

-- `Client.Close`
unfoldable pub close_client : Client → Client
close_client c = if c.is_open then record c { is_open = false; log = closed ∷ c.log } else c

-- `Client.SetPortName`
unfoldable pub rename_port : Text → Client → Client
unfolding close_client
rename_port name c =
    if is_empty name || same name c.port_name
    then c
    else record (close_client c) { port_name = name; ident = no_identity }

-- the answer to `Open`
unfoldable pub after_open : Client → Option Text → Client × Outcome Text
after_open c none = (record c { is_open = true; log = opened c.port_name ∷ c.log }, done [])
after_open c (some e) =
    (record c { log = refused c.port_name ∷ c.log }, failed (open_failed c.port_name e))

-- `connectLocked`
unfoldable pub connect : AtEnv → Client → Client × Outcome Text
unfolding after_open close_client
connect env c =
    let c' = close_client c in
    if is_empty c'.port_name
    then (c', failed no_port_name)
    else after_open c' (env.open_port c'.log c'.port_name)

-- the line that is written for a command
unfoldable pub line_of : Text → Text
line_of cmd =
    let t = trim_space cmd in
    if has_suffix (b'\r' ∷ []) t || has_suffix (codes "\r\n") t then t else t ++ b'\r' ∷ []

-- a response that is complete
unfoldable pub is_complete : Text → Bool
is_complete s =
    contains (codes "OK") s || contains (codes "ERROR") s || contains (codes "+CMS ERROR:") s

-- how the loop over the reads ends
pub data ReadEnd : Type 0 where
  got : Text → ReadEnd
  broken : ReadEnd

unfoldable pub read_loop : Text → List Read → ReadEnd
unfolding is_complete
read_loop resp [] = got resp
read_loop resp (r ∷ reads) =
    let resp' = resp ++ r.bytes in
    let rest = read_loop resp' reads in
    if not (is_empty r.bytes) && is_complete resp'
    then got resp'
    else if r.failed
    then (if is_empty resp' then broken else got resp')
    else rest

-- what follows the loop
unfoldable pub after_reads : Client → ReadEnd → Client × Outcome Text
unfolding close_client store_and_strip
after_reads c broken = (close_client c, failed read_failed)
after_reads c (got []) = (c, failed (empty_response c.port_name))
after_reads c (got (r ∷ s)) =
    let (text, items) = store_and_strip (r ∷ s) c.urcs in (record c { urcs = items }, done text)

-- what follows `Write`
unfoldable pub after_write : AtEnv → Client → Option Text → Client × Outcome Text
unfolding after_reads read_loop
after_write env c (some e) = (close_client c, failed (write_failed e))
after_write env c none = after_reads c (read_loop [] (env.reads c.log))

-- `sendRawLocked`
unfoldable pub send_raw : AtEnv → Text → Client → Client × Outcome Text
unfolding after_write line_of
send_raw env cmd c =
    if c.is_open
    then after_write env (record c { log = wrote (line_of cmd) ∷ c.log })
        (env.write c.log (line_of cmd))
    else (c, failed not_connected)

-- a response that says OK
abbrev pub says_ok : Text → Bool
says_ok = contains (codes "OK")

-- what the first ping tells: the port answers
unfoldable pub answers_ping : Outcome Text → Bool
answers_ping (done resp) = says_ok resp
answers_ping (failed e) = false

unfoldable pub ping_result : Text → Outcome Text → Outcome Text
ping_result name (failed e) = failed e
ping_result name (done resp) = if says_ok resp then done [] else failed (ping_failed name resp)

-- the second ping, on a port that was opened again; whether that worked is not looked at
unfoldable pub ping_again : AtEnv → Client → Client × Outcome Text
unfolding connect send_raw ping_result
ping_again env c =
    let (c', _) = connect env c in
    let (c'', second) = send_raw env (codes "AT") c' in (c'', ping_result c''.port_name second)

unfoldable pub ping : AtEnv → Client → Client × Outcome Text
unfolding send_raw ping_again answers_ping
ping env c =
    let (c', first) = send_raw env (codes "AT") c in
    if answers_ping first then (c', done []) else ping_again env c'

unfoldable pub ping_opened : AtEnv → Client × Outcome Text → Client × Outcome Text
unfolding ping
ping_opened env (c, failed e) = (c, failed e)
ping_opened env (c, done _) = ping env c

-- `EnsureConnected`
unfoldable pub ensure_connected : AtEnv → Client → Client × Outcome Text
unfolding ping_opened connect
ensure_connected env c = if c.is_open then ping env c else ping_opened env (connect env c)
