-- ===== src/At/Client.antt =====
-- internal/repository/at_client.go, at_cmd.go and at_pdp_control.go: the operations of a client. Each
-- takes the port's mutex for one command at a time; here a client has one user, as the services see to.
pub mod Commands
pub mod Polled
pub mod Sound
use proton5g.Base.{
  ℕ, Bool, true, false, not, ◌&&◌, ◌||◌, List, [], ◌∷◌, ◌++◌, Option, none, some, if◌then◌else◌,
  Text, codes, is_empty, same, split_on,
}
use proton5g.Base.Int.{ℤ, pos, leb_ℤ, eqb_ℤ}
use proton5g.Domain.{
  AtPoll, NetworkInfo, PdpSession, ModemIdentity, ApnConfig, SignalInfo, CellInfo, CaComponent,
}
use proton5g.Domain.Enums.{is_registered, reg_not_registered}
use proton5g.Domain.Enums.Rat.{RatModePref, gtact_code, cmd_gtact_set, cmd_gtact_set_by_pref}
use proton5g.At.Band.{format_int}
use proton5g.At.Signal.{parse_csq, merge_extended_signal, apply_serving_cell}
use proton5g.At.Cells.{parse_gtccinfo_cells}
use proton5g.At.Carriers.{
  parse_gtcainfo_components, enrich_gtcainfo_components, correlate_ca_with_cells,
}
use proton5g.At.Tech.{detect_radio_tech}
use proton5g.At.Info.{
  Cops, parse_cops_full, parse_registration, parse_cpin, parse_cimi, parse_iccid, parse_cgdcont,
  parse_gtsenrdtemp, parse_gtact, parse_gtusbmode, parse_info_line,
}
use proton5g.At.Info.Ips.{parse_cgpaddr, parse_gtdns}
use proton5g.At.Serial.{
  AtEnv, Client, Trouble, rejected, invalid_usb_mode, usb_query_failed, Outcome, done, failed,
  close_client, send_raw, ensure_connected, says_ok,
}
use proton5g.At.Client.Commands.{
  cid_or_one, cmd_cgact_set, cmd_cgdcont_set, cmd_cgpaddr, cmd_gtdns, cmd_gtusbmode_set,
}
use proton5g.At.Client.Polled.{Radio, network_of, radio_of}

-- an operation of a client that may fail
abbrev pub M : Type 0 → Type 0
M A = Client → Client × Outcome A

abbrev pub continue : {A B : Type 0} → Client × Outcome A → (A → M B) → Client × Outcome B
continue (c, done a) f = f a c
continue (c, failed e) f = (c, failed e)

infixl 5 ◌>>=◌ ◌>>◌
abbrev pub ◌>>=◌ : {A B : Type 0} → M A → (A → M B) → M B
◌>>=◌ m f c = continue (m c) f

abbrev pub ◌>>◌ : {A B : Type 0} → M A → M B → M B
◌>>◌ m k c = continue (m c) (λ _. k)

abbrev pub give : {A : Type 0} → A → M A
give a c = (c, done a)

abbrev pub fail : {A : Type 0} → Trouble → M A
fail e c = (c, failed e)

-- `resp, err := c.SendRaw(cmd)` where an error is no reason to stop
abbrev pub answered : Client × Outcome Text → Client × Outcome (Option Text)
answered (c, done resp) = (c, done (some resp))
answered (c, failed e) = (c, done none)

unfoldable pub ask : AtEnv → Text → M (Option Text)
ask env cmd c = answered (send_raw env cmd c)

-- the response, or "" with an error
abbrev pub or_blank : Option Text → Text
or_blank none = []
or_blank (some resp) = resp

module _ (env : AtEnv) where
  -- what a successful `QueryPDP` returns
  unfoldable pub session_of : ℤ → Text → Option Text → PdpSession
  session_of cid addr none = record {
    cid = cid;
    ip = parse_cgpaddr addr;
    dns1 = [];
    dns2 = [];
    gateway = [];
  }
  session_of cid addr (some dns) = record {
    cid = cid;
    ip = parse_cgpaddr addr;
    dns1 = (parse_gtdns dns).0;
    dns2 = (parse_gtdns dns).1;
    gateway = [];
  }

  -- `Client.QueryPDP`
  unfoldable pub query_pdp : ℤ → M PdpSession
  unfolding session_of
  query_pdp cid = do
    ensure_connected env
    addr ← send_raw env (cmd_cgpaddr cid)
    dns ← ask env (cmd_gtdns cid)
    give (session_of (cid_or_one cid) addr dns)

  -- an active context often answers ERROR; an address is accepted then
  unfoldable pub active_after : Text → Text → Client × Outcome PdpSession → Client × Outcome Text
  active_after cmd resp (c, failed e) = (c, failed (rejected cmd resp))
  active_after cmd resp (c, done sess) =
      if is_empty sess.ip then (c, failed (rejected cmd resp)) else (c, done [])

  unfoldable pub finish_activate : ℤ → Text → Text → M Text
  unfolding active_after query_pdp
  finish_activate cid cmd resp c =
      if says_ok resp then (c, done []) else active_after cmd resp (query_pdp cid c)

  -- `Client.ActivatePDP`
  unfoldable pub activate_pdp : ℤ → M Text
  unfolding finish_activate
  activate_pdp cid = do
    ensure_connected env
    resp ← send_raw env (cmd_cgact_set cid true)
    finish_activate (cid_or_one cid) (cmd_cgact_set cid true) resp

  -- a command that has to be answered with OK
  unfoldable pub command : Text → M Text
  command cmd = do
    ensure_connected env
    resp ← send_raw env cmd
    if says_ok resp then give [] else fail (rejected cmd resp)

  -- `Client.DeactivatePDP`
  unfoldable pub deactivate_pdp : ℤ → M Text
  unfolding command
  deactivate_pdp cid = command (cmd_cgact_set cid false)

  -- `Client.SetAPN`
  unfoldable pub set_apn : ℤ → Text → Text → M Text
  unfolding command
  set_apn cid pdp apn = command (cmd_cgdcont_set cid pdp apn)

  -- `ModemService.RawAT`, where there is a client
  unfoldable pub raw_at : Text → M Text
  raw_at cmd = do ensure_connected env; send_raw env cmd

  -- what a rejected +GTACT command ends with
  unfoldable pub rat_failure : Text → Outcome Text → Outcome Text
  rat_failure cmd (failed e) = failed e
  rat_failure cmd (done resp) = failed (rejected cmd resp)

  unfoldable pub is_ok : Outcome Text → Bool
  is_ok (done resp) = says_ok resp
  is_ok (failed e) = false

  -- the fallback
  unfoldable pub after_fallback :
      Text → Outcome Text → Client × Outcome Text → Client × Outcome Text
  unfolding is_ok rat_failure
  after_fallback cmd first (c, second) =
      (c, if is_ok second then done [] else rat_failure cmd first)

  unfoldable pub after_gtact : RatModePref → Client × Outcome Text → Client × Outcome Text
  unfolding after_fallback is_ok rat_failure
  after_gtact pref (c, first) =
      let cmd = cmd_gtact_set_by_pref pref in
      let fallback = cmd_gtact_set (gtact_code pref) in
      if is_ok first
      then (c, done [])
      else if same fallback cmd
      then (c, rat_failure cmd first)
      else after_fallback cmd first (send_raw env fallback c)

  -- `Client.SetRATMode`
  unfoldable pub set_rat_mode : RatModePref → M Text
  unfolding after_gtact
  set_rat_mode pref = do
    ensure_connected env
    λ c. after_gtact pref (send_raw env (cmd_gtact_set_by_pref pref) c)

  -- `Client.GetUSBMode`
  unfoldable pub get_usb_mode : M ℤ
  get_usb_mode = do
    ensure_connected env
    resp ← send_raw env (codes "AT+GTUSBMODE?")
    let mode = parse_gtusbmode resp
    if eqb_ℤ mode (pos 0) && not (says_ok resp) then fail (usb_query_failed resp) else give mode

  -- `Client.SetUSBMode`: the port goes away when the modem is enumerated again
  unfoldable pub set_usb_mode : ℤ → M Text
  unfolding command
  set_usb_mode mode =
      if leb_ℤ mode (pos 0)
      then fail (invalid_usb_mode mode)
      else (do command (cmd_gtusbmode_set mode); λ c. (close_client c, done []))

  -- the four answers about the modem itself
  unfoldable pub identity_of :
      ModemIdentity → Option Text → Option Text → Option Text → Option Text → ModemIdentity
  identity_of old maker model firmware imei = record {
    manufacturer = elim maker [ none ↦ old.manufacturer | some r ↦ parse_info_line r ];
    model = elim model [ none ↦ old.model | some r ↦ parse_info_line r ];
    firmware = elim firmware [ none ↦ old.firmware | some r ↦ parse_info_line r ];
    imei = elim imei [ none ↦ old.imei | some r ↦ parse_info_line r ];
  }

  unfoldable pub keep_identity : ModemIdentity → M ModemIdentity
  keep_identity i c =
      (if is_empty i.imei && is_empty i.model then c else record c { ident = i }, done i)

  -- `pollIdentity`
  unfoldable pub poll_identity : M ModemIdentity
  unfolding identity_of keep_identity
  poll_identity c =
      if not (is_empty c.ident.imei)
      then (c, done c.ident)
      else (do
        maker ← ask env (codes "AT+CGMI")
        model ← ask env (codes "AT+CGMM")
        firmware ← ask env (codes "AT+CGMR")
        imei ← ask env (codes "AT+CGSN")
        keep_identity (identity_of c.ident maker model firmware imei))
          c

  -- the ICCID by its other command
  unfoldable pub other_iccid : Text → M Text
  other_iccid iccid = if not (is_empty iccid) then give iccid else (do
    alt ← ask env (codes "AT+ICCID")
    give (elim alt [ none ↦ [] | some r ↦ parse_iccid r ]))

  -- a query whose error is dropped, with the session that it returns anyway
  abbrev session_or : ℤ → Client × Outcome PdpSession → Client × Outcome PdpSession
  session_or cid (c, done sess) = (c, done sess)
  session_or cid (c, failed e) =
      (c, done (record { cid = cid; ip = []; dns1 = []; dns2 = []; gateway = [] }))

  -- `Client.GetFullStatus`
  unfoldable pub get_full_status : M AtPoll
  unfolding other_iccid poll_identity query_pdp
  get_full_status = do
    ensure_connected env
    csq ← send_raw env (codes "AT+CSQ")
    cesq ← ask env (codes "AT+CESQ")
    cops ← ask env (codes "AT+COPS?")
    c5g ← ask env (codes "AT+C5GREG?")
    clte ← ask env (codes "AT+CEREG?")
    cpin ← ask env (codes "AT+CPIN?")
    cimi ← ask env (codes "AT+CIMI")
    ccid ← ask env (codes "AT+CCID")
    cgd ← ask env (codes "AT+CGDCONT?")
    gtact ← ask env (codes "AT+GTACT?")
    temp ← ask env (codes "AT+GTSENRDTEMP=1")
    gtca ← ask env (codes "AT+GTCAINFO?")
    gtcc ← ask env (codes "AT+GTCCINFO?")
    iccid ← other_iccid (parse_iccid (or_blank ccid))
    let apn = parse_cgdcont (or_blank cgd)
    pdp ← (λ c. session_or (cid_or_one apn.cid) (query_pdp (cid_or_one apn.cid) c))
    identity ← poll_identity
    let radio = radio_of env csq (or_blank cesq) (or_blank gtca) (or_blank gtcc)
    let oper = parse_cops_full (or_blank cops)
    give (record {
      signal = radio.signal;
      network =
          network_of oper.oper oper.act oper.has_act (parse_registration (or_blank c5g))
            (parse_registration (or_blank clte)) radio;
      sim = record {
        state = parse_cpin (or_blank cpin);
        imsi = parse_cimi (or_blank cimi);
        iccid = iccid;
      };
      apn = if is_empty apn.ip_addr then record apn { ip_addr = pdp.ip } else apn;
      rat_mode = parse_gtact (or_blank gtact);
      identity = identity;
      temp_c = elim (parse_gtsenrdtemp env.parse_float (or_blank temp)) [
        | none ↦ pos 0
        | some t ↦ t
      ];
      cells = radio.cells;
      ca = radio.ca;
      pdp = pdp;
    })
