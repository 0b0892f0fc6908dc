-- ===== src/At/Tiered/Steps.antt =====
-- internal/repository/at_tiered.go: what the queries of a refresh keep of the cache.
use proton5g.Base.{
  Bool, true, false, not, ◌&&◌, ◌||◌, [], ◌∷◌, Option, none, some, ◌≡◌, ◌∙◌, refl, inl, inr, arith,
  Bool-cases, if_cases, if◌then◌else◌, Text, codes, is_empty, same,
}
use proton5g.At.Info.{unknown_operator, parse_cops_full, parse_cimi, parse_iccid, parse_info_line}
use proton5g.At.Serial.{AtEnv, Client, Outcome, done, failed}
use proton5g.At.Client.{ask}
use proton5g.At.Client.Commands.{cmd_cgpaddr, cmd_gtdns}
use proton5g.At.Tiered.{
  put_temp, refresh, query, retry_iccid, after_ccid, query_iccid, refresh_slow, with_cid,
  refresh_medium,
}
use proton5g.At.Tiered.Answers.{
  with_answer, unless_blank, put_cpin, put_imsi, put_iccid, put_apn, put_rat, put_identity,
  put_cops, put_address, put_dns, put_maker, put_model, put_firmware, put_imei,
}
use proton5g.At.Tiered.Cached.{Cache}

-- a text that was known stays known
pub data Stays (old new : Text) : Type 0 where
  was_unknown : is_empty old ≡ true → Stays old new
  is_known : is_empty new ≡ false → Stays old new

stays : {s : Text} → Stays s s
stays {s} = elim (Bool-cases (is_empty s)) [ inl e ↦ was_unknown e | inr e ↦ is_known e ]

Stays-trans : {a b c : Text} → Stays a b → Stays b c → Stays a c
Stays-trans (was_unknown e) k = was_unknown e
Stays-trans (is_known e) (was_unknown f) = absurd (ground (arith, e, f))
Stays-trans (is_known e) (is_known f) = is_known f

unless_blank-Stays : (old new : Text) → Stays old (unless_blank old new)
unless_blank-Stays old [] = stays
unless_blank-Stays old (c ∷ new) = is_known refl

-- what the SIM, the network and the modem were once known to be stays known
pub record Keeps (a b : Cache) : Type 0 where
  pub operator : Stays a.operator b.operator
  pub imsi : Stays a.imsi b.imsi
  pub iccid : Stays a.iccid b.iccid
  pub manufacturer : Stays a.identity.manufacturer b.identity.manufacturer
  pub model : Stays a.identity.model b.identity.model
  pub firmware : Stays a.identity.firmware b.identity.firmware
  pub imei : Stays a.identity.imei b.identity.imei

-- the same, by a query that leaves the times of the tiers alone
pub record Step (a b : Cache) : Type 0 where
  pub keeps : Keeps a b
  pub slow : b.slow_at ≡ a.slow_at
  pub medium : b.medium_at ≡ a.medium_at

pub Keeps-by :
    {a b : Cache}
    → Stays a.operator b.operator
    → Stays a.imsi b.imsi
    → Stays a.iccid b.iccid
    → Stays a.identity.manufacturer b.identity.manufacturer
    → Stays a.identity.model b.identity.model
    → Stays a.identity.firmware b.identity.firmware
    → Stays a.identity.imei b.identity.imei
    → Keeps a b
Keeps-by o i c m d f e = record {
  operator = o;
  imsi = i;
  iccid = c;
  manufacturer = m;
  model = d;
  firmware = f;
  imei = e;
}

pub Keeps-refl : (a : Cache) → Keeps a a
Keeps-refl a = Keeps-by stays stays stays stays stays stays stays

pub Keeps-trans : {a b c : Cache} → Keeps a b → Keeps b c → Keeps a c
Keeps-trans h k =
    Keeps-by (Stays-trans h.operator k.operator) (Stays-trans h.imsi k.imsi)
      (Stays-trans h.iccid k.iccid) (Stays-trans h.manufacturer k.manufacturer)
      (Stays-trans h.model k.model) (Stays-trans h.firmware k.firmware) (Stays-trans h.imei k.imei)

Step-of : {a b : Cache} → Keeps a b → b.slow_at ≡ a.slow_at → b.medium_at ≡ a.medium_at → Step a b
Step-of k s m = record { keeps = k; slow = s; medium = m }

Step-refl : (a : Cache) → Step a a
Step-refl a = Step-of (Keeps-refl a) refl refl

Step-trans : {a b c : Cache} → Step a b → Step b c → Step a c
Step-trans h k = Step-of (Keeps-trans h.keeps k.keeps) (k.slow ∙ h.slow) (k.medium ∙ h.medium)

-- an operation on the cache that keeps what is known, whatever it is answered
abbrev Keeping : (Text → Cache → Cache) → Type 0
Keeping f = (resp : Text) (a : Cache) → Step a (f resp a)

put_cpin-Keeping : Keeping put_cpin
unfolding put_cpin
put_cpin-Keeping resp a = Step-of (Keeps-by stays stays stays stays stays stays stays) refl refl

put_imsi-Keeping : Keeping put_imsi
unfolding put_imsi
put_imsi-Keeping resp a =
    Step-of
      (Keeps-by stays (unless_blank-Stays a.imsi (parse_cimi resp)) stays stays stays stays stays)
      refl refl

put_iccid-Keeping : Keeping put_iccid
unfolding put_iccid
put_iccid-Keeping resp a =
    Step-of
      (Keeps-by stays stays (unless_blank-Stays a.iccid (parse_iccid resp)) stays stays stays stays)
      refl refl

put_apn-Keeping : Keeping put_apn
unfolding put_apn
put_apn-Keeping resp a = Step-of (Keeps-by stays stays stays stays stays stays stays) refl refl

put_rat-Keeping : Keeping put_rat
unfolding put_rat
put_rat-Keeping resp a = Step-of (Keeps-by stays stays stays stays stays stays stays) refl refl

put_maker-Keeping : Keeping (put_identity put_maker)
unfolding put_identity
put_maker-Keeping resp a =
    Step-of
      (Keeps-by stays stays stays
        (unless_blank-Stays a.identity.manufacturer (parse_info_line resp)) stays stays stays)
      refl refl

put_model-Keeping : Keeping (put_identity put_model)
unfolding put_identity
put_model-Keeping resp a =
    Step-of
      (Keeps-by stays stays stays stays (unless_blank-Stays a.identity.model (parse_info_line resp))
        stays stays)
      refl refl

put_firmware-Keeping : Keeping (put_identity put_firmware)
unfolding put_identity
put_firmware-Keeping resp a =
    Step-of
      (Keeps-by stays stays stays stays stays
        (unless_blank-Stays a.identity.firmware (parse_info_line resp)) stays)
      refl refl

put_imei-Keeping : Keeping (put_identity put_imei)
unfolding put_identity
put_imei-Keeping resp a =
    Step-of
      (Keeps-by stays stays stays stays stays stays
        (unless_blank-Stays a.identity.imei (parse_info_line resp)))
      refl refl

operator-Stays :
    (old new : Text) (b : Bool) → Stays old (if not (is_empty new) && b then new else old)
operator-Stays old [] b = stays
operator-Stays old (c ∷ new) true = is_known refl
operator-Stays old (c ∷ new) false = stays

put_cops-Keeping : Keeping put_cops
unfolding put_cops
put_cops-Keeping resp a =
    let oper = (parse_cops_full resp).oper in
    Step-of
      (Keeps-by
        (operator-Stays a.operator oper (not (same oper unknown_operator) || is_empty a.operator))
        stays stays stays stays stays stays)
      refl refl

put_address-Keeping : Keeping put_address
unfolding put_address
put_address-Keeping resp a = Step-of (Keeps-by stays stays stays stays stays stays stays) refl refl

put_dns-Keeping : Keeping put_dns
unfolding put_dns
put_dns-Keeping resp a = Step-of (Keeps-by stays stays stays stays stays stays stays) refl refl

with_answer-Step :
    (f : Text → Cache → Cache)
    → Keeping f
    → (o : Option Text) (a : Cache) → Step a (with_answer f o a)
unfolding with_answer
with_answer-Step f k none a = Step-refl a
with_answer-Step f k (some resp) a = k resp a

module _ (env : AtEnv) where
  put_temp-Keeping : Keeping (put_temp env)
  unfolding put_temp
  put_temp-Keeping resp a = Step-of (Keeps-by stays stays stays stays stays stays stays) refl refl

  refresh-Step :
      (f : Text → Cache → Cache)
      → Keeping f
      → (o : Client × Outcome (Option Text)) (a : Cache) → Step a (refresh env f o a).1
  unfolding refresh
  refresh-Step f k (c, done answer) a = with_answer-Step f k answer a
  refresh-Step f k (c, failed e) a = Step-refl a

  query-Step :
      (cmd : Text) (f : Text → Cache → Cache)
      → Keeping f
      → (s : Client × Cache) → Step s.1 (query env cmd f s).1
  unfolding query
  query-Step cmd f k (c, a) = refresh-Step f k (ask env cmd c) a

  retry_iccid-Step : (o : Option Text) (s : Client × Cache) → Step s.1 (retry_iccid env o s).1
  unfolding retry_iccid
  retry_iccid-Step none s = Step-refl s.1
  retry_iccid-Step (some resp) s =
      if_cases (λ (r : Client × Cache). Step s.1 r.1) (is_empty (parse_iccid resp))
        (query env (codes "AT+ICCID") put_iccid s) s
        (λ _. query-Step (codes "AT+ICCID") put_iccid put_iccid-Keeping s) (λ _. Step-refl s.1)

  after_ccid-Step : (o : Client × Outcome (Option Text)) (a : Cache) → Step a (after_ccid env o a).1
  unfolding after_ccid
  after_ccid-Step (c, done answer) a =
      Step-trans (with_answer-Step put_iccid put_iccid-Keeping answer a)
        (retry_iccid-Step answer (c, with_answer put_iccid answer a))
  after_ccid-Step (c, failed e) a = Step-refl a

  query_iccid-Step : (s : Client × Cache) → Step s.1 (query_iccid env s).1
  unfolding query_iccid
  query_iccid-Step (c, a) = after_ccid-Step (ask env (codes "AT+CCID") c) a

  pub refresh_slow-Step : (s : Client × Cache) → Step s.1 (refresh_slow env s).1
  unfolding refresh_slow
  refresh_slow-Step s =
      let s1 = query env (codes "AT+CPIN?") put_cpin s in
      let s2 = query env (codes "AT+CIMI") put_imsi s1 in
      let s3 = query_iccid env s2 in
      let s4 = query env (codes "AT+CGDCONT?") put_apn s3 in
      let s5 = query env (codes "AT+GTACT?") put_rat s4 in
      let s6 = query env (codes "AT+CGMI") (put_identity put_maker) s5 in
      let s7 = query env (codes "AT+CGMM") (put_identity put_model) s6 in
      let s8 = query env (codes "AT+CGMR") (put_identity put_firmware) s7 in
      Step-trans (query-Step (codes "AT+CPIN?") put_cpin put_cpin-Keeping s) (
        Step-trans (query-Step (codes "AT+CIMI") put_imsi put_imsi-Keeping s1) (
          Step-trans (query_iccid-Step s2) (
            Step-trans (query-Step (codes "AT+CGDCONT?") put_apn put_apn-Keeping s3) (
              Step-trans (query-Step (codes "AT+GTACT?") put_rat put_rat-Keeping s4) (
                Step-trans
                  (query-Step (codes "AT+CGMI") (put_identity put_maker) put_maker-Keeping s5)
                  (Step-trans
                    (query-Step (codes "AT+CGMM") (put_identity put_model) put_model-Keeping s6)
                    (Step-trans
                      (query-Step (codes "AT+CGMR") (put_identity put_firmware) put_firmware-Keeping
                        s7)
                      (query-Step (codes "AT+CGSN") (put_identity put_imei) put_imei-Keeping
                        s8))))))))

  with_cid-Step : (s : Client × Cache) → Step s.1 (with_cid s).1
  unfolding with_cid
  with_cid-Step (c, a) = Step-of (Keeps-by stays stays stays stays stays stays stays) refl refl

  pub refresh_medium-Step : (s : Client × Cache) → Step s.1 (refresh_medium env s).1
  unfolding refresh_medium
  refresh_medium-Step s =
      let s1 = query env (codes "AT+COPS?") put_cops s in
      let s2 = query env (codes "AT+GTSENRDTEMP=1") (put_temp env) s1 in
      let s3 = with_cid s2 in
      let cid = s3.1.pdp.cid in
      let s4 = query env (cmd_cgpaddr cid) put_address s3 in
      Step-trans (query-Step (codes "AT+COPS?") put_cops put_cops-Keeping s) (
        Step-trans (query-Step (codes "AT+GTSENRDTEMP=1") (put_temp env) put_temp-Keeping s1) (
          Step-trans (with_cid-Step s2) (
            Step-trans (query-Step (cmd_cgpaddr cid) put_address put_address-Keeping s3)
              (query-Step (cmd_gtdns cid) put_dns put_dns-Keeping s4))))
