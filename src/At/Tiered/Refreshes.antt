-- ===== src/At/Tiered/Refreshes.antt =====
-- internal/repository/at_tiered.go: what `refreshSlow` and `refreshMedium` write to the port.
use mathlib.Core.Path.{subst}
use proton5g.Base.{
  [], ◌∷◌, Option, none, some, ◌≡◌, ◌∙◌, refl, sym, ap, if_cases, Text, codes, is_empty,
}
use proton5g.Base.Int.{ℤ}
use proton5g.Domain.{ApnConfig}
use proton5g.At.Info.{parse_iccid}
use proton5g.At.Serial.{AtEnv, Client, Outcome, done, failed}
use proton5g.At.Client.{ask}
use proton5g.At.Client.Commands.{cid_or_one, cmd_cgpaddr, cmd_gtdns}
use proton5g.At.Tiered.{
  put_temp, refresh, query, retry_iccid, after_ccid, query_iccid, refresh_slow, with_cid,
  refresh_medium,
}
use proton5g.At.Tiered.Answers.{
  with_answer, put_cpin, put_imsi, put_iccid, put_apn, put_rat, put_identity, put_cops, put_address,
  put_dns, put_maker, put_model, put_firmware, put_imei,
}
use proton5g.At.Tiered.Cached.{Cache}
use proton5g.At.Tiered.Tried.{
  Tried, Tried-refl, Tried-trans, ask-Tried, before, besides, medium_commands, pdp_commands,
  slow_commands,
}

module _ (env : AtEnv) where
  refresh-client :
      (f : Text → Cache → Cache) (o : Client × Outcome (Option Text)) (a : Cache)
      → (refresh env f o a).0 ≡ o.0
  unfolding refresh
  refresh-client f (c, done r) a = refl
  refresh-client f (c, failed e) a = refl

  query-Tried :
      (cmd : Text) (f : Text → Cache → Cache) (s : Client × Cache)
      → Tried (cmd ∷ []) s.0 (query env cmd f s).0
  unfolding query
  query-Tried cmd f (c, a) =
      subst (Tried (cmd ∷ []) c) (sym (refresh-client f (ask env cmd c) a)) (ask-Tried env cmd c)

  retry_iccid-Tried : (o : Option Text) (s : Client × Cache) → Tried [] s.0 (retry_iccid env o s).0
  unfolding retry_iccid
  retry_iccid-Tried none s = Tried-refl s.0
  retry_iccid-Tried (some resp) s =
      if_cases (λ (r : Client × Cache). Tried [] s.0 r.0) (is_empty (parse_iccid resp))
        (query env (codes "AT+ICCID") put_iccid s) s
        (λ _. besides _ (query-Tried (codes "AT+ICCID") put_iccid s)) (λ _. Tried-refl s.0)

  after_ccid-Tried :
      (o : Client × Outcome (Option Text)) (a : Cache) → Tried [] o.0 (after_ccid env o a).0
  unfolding after_ccid
  after_ccid-Tried (c, done answer) a = retry_iccid-Tried answer (c, with_answer put_iccid answer a)
  after_ccid-Tried (c, failed e) a = Tried-refl c

  query_iccid-Tried : (s : Client × Cache) → Tried (codes "AT+CCID" ∷ []) s.0 (query_iccid env s).0
  unfolding query_iccid
  query_iccid-Tried (c, a) =
      Tried-trans (codes "AT+CCID" ∷ []) [] (ask-Tried env (codes "AT+CCID") c)
        (after_ccid-Tried (ask env (codes "AT+CCID") c) a)

  pub refresh_slow-Tried : (s : Client × Cache) → Tried slow_commands s.0 (refresh_slow env s).0
  unfolding refresh_slow
  refresh_slow-Tried s =
      let s1 = query env (codes "AT+CPIN?") put_cpin s in
      let s2 = query env (codes "AT+CIMI") put_imsi s1 in
      let s3 = query_iccid env s2 in
      let s4 = query env (codes "AT+CGDCONT?") put_apn s3 in
      let s5 = query env (codes "AT+GTACT?") put_rat s4 in
      let s6 = query env (codes "AT+CGMI") (put_identity put_maker) s5 in
      let s7 = query env (codes "AT+CGMM") (put_identity put_model) s6 in
      let s8 = query env (codes "AT+CGMR") (put_identity put_firmware) s7 in
      before (query-Tried (codes "AT+CPIN?") put_cpin s) (
        before (query-Tried (codes "AT+CIMI") put_imsi s1) (
          before (query_iccid-Tried s2) (
            before (query-Tried (codes "AT+CGDCONT?") put_apn s3) (
              before (query-Tried (codes "AT+GTACT?") put_rat s4) (
                before (query-Tried (codes "AT+CGMI") (put_identity put_maker) s5) (
                  before (query-Tried (codes "AT+CGMM") (put_identity put_model) s6) (
                    before (query-Tried (codes "AT+CGMR") (put_identity put_firmware) s7)
                      (query-Tried (codes "AT+CGSN") (put_identity put_imei) s8))))))))

  -- the context that the PDP values are asked for
  refresh-apn :
      (f : Text → Cache → Cache)
      → ((resp : Text) (a : Cache) → (f resp a).apn ≡ a.apn)
      → (o : Client × Outcome (Option Text)) (a : Cache) → (refresh env f o a).1.apn ≡ a.apn
  unfolding refresh with_answer
  refresh-apn f k (c, done none) a = refl
  refresh-apn f k (c, done (some resp)) a = k resp a
  refresh-apn f k (c, failed e) a = refl

  query-apn :
      (cmd : Text) (f : Text → Cache → Cache)
      → ((resp : Text) (a : Cache) → (f resp a).apn ≡ a.apn)
      → (s : Client × Cache) → (query env cmd f s).1.apn ≡ s.1.apn
  unfolding query
  query-apn cmd f k (c, a) = refresh-apn f k (ask env cmd c) a

  medium-apn :
      (s : Client × Cache)
      → (query env
          (codes "AT+GTSENRDTEMP=1")
          (put_temp env)
          (query env (codes "AT+COPS?") put_cops s)).1.apn
        ≡ s.1.apn
  unfolding put_temp put_cops
  medium-apn s =
      query-apn (codes "AT+GTSENRDTEMP=1") (put_temp env) (λ _ _. refl)
        (query env (codes "AT+COPS?") put_cops s)
      ∙ query-apn (codes "AT+COPS?") put_cops (λ _ _. refl) s

  with_cid-client : (s : Client × Cache) → (with_cid s).0 ≡ s.0
  unfolding with_cid
  with_cid-client (c, a) = refl

  with_cid-cid : (s : Client × Cache) → (with_cid s).1.pdp.cid ≡ cid_or_one s.1.apn.cid
  unfolding with_cid
  with_cid-cid (c, a) = refl

  with_cid-apn : (s : Client × Cache) → (with_cid s).1.apn ≡ s.1.apn
  unfolding with_cid
  with_cid-apn (c, a) = refl

  pub refresh_medium-apn : (s : Client × Cache) → (refresh_medium env s).1.apn ≡ s.1.apn
  unfolding refresh_medium put_address put_dns
  refresh_medium-apn s =
      let s2 =
        query env (codes "AT+GTSENRDTEMP=1") (put_temp env)
          (query env (codes "AT+COPS?") put_cops s) in
      let s3 = with_cid s2 in
      query-apn (cmd_gtdns s3.1.pdp.cid) put_dns (λ _ _. refl)
        (query env (cmd_cgpaddr s3.1.pdp.cid) put_address s3)
      ∙ (query-apn (cmd_cgpaddr s3.1.pdp.cid) put_address (λ _ _. refl) s3
          ∙ (with_cid-apn s2 ∙ medium-apn s))

  pub refresh_medium-Tried :
      (s : Client × Cache) → Tried (medium_commands s.1.apn) s.0 (refresh_medium env s).0
  unfolding refresh_medium
  refresh_medium-Tried s =
      let s1 = query env (codes "AT+COPS?") put_cops s in
      let s2 = query env (codes "AT+GTSENRDTEMP=1") (put_temp env) s1 in
      let s3 = with_cid s2 in
      let cid = s3.1.pdp.cid in
      let s4 = query env (cmd_cgpaddr cid) put_address s3 in
      let s5 = query env (cmd_gtdns cid) put_dns s4 in
      let asked : cid ≡ cid_or_one s.1.apn.cid =
        with_cid-cid s2 ∙ ap (λ (a : ApnConfig). cid_or_one a.cid) (medium-apn s) in
      before (query-Tried (codes "AT+COPS?") put_cops s) (
        before (query-Tried (codes "AT+GTSENRDTEMP=1") (put_temp env) s1) (
          subst (λ (c : Client). Tried (pdp_commands s.1.apn) c s5.0) (with_cid-client s2)
            (subst (λ (k : ℤ). Tried (cmd_cgpaddr k ∷ cmd_gtdns k ∷ []) s3.0 s5.0) asked
              (before (query-Tried (cmd_cgpaddr cid) put_address s3)
                (query-Tried (cmd_gtdns cid) put_dns s4)))))
