-- ===== src/Hotspot/Secrets.antt =====
-- internal/usecase/hotspot.go: the password of the hotspot, and the placeholder that is shown for it.
use proton5g.Base.{
  true, false, [], ◌∷◌, Option, none, some, ◌≡◌, ◌∙◌, refl, ap, inl, inr, arith, Option-cases,
  if_cases, Text, is_empty,
}
use proton5g.Hotspot.Config.{
  HotspotConfig, HotspotFault, no_uplink, placeholder, redacted_config, validate_hotspot_config,
}
use proton5g.Hotspot.{
  text_or, persist, hotspot_status, status_by, merge_hotspot_config, with_radio_defaults,
  start_config, after_start, start_checked, call_start, start_on, hotspot_start,
}
use proton5g.Hotspot.State.{HotspotPort, HotspotEnv, Hotspot, start_ap, running, starting}

-- the state with another password
abbrev pub with_password : Text → Hotspot → Hotspot
with_password p h = record h { config = record h.config { password = p } }

redacted_alike :
    (c : HotspotConfig) (p q : Text)
    → is_empty p ≡ false
    → is_empty q ≡ false
    → redacted_config (record c { password = p }) ≡ redacted_config (record c { password = q })
unfolding redacted_config
redacted_alike c p q hp hq = rw (hp, hq)

-- What `HotspotStatus` returns does not depend on the password, beyond whether there is one: for any two
-- passwords that are not empty, the status is the same.
pub hotspot_status-hides :
    (env : HotspotEnv) (h : Hotspot) (p q : Text)
    → is_empty p ≡ false
    → is_empty q ≡ false
    → hotspot_status env (with_password p h) ≡ hotspot_status env (with_password q h)
unfolding hotspot_status status_by redacted_config
hotspot_status-hides env h p q hp hq = elim (Option-cases env.repository) [
  | inl e ↦ rw (e, hotspot_status, hp, hq)
  | inr (port, e) ↦ rw (e, hotspot_status, hp, hq)
]

text_or_named : (s t : Text) → is_empty s ≡ false → text_or s t ≡ s
text_or_named (c ∷ s) t h = refl
text_or_named [] t h = absurd (ground (arith, h))

-- a configuration that is accepted and stored with the old password
abbrev Accepted : HotspotConfig → Hotspot → Hotspot × Option HotspotFault → Type 0
Accepted cfg h r = (r.1 ≡ none) × (r.0.config ≡ record cfg { password = h.config.password })

shown_merged :
    (base patch : HotspotConfig)
    → patch.password ≡ placeholder
    → (merge_hotspot_config base patch).password ≡ placeholder
unfolding merge_hotspot_config
shown_merged base patch h = ap (λ (s : Text). text_or s base.password) h

-- the answer of the repository leaves the calls and the password alone
after_start-password :
    (env : HotspotEnv) (o : Option Text) (k : Hotspot)
    → ((after_start env o k).0.calls ≡ k.calls)
      × ((after_start env o k).0.config.password ≡ k.config.password)
unfolding after_start persist
after_start-password env (some e) k = (refl, refl)
after_start-password env none k =
    let on : Hotspot = record k {
      state = running;
      message = [];
      config = record k.config { enabled = true };
    } in
    if_cases (λ (r : Hotspot). (r.calls ≡ k.calls) × (r.config.password ≡ k.config.password))
      env.has_file (record on { saved = on.config ∷ on.saved }) on (λ _. (refl, refl))
      (λ _. (refl, refl))

start_config-password :
    (port : HotspotPort) (req : HotspotConfig) (h : Hotspot)
    → req.password ≡ placeholder
    → (start_config port req h).password ≡ placeholder
unfolding start_config with_radio_defaults
start_config-password port req h shows = shown_merged h.config req shows

start_checked-password :
    (env : HotspotEnv) (port : HotspotPort) (cfg : HotspotConfig) (o : Option HotspotFault)
    (h : Hotspot)
    → o ≡ none
    → is_empty (text_or cfg.uplink_iface h.selected_net) ≡ false
    → ((start_checked env port cfg o h).0.calls
        ≡ start_ap cfg (text_or cfg.uplink_iface h.selected_net) ∷ h.calls)
      × ((start_checked env port cfg o h).0.config.password ≡ cfg.password)
unfolding start_checked call_start
start_checked-password env port cfg (some e) h eq named = absurd (ground (arith, eq))
start_checked-password env port cfg none h eq named =
    let uplink = text_or cfg.uplink_iface h.selected_net in
    if_cases
      (λ (r : Hotspot × Option HotspotFault).
        (r.0.calls ≡ start_ap cfg uplink ∷ h.calls) × (r.0.config.password ≡ cfg.password))
      (is_empty uplink) (h, some no_uplink) (call_start env port cfg uplink h)
      (λ bare. absurd (ground (arith, bare, named)))
      (λ _. after_start-password env (port.start h.calls cfg uplink) (record h {
        state = starting;
        message = [];
        config = cfg;
        calls = start_ap cfg uplink ∷ h.calls;
      }))

-- A start whose request has the placeholder for its password, and whose configuration is valid otherwise and has an
-- uplink: the repository is told to run the hotspot with the placeholder as the password, and that is the password
-- which is stored behind it, whatever the password was before.
pub hotspot_start-placeholder :
    (env : HotspotEnv) (port : HotspotPort) (req : HotspotConfig) (h : Hotspot)
    → env.repository ≡ some port
    → req.password ≡ placeholder
    → validate_hotspot_config env.parse_cidr (start_config port req h) ≡ none
    → is_empty (text_or (start_config port req h).uplink_iface h.selected_net) ≡ false
    → ((cfg : HotspotConfig) × (uplink : Text) × (cfg.password ≡ placeholder)
        × ((hotspot_start env req h).0.calls ≡ start_ap cfg uplink ∷ h.calls))
      × ((hotspot_start env req h).0.config.password ≡ placeholder)
unfolding hotspot_start start_on
hotspot_start-placeholder env port req h here shows valid named =
    let cfg = start_config port req h in
    let uplink = text_or cfg.uplink_iface h.selected_net in
    let known = start_config-password port req h shows in
    let run =
      start_checked-password env port cfg (validate_hotspot_config env.parse_cidr cfg) h valid
        named in
    let same_run : start_on env env.repository req h ≡ start_on env (some port) req h =
      ap (λ (o : Option HotspotPort). start_on env o req h) here in
    (
      (cfg, uplink, known, ap (λ (r : Hotspot × Option HotspotFault). r.0.calls) same_run ∙ run.0),
      ap (λ (r : Hotspot × Option HotspotFault). r.0.config.password) same_run ∙ run.1 ∙ known,
    )
