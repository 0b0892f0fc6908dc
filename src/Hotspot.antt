-- ===== src/Hotspot.antt =====
-- internal/usecase/hotspot.go: the hotspot of ModemService. Its operations are taken one at a time. The repository
-- (hostapd, dnsmasq and the rules of the firewall) is a port: a function of the calls that were made before.
pub mod Config
pub mod State
pub mod Started
pub mod Secrets
mod Tests
use proton5g.Base.{
  ℕ, Bool, true, false, not, ◌&&◌, ◌||◌, List, [], ◌∷◌, ◌++◌, Option, none, some, if◌then◌else◌,
  Text, codes, same, is_empty, trim_space,
}
use proton5g.Base.Int.{ℤ, pos, leb_ℤ, eqb_ℤ}
use proton5g.Hotspot.Config.{
  HotspotConfig, HotspotFault, NameFault, Cidr, ssid_required, wlan_name, no_repository, no_uplink,
  refused, band_24, band_5, placeholder, redacted_config, or_else, validate_iface_name,
  validate_hotspot_config,
}
use proton5g.Hotspot.State.{
  Calls, Extras, Hotspot, HotspotCall, HotspotClient, HotspotDiagnostics, HotspotEnv, HotspotPort,
  HotspotState, HotspotStatus, HotspotTools, WifiDevice, error, running, start_ap, starting,
  stop_ap, stopped, stopping,
}

-- the first of two texts that is not empty
abbrev pub text_or : Text → Text → Text
text_or s t = if is_empty s then t else s

-- `hotspotDefaultChannel`
unfoldable pub hotspot_default_channel : Text → ℤ
hotspot_default_channel band = if same band band_5 then pos 36 else pos 6

-- the interface of the first device
unfoldable pub first_wifi : List WifiDevice → Text
first_wifi [] = []
first_wifi (d ∷ devs) = d.iface

-- the state that is shown
unfoldable pub shown_state : Bool → HotspotState → HotspotState
shown_state true s = running
shown_state false running = stopped
shown_state false s = s

abbrev pub base_note : Text
base_note = codes "LTE/RNDIS is the internet uplink; WiFi radio broadcasts the hotspot (NAT)."

unfoldable pub status_note : Text → Text → Text
status_note uplink hint =
    base_note
    ++ (if is_empty uplink
        then codes " Select/connect a RNDIS data interface before starting the hotspot."
        else [])
    ++ (if is_empty hint then [] else codes " Install tools: " ++ hint ++ codes ".")

unfoldable pub live_addrs : HotspotEnv → Text → List Text → List Text
live_addrs env uplink [] =
    if is_empty uplink then [] else (elim env.iface_addrs [ none ↦ [] | some f ↦ f uplink ])
live_addrs env uplink (a ∷ addrs) = a ∷ addrs

unfoldable pub status_by : HotspotEnv → HotspotPort → Hotspot → HotspotStatus
unfolding shown_state first_wifi status_note live_addrs redacted_config
status_by env port h =
    let uplink = text_or h.config.uplink_iface h.selected_net in
    let extras = port.status_extras h.calls in
    let diag = port.diagnostics h.calls in
    let devices = port.list_wifi_devices h.calls in
    record {
      state = shown_state (port.is_running h.calls) h.state;
      config =
          redacted_config
            (record h.config { wlan_iface = text_or h.config.wlan_iface (first_wifi devices) });
      uplink = uplink;
      uplink_addrs = live_addrs env uplink extras.uplink_addrs;
      lan_addrs = extras.lan_addrs;
      diagnostics = some diag;
      devices = if is_empty diag.interfaces then devices else diag.interfaces;
      clients = extras.clients;
      message = h.message;
      note = status_note uplink diag.install_hint;
    }

-- `HotspotStatus`
unfoldable pub hotspot_status : HotspotEnv → Hotspot → HotspotStatus
unfolding status_by redacted_config
hotspot_status env h = elim env.repository [
  | some port ↦ status_by env port h
  | none ↦ record {
    state = error;
    config = redacted_config h.config;
    uplink = [];
    uplink_addrs = [];
    lan_addrs = [];
    diagnostics = none;
    devices = [];
    clients = [];
    message = codes "hotspot repository not configured";
    note = base_note;
  }
]

-- `persistHotspotConfigLocked`
unfoldable pub persist : HotspotEnv → Hotspot → Hotspot
persist env h = if env.has_file then record h { saved = h.config ∷ h.saved } else h

-- `mergeHotspotConfig`
unfoldable pub merge_hotspot_config : HotspotConfig → HotspotConfig → HotspotConfig
merge_hotspot_config base patch = record {
  enabled = patch.enabled;
  ssid = text_or patch.ssid base.ssid;
  password = text_or patch.password base.password;
  wlan_iface = text_or patch.wlan_iface base.wlan_iface;
  uplink_iface = text_or patch.uplink_iface base.uplink_iface;
  channel = if eqb_ℤ patch.channel (pos 0) then base.channel else patch.channel;
  band = text_or patch.band base.band;
  lan_cidr = text_or patch.lan_cidr base.lan_cidr;
  country = text_or patch.country base.country;
}

abbrev pub default_lan : Text
default_lan = codes "192.168.50.1/24"

-- the defaults behind a merge; a new band without a channel has that of the band
unfoldable pub with_radio_defaults : HotspotConfig → HotspotConfig → HotspotConfig
unfolding hotspot_default_channel
with_radio_defaults patch cfg =
    let band = text_or cfg.band band_24 in
    record cfg {
      lan_cidr = text_or cfg.lan_cidr default_lan;
      band = band;
      channel =
          if (not (is_empty patch.band) && eqb_ℤ patch.channel (pos 0)) || leb_ℤ cfg.channel (pos 0)
          then hotspot_default_channel band
          else cfg.channel;
    }

-- the check of a password that is there; a missing interface is no error yet
unfoldable pub check_saved : HotspotEnv → HotspotConfig → Option HotspotFault
check_saved env cfg =
    let strict = validate_hotspot_config env.parse_cidr cfg in
    let lenient =
      validate_hotspot_config env.parse_cidr (record cfg { wlan_iface = codes "wlan0" }) in
    if is_empty cfg.password || same cfg.password placeholder
    then none
    else if is_empty cfg.wlan_iface
    then (elim lenient [ none ↦ none | some e ↦ strict ])
    else strict

-- the password that is stored
unfoldable pub stored_password : Text → Text → Text
stored_password old new = if same new placeholder && not (is_empty old) then old else new

-- what is stored of a configuration that was checked
unfoldable pub store_config :
    HotspotEnv → HotspotConfig → Option HotspotFault → Hotspot → Hotspot × Option HotspotFault
unfolding stored_password persist
store_config env cfg (some e) h = (h, some e)
store_config env cfg none h = (
  persist env (record h {
    config = record cfg { password = stored_password h.config.password cfg.password };
  }),
  none,
)

-- the check of the interface, then those of the rest
unfoldable pub set_checked :
    HotspotEnv → HotspotConfig → Option NameFault → Hotspot → Hotspot × Option HotspotFault
unfolding store_config check_saved
set_checked env cfg (some e) h = (h, some (wlan_name e))
set_checked env cfg none h = store_config env cfg (check_saved env cfg) h

-- `HotspotSetConfig`
unfoldable pub hotspot_set_config :
    HotspotEnv → HotspotConfig → Hotspot → Hotspot × Option HotspotFault
unfolding set_checked merge_hotspot_config with_radio_defaults
hotspot_set_config env patch h =
    let merged = merge_hotspot_config h.config patch in
    if is_empty (trim_space merged.ssid)
    then (h, some ssid_required)
    else set_checked env (with_radio_defaults patch merged)
        (if is_empty merged.wlan_iface then none else validate_iface_name merged.wlan_iface) h

-- `appdefaults.HotspotSSID`
abbrev pub default_ssid : Text
default_ssid = codes "FM350-Hotspot"

-- the configuration of a start: the request, a patch, overrides what it names
unfoldable pub start_config : HotspotPort → HotspotConfig → Hotspot → HotspotConfig
unfolding merge_hotspot_config with_radio_defaults first_wifi
start_config port req h =
    let cfg =
      with_radio_defaults req
        (record (merge_hotspot_config h.config req) { enabled = h.config.enabled }) in
    record cfg {
      ssid = text_or cfg.ssid default_ssid;
      wlan_iface = text_or cfg.wlan_iface (first_wifi (port.list_wifi_devices h.calls));
    }

-- the answer of `Start`
unfoldable pub after_start : HotspotEnv → Option Text → Hotspot → Hotspot × Option HotspotFault
unfolding persist
after_start env (some e) h = (record h { state = error; message = e }, some (refused e))
after_start env none h = (
  persist env
      (record h { state = running; message = []; config = record h.config { enabled = true } }),
  none,
)

-- the call of `Start`
unfoldable pub call_start :
    HotspotEnv → HotspotPort → HotspotConfig → Text → Hotspot → Hotspot × Option HotspotFault
unfolding after_start
call_start env port cfg uplink h = after_start env (port.start h.calls cfg uplink) (record h {
  state = starting;
  message = [];
  config = cfg;
  calls = start_ap cfg uplink ∷ h.calls;
})

-- the checks in front of it
unfoldable pub start_checked :
    HotspotEnv
    → HotspotPort
    → HotspotConfig
    → Option HotspotFault
    → Hotspot
    → Hotspot × Option HotspotFault
unfolding call_start
start_checked env port cfg (some e) h = (h, some e)
start_checked env port cfg none h =
    let uplink = text_or cfg.uplink_iface h.selected_net in
    if is_empty uplink then (h, some no_uplink) else call_start env port cfg uplink h

unfoldable pub start_on :
    HotspotEnv → Option HotspotPort → HotspotConfig → Hotspot → Hotspot × Option HotspotFault
unfolding start_checked start_config
start_on env none req h = (h, some no_repository)
start_on env (some port) req h =
    let cfg = start_config port req h in
    start_checked env port cfg (validate_hotspot_config env.parse_cidr cfg) h

-- `HotspotStart`, without the status that it returns as well; the request is a patch
unfoldable pub hotspot_start : HotspotEnv → HotspotConfig → Hotspot → Hotspot × Option HotspotFault
unfolding start_on
hotspot_start env req h = start_on env env.repository req h

-- the answer of `Stop`
unfoldable pub after_stop : HotspotEnv → Option Text → Hotspot → Hotspot × Option HotspotFault
unfolding persist
after_stop env (some e) h = (record h { state = error; message = e }, some (refused e))
after_stop env none h = (
  persist env
      (record h { state = stopped; message = []; config = record h.config { enabled = false } }),
  none,
)

-- `HotspotStop`, without the status that it returns as well
unfoldable pub hotspot_stop : HotspotEnv → Hotspot → Hotspot × Option HotspotFault
unfolding after_stop
hotspot_stop env h = elim env.repository [
  | none ↦ (h, some no_repository)
  | some port ↦
      after_stop env (port.stop h.calls) (record h { state = stopping; calls = stop_ap ∷ h.calls })
]
