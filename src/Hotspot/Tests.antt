-- ===== src/Hotspot/Tests.antt =====
-- A hotspot over one WiFi device.
use proton5g.Base.{
  true, false, [], ◌∷◌, none, some, ◌≡◌, refl, Text, codes, same, trim_space, byte_length,
}
use proton5g.Base.Int.{pos}
use proton5g.Hotspot.Config.{HotspotConfig, placeholder, validate_hotspot_config}
use proton5g.Hotspot.{hotspot_status, hotspot_start, start_config}
use proton5g.Hotspot.State.{HotspotPort, HotspotEnv, Hotspot, HotspotTools, stopped, start_ap}
use proton5g.Hotspot.Started.{Started}
use proton5g.Hotspot.Secrets.{with_password, hotspot_status-hides, hotspot_start-placeholder}

abbrev no_tools : HotspotTools
no_tools = record {
  hostapd = true;
  dnsmasq = true;
  iw = true;
  ip = true;
  nftables = true;
  iptables = false;
}

-- a repository that starts whatever it is told
abbrev host : HotspotPort
host = record {
  list_wifi_devices = λ calls. [];
  diagnostics =
      λ calls. record { tools = no_tools; install_hint = []; interfaces = []; notes = [] };
  start = λ calls cfg uplink. none;
  stop = λ calls. none;
  is_running = λ calls. true;
  status_extras = λ calls. record { lan_addrs = []; uplink_addrs = []; clients = [] };
}

-- 192.168.50.1/24
abbrev env : HotspotEnv
env = record {
  repository = some host;
  iface_addrs = none;
  parse_cidr =
      λ s. some (record { ip4 = some 3232248321; ones = 24; bits = 32; network = 3232248320 });
  has_file = true;
}

abbrev stored : HotspotConfig
stored = record {
  enabled = false;
  ssid = codes "home";
  password = codes "correct horse";
  wlan_iface = [];
  uplink_iface = codes "usb0";
  channel = pos 6;
  band = codes "2.4";
  lan_cidr = codes "192.168.50.1/24";
  country = [];
}

abbrev idle : Hotspot
idle = record {
  config = stored;
  state = stopped;
  message = [];
  selected_net = [];
  saved = [];
  calls = [];
}

-- a request with the placeholder
abbrev request : HotspotConfig
request = record {
  enabled = false;
  ssid = [];
  password = placeholder;
  wlan_iface = codes "wlan0";
  uplink_iface = [];
  channel = pos 0;
  band = [];
  lan_cidr = [];
  country = [];
}

hotspot_status-hides_example :
    hotspot_status env (with_password (codes "first secret") idle)
    ≡ hotspot_status env (with_password (codes "second secret") idle)
hotspot_status-hides_example =
    hotspot_status-hides env idle (codes "first secret") (codes "second secret") refl refl

-- a patch with a channel that does not exist
abbrev patch : HotspotConfig
patch = record request { wlan_iface = []; channel = pos 200 }

hotspot_start-placeholder_example :
    ((cfg : HotspotConfig) × (uplink : Text) × (cfg.password ≡ placeholder)
      × ((hotspot_start env request idle).0.calls ≡ start_ap cfg uplink ∷ []))
    × ((hotspot_start env request idle).0.config.password ≡ placeholder)
unfolding validate_hotspot_config start_config trim_space byte_length same
hotspot_start-placeholder_example =
    hotspot_start-placeholder env host request idle refl refl refl refl
