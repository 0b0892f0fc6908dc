-- ===== src/Hotspot/State.antt =====
-- internal/pkg/domain/hotspot.go and internal/usecase/ports.go: what the service of the hotspot knows, and what it
-- asks of the repository.
use proton5g.Base.{Bool, List, Option, Text}
use proton5g.Hotspot.Config.{HotspotConfig, Cidr}

-- the states of the hotspot
pub data HotspotState : Type 0 where
  stopped starting running stopping error : HotspotState

-- `WiFiDevice`, `HotspotTools`, `HotspotDiagnostics` and `HotspotClient`
pub record WifiDevice : Type 0 where
  pub iface : Text
  pub phy : Text
  pub driver : Text
  pub oper_state : Text
  pub supports_ap : Bool
  pub ap_known : Bool
  pub modes : List Text
  pub label : Text

pub record HotspotTools : Type 0 where
  pub hostapd : Bool
  pub dnsmasq : Bool
  pub iw : Bool
  pub ip : Bool
  pub nftables : Bool
  pub iptables : Bool

pub record HotspotDiagnostics : Type 0 where
  pub tools : HotspotTools
  pub install_hint : Text
  pub interfaces : List WifiDevice
  pub notes : List Text

pub record HotspotClient : Type 0 where
  pub mac : Text
  pub ip : Text
  pub name : Text

-- the calls that change something on the host
pub data HotspotCall : Type 0 where
  start_ap : HotspotConfig → Text → HotspotCall
  stop_ap : HotspotCall

abbrev pub Calls : Type 0
Calls = List HotspotCall

-- what `StatusExtras` returns
pub record Extras : Type 0 where
  pub lan_addrs : List Text
  pub uplink_addrs : List Text
  pub clients : List HotspotClient

-- `HotspotRepository`, with the text of an error
pub record HotspotPort : Type 0 where
  pub list_wifi_devices : Calls → List WifiDevice
  pub diagnostics : Calls → HotspotDiagnostics
  pub start : Calls → HotspotConfig → Text → Option Text
  pub stop : Calls → Option Text
  pub is_running : Calls → Bool
  pub status_extras : Calls → Extras

-- The surroundings: the repository, what `IfaceAddrs` of the network port says (`none` without one), `net.ParseCIDR`,
-- and whether there is a file for the configuration.
pub record HotspotEnv : Type 0 where
  pub repository : Option HotspotPort
  pub iface_addrs : Option (Text → List Text)
  pub parse_cidr : Text → Option Cidr
  pub has_file : Bool

-- The part of ModemService for the hotspot. `saved` are the configurations that were written to the file, the
-- newest first; an error of a write is only logged.
pub record Hotspot : Type 0 where
  pub config : HotspotConfig
  pub state : HotspotState
  pub message : Text
  pub selected_net : Text
  pub saved : List HotspotConfig
  pub calls : Calls

-- `HotspotStatus`
pub record HotspotStatus : Type 0 where
  pub state : HotspotState
  pub config : HotspotConfig
  pub uplink : Text
  pub uplink_addrs : List Text
  pub lan_addrs : List Text
  pub diagnostics : Option HotspotDiagnostics
  pub devices : List WifiDevice
  pub clients : List HotspotClient
  pub message : Text
  pub note : Text
