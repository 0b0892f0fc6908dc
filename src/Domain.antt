-- ===== src/Domain.antt =====
-- internal/pkg/domain: the records that the services exchange. String types whose values are open
-- (a registration state, a radio technology, a RAT mode) are texts, `int` is ℤ, a time is a number
-- of nanoseconds with 0 for the zero time, and a temperature is in thousandths of a degree.
pub mod Enums
pub mod Modes
mod Tests
use proton5g.Base.{ℕ, Bool, false, List, [], Text}
use proton5g.Base.Int.{ℤ, pos}

-- modem.go
pub record ModemStatus : Type 0 where
  pub connected : Bool
  pub sys_path : Text
  pub port_path : Text
  pub power_control : Text

pub record SignalInfo : Type 0 where
  pub rssi : ℤ
  pub rsrp : ℤ
  pub rsrq : ℤ
  pub sinr : ℤ
  pub percentage : ℤ
  pub raw_csq : Text

abbrev pub no_signal : SignalInfo
no_signal = record {
  rssi = pos 0;
  rsrp = pos 0;
  rsrq = pos 0;
  sinr = pos 0;
  percentage = pos 0;
  raw_csq = [];
}

pub record EndcInfo : Type 0 where
  pub active : Bool
  pub anchor_band : Text
  pub nr_band : Text
  pub state : Text

abbrev pub no_endc : EndcInfo
no_endc = record { active = false; anchor_band = []; nr_band = []; state = [] }

pub record NetworkInfo : Type 0 where
  pub operator : Text
  pub reg_state : Text
  pub tech : Text
  pub reg_5g : Text
  pub reg_lte : Text
  pub endc : EndcInfo

abbrev pub no_network : NetworkInfo
no_network = record {
  operator = [];
  reg_state = [];
  tech = [];
  reg_5g = [];
  reg_lte = [];
  endc = no_endc;
}

pub record SimInfo : Type 0 where
  pub state : Text
  pub imsi : Text
  pub iccid : Text

abbrev pub no_sim : SimInfo
no_sim = record { state = []; imsi = []; iccid = [] }

pub record ApnConfig : Type 0 where
  pub cid : ℤ
  pub pdp_type : Text
  pub apn : Text
  pub ip_addr : Text

pub record SignalSample : Type 0 where
  pub timestamp : ℕ
  pub rssi : ℤ
  pub rsrp : ℤ
  pub rsrq : ℤ
  pub sinr : ℤ
  pub percentage : ℤ
  pub tech : Text

pub record ModemIdentity : Type 0 where
  pub manufacturer : Text
  pub model : Text
  pub firmware : Text
  pub imei : Text

pub record CellInfo : Type 0 where
  pub serving : Bool
  pub rat : Text
  pub mcc : Text
  pub mnc : Text
  pub tac : Text
  pub cell_id : Text
  pub pci : Text
  pub arfcn : Text
  pub band : Text
  pub bandwidth : Text
  pub rsrp : ℤ
  pub rsrq : ℤ
  pub sinr : ℤ

pub record CaComponent : Type 0 where
  pub component : Text
  pub band : Text
  pub pci : Text
  pub arfcn : Text
  pub ul_arfcn : Text
  pub dl_bw : Text
  pub ul_bw : Text
  pub dl_mimo : Text
  pub ul_mimo : Text
  pub dl_mod : Text
  pub ul_mod : Text
  pub ul_active : Bool
  pub rsrp : ℤ
  pub rsrq : ℤ
  pub sinr : ℤ

pub record PdpSession : Type 0 where
  pub cid : ℤ
  pub ip : Text
  pub dns1 : Text
  pub dns2 : Text
  pub gateway : Text

abbrev pub no_pdp : PdpSession
no_pdp = record { cid = pos 0; ip = []; dns1 = []; dns2 = []; gateway = [] }

-- WANMethod and WANSession; the empty string is the zero value of each
pub data WanMethod : Type 0 where
  no_method dhcp static : WanMethod

pub data WanSession : Type 0 where
  no_session connected disconnected : WanSession

pub record WanInfo : Type 0 where
  pub iface : Text
  pub method : WanMethod
  pub session : WanSession
  pub addrs : List Text
  pub rx_bytes : ℕ
  pub tx_bytes : ℕ
  pub rx_rate_bps : ℕ
  pub tx_rate_bps : ℕ

abbrev pub no_wan : WanInfo
no_wan = record {
  iface = [];
  method = no_method;
  session = no_session;
  addrs = [];
  rx_bytes = 0;
  tx_bytes = 0;
  rx_rate_bps = 0;
  tx_rate_bps = 0;
}

pub record AtPoll : Type 0 where
  pub signal : SignalInfo
  pub network : NetworkInfo
  pub sim : SimInfo
  pub apn : ApnConfig
  pub rat_mode : Text
  pub identity : ModemIdentity
  pub temp_c : ℤ
  pub cells : List CellInfo
  pub ca : List CaComponent
  pub pdp : PdpSession

-- FullStatus without DownlinkCapacity, which is derived when it is marshalled. `error` is the text
-- shown to the operator.
pub record FullStatus : Type 0 where
  pub modem : ModemStatus
  pub signal : SignalInfo
  pub network : NetworkInfo
  pub sim : SimInfo
  pub apn : ApnConfig
  pub rat_mode : Text
  pub identity : ModemIdentity
  pub temperature_c : ℤ
  pub cells : List CellInfo
  pub ca : List CaComponent
  pub pdp : PdpSession
  pub wan : WanInfo
  pub error : Text
  pub updated_at : ℕ

-- wan.go
pub record WanIpConfig : Type 0 where
  pub address_cidr : Text
  pub gateway : Text
  pub dns : List Text
  pub mtu : ℤ

-- inventory.go
pub data InterfaceKind : Type 0 where
  at mbim serial net : InterfaceKind

pub record ModemInterface : Type 0 where
  pub path : Text
  pub kind : InterfaceKind
  pub at_ready : Bool
  pub label : Text
  pub state : Text

pub record ModemDevice : Type 0 where
  pub id : Text
  pub name : Text
  pub vendor_id : Text
  pub product_id : Text
  pub sys_path : Text
  pub connected : Bool
  pub power_control : Text
  pub data_mode : Text
  pub at_ports : List ModemInterface
  pub mbim_nodes : List ModemInterface
  pub net_ifaces : List ModemInterface

pub record ModemInventory : Type 0 where
  pub modems : List ModemDevice
  pub selected_modem_id : Text
  pub selected_at_port : Text
  pub selected_mbim : Text
  pub selected_net : Text
  pub mbim_cli : Bool
  pub install_hint : Text
  pub note : Text

pub record ModemSelectRequest : Type 0 where
  pub modem_id : Text
  pub at_port : Text
  pub mbim_device : Text
  pub net_iface : Text

pub record DataConnectRequest : Type 0 where
  pub mode : Text
  pub iface : Text
  pub apn : Text
  pub method : Text
