-- ===== src/Ports.antt =====
-- internal/usecase/ports.go and errors.go: what the services ask of the hardware, and what they get.
-- Each call that reaches a device is recorded; a port is a function of the calls made before, so an
-- environment may answer the same call differently each time. A port that Go finds nil, or that does
-- not implement an optional interface, is `none`.
use proton5g.Base.{ℕ, Bool, List, Option, Text}
use proton5g.Base.Int.{ℤ}
use proton5g.Domain.{AtPoll, ModemDevice, ModemStatus, PdpSession, WanIpConfig}

-- An `error`: one that a port returns, with its text, or one that the services make.
pub data Fault : Type 0 where
  device : Text → Fault
  modem_unavailable : Fault
  invalid_mode : Text → Fault
  invalid_method : Text → Fault
  invalid_pdp_type : Text → Fault
  selection_required : Fault
  unknown_modem : Text → Fault
  foreign_at_port : Text → Text → Fault
  unknown_endpoint : Text → Fault
  foreign_endpoint : Text → Text → Fault
  no_net_selected : Fault
  no_mbim_selected : Fault
  net_not_configured : Fault
  unknown_mode : Fault
  mbim_not_selected : Text → Fault
  mbim_not_owned : Text → Fault
  rndis_not_selected : Text → Fault
  rndis_not_owned : Text → Fault
  no_paired_iface : Fault
  pdp_activation : ℤ → Fault → Fault
  pdp_deactivation : Fault → Fault
  ip_config_unsupported : Fault
  ip_config_missing : Fault
  host_config_unsupported : Fault
  host_configuration : Fault → Fault
  host_cleanup : Fault → Fault
  pdp_config_unsupported : Fault
  pdp_config_unavailable : ℤ → Fault → Fault
  pdp_config_missing : ℤ → Fault
  unsupported_method : Fault

pub data Call : Type 0 where
  mbim_connect : Text → Text → Call
  mbim_query : Text → Call
  mbim_disconnect : Text → Call
  configure_static : Text → Text → Text → Call
  configure_dns : Text → List Text → Call
  clear_interface : Text → Call
  rndis_connect : Text → Call
  rndis_static : Text → Text → Text → Call
  rndis_disconnect : Text → Call
  activate_pdp : ℤ → Call
  query_pdp : ℤ → Call
  query_pdp_config : ℤ → Call
  deactivate_pdp : ℤ → Call
  list_modems : Text → Call
  usb_check : Call
  usb_reset : Text → Call
  full_status : Text → Call
  close_port : Text → Call
  discover_port : Call
  add_sample : Call

-- the calls so far, the newest first
abbrev pub History : Type 0
History = List Call

-- `(string, error)`
pub record Reply : Type 0 where
  pub out : Text
  pub fault : Option Fault

pub record MbimPort : Type 0 where
  pub connect : History → Text → Text → Reply
  pub disconnect : History → Text → Reply
  -- mbimIPConfigProvider
  pub query_ip_config : Option (History → Text → WanIpConfig × Option Fault)

pub record NetPort : Type 0 where
  pub connect_rndis : History → Text → Reply
  pub connect_rndis_static : History → Text → Text → Text → Reply
  pub disconnect_rndis : History → Text → Reply
  pub iface_addrs : History → Text → List Text
  pub iface_counters : History → Text → ℕ × ℕ
  -- hostStaticConfigurer, hostDNSConfigurer, hostInterfaceCleaner
  pub configure_static : Option (History → Text → Text → Text → Reply)
  pub configure_dns : Option (History → Text → List Text → Reply)
  pub clear_interface : Option (History → Text → Reply)

pub record AtPort : Type 0 where
  pub full_status : History → AtPoll × Option Fault
  pub activate_pdp : History → ℤ → Option Fault
  pub query_pdp : History → ℤ → PdpSession × Option Fault
  -- atPDPIPConfigProvider and pdpDeactivator
  pub query_pdp_config : Option (History → ℤ → WanIpConfig × Option Fault)
  pub deactivate_pdp : Option (History → ℤ → Option Fault)

pub record UsbPort : Type 0 where
  pub check : History → ModemStatus
  pub hard_reset : History → Text → Option Fault

pub record InventoryPort : Type 0 where
  pub list_modems : History → Text → List ModemDevice
  pub mbim_cli_available : History → Bool
  pub mbim_install_hint : History → Text

-- The services' surroundings. `error_text` is the text of an error, `cidr_address` the address that
-- `net.ParseCIDR` reads, in its usual form, and `pdp_rounds` how often the configuration of a PDP
-- context is asked for again before its six seconds are over.
pub record Env : Type 0 where
  pub usb : UsbPort
  pub at : Option AtPort
  pub mbim : Option MbimPort
  pub net : Option NetPort
  pub inventory : Option InventoryPort
  pub discover : Option (History → Text × Option Fault)
  pub has_history : Bool
  pub error_text : Fault → Text
  pub cidr_address : Text → Option Text
  pub pdp_rounds : ℕ
