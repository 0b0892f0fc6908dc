-- ===== src/Service/Fixtures.antt =====
-- Hosts and services for the tests: two modems, the second of which has no network interface.
use proton5g.Base.{true, false, List, [], ◌∷◌, none, some, Text, codes}
use proton5g.Base.Int.{pos}
use proton5g.Domain.{
  InterfaceKind, ModemInterface, ModemDevice, ModemStatus, FullStatus, WanIpConfig, no_pdp,
  no_signal, no_network, no_sim, no_wan,
}
use proton5g.Ports
use proton5g.Ports.{Env, Fault, History, MbimPort, NetPort, InventoryPort, UsbPort, Reply}
use proton5g.Service.{Service}

abbrev pub node : Text → InterfaceKind → ModemInterface
node path kind = record { path = path; kind = kind; at_ready = false; label = []; state = [] }

abbrev pub modem : Text → List ModemInterface → List ModemInterface → ModemDevice
modem id mbim net = record {
  id = id;
  name = [];
  vendor_id = [];
  product_id = [];
  sys_path = [];
  connected = true;
  power_control = [];
  data_mode = [];
  at_ports = [];
  mbim_nodes = mbim;
  net_ifaces = net;
}

abbrev pub first_modem : ModemDevice
first_modem =
    modem (codes "m0") (node (codes "wdm0") InterfaceKind.mbim ∷ [])
      (node (codes "wwan0") InterfaceKind.net ∷ [])

abbrev pub bare_modem : ModemDevice
bare_modem = modem (codes "m1") (node (codes "wdm1") InterfaceKind.mbim ∷ []) []

abbrev pub config : WanIpConfig
config = record {
  address_cidr = codes "10.0.0.2/30";
  gateway = codes "10.0.0.1";
  dns = [];
  mtu = pos 1430;
}

abbrev pub done : Reply
done = record { out = []; fault = none }

abbrev pub mbim_port : MbimPort
mbim_port = record {
  connect = λ _ _ _. done;
  disconnect = λ _ _. done;
  query_ip_config = some (λ _ _. (config, none));
}

abbrev pub clear : History → Text → Reply
clear _ _ = done

-- a host whose interfaces take no address
abbrev pub net_port : NetPort
net_port = record {
  connect_rndis = λ _ _. done;
  connect_rndis_static = λ _ _ _ _. done;
  disconnect_rndis = λ _ _. done;
  iface_addrs = λ _ _. [];
  iface_counters = λ _ _. (0, 0);
  configure_static =
      some (λ _ _ _ _. record { out = []; fault = some (Ports.device (codes "busy")) });
  configure_dns = none;
  clear_interface = some clear;
}

abbrev pub no_modem : ModemStatus
no_modem = record { connected = false; sys_path = []; port_path = []; power_control = [] }

abbrev pub env : Env
env = record {
  usb = record { check = λ _. no_modem; hard_reset = λ _ _. none };
  at = none;
  mbim = some mbim_port;
  net = some net_port;
  inventory = some (record {
    list_modems = λ _ _. first_modem ∷ bare_modem ∷ [];
    mbim_cli_available = λ _. true;
    mbim_install_hint = λ _. [];
  });
  discover = none;
  has_history = false;
  error_text = λ _. [];
  cidr_address = λ _. none;
  pdp_rounds = 5;
}

abbrev pub status : FullStatus
status = record {
  modem = no_modem;
  signal = no_signal;
  network = no_network;
  sim = no_sim;
  apn = record { cid = pos 0; pdp_type = []; apn = []; ip_addr = [] };
  rat_mode = [];
  identity = record { manufacturer = []; model = []; firmware = []; imei = [] };
  temperature_c = pos 0;
  cells = [];
  ca = [];
  pdp = no_pdp;
  wan = no_wan;
  error = [];
  updated_at = 0;
}

abbrev pub service : Text → Text → Text → Service
service id mbim net = record {
  status = status;
  selected_modem_id = id;
  selected_mbim = mbim;
  selected_net = net;
  port_name = [];
  at_fail_streak = 0;
  last_reset_at = 0;
  last_rediscover = 0;
  last_perm_log_at = 0;
  wan_rx = 0;
  wan_tx = 0;
  wan_stats_at = 0;
  wan_iface = [];
  calls = [];
}

abbrev pub first_service : Service
first_service = service (codes "m0") (codes "wdm0") (codes "wwan0")

-- the selection has moved to the second modem; the interface of the first one is still selected
abbrev pub bare_service : Service
bare_service = service (codes "m1") (codes "wdm1") (codes "wwan0")
