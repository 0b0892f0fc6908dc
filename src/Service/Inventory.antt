-- ===== src/Service/Inventory.antt =====
-- internal/usecase/modem.go: the inventory with its default selections, and `SelectModem`.
use proton5g.Base.{
  ℕ, ◌+◌, Bool, true, false, not, ◌&&◌, ◌||◌, List, [], ◌∷◌, ◌++◌, Option, none, some, ltb, ◌==◌,
  if◌then◌else◌, length, Text, codes, same, is_empty, has_prefix,
}
use proton5g.Domain.{InterfaceKind, ModemInterface, ModemDevice, ModemInventory, ModemSelectRequest}
use proton5g.Ports.{
  Env, Fault, unknown_modem, foreign_at_port, selection_required, list_modems, close_port,
}
use proton5g.Service.{Service, record_call, set_port_name}

-- `modemOwns`, and the loops of modem.go that look for a path
unfoldable pub modem_owns : List ModemInterface → Text → Bool
modem_owns [] path = false
modem_owns (item ∷ items) path = same item.path path || modem_owns items path

-- the path of the first interface, if there is one
abbrev pub first_path : List ModemInterface → Text
first_path [] = []
first_path (item ∷ _) = item.path

-- the first modem with an AT port at the path
unfoldable pub modem_with_at : List ModemDevice → Text → Option ModemDevice
unfolding modem_owns
modem_with_at [] path = none
modem_with_at (m ∷ ms) path = if modem_owns m.at_ports path then some m else modem_with_at ms path

-- the first modem of the name
unfoldable pub find_modem : List ModemDevice → Text → Option ModemDevice
find_modem [] id = none
find_modem (m ∷ ms) id = if same m.id id then some m else find_modem ms id

unfoldable pub count_nodes : (ModemDevice → List ModemInterface) → List ModemDevice → ℕ
count_nodes f [] = 0
count_nodes f (m ∷ ms) = length (f m) + count_nodes f ms

-- the first interface of the first modem that has one
unfoldable pub first_node : (ModemDevice → List ModemInterface) → List ModemDevice → Text
first_node f [] = []
first_node f (m ∷ ms) = if is_empty (f m) then first_node f ms else first_path (f m)

-- the name of the first modem that has one and has an AT port at the path
unfoldable pub id_with_at : List ModemDevice → Text → Text
unfolding modem_owns
id_with_at [] path = []
id_with_at (m ∷ ms) path =
    if modem_owns m.at_ports path && not (is_empty m.id) then m.id else id_with_at ms path

-- the default of `selectedModemID`
unfoldable pub default_modem : Text → Text → List ModemDevice → Text
unfolding id_with_at
default_modem current open_at modems =
    let by_port : Text = id_with_at modems open_at in
    let first : Text = elim modems [ [] ↦ [] | m ∷ _ ↦ m.id ] in
    if not (is_empty current)
    then current
    else if not (is_empty open_at) && not (is_empty by_port)
    then by_port
    else first

-- the note of the inventory
unfoldable pub inventory_note : Bool → ℕ → ℕ → Text
inventory_note mbim_cli mbim_count net_count =
    if ltb 0 net_count && mbim_count == 0
    then codes
        "Modem is in RNDIS mode (no /dev/cdc-wdm*). Use the RNDIS network interface for data; MBIM is N/A until USB composition changes."
    else if mbim_cli && mbim_count == 0 && net_count == 0
    then codes "No MBIM or RNDIS data interface found. AT monitoring still works."
    else if not mbim_cli && ltb 0 mbim_count
    then codes "mbimcli missing — install libmbim-utils for MBIM connect."
    else []

-- the modems that the inventory port lists, if there is one
abbrev listed : Env → Service → Text → List ModemDevice
listed env s open_at = elim (env.inventory) [ none ↦ [] | some p ↦ p.list_modems s.calls open_at ]

-- what `MBIMCLIAvailable` and `MBIMInstallHint` report
abbrev cli_of : Env → Service → Bool
cli_of env s = elim (env.inventory) [ none ↦ false | some p ↦ p.mbim_cli_available s.calls ]

abbrev hint_of : Env → Service → Text
hint_of env s = elim (env.inventory) [
  | none ↦ []
  | some p ↦ if p.mbim_cli_available s.calls then [] else p.mbim_install_hint s.calls
]

-- the state in which the selections have their defaults
unfoldable pub with_defaults : List ModemDevice → Text → Service → Service
with_defaults modems open_at s =
    let mbim =
      if is_empty s.selected_mbim then first_node (λ m. m.mbim_nodes) modems else s.selected_mbim in
    let net =
      if is_empty s.selected_net then first_node (λ m. m.net_ifaces) modems else s.selected_net in
    record s {
      selected_modem_id = default_modem s.selected_modem_id open_at modems;
      selected_mbim = mbim;
      selected_net = net;
    }

-- `buildInventoryLocked`, which `ListModems` is under the lock
unfoldable pub build_inventory : Env → Service → ModemInventory × Service
unfolding with_defaults
build_inventory env s =
    let open_at : Text = elim (env.at) [ none ↦ [] | some _ ↦ s.port_name ] in
    let modems = listed env s open_at in
    let s' = with_defaults modems open_at (record_call (list_modems open_at) s) in
    (
      record {
        modems = modems;
        selected_modem_id = s'.selected_modem_id;
        selected_at_port = open_at;
        selected_mbim = s'.selected_mbim;
        selected_net = s'.selected_net;
        mbim_cli = cli_of env s;
        install_hint = hint_of env s;
        note =
            inventory_note (cli_of env s) (count_nodes (λ m. m.mbim_nodes) modems)
              (count_nodes (λ m. m.net_ifaces) modems);
      },
      s',
    )

-- `preferredATFromModem`: the ready port, else the first
unfoldable pub ready_port : List ModemInterface → Text
ready_port [] = []
ready_port (p ∷ ps) = if p.at_ready then p.path else ready_port ps

any_ready : List ModemInterface → Bool
any_ready [] = false
any_ready (p ∷ ps) = p.at_ready || any_ready ps

unfoldable pub preferred_at_from_modem : ModemDevice → Text → Text
unfolding any_ready ready_port modem_owns
preferred_at_from_modem m preferred =
    if not (is_empty preferred) && modem_owns m.at_ports preferred
    then preferred
    else if any_ready m.at_ports
    then ready_port m.at_ports
    else first_path m.at_ports

-- the synthetic modem of a raw serial path
abbrev serial_modem : Text → ModemDevice
serial_modem port = record {
  id = codes "serial:" ++ port;
  name = codes "Serial " ++ port;
  vendor_id = [];
  product_id = [];
  sys_path = [];
  connected = false;
  power_control = [];
  data_mode = [];
  at_ports =
      record { path = port; kind = InterfaceKind.at; at_ready = true; label = port; state = [] }
      ∷ [];
  mbim_nodes = [];
  net_ifaces = [];
}

-- the modem that a request names by its id, or by its AT port; the outer `none` is an unknown id
unfoldable pub requested_modem : List ModemDevice → ModemSelectRequest → Option (Option ModemDevice)
unfolding find_modem modem_with_at
requested_modem modems req =
    if not (is_empty req.modem_id)
    then elim (find_modem modems req.modem_id) [ none ↦ none | some m ↦ some (some m) ]
    else if not (is_empty req.at_port)
    then elim (modem_with_at modems req.at_port) [
      | none ↦ some (some (serial_modem req.at_port))
      | some m ↦ some (some m)
    ]
    else some none

-- a data node: the requested one, else the selected one while it is on the modem, else the first
unfoldable pub keep_or_first : Text → Text → List ModemInterface → Text
unfolding modem_owns
keep_or_first requested current nodes =
    if not (is_empty requested)
    then requested
    else if is_empty nodes || modem_owns nodes current
    then current
    else first_path nodes

-- the AT port of the selection; `none` where the modem does not have the requested one
unfoldable pub select_port : ModemDevice → Text → Text → Option Text
select_port modem requested open_at =
    if is_empty requested
    then some (preferred_at_from_modem modem open_at)
    else if not (is_empty modem.at_ports)
        && not (modem_owns modem.at_ports requested)
        && not (has_prefix (codes "serial:") modem.id)
    then none
    else some requested

-- the switch of the port, behind the selection
unfoldable pub switch_port : Env → Text → Service → Service
unfolding set_port_name
switch_port env at_port s = elim (env.at) [
  | none ↦ s
  | some _ ↦
      if is_empty at_port || same s.port_name at_port
      then s
      else (let t = set_port_name at_port s in record_call (close_port t.port_name) t)
]

-- the selection itself, with the modem and the port that it goes to
unfoldable pub select_nodes : ModemSelectRequest → Option ModemDevice → Service → Service
select_nodes req none s = record s {
  selected_mbim = if is_empty req.mbim_device then s.selected_mbim else req.mbim_device;
  selected_net = if is_empty req.net_iface then s.selected_net else req.net_iface;
}
select_nodes req (some m) s = record s {
  selected_modem_id = m.id;
  selected_mbim = keep_or_first req.mbim_device s.selected_mbim m.mbim_nodes;
  selected_net = keep_or_first req.net_iface s.selected_net m.net_ifaces;
}

unfoldable pub port_of : Option ModemDevice → ModemSelectRequest → Text → Option Text
port_of none req open_at = some req.at_port
port_of (some m) req open_at = select_port m req.at_port open_at

abbrev pub nothing_requested : ModemSelectRequest → Bool
nothing_requested req =
    is_empty req.modem_id
    && is_empty req.at_port
    && is_empty req.mbim_device
    && is_empty req.net_iface

-- what follows the lookup of the modem
unfoldable pub finish_select :
    Env
    → ModemSelectRequest
    → ModemInventory
    → Option ModemDevice
    → Service
    → ModemInventory × Option Fault × Service
unfolding port_of
finish_select env req inv modem s = elim (port_of modem req inv.selected_at_port) [
  | none ↦ (inv, some (foreign_at_port req.at_port (elim modem [ none ↦ [] | some m ↦ m.id ])), s)
  | some at_port ↦
      let (inv', s') = build_inventory env (switch_port env at_port (select_nodes req modem s)) in
      (inv', none, s')
]

-- `SelectModem`
unfoldable pub select_modem :
    Env → ModemSelectRequest → Service → ModemInventory × Option Fault × Service
unfolding finish_select
select_modem env req s =
    let (inv, s1) = build_inventory env s in
    if nothing_requested req
    then (inv, some selection_required, s1)
    else elim (requested_modem inv.modems req) [
      | none ↦ (inv, some (unknown_modem req.modem_id), s1)
      | some modem ↦ finish_select env req inv modem s1
    ]
