-- ===== src/Wan/Select.antt =====
-- internal/usecase/wan_service.go: `SelectModem` with its checks.
pub mod Checked
pub mod Selected
use proton5g.Base.{
  not, ◌&&◌, List, [], ◌∷◌, Option, none, some, if◌then◌else◌, Text, is_empty, same, Result, ok,
  err,
}
use proton5g.Domain.{ModemDevice, ModemInterface, ModemInventory, ModemSelectRequest}
use proton5g.Ports
use proton5g.Ports.{Env, Fault}
use proton5g.Service.Inventory.{modem_owns, find_modem, build_inventory, select_modem}
use proton5g.Wan.{WanService, clear_overrides}

-- `modemByPath`, for the interfaces of one kind
unfoldable pub modem_by_path :
    (ModemDevice → List ModemInterface) → List ModemDevice → Text → Option ModemDevice
modem_by_path f [] path = none
modem_by_path f (m ∷ ms) path = if modem_owns (f m) path then some m else modem_by_path f ms path

-- the modem that a request is about, before its data paths are looked at
unfoldable pub target_of : List ModemDevice → ModemSelectRequest → Result Fault (Option ModemDevice)
target_of modems req =
    if not (is_empty req.modem_id)
    then elim (find_modem modems req.modem_id) [
      | none ↦ err (Ports.unknown_modem req.modem_id)
      | some m ↦ ok (some m)
    ]
    else if not (is_empty req.at_port)
    then ok (modem_by_path (λ m. m.at_ports) modems req.at_port)
    else ok none

-- an owner that is found is checked against the target, or becomes it
unfoldable pub check_owner :
    Text → Option ModemDevice → Option ModemDevice → Result Fault (Option ModemDevice)
check_owner path none target = err (Ports.unknown_endpoint path)
check_owner path (some owner) none = ok (some owner)
check_owner path (some owner) (some m) =
    if same owner.id m.id then ok (some m) else err (Ports.foreign_endpoint path m.id)

-- `validateDataPath`
unfoldable pub validate_data_path :
    (ModemDevice → List ModemInterface)
    → List ModemDevice
    → Text
    → Option ModemDevice
    → Result Fault (Option ModemDevice)
validate_data_path f modems path target =
    if is_empty path then ok target else check_owner path (modem_by_path f modems path) target

-- the checks of a request, and the modem that they settle on
unfoldable pub validate_request :
    List ModemDevice → ModemSelectRequest → Result Fault (Option ModemDevice)
validate_request modems req = elim (target_of modems req) [
  | err e ↦ err e
  | ok target ↦ elim (validate_data_path (λ m. m.mbim_nodes) modems req.mbim_device target) [
    | err e ↦ err e
    | ok target' ↦ validate_data_path (λ m. m.net_ifaces) modems req.net_iface target'
  ]
]

-- the request that is passed on: one with data paths alone names their modem
unfoldable pub named_request : ModemSelectRequest → Option ModemDevice → ModemSelectRequest
named_request req none = req
named_request req (some m) =
    if is_empty req.modem_id && is_empty req.at_port then record req { modem_id = m.id } else req

-- the overrides go with a selection that succeeds
unfoldable pub after_select : Option Fault → WanService → WanService
after_select none w = clear_overrides w
after_select (some _) w = w

-- `SelectModem`
unfoldable pub wan_select_modem :
    Env → ModemSelectRequest → WanService → ModemInventory × Option Fault × WanService
wan_select_modem env req w =
    let (inv, s) = build_inventory env w.service in
    elim (validate_request inv.modems req) [
      | err e ↦ (inv, some e, record w { service = s })
      | ok target ↦
          let (inv', e, s') = select_modem env (named_request req target) s in
          (inv', e, after_select e (record w { service = s' }))
    ]
