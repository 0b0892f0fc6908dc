-- ===== src/Wan/Select/Selected.antt =====
-- internal/usecase/wan_service.go and modem.go: what is selected behind `SelectModem`.
use proton5g.Base.{false, ◌≡◌, is_empty}
use proton5g.Domain.{ModemSelectRequest}
use proton5g.Service.{Service}

-- The selections of a service are what the request names.
pub record Chosen (req : ModemSelectRequest) (s : Service) : Type 0 where
  pub modem : is_empty req.modem_id ≡ false → s.selected_modem_id ≡ req.modem_id
  pub mbim : is_empty req.mbim_device ≡ false → s.selected_mbim ≡ req.mbim_device
  pub net : is_empty req.net_iface ≡ false → s.selected_net ≡ req.net_iface

abbrev SameSelection : Service → Service → Type 0
SameSelection s t =
    (s.selected_modem_id ≡ t.selected_modem_id)
    × (s.selected_mbim ≡ t.selected_mbim)
    × (s.selected_net ≡ t.selected_net)
