-- ===== src/Wan.antt =====
-- internal/usecase/wan_service.go: WANService, the facade over ModemService at the HTTP boundary. Its
-- mutex covers each access of the overrides.
pub mod Endpoint
pub mod Select
pub mod Connect
pub mod Disconnect
mod Tests
use proton5g.Base.{Bool, true, false, ◌&&◌, not, Text, is_empty, same, if◌then◌else◌}
use proton5g.Domain.{FullStatus, PdpSession, WanInfo, WanSession, no_pdp, no_wan}
use proton5g.Service.{Service}

pub record WanService : Type 0 where
  pub service : Service
  pub wan_override : WanInfo
  pub has_wan : Bool
  pub pdp_override : PdpSession
  pub has_pdp : Bool

-- `NewWANService`
unfoldable pub new_wan_service : Service → WanService
new_wan_service svc = record {
  service = svc;
  wan_override = no_wan;
  has_wan = false;
  pdp_override = no_pdp;
  has_pdp = false;
}

abbrev pub is_connected : WanSession → Bool
is_connected WanSession.connected = true
is_connected _ = false

-- the override, with the counters and addresses that the poller sampled on its interface
unfoldable pub live_wan : WanInfo → WanInfo → WanInfo
live_wan wan sampled =
    if is_connected wan.session && not (is_empty wan.iface) && same sampled.iface wan.iface
    then record wan {
      addrs = sampled.addrs;
      rx_bytes = sampled.rx_bytes;
      tx_bytes = sampled.tx_bytes;
      rx_rate_bps = sampled.rx_rate_bps;
      tx_rate_bps = sampled.tx_rate_bps;
    }
    else wan

-- `decorateStatus`
unfoldable pub decorate_status : WanService → FullStatus → FullStatus
unfolding live_wan
decorate_status w st =
    let st1 = if w.has_wan then record st { wan = live_wan w.wan_override st.wan } else st in
    if w.has_pdp
    then record st1 { pdp = w.pdp_override; apn = record (st1.apn) { ip_addr = w.pdp_override.ip } }
    else st1

-- `CachedStatus`
unfoldable pub cached_status : WanService → FullStatus
unfolding decorate_status
cached_status w = decorate_status w w.service.status

-- `setOverrides`
unfoldable pub set_overrides : WanInfo → PdpSession → Bool → WanService → WanService
set_overrides wan pdp has w = record {
  service = w.service;
  wan_override = wan;
  has_wan = true;
  pdp_override = pdp;
  has_pdp = has;
}

-- `clearOverrides`
unfoldable pub clear_overrides : WanService → WanService
clear_overrides w = record {
  service = w.service;
  wan_override = no_wan;
  has_wan = false;
  pdp_override = no_pdp;
  has_pdp = false;
}
