-- ===== src/Service.antt =====
-- internal/usecase/modem.go: the state of ModemService. Each method holds the service's locks where
-- it reads and writes, and is modelled as one step; the logs of the process are left out.
pub mod Inventory
pub mod Data
pub mod Session
pub mod Poll
pub mod Fixtures
use proton5g.Base.{ℕ, Text, List, [], ◌∷◌, Option, none, some, Bool, is_empty, if◌then◌else◌}
use proton5g.Base.Int.{ℤ, pos, leb_ℤ}
use proton5g.Domain.{FullStatus, PdpSession, WanInfo, WanMethod}
use proton5g.Ports.{Call, History}

pub record Service : Type 0 where
  pub status : FullStatus
  pub selected_modem_id : Text
  pub selected_mbim : Text
  pub selected_net : Text
  -- the port name of the AT client (`Client.portName`)
  pub port_name : Text
  pub at_fail_streak : ℕ
  pub last_reset_at : ℕ
  pub last_rediscover : ℕ
  pub last_perm_log_at : ℕ
  pub wan_rx : ℕ
  pub wan_tx : ℕ
  pub wan_stats_at : ℕ
  pub wan_iface : Text
  pub calls : History

-- A call to a device is recorded.
abbrev pub record_call : Call → Service → Service
record_call c s = record s { calls = c ∷ s.calls }

-- `cachePDPSession`
unfoldable pub cache_pdp_session : PdpSession → Service → Service
cache_pdp_session pdp s =
    let apn = s.status.apn in
    let apn' = if is_empty pdp.ip then apn else record apn { ip_addr = pdp.ip } in
    record s { status = record (s.status) { pdp = pdp; apn = apn' } }

-- `setWANMethod`
unfoldable pub set_wan_method : WanMethod → Service → Service
set_wan_method m s = record s {
  status = record (s.status) { wan = record (s.status.wan) { method = m } };
}

-- `cid <= 0` becomes appdefaults.DefaultCID
abbrev pub default_cid : ℤ → ℤ
default_cid cid = if leb_ℤ cid (pos 0) then pos 1 else cid

-- `client.SetPortName`: an empty name is ignored
unfoldable pub set_port_name : Text → Service → Service
set_port_name name s = if is_empty name then s else record s { port_name = name }
