-- ===== src/At/Tiered/Cached.antt =====
-- internal/repository/at_tiered.go: the cache of the tiered client.
use proton5g.Base.{ℕ, Bool, false, [], Text}
use proton5g.Base.Int.{ℤ, pos}
use proton5g.Domain.{ApnConfig, PdpSession, ModemIdentity, no_pdp}
use proton5g.At.Serial.{no_identity}

-- `atMediumPollInterval` and `atSlowPollInterval`
abbrev pub medium_interval : ℕ
medium_interval = 10000000000

abbrev pub slow_interval : ℕ
slow_interval = 60000000000

-- `tieredPollCache`
pub record Cache : Type 0 where
  pub operator : Text
  pub cops_act : ℤ
  pub has_cops_act : Bool
  pub temp_c : ℤ
  pub sim_state : Text
  pub imsi : Text
  pub iccid : Text
  pub apn : ApnConfig
  pub rat : Text
  pub pdp : PdpSession
  pub identity : ModemIdentity
  pub medium_at : ℕ
  pub slow_at : ℕ

abbrev pub empty_cache : Cache
empty_cache = record {
  operator = [];
  cops_act = pos 0;
  has_cops_act = false;
  temp_c = pos 0;
  sim_state = [];
  imsi = [];
  iccid = [];
  apn = record { cid = pos 0; pdp_type = []; apn = []; ip_addr = [] };
  rat = [];
  pdp = no_pdp;
  identity = no_identity;
  medium_at = 0;
  slow_at = 0;
}
