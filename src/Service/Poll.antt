-- ===== src/Service/Poll.antt =====
-- internal/usecase/modem.go: `pollStatus` with its recovery from failures of the AT port. The classes of
-- errors, the operator's texts for them and the rate of a counter (a division of floating point numbers)
-- are parameters; the clock is a function of the calls made before.
pub mod Recovery
mod Tests
use proton5g.Base.{
  ℕ, zero, suc, ◌+◌, ◌-◌, ◌*◌, ◌^◌, Bool, true, false, not, ◌&&◌, ◌||◌, List, [], ◌∷◌, Option, none,
  some, leb, ltb, ◌==◌, if◌then◌else◌, Text, codes, is_empty, same, has_prefix, to_lower, contains,
}
use proton5g.Base.Int.{ℤ, pos, eqb_ℤ}
use proton5g.Domain.{
  ApnConfig, AtPoll, FullStatus, ModemStatus, SignalInfo, WanInfo, no_signal, no_network, no_sim,
}
use proton5g.Ports
use proton5g.Ports.{AtPort, Env, Fault, History, NetPort}
use proton5g.Service.{Service, record_call, set_port_name}

-- ModemServiceConfig and what the poller asks of its surroundings
pub record PollEnv : Type 0 where
  pub env : Env
  pub clock : History → ℕ
  pub is_permission : Fault → Bool
  pub device_error : Fault → Text
  -- bytes, and the nanoseconds that they took
  pub rate : ℕ → ℕ → ℕ
  pub fail_streak_max : ℕ
  pub reset_cooldown : ℕ
  pub rediscover_every : ℕ

-- `time.Since(last) >= every`; the zero time is long ago
unfoldable pub elapsed : ℕ → ℕ → ℕ → Bool
elapsed now last every = last == 0 || leb every (now - last)

-- the counters of the selected interface
unfoldable pub count_traffic : PollEnv → NetPort → Text → ℕ → Service → Service
count_traffic pe net iface now s =
    let (rx, tx) = net.iface_counters s.calls iface in
    let wan = record (s.status.wan) {
      iface = iface;
      addrs = net.iface_addrs s.calls iface;
      rx_bytes = rx;
      tx_bytes = tx;
    } in
    let dt = now - s.wan_stats_at in
    let rated : WanInfo =
      if same s.wan_iface iface
        && not (s.wan_stats_at == 0)
        && leb (5 * 10 ^ 8) dt
        && leb s.wan_rx rx
        && leb s.wan_tx tx
      then record wan {
        rx_rate_bps = pe.rate (rx - s.wan_rx) dt;
        tx_rate_bps = pe.rate (tx - s.wan_tx) dt;
      }
      else wan in
    record s {
      status = record (s.status) { wan = rated };
      wan_rx = rx;
      wan_tx = tx;
      wan_stats_at = now;
      wan_iface = iface;
    }

-- `refreshWANLocked`
unfoldable pub refresh_wan : PollEnv → ℕ → Service → Service
refresh_wan pe now s =
    let named = record s {
      status = record (s.status) { wan = record (s.status.wan) { iface = s.selected_net } };
    } in
    elim (pe.env.net) [
      | none ↦ named
      | some net ↦
          if is_empty s.selected_net then named else count_traffic pe net s.selected_net now s
    ]

-- the sample for the history, where there is one and the signal is known
unfoldable pub sample_history : Env → SignalInfo → Service → Service
sample_history env sig s =
    if env.has_history
      && (not (eqb_ℤ sig.rssi (pos 0))
          || not (eqb_ℤ sig.percentage (pos 0))
          || not (eqb_ℤ sig.rsrp (pos 0)))
    then record_call Ports.add_sample s
    else s

-- `applyATSuccessLocked`
unfoldable pub apply_at_success : PollEnv → AtPoll → ℕ → Service → Service
apply_at_success pe poll now s =
    let apn =
      if is_empty poll.apn.ip_addr then record (poll.apn) { ip_addr = poll.pdp.ip } else poll.apn in
    let applied = record s {
      at_fail_streak = 0;
      status = record (s.status) {
        signal = poll.signal;
        network = poll.network;
        sim = poll.sim;
        apn = apn;
        rat_mode = poll.rat_mode;
        identity = poll.identity;
        temperature_c = poll.temp_c;
        cells = poll.cells;
        ca = poll.ca;
        pdp = poll.pdp;
        error = [];
        updated_at = now;
        modem = record (s.status.modem) { port_path = s.port_name };
      };
    } in
    refresh_wan pe now (sample_history pe.env poll.signal applied)

-- `logPermissionOnceLocked`
unfoldable pub log_permission_once : PollEnv → Service → Service
log_permission_once pe s =
    let now = pe.clock s.calls in
    if elapsed now s.last_perm_log_at pe.rediscover_every
    then record s { last_perm_log_at = now }
    else s

-- `rediscoverATPort`, behind a client that exists
unfoldable pub rediscover_at_port : PollEnv → Service → Service
rediscover_at_port pe s = elim (pe.env.discover) [
  | none ↦ s
  | some discover ↦
      let s1 = record_call (Ports.close_port s.port_name) s in
      let (port, e) = discover s1.calls in
      let s2 = record_call Ports.discover_port s1 in
      elim e [ some _ ↦ s2 | none ↦ set_port_name port s2 ]
]

-- the reset itself
unfoldable pub reset_usb : PollEnv → Service → Service
reset_usb pe s =
    let sys_path = s.status.modem.sys_path in
    let s1 = record s {
      last_reset_at = pe.clock s.calls;
      at_fail_streak = 0;
      calls = Ports.usb_reset sys_path ∷ s.calls;
    } in
    elim (pe.env.usb.hard_reset s.calls sys_path) [
      | some _ ↦ s1
      | none ↦ record_call (Ports.close_port s1.port_name) s1
    ]

-- `maybeHardResetLocked`, behind a client that exists
unfoldable pub maybe_hard_reset : PollEnv → Fault → Service → Service
maybe_hard_reset pe cause s =
    if pe.is_permission cause
    then s
    else if ltb s.at_fail_streak pe.fail_streak_max
    then s
    else if not (elapsed (pe.clock s.calls) s.last_reset_at pe.reset_cooldown)
    then s
    else reset_usb pe s

-- an error for the operator
unfoldable pub show_error : PollEnv → Fault → Service → Service
show_error pe e s = record s {
  status = record (s.status) { error = pe.device_error e; updated_at = pe.clock s.calls };
}

-- behind the second failure of a poll
unfoldable pub give_up_poll : PollEnv → Fault → Service → Service
give_up_poll pe e s =
    let s1 = show_error pe e s in
    if pe.is_permission e then log_permission_once pe s1 else maybe_hard_reset pe e s1

-- the port is looked for again, and asked again
unfoldable pub retry_poll : PollEnv → AtPort → Service → Service
retry_poll pe p s =
    let s1 = rediscover_at_port pe (record s { last_rediscover = pe.clock s.calls }) in
    let (poll, e) = p.full_status s1.calls in
    let s2 = record_call (Ports.full_status s1.port_name) s1 in
    elim e [
      | none ↦ apply_at_success pe poll (pe.clock s2.calls) s2
      | some f ↦ give_up_poll pe f s2
    ]

-- the failure is counted and shown
unfoldable pub count_failure : PollEnv → ModemStatus → Fault → Service → Service
count_failure pe stat e s = show_error pe e (record s {
  at_fail_streak = suc s.at_fail_streak;
  status = record (s.status) { modem = record stat { port_path = s.port_name } };
})

-- `handleATFailure`
unfoldable pub handle_at_failure : PollEnv → AtPort → ModemStatus → Fault → Service → Service
handle_at_failure pe p stat e s =
    let s1 = count_failure pe stat e s in
    let wrong_port = contains (codes "empty at") (to_lower (pe.env.error_text e)) in
    if pe.is_permission e
    then log_permission_once pe s1
    else if wrong_port || elapsed (pe.clock s1.calls) s1.last_rediscover pe.rediscover_every
    then retry_poll pe p s1
    else maybe_hard_reset pe e s1

-- the status without a modem, or without an AT client
unfoldable pub lost_service : PollEnv → ModemStatus → ℕ → Service → Service
lost_service pe stat now s = record s {
  at_fail_streak = 0;
  status = record (s.status) {
    modem = stat;
    signal = no_signal;
    network = no_network;
    sim = no_sim;
    cells = [];
    ca = [];
    temperature_c = pos 0;
    error = if stat.connected then [] else codes "modem disconnected";
    updated_at = now;
  };
}

unfoldable pub show_lost : PollEnv → ModemStatus → ℕ → Service → Service
unfolding lost_service
show_lost pe stat now s = refresh_wan pe now (lost_service pe stat now s)

-- the AT part of a poll
unfoldable pub poll_at : PollEnv → AtPort → ModemStatus → ℕ → Service → Service
poll_at pe p stat now s =
    let (poll, e) = p.full_status s.calls in
    let s1 = record_call (Ports.full_status s.port_name) s in
    elim e [
      | some f ↦ handle_at_failure pe p stat f s1
      | none ↦ apply_at_success pe poll now (record s1 {
        status = record (s1.status) { modem = record stat { port_path = s.port_name } };
      })
    ]

-- `pollStatus`
unfoldable pub poll_status : PollEnv → Service → Service
poll_status pe s =
    let stat = pe.env.usb.check s.calls in
    let s1 = record_call Ports.usb_check s in
    let now = pe.clock s1.calls in
    elim (pe.env.at) [
      | none ↦ show_lost pe stat now s1
      | some p ↦ if stat.connected then poll_at pe p stat now s1 else show_lost pe stat now s1
    ]
