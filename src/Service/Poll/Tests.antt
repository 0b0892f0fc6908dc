-- ===== src/Service/Poll/Tests.antt =====
-- A modem whose AT port does not answer.
use proton5g.Base.{contains, ◌+◌, ◌*◌, ◌≤◌, true, false, [], none, some, ◌≡◌, refl, codes, to_lower}
use proton5g.Base.Int.{pos}
use proton5g.Domain.{AtPoll, ModemStatus, no_signal, no_network, no_sim, no_pdp}
use proton5g.Ports
use proton5g.Ports.{AtPort, Env}
use proton5g.Service.Fixtures.{env, first_service, status}
use proton5g.Service.Poll.{
  PollEnv, poll_status, poll_at, handle_at_failure, count_failure, show_error, elapsed,
  maybe_hard_reset, retry_poll, reset_usb, rediscover_at_port, give_up_poll,
}
use proton5g.Service.Poll.Recovery.{polls, resets, polls-resets}

abbrev silence : AtPoll
silence = record {
  signal = no_signal;
  network = no_network;
  sim = no_sim;
  apn = status.apn;
  rat_mode = [];
  identity = status.identity;
  temp_c = pos 0;
  cells = [];
  ca = [];
  pdp = no_pdp;
}

abbrev silent_port : AtPort
silent_port = record {
  full_status = λ _. (silence, some (Ports.device (codes "timeout")));
  activate_pdp = λ _ _. none;
  query_pdp = λ _ _. (no_pdp, none);
  query_pdp_config = none;
  deactivate_pdp = none;
}

abbrev plugged : ModemStatus
plugged = record { connected = true; sys_path = codes "1-2"; port_path = []; power_control = [] }

abbrev silent : PollEnv
silent = record {
  env = record env {
    at = some silent_port;
    usb = record { check = λ _. plugged; hard_reset = λ _ _. none };
  };
  clock = λ _. 1000;
  is_permission = λ _. false;
  device_error = λ _. codes "no answer";
  rate = λ _ _. 0;
  fail_streak_max = 3;
  reset_cooldown = 60;
  rediscover_every = 30;
}

four_polls :
    (resets (polls silent 4 first_service).calls ≡ 1)
    × ((polls silent 4 first_service).at_fail_streak ≡ 1)
unfolding polls resets poll_status poll_at handle_at_failure count_failure show_error elapsed
    contains maybe_hard_reset retry_poll reset_usb rediscover_at_port give_up_poll to_lower
four_polls = (refl, refl)

polls-resets_example :
    (polls silent 4 first_service).at_fail_streak + 3 * resets (polls silent 4 first_service).calls
    ≤ 4 + 0 + 3 * resets []
polls-resets_example = polls-resets silent 4 first_service
