-- ===== src/At/Tests.antt =====
-- Runs of the parsers and of the clients on small inputs.
use proton5g.Base.{
  ℕ, true, false, List, [], ◌∷◌, ◌++◌, ◌||◌, ◌/◌, none, ◌≡◌, refl, arith, any, All, Text, codes,
  same, itoa, contains, has_prefix, split_on, without, trim_space, join_lines,
}
use proton5g.Base.Int.{pos}
use proton5g.Domain.{CaComponent, AtPoll}
use proton5g.Domain.Enums.{reg_home, reg_not_registered}
use proton5g.Domain.Enums.Rat.{endc, th_lte, cmd_gtact_set_by_pref, to_display}
use proton5g.At.Info.{parse_gtact}
use proton5g.At.Info.Ips.{parse_cgpaddr}
use proton5g.At.Info.Addresses.{quad, cgpaddr_answer, parse_cgpaddr-answer}
use proton5g.At.Info.Modes.{reported, parse_gtact-reported}
use proton5g.At.Band.{derive_band_from_arfcn}
use proton5g.At.Band.Table.{derive_band-n7}
use proton5g.At.Cells.{parse_gtccinfo_cells}
use proton5g.At.Carriers.{
  parse_gtcainfo_components, enrich_gtcainfo_components, correlate_ca_with_cells,
}
use proton5g.At.Carriers.Levels.{SoundCarrier, shown_carriers-SoundCarrier}
use proton5g.At.Carriers.Correlate.{AllCorrelated, correlate_ca_with_cells-Filled}
use proton5g.At.Tech.{is_nr_carrier, detect_radio_tech}
use proton5g.At.Tech.Endc.{is_nr_cell, Agrees, detect_radio_tech-Agrees}
use proton5g.At.Serial.{AtEnv, new_client, Outcome, done, failed, ensure_connected, no_identity}
use proton5g.At.Client.{set_apn, command, deactivate_pdp}
use proton5g.At.Client.Polled.{radio_of}
use proton5g.Sms.Urc.{store_and_strip, strip_lines, is_urc_line}
use proton5g.At.Serial.Lifecycle.{Sound, new_client-Sound}
use proton5g.At.Tiered.{Tiered, poll_of, full_status, set_apn_tiered, deactivate_pdp_tiered}
use proton5g.At.Tiered.Cached.{empty_cache}
use proton5g.At.Tiered.Fresh.{Polled, set_apn-refreshes, deactivate_pdp-refreshes}
use proton5g.At.Tiered.Tried.{Asked, slow_commands, medium_commands}
use proton5g.At.Tiered.Lifecycle.{
  polling, rat_change, usb_change, closing, raw_command, usb_query, perform_all, perform_all-Sound,
}

derive_band-n7_example : derive_band_from_arfcn (pos 520000) ≡ codes "n41"
derive_band-n7_example = derive_band-n7 520000 (omega arith) (omega arith)

-- the answers of a modem on LTE with a secondary carrier
abbrev cesq : Text
cesq = codes "+CESQ: 99,99,255,255,20,60\nOK"

abbrev gtca : Text
gtca = codes "PCC:103,1444,19444,50,216,0,3,3,-9,-81\nSCC 1:0,217,1850,50,50,4,4,3,3,-9,-85\nOK"

abbrev gtcc : Text
gtcc = codes "+GTCCINFO:\n1,4,520,03,1A2B,0ABCDEF1,1444,216,103,50,12,60,20\nOK"

abbrev tenths : ℕ → Text
tenths khz = itoa (khz / 1000) ++ codes " MHz"

abbrev carriers : List CaComponent
carriers = enrich_gtcainfo_components tenths (parse_gtcainfo_components tenths gtca) gtca

shown_carriers-SoundCarrier_example :
    All SoundCarrier (correlate_ca_with_cells tenths carriers (parse_gtccinfo_cells gtcc))
shown_carriers-SoundCarrier_example = shown_carriers-SoundCarrier tenths gtca gtcc

correlate_ca_with_cells-Filled_example :
    AllCorrelated tenths
      (parse_gtccinfo_cells gtcc)
      carriers
      (correlate_ca_with_cells tenths carriers (parse_gtccinfo_cells gtcc))
correlate_ca_with_cells-Filled_example =
    correlate_ca_with_cells-Filled tenths carriers (parse_gtccinfo_cells gtcc)

detect_radio_tech-Agrees_example :
    Agrees (any is_nr_cell (parse_gtccinfo_cells gtcc) || any is_nr_carrier carriers) (
      detect_radio_tech
        (pos 13)
        true
        reg_home
        reg_not_registered
        (parse_gtccinfo_cells gtcc)
        carriers)
detect_radio_tech-Agrees_example =
    detect_radio_tech-Agrees (pos 13) true reg_home reg_not_registered (parse_gtccinfo_cells gtcc)
      carriers

-- a modem that answers every command with OK
abbrev modem : AtEnv
modem = record {
  open_port = λ log name. none;
  write = λ log line. none;
  reads = λ log. record { bytes = codes "OK\r\n"; failed = false } ∷ [];
  tenths_mhz = tenths;
  parse_float = λ s. none;
}

abbrev start : Tiered
start = record { client = new_client (codes "/dev/ttyUSB2"); cache = empty_cache }

perform_all-Sound_example :
    Sound
      (perform_all modem
        (polling 5
          ∷ rat_change endc
          ∷ usb_query
          ∷ usb_change (pos 41)
          ∷ raw_command (codes "ATI")
          ∷ closing
          ∷ [])
        start).client
perform_all-Sound_example =
    perform_all-Sound modem
      (polling 5
        ∷ rat_change endc
        ∷ usb_query
        ∷ usb_change (pos 41)
        ∷ raw_command (codes "ATI")
        ∷ closing
        ∷ [])
      start (new_client-Sound (codes "/dev/ttyUSB2"))

-- what an operation returned
abbrev value_or {ℓ} : {A : Type ℓ} → A → Outcome A → A
value_or a (done b) = b
value_or a (failed e) = a

abbrev no_poll : AtPoll
no_poll = poll_of empty_cache (radio_of modem [] [] [] []) [] []

-- a poll at one minute and ten seconds, and a second one three seconds later
abbrev first_poll : Tiered × Outcome AtPoll
first_poll = full_status modem 70000000000 start

-- a client that is open, with values that were asked for three seconds before
abbrev running : Tiered
running = record {
  client = record {
    port_name = codes "/dev/ttyUSB2";
    is_open = true;
    ident = no_identity;
    urcs = [];
    log = [];
  };
  cache = record empty_cache { slow_at = 70000000000; medium_at = 70000000000 };
}

abbrev with_apn : Tiered × Outcome Text
with_apn = set_apn_tiered modem (pos 1) (codes "IP") (codes "internet") running

abbrev later_poll : Tiered × Outcome AtPoll
later_poll = full_status modem 73000000000 with_apn.0

set_apn-refreshes_example :
    (later_poll.0.cache.slow_at ≡ 73000000000)
    × Asked slow_commands with_apn.0.client later_poll.0.client
unfolding set_apn_tiered set_apn command full_status ensure_connected contains has_prefix
    store_and_strip strip_lines split_on without is_urc_line trim_space join_lines
set_apn-refreshes_example =
    set_apn-refreshes modem (pos 1) (codes "IP") (codes "internet") [] 73000000000 running
      with_apn.0 later_poll.0 (value_or no_poll later_poll.1) (omega arith) refl refl

abbrev deactivated : Tiered × Outcome Text
deactivated = deactivate_pdp_tiered modem (pos 1) running

abbrev idle_poll : Tiered × Outcome AtPoll
idle_poll = full_status modem 73000000000 deactivated.0

deactivate_pdp-refreshes_example :
    (deactivated.0.cache.pdp.ip ≡ [])
    × (idle_poll.0.cache.medium_at ≡ 73000000000)
    × Asked (medium_commands idle_poll.0.cache.apn) deactivated.0.client idle_poll.0.client
unfolding deactivate_pdp_tiered deactivate_pdp command full_status ensure_connected contains
    has_prefix store_and_strip strip_lines split_on without is_urc_line trim_space join_lines
deactivate_pdp-refreshes_example =
    deactivate_pdp-refreshes modem (pos 1) [] 73000000000 running deactivated.0 idle_poll.0
      (value_or no_poll idle_poll.1) (omega arith) (omega arith) refl refl

-- the address of the second context
parse_cgpaddr-answer_example :
    parse_cgpaddr (cgpaddr_answer 2 10 64 0 17 ++ b'\n' ∷ codes "OK") ≡ quad 10 64 0 17
unfolding itoa same
parse_cgpaddr-answer_example =
    parse_cgpaddr-answer 2 10 64 0 17 (codes "OK") (omega arith)
      (record {
        first = omega arith;
        second = omega arith;
        third = omega arith;
        fourth = omega arith;
      })
      refl

parse_gtact-reported_example :
    parse_gtact (reported (cmd_gtact_set_by_pref th_lte)) ≡ to_display th_lte
parse_gtact-reported_example = parse_gtact-reported th_lte (λ e. cc)
