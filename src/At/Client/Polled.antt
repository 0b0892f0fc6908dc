-- ===== src/At/Client/Polled.antt =====
-- internal/repository/at_client.go and at_tiered.go: what a poll derives from the answers about the radio.
use proton5g.Base.{Bool, List, [], ◌∷◌, if◌then◌else◌, Text}
use proton5g.Base.Int.{ℤ}
use proton5g.Domain.{NetworkInfo, SignalInfo, CellInfo, CaComponent}
use proton5g.Domain.Enums.{is_registered, reg_not_registered}
use proton5g.At.Signal.{parse_csq, merge_extended_signal, apply_serving_cell}
use proton5g.At.Cells.{parse_gtccinfo_cells}
use proton5g.At.Carriers.{
  parse_gtcainfo_components, enrich_gtcainfo_components, correlate_ca_with_cells,
}
use proton5g.At.Tech.{detect_radio_tech}
use proton5g.At.Serial.{AtEnv}

-- the signal, the cells and the carriers of a poll
pub record Radio : Type 0 where
  pub signal : SignalInfo
  pub cells : List CellInfo
  pub ca : List CaComponent

unfoldable pub radio_of : AtEnv → Text → Text → Text → Text → Radio
radio_of env csq cesq gtca gtcc =
    let cells = parse_gtccinfo_cells gtcc in
    record {
      signal =
          apply_serving_cell (merge_extended_signal (parse_csq csq) cesq (gtca ∷ gtcc ∷ [])) cells;
      cells = cells;
      ca =
          correlate_ca_with_cells env.tenths_mhz
            (enrich_gtcainfo_components env.tenths_mhz
              (parse_gtcainfo_components env.tenths_mhz gtca) gtca)
            cells;
    }

-- the network of a poll
unfoldable pub network_of : Text → ℤ → Bool → Text → Text → Radio → NetworkInfo
network_of operator act has_act reg_5g reg_lte radio =
    let found = detect_radio_tech act has_act reg_lte reg_5g radio.cells radio.ca in
    record {
      operator = operator;
      reg_state =
          if is_registered reg_5g
          then reg_5g
          else if is_registered reg_lte
          then reg_lte
          else reg_not_registered;
      tech = found.tech;
      reg_5g = reg_5g;
      reg_lte = reg_lte;
      endc = found.endc;
    }
