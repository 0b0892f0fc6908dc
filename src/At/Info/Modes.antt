-- ===== src/At/Info/Modes.antt =====
-- internal/repository/at_cmd.go and at_parser.go: a RAT mode that is set and read back.
use proton5g.Base.{
  ◌++◌, ◌≡◌, ◌≢◌, refl, drop, Text, codes, has_prefix, trim_space, trim_prefix, split_on, atoi,
  itoa,
}
use proton5g.Domain.Enums.Rat.{
  RatModePref, nr_only, nr_sa, endc, nsa, lte, auto, th_nsa, th_nsa_b40_n41, th_lte, th_lte_b40_b41,
  cmd_gtact_set_by_pref, to_display, parse_gtact_code_string,
}
use proton5g.At.Info.Lines.{first_line}
use proton5g.At.Info.{parse_gtact, gtact_line}

-- the answer of a modem that reports the values of the command AT+GTACT=…
abbrev pub reported : Text → Text
reported cmd = codes "+GTACT: " ++ drop 9 cmd ++ codes "\r\nOK\r\n"

-- For each preference but `5g-sa`: when the modem reports the values of the command that `CmdGTACTSetByPref` sends
-- for it, `ParseGTACT` reads the mode that `ToDisplay` shows for the preference.
pub parse_gtact-reported :
    (p : RatModePref) → p ≢ nr_sa → parse_gtact (reported (cmd_gtact_set_by_pref p)) ≡ to_display p
unfolding parse_gtact gtact_line first_line parse_gtact_code_string cmd_gtact_set_by_pref to_display
    trim_space has_prefix trim_prefix split_on atoi itoa
parse_gtact-reported endc h = refl
parse_gtact-reported nsa h = refl
parse_gtact-reported th_nsa h = refl
parse_gtact-reported th_nsa_b40_n41 h = refl
parse_gtact-reported nr_only h = refl
parse_gtact-reported lte h = refl
parse_gtact-reported th_lte h = refl
parse_gtact-reported th_lte_b40_b41 h = refl
parse_gtact-reported auto h = refl
parse_gtact-reported nr_sa h = absurd (h refl)
