-- ===== src/At/Info.antt =====
-- internal/repository/at_parser.go: the answers about the operator, the registration, the SIM, the PDP
-- context and the modem itself. `len` of a text counts its bytes. `strconv.ParseFloat` is a parameter
-- that returns thousandths, as is the temperature.
pub mod Lines
pub mod Modes
pub mod Ips
pub mod Addresses
use proton5g.Base.{
  ℕ, ◌+◌, Bool, true, false, not, ◌&&◌, ◌||◌, List, [], ◌∷◌, Option, none, some, ltb, leb, ◌==◌,
  if◌then◌else◌, length, get_or, drop, all, Text, codes, same, is_empty, byte_length, is_digit,
  has_prefix, trim_space, trim_prefix, to_upper, contains, split_on, cut_at, unquoted,
  unquoted_field, atoi,
}
use proton5g.Base.Int.{ℤ, pos, leb_ℤ, ltb_ℤ, eqb_ℤ, within_ℤ, tdiv}
use proton5g.Domain.{ApnConfig}
use proton5g.Domain.Enums.{
  pdp_ipv4v6, normalize_pdp_type, parse_reg_stat_string, reg_not_registered, normalize_sim_state,
  sim_missing,
}
use proton5g.Domain.Enums.Rat.{rat_unspecified, parse_gtact_code_string}
use proton5g.At.Fields.{result_ok, is_blank_result}
use proton5g.At.Info.Lines.{first_line, first_some, lines_of}
use proton5g.At.Info.Ips.{
  cgpaddr_line, gtdns_line, ip_fields, ip_or_nothing, is_ipv4_addr, is_octet, parse_cgpaddr,
  parse_gtdns, quoted_or_bare_ips, usable_ip,
}

-- `i := strings.IndexAny(val, ",; "); i > 0`: the text in front of the separator
unfoldable pub before_mark : Text → Text
before_mark val = elim (cut_at (λ c. c == b',' || c == b';' || c == b' ') val) [
  | none ↦ val
  | some (front, _) ↦ if is_empty front then val else front
]

-- the body of the loop of `ParseGTUSBMODE`
unfoldable pub usb_mode_line : Text → Option ℤ
unfolding before_mark
usb_mode_line line =
    let n = atoi (trim_space (before_mark (trim_space (trim_prefix (codes "+GTUSBMODE:") line)))) in
    if has_prefix (codes "+GTUSBMODE:") line && n.good then some n.value else none

-- `ParseGTUSBMODE`
unfoldable pub parse_gtusbmode : Text → ℤ
unfolding usb_mode_line
parse_gtusbmode response = first_line usb_mode_line (pos 0) response

abbrev pub unknown_operator : Text
unknown_operator = codes "Unknown Operator"

-- the operator, the access technology and whether there is one
pub record Cops : Type 0 where
  pub oper : Text
  pub act : ℤ
  pub has_act : Bool

-- the fields of a +COPS row
unfoldable pub cops_row : Cops → List Text → Cops
cops_row c (_ ∷ _ ∷ oper ∷ []) = record c { oper = unquoted_field oper }
cops_row c (_ ∷ _ ∷ oper ∷ act ∷ _) =
    let n = atoi (trim_space act) in
    if n.good
    then record { oper = unquoted_field oper; act = n.value; has_act = true }
    else record c { oper = unquoted_field oper }
cops_row c _ = c

-- the loop of `ParseCOPSFull`: what a row without an operator says stays for the next one
unfoldable pub cops_lines : Cops → List Text → Cops
unfolding cops_row
cops_lines c [] = record { oper = unknown_operator; act = pos 0; has_act = false }
cops_lines c (given ∷ lines) =
    let line = trim_space given in
    let c' : Cops =
      if has_prefix (codes "+COPS:") line then cops_row c (split_on b',' line) else c in
    elim (has_prefix (codes "+COPS:") line && not (is_empty c'.oper)) [
      | true ↦ c'
      | false ↦ cops_lines c' lines
    ]

-- `ParseCOPSFull`
unfoldable pub parse_cops_full : Text → Cops
unfolding cops_lines
parse_cops_full response =
    cops_lines (record { oper = []; act = pos 0; has_act = false }) (split_on b'\n' response)

-- the second field, or the only one
unfoldable pub stat_field : List Text → Text
stat_field (_ ∷ stat ∷ _) = trim_space stat
stat_field (stat ∷ []) = trim_space stat
stat_field [] = []

-- the body of the loop of `ParseRegistration`
unfoldable pub registration_line : Text → Option Text
unfolding stat_field
registration_line line =
    let stat = stat_field (split_on b',' (get_or (split_on b':' line) 1 [])) in
    if contains (codes ":") line && not (is_empty stat)
    then some (parse_reg_stat_string stat)
    else none

-- `ParseRegistration`
unfoldable pub parse_registration : Text → Text
unfolding registration_line
parse_registration response = first_line registration_line reg_not_registered response

-- `ParseCPIN`
unfoldable pub cpin_line : Text → Option Text
cpin_line line =
    if has_prefix (codes "+CPIN:") line
    then some (normalize_sim_state (trim_space (trim_prefix (codes "+CPIN:") line)))
    else none

unfoldable pub parse_cpin : Text → Text
unfolding cpin_line
parse_cpin response = first_line cpin_line sim_missing response

-- `digitsOnly`, the regular expression ^\d{5,}$
unfoldable pub digits_only : Text → Bool
digits_only s = all is_digit s && leb 5 (length s)

-- `ParseCIMI`
unfoldable pub cimi_line : Text → Option Text
unfolding digits_only
cimi_line line =
    let bare = unquoted line in
    let imsi =
      if has_prefix (codes "+CIMI:") (to_upper bare)
      then unquoted (trim_space (drop 6 bare))
      else bare in
    if is_blank_result line || has_prefix (codes "AT") line || not (digits_only imsi)
    then none
    else some imsi

unfoldable pub parse_cimi : Text → Text
unfolding cimi_line
parse_cimi response = first_line cimi_line [] response

-- the identifier behind one of the prefixes
unfoldable pub prefixed_iccid : Text → Text → Option Text
unfolding before_mark byte_length
prefixed_iccid line p =
    let val = trim_space (before_mark (unquoted_field (trim_space (drop (length p) line)))) in
    if has_prefix p (to_upper line) && leb 10 (byte_length val) then some val else none

-- `ParseICCID`. The prefix is cut off the line by its length in capitals.
unfoldable pub iccid_line : Text → Option Text
unfolding prefixed_iccid digits_only byte_length
iccid_line line =
    let clean = unquoted line in
    if is_blank_result line
    then none
    else elim (first_some (prefixed_iccid line)
        (codes "+CCID:" ∷ codes "+ICCID:" ∷ codes "+QCCID:" ∷ [])) [
          | some val ↦ some val
          | none ↦ if digits_only clean && leb 15 (byte_length clean) then some clean else none
        ]

unfoldable pub parse_iccid : Text → Text
unfolding iccid_line
parse_iccid response = first_line iccid_line [] response

-- the fields of a +CGDCONT row
unfoldable pub cgdcont_row : ApnConfig → List Text → ApnConfig
cgdcont_row config (c ∷ pdp ∷ apn ∷ _) =
    let cid = (atoi (trim_space c)).value in
    if eqb_ℤ cid (pos 1) || is_empty config.apn
    then record config {
      cid = cid;
      pdp_type = normalize_pdp_type (unquoted_field pdp);
      apn = unquoted_field apn;
    }
    else config
cgdcont_row config _ = config

unfoldable pub cgdcont_lines : ApnConfig → List Text → ApnConfig
unfolding cgdcont_row
cgdcont_lines config [] = config
cgdcont_lines config (given ∷ lines) =
    let line = trim_space given in
    cgdcont_lines
      (if has_prefix (codes "+CGDCONT:") line
        then cgdcont_row config (split_on b',' (trim_prefix (codes "+CGDCONT:") line))
        else config)
      lines

-- `ParseCGDCONT`
unfoldable pub parse_cgdcont : Text → ApnConfig
unfolding cgdcont_lines
parse_cgdcont response =
    cgdcont_lines (record { cid = pos 1; pdp_type = pdp_ipv4v6; apn = []; ip_addr = [] })
      (split_on b'\n' response)

-- the last part of a text that was split
abbrev last_part : List Text → Text
last_part [] = []
last_part (p ∷ []) = p
last_part (p ∷ q ∷ ps) = last_part (q ∷ ps)

module _ (parse_float : Text → Option ℤ) where
  -- `ParseGTSENRDTEMP`: the first line with the prefix decides
  unfoldable pub temperature_line : Text → Option (Option ℤ)
  temperature_line line =
      let raw =
        trim_space
          (last_part (split_on b',' (trim_space (trim_prefix (codes "+GTSENRDTEMP:") line)))) in
      if not (has_prefix (codes "+GTSENRDTEMP:") line) then none else elim (parse_float raw) [
        | none ↦ some none
        | some n ↦
            if eqb_ℤ n (pos 255000)
            then some none
            else if ltb_ℤ (pos 200000) n
            then some (some (tdiv n 1000))
            else if eqb_ℤ n (pos 0)
            then some none
            else some (some n)
      ]

  unfoldable pub parse_gtsenrdtemp : Text → Option ℤ
  unfolding temperature_line
  parse_gtsenrdtemp response = first_line temperature_line none response

-- `ParseGTACT`
unfoldable pub gtact_line : Text → Option Text
gtact_line line =
    if has_prefix (codes "+GTACT:") line
    then some
        (parse_gtact_code_string (get_or (split_on b',' (trim_prefix (codes "+GTACT:") line)) 0 []))
    else none

unfoldable pub parse_gtact : Text → Text
unfolding gtact_line
parse_gtact response = first_line gtact_line rat_unspecified response

-- what stands behind the name of a result code
abbrev pub info_payload : Text → Text
info_payload line = elim (cut_at (λ c. c == b':') line) [
  | none ↦ line
  | some (_, back) ↦ if has_prefix (codes "+") line then unquoted (trim_space back) else line
]

-- `ParseInfoLine`
unfoldable pub info_line : Text → Option Text
info_line line =
    let payload = info_payload line in
    if is_blank_result line
      || has_prefix (codes "AT") line
      || has_prefix (codes "+CME") line
      || is_empty payload
      || same payload result_ok
    then none
    else some payload

unfoldable pub parse_info_line : Text → Text
unfolding info_line
parse_info_line response = first_line info_line [] response
