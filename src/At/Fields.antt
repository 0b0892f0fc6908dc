-- ===== src/At/Fields.antt =====
-- internal/repository/at_parser.go: the fields of a row, and the decoders of raw signal values.
pub mod Decode
use proton5g.Base.{
  ℕ, suc, ◌+◌, ◌-◌, ◌*◌, ◌/◌, Bool, true, false, not, ◌&&◌, ◌||◌, List, [], ◌∷◌, ◌++◌, map, Option,
  none, some, ◌==◌, if◌then◌else◌, Text, codes, same, is_empty, is_digit, trim_space, to_upper,
  split_on, atoi,
}
use proton5g.Base.Int.{ℤ, pos, neg_ℕ, ◌+ℤ◌, ◌*ℤ◌, tdiv, leb_ℤ, ltb_ℤ, eqb_ℤ, within_ℤ}

-- CSQUnknown, CSQMinDBm, CSQMaxRaw, CESQUnknown, RSRPMinDBm, RSRPMaxRaw and RSRQMaxRaw
abbrev pub csq_unknown : ℤ
csq_unknown = pos 99

abbrev pub csq_min_dbm : ℤ
csq_min_dbm = neg_ℕ 113

abbrev pub csq_max_raw : ℕ
csq_max_raw = 31

abbrev pub cesq_unknown : ℤ
cesq_unknown = pos 255

abbrev pub rsrp_min_dbm : ℤ
rsrp_min_dbm = neg_ℕ 140

abbrev pub rsrp_max_raw : ℤ
rsrp_max_raw = pos 97

abbrev pub rsrq_max_raw : ℤ
rsrq_max_raw = pos 34

-- ATResultOK and ATResultERROR
abbrev pub result_ok : Text
result_ok = codes "OK"

abbrev pub result_error : Text
result_error = codes "ERROR"

-- the test that most loops over lines start with
abbrev pub is_blank_result : Text → Bool
is_blank_result line = is_empty line || same line result_ok || same line result_error

-- `splitCSV`
unfoldable pub split_csv : Text → List Text
split_csv line = map trim_space (split_on b',' line)

-- `dashEmpty`
unfoldable pub dash_empty : Text → Text
dash_empty s = let t = trim_space s in if is_empty t || same t (codes "0") then [] else t

-- `hexOrEmpty`
unfoldable pub hex_or_empty : Text → Text
hex_or_empty s =
    let t = trim_space s in
    let u = to_upper t in
    if is_empty t
      || same u (codes "0XFFFFFFF")
      || same u (codes "00FFFFFFF")
      || same u (codes "FFFFFFF")
    then []
    else t

-- `atoiOr`
unfoldable pub atoi_or : Text → ℤ → ℤ
atoi_or s default = let n = atoi (trim_space s) in if n.good then n.value else default

-- tenths of a decibel, rounded to whole ones
unfoldable pub round_tenths : ℤ → ℤ
round_tenths tenths =
    if leb_ℤ (pos 0) tenths then tdiv (tenths +ℤ pos 5) 10 else tdiv (tenths +ℤ neg_ℕ 5) 10

-- the decibels of a raw RSRQ
unfoldable pub rsrq_of_raw : ℤ → ℤ
unfolding round_tenths
rsrq_of_raw raw = round_tenths (neg_ℕ 195 +ℤ pos 5 *ℤ raw)

-- `decodeRSRPField`
unfoldable pub decode_rsrp_field : ℤ → Option ℤ
decode_rsrp_field raw =
    if within_ℤ (neg_ℕ 140) (neg_ℕ 44) raw
    then some raw
    else if within_ℤ (pos 0) rsrp_max_raw raw && not (eqb_ℤ raw cesq_unknown)
    then some (rsrp_min_dbm +ℤ raw)
    else none

-- `decodeRSRQField`
unfoldable pub decode_rsrq_field : ℤ → Option ℤ
unfolding rsrq_of_raw
decode_rsrq_field raw =
    if within_ℤ (neg_ℕ 20) (neg_ℕ 3) raw
    then some raw
    else if within_ℤ (pos 0) rsrq_max_raw raw && not (eqb_ℤ raw cesq_unknown)
    then some (rsrq_of_raw raw)
    else none

-- `decodeGTCCSINR`
unfoldable pub decode_gtcc_sinr : ℤ → Option ℤ
decode_gtcc_sinr raw =
    if ltb_ℤ raw (pos 0) || eqb_ℤ raw (pos 255) || eqb_ℤ raw (pos 99)
    then none
    else some (tdiv raw 2)

-- `flush` of `parseSignedInts`: the number that was read, if it is one
unfoldable pub flush : Text → List ℤ → List ℤ
flush cur out =
    if is_empty cur || same cur (b'-' ∷ [])
    then out
    else (let n = atoi cur in if n.good then out ++ n.value ∷ [] else out)

-- the loop of `parseSignedInts`
unfoldable pub parse_signed_from : List ℤ → Text → Text → List ℤ
unfolding flush
parse_signed_from out cur [] = flush cur out
parse_signed_from out cur (r ∷ s) = elim (r == b'-' || is_digit r) [
  | false ↦ parse_signed_from (flush cur out) [] s
  | true ↦ elim (r == b'-' && not (is_empty cur)) [
    | true ↦ parse_signed_from (flush cur out) (r ∷ []) s
    | false ↦ parse_signed_from out (cur ++ r ∷ []) s
  ]
]

-- `parseSignedInts`
unfoldable pub parse_signed_ints : Text → List ℤ
unfolding parse_signed_from
parse_signed_ints = parse_signed_from [] []
