-- ===== src/At/Band.antt =====
-- internal/repository/at_parser.go and at_ca_enrich.go: bands, bandwidths, modulations and MIMO layers
-- in the form that the page shows. The text of a bandwidth with one decimal, `fmt.Sprintf("%.1f MHz", …)`,
-- is a parameter of the kHz.
pub mod Table
use proton5g.Base.{
  ℕ, zero, suc, ◌+◌, ◌-◌, ◌*◌, ◌/◌, ◌%◌, Bool, true, false, not, ◌&&◌, ◌||◌, List, [], ◌∷◌, ◌++◌,
  Option, none, some, ltb, leb, ◌==◌, if◌then◌else◌, drop, any, Text, codes, same, is_empty, within,
  has_prefix, trim_space, trim_left, to_upper, to_lower, contains, has_suffix, trim_suffix, atoi,
  itoa,
}
use proton5g.Base.Int.{ℤ, pos, negsuc, pos_part, neg_part, neg_ℕ, leb_ℤ, ltb_ℤ, eqb_ℤ}

-- `%d`
unfoldable pub format_int : ℤ → Text
format_int (pos n) = itoa n
format_int (negsuc n) = b'-' ∷ itoa (suc n)

-- `strings.EqualFold(s, "N/A")`
abbrev pub is_na : Text → Bool
is_na s = same (to_upper s) (codes "N/A")

-- a band with its letter, and no zeros in front of its digits
unfoldable pub letter_band : Text → Text
letter_band u =
    let digits = drop 1 u in
    let bare = trim_left (λ c. c == b'0') digits in
    (if has_prefix (codes "N") u then b'n' else b'B') ∷ (if is_empty bare then digits else bare)

-- a band by its number
unfoldable pub number_band : ℤ → Bool → Text
unfolding format_int
number_band n is_nr =
    if ltb_ℤ (pos 100) n && ltb_ℤ n (pos 200)
    then b'B' ∷ format_int (pos (pos_part n - 100))
    else if is_nr || leb_ℤ (pos 77) n || eqb_ℤ n (pos 41) || eqb_ℤ n (pos 78) || eqb_ℤ n (pos 79)
    then b'n' ∷ format_int n
    else b'B' ∷ format_int n

-- `FormatBand`
unfoldable pub format_band : Text → Bool → Text
unfolding letter_band number_band
format_band given is_nr =
    let raw = trim_space given in
    let u = to_upper raw in
    let n = atoi raw in
    if is_empty raw || same raw (codes "-") || same raw (codes "0") || is_na raw
    then []
    else if has_prefix (codes "B") u || has_prefix (codes "N") u
    then letter_band u
    else if n.good
    then number_band n.value is_nr
    else raw

-- a row of the switches of `DeriveBandFromARFCN`: the first and the last channel number, and the band
pub record BandRow : Type 0 where
  pub first : ℕ
  pub last : ℕ
  pub band : Text

abbrev row : ℕ → ℕ → Text → BandRow
row first last band = record { first = first; last = last; band = band }

-- the cases for NR, in their order
abbrev pub nr_rows : List BandRow
nr_rows =
    row 620000 653333 (codes "n78")
    ∷ row 653334 680000 (codes "n77")
    ∷ row 499200 537999 (codes "n41")
    ∷ row 123400 130400 (codes "n28")
    ∷ row 422000 434000 (codes "n1")
    ∷ row 361000 376000 (codes "n3")
    ∷ row 514000 524000 (codes "n7")
    ∷ row 158200 164200 (codes "n8")
    ∷ row 171800 178800 (codes "n20")
    ∷ []

-- the cases for LTE, in their order
abbrev pub lte_rows : List BandRow
lte_rows =
    row 0 599 (codes "B1")
    ∷ row 600 1199 (codes "B2")
    ∷ row 1200 1949 (codes "B3")
    ∷ row 1950 2399 (codes "B4")
    ∷ row 2400 2649 (codes "B5")
    ∷ row 2750 3449 (codes "B7")
    ∷ row 3450 3799 (codes "B8")
    ∷ row 5010 5179 (codes "B12")
    ∷ row 5180 5279 (codes "B13")
    ∷ row 5730 5849 (codes "B17")
    ∷ row 6000 6599 (codes "B20")
    ∷ row 9210 9659 (codes "B28")
    ∷ row 38650 39649 (codes "B40")
    ∷ row 39650 41589 (codes "B41")
    ∷ []

-- the first case that holds
unfoldable pub band_in : List BandRow → ℕ → Text
band_in [] n = []
band_in (r ∷ rows) n = let rest = band_in rows n in if within r.first r.last n then r.band else rest

-- `DeriveBandFromARFCN`
unfoldable pub derive_band_from_arfcn : ℤ → Text
unfolding band_in
derive_band_from_arfcn (negsuc n) = []
derive_band_from_arfcn (pos zero) = []
derive_band_from_arfcn (pos (suc n)) =
    let nr = band_in nr_rows (suc n) in if is_empty nr then band_in lte_rows (suc n) else nr

-- the resource blocks of LTE
unfoldable pub lte_blocks : ℕ → Text
lte_blocks n =
    if n == 6
    then codes "1.4 MHz"
    else if n == 15
    then codes "3 MHz"
    else if n == 25
    then codes "5 MHz"
    else if n == 50
    then codes "10 MHz"
    else if n == 75
    then codes "15 MHz"
    else if n == 100
    then codes "20 MHz"
    else []

module _ (tenths_mhz : ℕ → Text) where
  -- a bandwidth that is a number
  unfoldable pub number_bandwidth : Text → ℤ → Bool → Text
  unfolding lte_blocks
  number_bandwidth raw (negsuc n) is_nr = raw
  number_bandwidth raw (pos n) is_nr =
      if not is_nr && not (is_empty (lte_blocks n))
      then lte_blocks n
      else if leb 1000 n && n % 1000 == 0
      then itoa (n / 1000) ++ codes " MHz"
      else if leb 1000 n
      then tenths_mhz n
      else if ltb 0 n && leb n 400
      then itoa n ++ codes " MHz"
      else raw

  -- `FormatBandwidth`
  unfoldable pub format_bandwidth : Text → Bool → Text
  unfolding number_bandwidth
  format_bandwidth given is_nr =
      let raw = trim_space given in
      let u = to_upper raw in
      let n = atoi raw in
      if is_empty raw || same raw (codes "0") || same raw (codes "-") || is_na raw
      then []
      else if has_suffix (codes "MHZ") u
      then trim_space (trim_suffix (codes "MHZ") u) ++ codes " MHz"
      else if n.good
      then number_bandwidth raw n.value is_nr
      else raw

-- the values that stand for nothing
abbrev pub is_unused : Text → Bool
is_unused raw =
    is_empty raw
    || same raw (codes "0")
    || same raw (codes "255")
    || same raw (codes "-1")
    || is_na raw

-- `FormatModulation`
unfoldable pub format_modulation : Text → Text
format_modulation given =
    let raw = trim_space given in
    let u = to_upper raw in
    if is_unused raw
    then []
    else if same raw (codes "1")
    then codes "QPSK"
    else if same raw (codes "2")
    then codes "16QAM"
    else if same raw (codes "3")
    then codes "64QAM"
    else if same raw (codes "4")
    then codes "256QAM"
    else if same raw (codes "5")
    then codes "1024QAM"
    else if contains (codes "QPSK") u || contains (codes "QAM") u || contains (codes "BPSK") u
    then u
    else raw

-- `FormatMIMO`
unfoldable pub format_mimo : Text → Text
unfolding format_int
format_mimo given =
    let raw = trim_space given in
    let low = to_lower raw in
    let n = atoi raw in
    if is_unused raw
    then []
    else if contains (codes "x") low
    then low
    else if not n.good || leb_ℤ n.value (pos 0) || ltb_ℤ (pos 16) n.value
    then raw
    else format_int n.value ++ b'x' ∷ format_int n.value
