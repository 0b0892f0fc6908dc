-- ===== src/Sms/Segments.antt =====
-- internal/repository/at_sms.go: the choice of encoding, UTF-16 and the split into segments.
pub mod Split
use proton5g.Base.{
  ℕ, zero, suc, ◌+◌, ◌-◌, ◌*◌, ◌/◌, ◌%◌, Bool, true, false, not, ◌&&◌, ◌||◌, List, [], ◌∷◌, ◌++◌,
  map, ltb, leb, ◌==◌, if◌then◌else◌, length, take, drop, Text, within, is_empty, to_upper,
}

-- domain.SMSEncoding
pub data SmsEncoding : Type 0 where
  gsm7 ucs2 : SmsEncoding

-- `smsEncoding`
unfoldable pub sms_encoding : Text → SmsEncoding
sms_encoding [] = gsm7
sms_encoding (r ∷ body) = if ltb r 0x20 || ltb 0x7e r then ucs2 else sms_encoding body

-- `utf16.Encode` of one rune; a surrogate and what is no code point become U+FFFD
unfoldable pub utf16_units : ℕ → List ℕ
utf16_units r =
    if ltb r 0xD800 || within 0xE000 0xFFFF r
    then r ∷ []
    else if within 0x10000 0x10FFFF r
    then (0xD800 + (r - 0x10000) / 0x400 % 0x400) ∷ (0xDC00 + (r - 0x10000) % 0x400) ∷ []
    else 0xFFFD ∷ []

unfoldable pub utf16_encode : Text → List ℕ
unfolding utf16_units
utf16_encode [] = []
utf16_encode (r ∷ s) = utf16_units r ++ utf16_encode s

-- the loop of `splitUCS2Units`
unfoldable pub split_loop : ℕ → Text → List Text → Text → ℕ → List Text
split_loop max [] out part units = if is_empty part then out else out ++ part ∷ []
split_loop max (r ∷ s) out part units =
    elim (ltb max (units + length (utf16_units r)) && not (is_empty part)) [
      | true ↦ split_loop max s (out ++ part ∷ []) (r ∷ []) (length (utf16_units r))
      | false ↦ split_loop max s out (part ++ r ∷ []) (units + length (utf16_units r))
    ]

-- `splitUCS2Units`
unfoldable pub split_ucs2_units : Text → ℕ → List Text
unfolding split_loop
split_ucs2_units s max = if max == 0 then [] else split_loop max s [] [] 0

-- the loop of `splitRunes`, with the fuel that the number of runes is
unfoldable pub split_runes_from : ℕ → Text → ℕ → List Text
split_runes_from zero r multi = []
split_runes_from (suc f) r multi =
    let rest = split_runes_from f (drop multi r) multi in
    if is_empty r then [] else take multi r ∷ rest

-- `splitRunes`
unfoldable pub split_runes : Text → ℕ → ℕ → List Text
unfolding split_runes_from
split_runes s single multi =
    if leb (length s) single then s ∷ [] else split_runes_from (suc (length s)) s multi

-- the two bytes of a unit, high byte first
unfoldable pub unit_bytes : ℕ → List ℕ
unit_bytes v = (v / 256 % 256) ∷ (v % 256) ∷ []

unfoldable pub units_bytes : List ℕ → List ℕ
units_bytes [] = []
units_bytes (v ∷ vs) = unit_bytes v ++ units_bytes vs

-- `ucs2Bytes`
unfoldable pub ucs2_bytes : Text → List ℕ
unfolding utf16_encode units_bytes unit_bytes
ucs2_bytes s = units_bytes (utf16_encode s)

-- `hex.EncodeToString`: two lower case digits for a byte
unfoldable pub hex_digit : ℕ → ℕ
hex_digit n = if ltb n 10 then n + b'0' else n - 10 + b'a'

unfoldable pub hex_encode : List ℕ → Text
unfolding hex_digit
hex_encode [] = []
hex_encode (b ∷ bs) = hex_digit (b / 16) ∷ hex_digit (b % 16) ∷ hex_encode bs

-- `ucs2Hex`
unfoldable pub ucs2_hex : Text → Text
unfolding ucs2_bytes hex_encode to_upper
ucs2_hex s = to_upper (hex_encode (ucs2_bytes s))
