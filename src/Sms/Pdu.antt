-- ===== src/Sms/Pdu.antt =====
-- internal/repository/at_sms.go: the address and the SMS-SUBMIT PDU of one segment. Bytes are
-- numbers below 256, and `byte(x)` is `x % 256`.
pub mod Decode
pub mod RoundTrip
use proton5g.Base.{
  ℕ, zero, suc, ◌+◌, ◌-◌, ◌*◌, ◌%◌, Bool, true, false, not, ◌&&◌, ◌||◌, List, [], ◌∷◌, ◌++◌, Option,
  none, some, ltb, leb, ◌==◌, if◌then◌else◌, length, all, Text, within, is_empty, is_digit,
  has_prefix, trim_space, drop, to_upper, Result, ok, err,
}
use proton5g.Sms.Segments.{ucs2_bytes, hex_encode}

pub data PduError : Type 0 where
  invalid_destination invalid_sequence segment_too_long : PduError

-- `strconv.ParseUint` of one character, in base 16 and 4 bits
unfoldable pub nibble : ℕ → Option ℕ
nibble c =
    if is_digit c
    then some (c - b'0')
    else if within b'a' b'f' c
    then some (c - b'a' + 10)
    else if within b'A' b'F' c
    then some (c - b'A' + 10)
    else none

-- `byte(lo<<4 | hi)` of two nibbles
unfoldable pub swap_pair : Option ℕ → Option ℕ → Option (List ℕ) → Option (List ℕ)
swap_pair (some hi) (some lo) (some rest) = some ((lo * 16 + hi) ∷ rest)
swap_pair _ _ _ = none

-- the loop over pairs of characters; the text has even length
unfoldable pub encode_pairs : Text → Option (List ℕ)
unfolding nibble swap_pair
encode_pairs [] = some []
encode_pairs (x ∷ []) = none
encode_pairs (x ∷ y ∷ r) = swap_pair (nibble x) (nibble y) (encode_pairs r)

unfoldable pub pad_even : Text → Text
pad_even number = if length number % 2 == 0 then number else number ++ b'F' ∷ []

pub record Address : Type 0 where
  pub digits : Text
  pub toa : ℕ
  pub encoded : List ℕ

-- the part of `semiOctetAddress` behind the type of address
unfoldable pub address_of : ℕ → Text → Result PduError Address
unfolding encode_pairs pad_even
address_of toa number =
    if is_empty number || not (all is_digit number)
    then err invalid_destination
    else elim (encode_pairs (pad_even number)) [
      | none ↦ err invalid_destination
      | some bytes ↦ ok (record { digits = number; toa = toa; encoded = bytes })
    ]

-- `semiOctetAddress`
unfoldable pub semi_octet_address : Text → Result PduError Address
semi_octet_address raw =
    let number = trim_space raw in
    if has_prefix (b'+' ∷ []) number
    then address_of 0x91 (drop 1 number)
    else address_of 0x81 number

-- the user data: the concatenation header, then the text
unfoldable pub payload_of : Text → ℕ → ℕ → ℕ → List ℕ
payload_of text ref total seq = 0x05 ∷ 0x00 ∷ 0x03 ∷ ref ∷ total ∷ seq ∷ ucs2_bytes text

-- the octets of the PDU
unfoldable pub pdu_bytes : Address → List ℕ → List ℕ
pdu_bytes addr payload =
    0x00
    ∷ 0x41
    ∷ 0x00
    ∷ (length addr.digits % 256)
    ∷ addr.toa
    ∷ (addr.encoded ++ (0x00 ∷ 0x08 ∷ (length payload % 256) ∷ payload))

-- `buildConcatUCS2PDU`: the PDU in hex, and its length without the SMSC octet
unfoldable pub build_concat_ucs2_pdu : Text → Text → ℕ → ℕ → ℕ → Result PduError (Text × ℕ)
build_concat_ucs2_pdu to text ref total seq = elim (semi_octet_address to) [
  | err e ↦ err e
  | ok addr ↦
      let payload = payload_of text ref total seq in
      if ltb total 2 || seq == 0 || ltb total seq
      then err invalid_sequence
      else if ltb 140 (length payload)
      then err segment_too_long
      else ok (to_upper (hex_encode (pdu_bytes addr payload)), length (pdu_bytes addr payload) - 1)
]
