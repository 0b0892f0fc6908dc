-- ===== src/Sms/Pdu/Decode.antt =====
-- What a receiver reads from the octets of a segment, by the GSM rules: the specification that the
-- encoders of the program are held to.
use mathlib.Core.Path.{ap₂}
use proton5g.Base.{
  ℕ, ◌+◌, ◌-◌, ◌*◌, ◌/◌, ◌%◌, ◌≤◌, ◌<◌, true, false, ◌&&◌, ◌||◌, List, [], ◌∷◌, ◌++◌, some, ◌≡◌,
  ◌⊎◌, inl, inr, refl, ap, ◌∙◌, arith, ltb, ◌==◌, if◌then◌else◌, Bool-cases, length, take, all, All,
  All-append, Text, within, is_digit, upper_rune, to_upper,
}
use proton5g.Sms.Segments.{
  utf16_units, utf16_encode, unit_bytes, units_bytes, ucs2_bytes, hex_digit, hex_encode,
}
use proton5g.Sms.Pdu.{nibble, encode_pairs, pad_even}

-- A Unicode scalar value, which a rune of a valid string is.
abbrev pub IsScalar : ℕ → Type 0
IsScalar r = (r < 0xD800) ⊎ ((0xE000 ≤ r) × (r < 0x110000))

-- UTF-16, with a pair of surrogates read as one rune.
pub utf16_decode : List ℕ → Text
utf16_decode [] = []
utf16_decode (u ∷ []) = u ∷ []
utf16_decode (u ∷ v ∷ us) = elim (within 0xD800 0xDBFF u && within 0xDC00 0xDFFF v) [
  | true ↦ (0x10000 + (u - 0xD800) * 0x400 + (v - 0xDC00)) ∷ utf16_decode us
  | false ↦ u ∷ utf16_decode (v ∷ us)
]

-- Big-endian units.
pub bytes_units : List ℕ → List ℕ
bytes_units [] = []
bytes_units (a ∷ []) = []
bytes_units (a ∷ b ∷ bs) = (a * 256 + b) ∷ bytes_units bs

utf16_decode_single :
    (r : ℕ) (us : List ℕ)
    → (r < 0xD800) ⊎ (0xE000 ≤ r)
    → utf16_decode (r ∷ us) ≡ r ∷ utf16_decode us
unfolding utf16_decode
utf16_decode_single r [] h = refl
utf16_decode_single r (v ∷ us) h =
    let e : (within 0xD800 0xDBFF r && within 0xDC00 0xDFFF v) ≡ false = ground arith in
    rw (e, utf16_decode)

utf16_decode-units :
    (r : ℕ) (us : List ℕ) → IsScalar r → utf16_decode (utf16_units r ++ us) ≡ r ∷ utf16_decode us
unfolding utf16_units
utf16_decode-units r us h = elim (Bool-cases (ltb r 0xD800 || within 0xE000 0xFFFF r)) [
  | inl one ↦ rw one (utf16_decode_single r us (ground arith))
  | inr two ↦
      let big : within 0x10000 0x10FFFF r ≡ true = ground arith in
      let hi = 0xD800 + (r - 0x10000) / 0x400 % 0x400 in
      let lo = 0xDC00 + (r - 0x10000) % 0x400 in
      let pair : (within 0xD800 0xDBFF hi && within 0xDC00 0xDFFF lo) ≡ true = ground arith in
      let value : 0x10000 + (hi - 0xD800) * 0x400 + (lo - 0xDC00) ≡ r = ground arith in
      rw (two, big)
        (unfold utf16_decode in rw (pair, utf16_decode) (ap (λ x. x ∷ utf16_decode us) value))
]

pub utf16_decode-encode : (s : Text) → All IsScalar s → utf16_decode (utf16_encode s) ≡ s
unfolding utf16_encode
utf16_decode-encode [] h = unfold utf16_decode in refl
utf16_decode-encode (r ∷ s) h =
    utf16_decode-units r (utf16_encode s) h.0 ∙ ap (λ t. r ∷ t) (utf16_decode-encode s h.1)

utf16_units-lt : (r : ℕ) → All (λ u. u < 65536) (utf16_units r)
unfolding utf16_units
utf16_units-lt r = ground arith

utf16_encode-lt : (s : Text) → All (λ u. u < 65536) (utf16_encode s)
unfolding utf16_encode
utf16_encode-lt [] = tt
utf16_encode-lt (r ∷ s) = All-append _ (utf16_units r) _ (utf16_units-lt r) (utf16_encode-lt s)

bytes_units-units_bytes :
    (us : List ℕ) → All (λ u. u < 65536) us → bytes_units (units_bytes us) ≡ us
unfolding bytes_units units_bytes unit_bytes
bytes_units-units_bytes [] h = refl
bytes_units-units_bytes (u ∷ us) h =
    ap₂ (λ x xs. x ∷ xs) (omega arith) (bytes_units-units_bytes us h.1)

-- The text of a segment is read back from its octets.
pub ucs2_text : List ℕ → Text
ucs2_text bs = utf16_decode (bytes_units bs)

pub ucs2_text-ucs2_bytes : (s : Text) → All IsScalar s → ucs2_text (ucs2_bytes s) ≡ s
unfolding ucs2_text ucs2_bytes
ucs2_text-ucs2_bytes s h =
    ap utf16_decode (bytes_units-units_bytes (utf16_encode s) (utf16_encode-lt s))
    ∙ utf16_decode-encode s h

-- The octets that an upper case hex text spells.
hex_value : ℕ → ℕ
hex_value c = if is_digit c then c - b'0' else c - b'A' + 10

pub hex_decode : Text → List ℕ
hex_decode [] = []
hex_decode (x ∷ []) = []
hex_decode (x ∷ y ∷ r) = (hex_value x * 16 + hex_value y) ∷ hex_decode r

hex_value-digit : (n : ℕ) → n < 16 → hex_value (upper_rune (hex_digit n)) ≡ n
unfolding hex_value upper_rune hex_digit
hex_value-digit n h = ground arith

pub hex_decode-encode :
    (bs : List ℕ) → All (λ b. b < 256) bs → hex_decode (to_upper (hex_encode bs)) ≡ bs
unfolding hex_decode hex_encode to_upper
hex_decode-encode [] h = refl
hex_decode-encode (b ∷ bs) h =
    ap₂ (λ x xs. x ∷ xs)
      (omega
        (arith, hex_value-digit (b / 16) (omega arith), hex_value-digit (b % 16) (omega arith)))
      (hex_decode-encode bs h.1)

length-hex_encode : (bs : List ℕ) → length (to_upper (hex_encode bs)) ≡ 2 * length bs
unfolding hex_encode to_upper
length-hex_encode [] = refl
length-hex_encode (b ∷ bs) = omega (arith, length-hex_encode bs)

-- The digits of an address: the low half of each octet first. A filler behind the last digit is cut.
pub unswap : List ℕ → Text
unswap [] = []
unswap (b ∷ bs) = (b % 16 + b'0') ∷ (b / 16 + b'0') ∷ unswap bs

pad_even_pair : (x y : ℕ) (r : Text) → pad_even (x ∷ y ∷ r) ≡ x ∷ y ∷ pad_even r
unfolding pad_even
pad_even_pair x y r =
    let e : length (x ∷ y ∷ r) % 2 ≡ length r % 2 = omega arith in
    rw e (elim (Bool-cases (length r % 2 == 0)) [ inl h ↦ rw h | inr h ↦ rw h ])

nibble_digit : (x : ℕ) → is_digit x ≡ true → nibble x ≡ some (x - b'0')
unfolding nibble
nibble_digit x h = rw h

-- The octets of a destination of decimal digits.
pub record Encodes (s : Text) (bs : List ℕ) : Type 0 where
  pub encoded : encode_pairs (pad_even s) ≡ some bs
  pub digits_back : take (length s) (unswap bs) ≡ s
  pub octets : All (λ b. b < 256) bs
  pub half : length bs ≡ (length s + 1) / 2

Encodes-single : (x : ℕ) → is_digit x ≡ true → Encodes (x ∷ []) ((15 * 16 + (x - b'0')) ∷ [])
unfolding pad_even encode_pairs unswap
Encodes-single x d = record {
  encoded = rw (nibble_digit x d);
  digits_back = ground arith;
  octets = ground arith;
  half = refl;
}

Encodes-pair :
    (x y : ℕ) (r : Text) (bs : List ℕ)
    → is_digit x ≡ true
    → is_digit y ≡ true
    → Encodes r bs
    → Encodes (x ∷ y ∷ r) (((y - b'0') * 16 + (x - b'0')) ∷ bs)
unfolding encode_pairs unswap
Encodes-pair x y r bs dx dy h = record {
  encoded = rw (pad_even_pair, nibble_digit x dx, nibble_digit y dy, h.encoded);
  digits_back = ground (arith, h.digits_back);
  octets = (ground arith, h.octets);
  half = omega arith;
}

pub encode_pairs-Encodes : (s : Text) → all is_digit s ≡ true → (bs : List ℕ) × Encodes s bs
encode_pairs-Encodes [] h = (
  [],
  record {
    encoded = unfold pad_even encode_pairs in refl;
    digits_back = refl;
    octets = tt;
    half = refl;
  },
)
encode_pairs-Encodes (x ∷ []) h = (_, Encodes-single x (ground arith))
encode_pairs-Encodes (x ∷ y ∷ r) h =
    let (bs, ih) = encode_pairs-Encodes r (ground arith) in
    (_, Encodes-pair x y r bs (ground arith) (ground arith) ih)
