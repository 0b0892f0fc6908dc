-- ===== src/Sms/Pdu/RoundTrip.antt =====
-- internal/repository/at_sms.go: the PDU of a segment against the receiver of Sms/Pdu/Decode.
use proton5g.Base.{
  ℕ, zero, suc, ◌+◌, ◌-◌, ◌*◌, ◌/◌, ◌%◌, ◌≤◌, ◌<◌, true, false, not, ◌&&◌, ◌||◌, List, [], ◌∷◌,
  ◌++◌, Option, none, some, ◌≡◌, ◌≢◌, inl, inr, refl, ap, ◌∙◌, arith, ltb, ◌==◌, if◌then◌else◌,
  Bool-cases, length, take, drop, all, All, All-append, Text, is_digit, is_space, has_prefix,
  to_upper, ok,
}
use proton5g.Base.Trim.{trim_space_keep}
use proton5g.Sms.Segments.{utf16_encode, unit_bytes, units_bytes, ucs2_bytes, hex_encode}
use proton5g.Sms.Segments.Split.{units_of}
use proton5g.Sms.Pdu.{
  Address, address_of, semi_octet_address, payload_of, pdu_bytes, build_concat_ucs2_pdu,
}
use proton5g.Sms.Pdu.Decode.{
  IsScalar, ucs2_text, ucs2_text-ucs2_bytes, hex_decode, hex_decode-encode, unswap,
  encode_pairs-Encodes,
}

-- What a segment says.
pub record Segment : Type 0 where
  pub digits : Text
  pub toa : ℕ
  pub ref : ℕ
  pub total : ℕ
  pub seq : ℕ
  pub text : Text

-- the user data, with its concatenation header
read_payload : Text → ℕ → List ℕ → Option Segment
read_payload digits toa (a ∷ b ∷ c ∷ ref ∷ total ∷ seq ∷ body) =
    if a == 5 && b == 0 && c == 3
    then some (record {
      digits = digits;
      toa = toa;
      ref = ref;
      total = total;
      seq = seq;
      text = ucs2_text body;
    })
    else none
read_payload digits toa _ = none

-- behind the address: protocol, coding (8 is UCS2), the length of the user data and the data
read_tail : Text → ℕ → List ℕ → Option Segment
read_tail digits toa (pid ∷ dcs ∷ udl ∷ payload) =
    if dcs == 8 && length payload == udl then read_payload digits toa payload else none
read_tail digits toa _ = none

-- An SMS-SUBMIT with a user data header, from the modem's own service centre.
pub read_submit : List ℕ → Option Segment
read_submit (smsc ∷ kind ∷ mr ∷ n ∷ toa ∷ rest) =
    if smsc == 0 && kind == 0x41
    then read_tail (take n (unswap (take ((n + 1) / 2) rest))) toa (drop ((n + 1) / 2) rest)
    else none
read_submit _ = none

take-append_exact {ℓ} :
    {A : Type ℓ} (xs ys : List A) (n : ℕ) → length xs ≡ n → take n (xs ++ ys) ≡ xs
take-append_exact [] ys zero h = refl
take-append_exact [] ys (suc n) h = absurd (omega arith)
take-append_exact (x ∷ xs) ys zero h = absurd (omega arith)
take-append_exact (x ∷ xs) ys (suc n) h = ap (λ t. x ∷ t) (take-append_exact xs ys n (omega arith))

drop-append_exact {ℓ} :
    {A : Type ℓ} (xs ys : List A) (n : ℕ) → length xs ≡ n → drop n (xs ++ ys) ≡ ys
drop-append_exact [] ys zero h = refl
drop-append_exact [] ys (suc n) h = absurd (omega arith)
drop-append_exact (x ∷ xs) ys zero h = absurd (omega arith)
drop-append_exact (x ∷ xs) ys (suc n) h = drop-append_exact xs ys n (omega arith)

length-units_bytes : (us : List ℕ) → length (units_bytes us) ≡ 2 * length us
unfolding units_bytes unit_bytes
length-units_bytes [] = refl
length-units_bytes (u ∷ us) = omega (arith, length-units_bytes us)

pub length-payload :
    (text : Text) (ref total seq : ℕ)
    → length (payload_of text ref total seq) ≡ 6 + 2 * units_of text
unfolding payload_of ucs2_bytes
length-payload text ref total seq = omega (arith, length-units_bytes (utf16_encode text))

-- An address whose octets a receiver can read.
pub record IsAddress (a : Address) : Type 0 where
  pub octets : All (λ b. b < 256) a.encoded
  pub back : take (length a.digits) (unswap a.encoded) ≡ a.digits
  pub half : length a.encoded ≡ (length a.digits + 1) / 2
  pub toa_lt : a.toa < 256

read_tail-payload :
    (digits : Text) (toa : ℕ) (text : Text) (ref total seq : ℕ)
    → All IsScalar text
    → 6 + 2 * units_of text ≤ 140
    → read_tail digits toa
        (0 ∷ 8 ∷ (length (payload_of text ref total seq) % 256) ∷ payload_of text ref total seq)
      ≡ some
          (record { digits = digits; toa = toa; ref = ref; total = total; seq = seq; text = text })
unfolding read_tail
read_tail-payload digits toa text ref total seq scalars fits =
    let len = length (payload_of text ref total seq) in
    let e : (len == len % 256) ≡ true = ground (arith, length-payload text ref total seq) in
    rw e (unfold read_payload payload_of in rw (ucs2_text-ucs2_bytes text scalars))

read_submit-pdu :
    (a : Address) (text : Text) (ref total seq : ℕ)
    → IsAddress a
    → length a.digits < 256
    → All IsScalar text
    → 6 + 2 * units_of text ≤ 140
    → read_submit (pdu_bytes a (payload_of text ref total seq))
      ≡ some (record {
        digits = a.digits;
        toa = a.toa;
        ref = ref;
        total = total;
        seq = seq;
        text = text;
      })
unfolding read_submit pdu_bytes
read_submit-pdu a text ref total seq v short scalars fits =
    let small : length a.digits % 256 ≡ length a.digits = omega arith in
    rw
      (
        small,
        take-append_exact a.encoded _ ((length a.digits + 1) / 2) v.half,
        drop-append_exact a.encoded _ ((length a.digits + 1) / 2) v.half,
        v.back,
      )
      (read_tail-payload a.digits a.toa text ref total seq scalars fits)

-- The number behind the `+` of the international form.
abbrev pub bare : Text → Text
bare number = if has_prefix (b'+' ∷ []) number then drop 1 number else number

abbrev pub toa_of : Text → ℕ
toa_of number = if has_prefix (b'+' ∷ []) number then 0x91 else 0x81

address_of-IsAddress :
    (toa : ℕ) (number : Text)
    → toa < 256
    → number ≢ []
    → all is_digit number ≡ true
    → (a : Address) × (address_of toa number ≡ ok a)
      × (a.digits ≡ number)
      × (a.toa ≡ toa)
      × IsAddress a
unfolding address_of
address_of-IsAddress toa [] t ne d = absurd (ne refl)
address_of-IsAddress toa (c ∷ number) t ne d =
    let (bs, e) = encode_pairs-Encodes (c ∷ number) d in
    (
      record { digits = c ∷ number; toa = toa; encoded = bs },
      rw (d, e.encoded),
      refl,
      refl,
      record { octets = e.octets; back = e.digits_back; half = e.half; toa_lt = t },
    )

digits_no_space : (s : Text) → all is_digit s ≡ true → all (λ c. not (is_space c)) s ≡ true
unfolding is_space
digits_no_space [] h = refl
digits_no_space (c ∷ s) h = ground (arith, digits_no_space s)

number_no_space : (s : Text) → all is_digit (bare s) ≡ true → all (λ c. not (is_space c)) s ≡ true
unfolding has_prefix is_space
number_no_space [] h = refl
number_no_space (c ∷ s) h = ground (arith, digits_no_space s, digits_no_space (c ∷ s))

-- A destination of decimal digits, with or without `+`, has an address.
pub semi_octet_address-IsAddress :
    (number : Text)
    → bare number ≢ []
    → all is_digit (bare number) ≡ true
    → (a : Address) × (semi_octet_address number ≡ ok a)
      × (a.digits ≡ bare number)
      × (a.toa ≡ toa_of number)
      × IsAddress a
unfolding semi_octet_address
semi_octet_address-IsAddress number ne d =
    rw (trim_space_keep number (number_no_space number d))
      (elim (Bool-cases (has_prefix (b'+' ∷ []) number)) [
        | inl plus ↦
            rw plus (
              address_of-IsAddress 0x91 (drop 1 number) (omega arith) (rw plus at ne)
                (rw plus at d))
        | inr plain ↦
            rw plain
              (address_of-IsAddress 0x81 number (omega arith) (rw plain at ne) (rw plain at d))
      ])

units_bytes-lt : (us : List ℕ) → All (λ b. b < 256) (units_bytes us)
unfolding units_bytes unit_bytes
units_bytes-lt [] = tt
units_bytes-lt (u ∷ us) = (omega arith, (omega arith, units_bytes-lt us))

payload_of-lt :
    (text : Text) (ref total seq : ℕ)
    → ref < 256
    → total < 256
    → seq < 256
    → All (λ b. b < 256) (payload_of text ref total seq)
unfolding payload_of ucs2_bytes
payload_of-lt text ref total seq r t s =
    (omega arith, (omega arith, (omega arith, (r, (t, (s, units_bytes-lt _))))))

pdu_bytes-lt :
    (a : Address) (text : Text) (ref total seq : ℕ)
    → IsAddress a
    → ref < 256
    → total < 256
    → seq < 256
    → All (λ b. b < 256) (pdu_bytes a (payload_of text ref total seq))
unfolding pdu_bytes
pdu_bytes-lt a text ref total seq v r t s = (
  omega arith,
  (
    omega arith,
    (
      omega arith,
      (
        omega arith,
        (
          v.toa_lt,
          All-append _ a.encoded _ v.octets
              (omega arith, (omega arith, (omega arith, payload_of-lt text ref total seq r t s))),
        ),
      ),
    ),
  ),
)

build_concat_ucs2_pdu-ok :
    (to text : Text) (ref total seq : ℕ) (a : Address)
    → semi_octet_address to ≡ ok a
    → units_of text ≤ 67
    → 2 ≤ total
    → 0 < seq
    → seq ≤ total
    → let bytes = pdu_bytes a (payload_of text ref total seq) in
      build_concat_ucs2_pdu to text ref total seq
      ≡ ok (to_upper (hex_encode bytes), length bytes - 1)
unfolding build_concat_ucs2_pdu
build_concat_ucs2_pdu-ok to text ref total seq a e fits two s st =
    let checks : (ltb total 2 || seq == 0 || ltb total seq) ≡ false = ground arith in
    let room : ltb 140 (length (payload_of text ref total seq)) ≡ false =
      ground (arith, length-payload text ref total seq) in
    rw (e, build_concat_ucs2_pdu, checks, room)

-- For a destination of decimal digits (at most 255, with or without `+`) and a part of at most 67
-- UTF-16 units, `buildConcatUCS2PDU` returns a PDU for every segment number of a message of 2 to 255
-- segments. From its octets a receiver reads the digits, the type of address, the reference, the
-- count, the number and the text of the segment. The returned length is that of the octets less one.
pub build-read_submit :
    (number text : Text) (ref total seq : ℕ)
    → bare number ≢ []
    → all is_digit (bare number) ≡ true
    → length (bare number) < 256
    → All IsScalar text
    → units_of text ≤ 67
    → ref < 256
    → 2 ≤ total
    → total < 256
    → 0 < seq
    → seq ≤ total
    → (pdu : Text) × (build_concat_ucs2_pdu number text ref total seq
        ≡ ok (pdu, length (hex_decode pdu) - 1))
      × (read_submit (hex_decode pdu)
          ≡ some (record {
            digits = bare number;
            toa = toa_of number;
            ref = ref;
            total = total;
            seq = seq;
            text = text;
          }))
build-read_submit number text ref total seq ne d short scalars fits r two t s st =
    let (a, e, ed, et, v) = semi_octet_address-IsAddress number ne d in
    let bytes = pdu_bytes a (payload_of text ref total seq) in
    let back : hex_decode (to_upper (hex_encode bytes)) ≡ bytes =
      hex_decode-encode bytes (pdu_bytes-lt a text ref total seq v r t (omega arith)) in
    let read =
      read_submit-pdu a text ref total seq v (omega (arith, ap length ed)) scalars (omega arith) in
    (
      to_upper (hex_encode bytes),
      rw back (build_concat_ucs2_pdu-ok number text ref total seq a e fits two s st),
      ap read_submit back ∙ read ∙ cc,
    )
