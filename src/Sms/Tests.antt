-- ===== src/Sms/Tests.antt =====
-- Messages on concrete texts.
use mathlib.Core.List.{flatten}
use proton5g.Base.{
  ℕ, ◌-◌, [], ◌∷◌, ◌≡◌, inl, inr, refl, some, arith, Text, codes, length, All, ok, trim_space,
  has_prefix, to_upper,
}
use proton5g.Sms.Segments.{
  split_ucs2_units, ucs2_hex, utf16_units, utf16_encode, ucs2_bytes, hex_encode,
}
use proton5g.Sms.Segments.Split.{Fits, flatten-split_ucs2_units, split_ucs2_units-Fits}
use proton5g.Sms.Pdu.{build_concat_ucs2_pdu, semi_octet_address, address_of, payload_of, pdu_bytes}
use proton5g.Sms.Pdu.Decode.{hex_decode}
use proton5g.Sms.Pdu.RoundTrip.{read_submit, build-read_submit}

-- a grinning face, of two UTF-16 units
abbrev face : ℕ
face = 0x1F600

abbrev faces : Text
faces = b'a' ∷ face ∷ face ∷ b'b' ∷ []

split_faces : split_ucs2_units faces 3 ≡ (b'a' ∷ face ∷ []) ∷ (face ∷ b'b' ∷ []) ∷ []
unfolding split_ucs2_units utf16_units
split_faces = refl

hex_face : ucs2_hex (face ∷ []) ≡ codes "D83DDE00"
unfolding ucs2_hex
hex_face = refl

flatten-split_ucs2_units_example : flatten (split_ucs2_units faces 3) ≡ faces
flatten-split_ucs2_units_example = flatten-split_ucs2_units faces 3 (omega arith)

split_ucs2_units-Fits_example : All (Fits 3) (split_ucs2_units faces 3)
split_ucs2_units-Fits_example = split_ucs2_units-Fits faces 3 (omega arith)

pdu_text :
    build_concat_ucs2_pdu (codes "+66812345678") (codes "Hi") 7 2 1
    ≡ ok (codes "0041000B916618325476F800080A05000307020100480069", 23)
unfolding build_concat_ucs2_pdu semi_octet_address address_of trim_space has_prefix payload_of
    pdu_bytes ucs2_bytes hex_encode to_upper
pdu_text = refl

abbrev thai : Text
thai = codes "+66812345678"

build-read_submit_example :
    (pdu : Text) × (build_concat_ucs2_pdu thai faces 7 2 1 ≡ ok (pdu, length (hex_decode pdu) - 1))
    × (read_submit (hex_decode pdu)
        ≡ some (record {
          digits = codes "66812345678";
          toa = 0x91;
          ref = 7;
          total = 2;
          seq = 1;
          text = faces;
        }))
unfolding has_prefix utf16_encode
build-read_submit_example =
    build-read_submit thai faces 7 2 1 (λ h. cc) refl (omega arith)
      (
        inl (omega arith),
        (inr (omega arith, omega arith), (inr (omega arith, omega arith), (inl (omega arith), tt))),
      )
      (omega arith) (omega arith) (omega arith) (omega arith) (omega arith) (omega arith)
