-- ===== src/At/Fields/Decode.antt =====
-- internal/repository/at_parser.go: the ranges of what the decoders of raw signal values return.
use proton5g.Base.{ℕ, ◌*◌, ◌≤◌, some, ◌≡◌, arith}
use proton5g.Base.Int.{ℤ, pos, negsuc, neg_ℕ, ◌+ℤ◌, ◌*ℤ◌, ◌≤ℤ◌, tdiv}
use proton5g.At.Fields.{round_tenths, rsrq_of_raw, decode_rsrp_field, decode_rsrq_field}

-- a number of decibels between two bounds
abbrev pub Between : ℤ → ℤ → ℤ → Type 0
Between lo hi v = (lo ≤ℤ v) × (v ≤ℤ hi)

pub decode_rsrp_field-Between :
    (raw v : ℤ) → decode_rsrp_field raw ≡ some v → Between (neg_ℕ 140) (neg_ℕ 43) v
unfolding decode_rsrp_field ◌+ℤ◌
decode_rsrp_field-Between raw v h = ground arith

pub rsrq_of_raw-Between : (n : ℕ) → n ≤ 34 → Between (neg_ℕ 20) (neg_ℕ 3) (rsrq_of_raw (pos n))
unfolding rsrq_of_raw round_tenths ◌+ℤ◌ ◌*ℤ◌ tdiv
rsrq_of_raw-Between n h = ground arith

pub decode_rsrq_field-Between :
    (raw v : ℤ) → decode_rsrq_field raw ≡ some v → Between (neg_ℕ 20) (neg_ℕ 3) v
unfolding decode_rsrq_field
decode_rsrq_field-Between (negsuc n) v h = ground arith
decode_rsrq_field-Between (pos n) v h = ground (arith, rsrq_of_raw-Between n)

-- the value in tenths and the rounded one differ by half a decibel at most
pub rsrq_of_raw-rounds :
    (n : ℕ)
    → n ≤ 34
    → (pos 10 *ℤ rsrq_of_raw (pos n) ≤ℤ neg_ℕ 190 +ℤ pos (5 * n))
      × (neg_ℕ 200 +ℤ pos (5 * n) ≤ℤ pos 10 *ℤ rsrq_of_raw (pos n))
unfolding rsrq_of_raw round_tenths ◌+ℤ◌ ◌*ℤ◌ tdiv
rsrq_of_raw-rounds n h = ground arith
