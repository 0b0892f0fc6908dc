-- ===== src/Sms/Segments/Split.antt =====
-- internal/repository/at_sms.go: the text and the size of the segments of a message.
use mathlib.Core.List.{flatten}
use proton5g.Base.{
  ℕ, ◌+◌, ◌≤◌, ◌<◌, true, false, List, [], ◌∷◌, ◌++◌, append-nil, append_assoc, ◌≡◌, ◌≢◌, inl, inr,
  refl, sym, ◌∙◌, arith, Bool-cases, length, length-append, All, All-append, Text, is_empty, ltb,
  ◌==◌, not, ◌&&◌,
}
use proton5g.Sms.Segments.{utf16_units, utf16_encode, split_loop, split_ucs2_units}

-- How many UTF-16 units a text takes.
abbrev pub units_of : Text → ℕ
units_of s = length (utf16_encode s)

utf16_units_bounds : (r : ℕ) → (0 < length (utf16_units r)) × (length (utf16_units r) ≤ 2)
unfolding utf16_units
utf16_units_bounds r = ground arith

pub utf16_encode-append : (s t : Text) → utf16_encode (s ++ t) ≡ utf16_encode s ++ utf16_encode t
unfolding utf16_encode
utf16_encode-append [] t = refl
utf16_encode-append (r ∷ s) t = simp (utf16_encode-append s, append_assoc)

units_of-concat : (s : Text) (r : ℕ) → units_of (s ++ r ∷ []) ≡ units_of s + length (utf16_units r)
unfolding utf16_encode
units_of-concat s r =
    rw (utf16_encode-append s (r ∷ []), append-nil) (length-append (utf16_encode s) (utf16_units r))

units_of-single : (r : ℕ) → units_of (r ∷ []) ≡ length (utf16_units r)
unfolding utf16_encode
units_of-single r = rw append-nil

units_of-empty :
    (part : Text) (units : ℕ) → units ≡ units_of part → is_empty part ≡ true → units ≡ 0
unfolding utf16_encode
units_of-empty [] units e h = e
units_of-empty (c ∷ part) units e h = cc

flatten-concat : (xs : List Text) (x : Text) → flatten (xs ++ x ∷ []) ≡ flatten xs ++ x
unfolding flatten
flatten-concat [] x = rw append-nil
flatten-concat (y ∷ xs) x = simp (flatten-concat xs, append_assoc)

flatten-split_loop :
    (max : ℕ) (s : Text) (out : List Text) (part : Text) (units : ℕ)
    → flatten (split_loop max s out part units) ≡ flatten out ++ (part ++ s)
unfolding split_loop
flatten-split_loop max [] out [] units = rw append-nil
flatten-split_loop max [] out (c ∷ part) units = rw (flatten-concat, append-nil)
flatten-split_loop max (r ∷ s) out part units =
    elim (Bool-cases (ltb max (units + length (utf16_units r)) && not (is_empty part))) [
      | inl full ↦
          rw (full, split_loop)
            (flatten-split_loop max s (out ++ part ∷ []) (r ∷ []) _
              ∙ simp (flatten-concat, append_assoc))
      | inr fits ↦
          rw (fits, split_loop)
            (flatten-split_loop max s out (part ++ r ∷ []) _ ∙ simp append_assoc)
    ]

-- Where segments may have at least one UTF-16 unit, the segments of a message, one after the other, are the
-- message.
pub flatten-split_ucs2_units : (s : Text) (max : ℕ) → 0 < max → flatten (split_ucs2_units s max) ≡ s
unfolding split_ucs2_units flatten
flatten-split_ucs2_units s max h = elim (Bool-cases (max == 0)) [
  | inl z ↦ absurd (ground arith)
  | inr nz ↦ rw nz (flatten-split_loop max s [] [] 0)
]

-- A segment that can be sent: not empty, and of at most `max` units.
abbrev pub Fits : ℕ → Text → Type 0
Fits max part = (part ≢ []) × (units_of part ≤ max)

-- A rune is put into a part that it fits into, or into an empty one, where it fits.
room_for_rune :
    (max units n : ℕ) (part : Text)
    → 2 ≤ max
    → n ≤ 2
    → (is_empty part ≡ true → units ≡ 0)
    → (ltb max (units + n) && not (is_empty part)) ≡ false
    → units + n ≤ max
room_for_rune max units n [] two le e h = omega (arith, e refl)
room_for_rune max units n (c ∷ part) two le e h = ground arith

split_loop-Fits :
    (max : ℕ) (s : Text) (out : List Text) (part : Text) (units : ℕ)
    → 2 ≤ max
    → All (Fits max) out
    → units ≡ units_of part
    → units ≤ max
    → All (Fits max) (split_loop max s out part units)
unfolding split_loop
split_loop-Fits max [] out [] units two fits e le = fits
split_loop-Fits max [] out (c ∷ part) units two fits e le =
    All-append (Fits max) out _ fits ((λ h. cc, omega arith), tt)
split_loop-Fits max (r ∷ s) out part units two fits e le =
    elim (Bool-cases (ltb max (units + length (utf16_units r)) && not (is_empty part))) [
      | inl full ↦
          rw (full, split_loop)
            (split_loop-Fits max s (out ++ part ∷ []) (r ∷ []) (length (utf16_units r)) two
              (All-append (Fits max) out _ fits ((λ h. ground arith, omega arith), tt))
              (sym (units_of-single r)) (omega (arith, utf16_units_bounds r)))
      | inr room ↦
          rw (room, split_loop)
            (split_loop-Fits max s out (part ++ r ∷ []) (units + length (utf16_units r)) two fits
              (omega (arith, units_of-concat part r))
              (room_for_rune max units (length (utf16_units r)) part two (utf16_units_bounds r).1
                (units_of-empty part units e) room))
    ]

-- Where segments may have `max` UTF-16 units, and that is at least two, every segment of a message holds a rune
-- and has at most `max` UTF-16 units.
pub split_ucs2_units-Fits : (s : Text) (max : ℕ) → 2 ≤ max → All (Fits max) (split_ucs2_units s max)
unfolding split_ucs2_units utf16_encode
split_ucs2_units-Fits s max two = elim (Bool-cases (max == 0)) [
  | inl z ↦ absurd (ground arith)
  | inr nz ↦ rw nz (split_loop-Fits max s [] [] 0 two tt refl (omega arith))
]
