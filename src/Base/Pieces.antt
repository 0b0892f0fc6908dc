-- ===== src/Base/Pieces.antt =====
-- Laws of splitting and trimming a text that is put together from pieces.
use mathlib.Core.List.{reverse-append, reverse-reverse}
use proton5g.Base.{
  ℕ, Bool, true, false, not, [], ◌∷◌, ◌++◌, reverse, ◌≡◌, ◌∙◌, refl, sym, ap, arith, all, ◌==◌,
  Text, is_digit, split_on, trim_left, trim_by,
}
use proton5g.Base.Trim.{all-reverse, trim_left_keep}

-- a text of digits has no separator
abbrev pub avoids : ℕ → Text → Bool
avoids sep = all (λ c. not (c == sep))

pub digits_avoid :
    (sep : ℕ) (s : Text) → is_digit sep ≡ false → all is_digit s ≡ true → avoids sep s ≡ true
digits_avoid sep [] h k = refl
digits_avoid sep (c ∷ s) h k = ground (arith, digits_avoid sep s h)

pub split_on-avoids : (sep : ℕ) (s : Text) → avoids sep s ≡ true → split_on sep s ≡ s ∷ []
unfolding split_on
split_on-avoids sep [] h = refl
split_on-avoids sep (c ∷ s) h = ground (arith, h, split_on-avoids sep s)

pub split_on-append :
    (sep : ℕ) (s t : Text) → avoids sep s ≡ true → split_on sep (s ++ sep ∷ t) ≡ s ∷ split_on sep t
unfolding split_on
split_on-append sep [] t h = ground arith
split_on-append sep (c ∷ s) t h = ground (arith, h, split_on-append sep s t)

trim_left_stop : (p : ℕ → Bool) (x : ℕ) (s : Text) → p x ≡ false → trim_left p (x ∷ s) ≡ x ∷ s
unfolding trim_left
trim_left_stop p x s h = ground (arith, h)

-- a text is trimmed at neither end where both stay
pub trim_by_ends :
    (p : ℕ → Bool) (x y : ℕ) (s : Text)
    → p x ≡ false
    → p y ≡ false
    → trim_by p (x ∷ (s ++ y ∷ [])) ≡ x ∷ (s ++ y ∷ [])
unfolding trim_by
trim_by_ends p x y s hx hy =
    let t = x ∷ (s ++ y ∷ []) in
    let turned : reverse t ≡ y ∷ reverse (x ∷ s) = reverse-append (x ∷ s) (y ∷ []) in
    let kept : trim_left p (reverse t) ≡ reverse t =
      ap (trim_left p) turned ∙ trim_left_stop p y (reverse (x ∷ s)) hy ∙ sym turned in
    ap (λ (u : Text). reverse (trim_left p (reverse u))) (trim_left_stop p x (s ++ y ∷ []) hx)
    ∙ ap reverse kept
    ∙ reverse-reverse t

trim_left_drop :
    (p : ℕ → Bool) (x : ℕ) (s : Text) → p x ≡ true → trim_left p (x ∷ s) ≡ trim_left p s
unfolding trim_left
trim_left_drop p x s h = ground (arith, h)

-- one rune at the end is trimmed, where the front stays
pub trim_by_quoted :
    (p : ℕ → Bool) (x : ℕ) (s : Text)
    → p x ≡ true
    → all (λ c. not (p c)) s ≡ true
    → trim_by p (x ∷ (s ++ x ∷ [])) ≡ s
unfolding trim_by
trim_by_quoted p x [] h keeps =
    ap (λ (u : Text). reverse (trim_left p (reverse u)))
      (trim_left_drop p x (x ∷ []) h ∙ trim_left_drop p x [] h)
trim_by_quoted p x (c ∷ s) h keeps =
    let u = c ∷ s in
    let turned : reverse (u ++ x ∷ []) ≡ x ∷ reverse u = reverse-append u (x ∷ []) in
    let kept : trim_left p (reverse u) ≡ reverse u =
      trim_left_keep p (reverse u) (all-reverse (λ c. not (p c)) u keeps) in
    let front : trim_left p (x ∷ (u ++ x ∷ [])) ≡ u ++ x ∷ [] =
      trim_left_drop p x (u ++ x ∷ []) h
      ∙ trim_left_stop p c (s ++ x ∷ []) (ground (arith, keeps)) in
    ap (λ (v : Text). reverse (trim_left p (reverse v))) front
    ∙ ap (λ (v : Text). reverse (trim_left p v)) turned
    ∙ ap reverse (trim_left_drop p x (reverse u) h ∙ kept)
    ∙ reverse-reverse u
