-- ===== src/Base/Trim.antt =====
-- Laws of the trimming functions.
use mathlib.Core.List.{reverse-cons, reverse-reverse}
use proton5g.Base.{
  ℕ, Bool, true, not, List, [], ◌∷◌, ◌++◌, reverse, ◌≡◌, refl, ◌∙◌, ap, arith, all, Text, trim_left,
  trim_by, trim_space, is_space,
}

module _ {ℓ} {A : Type ℓ} (p : A → Bool) where
  pub all-append : (xs ys : List A) → all p xs ≡ true → all p ys ≡ true → all p (xs ++ ys) ≡ true
  all-append [] ys hx hy = hy
  all-append (x ∷ xs) ys hx hy = ground (arith, all-append xs ys)

  pub all-reverse : (xs : List A) → all p xs ≡ true → all p (reverse xs) ≡ true
  all-reverse [] h = refl
  all-reverse (x ∷ xs) h =
      rw reverse-cons
        (all-append (reverse xs) (x ∷ []) (all-reverse xs (ground arith)) (ground arith))

pub trim_left_keep : (p : ℕ → Bool) (s : Text) → all (λ c. not (p c)) s ≡ true → trim_left p s ≡ s
unfolding trim_left
trim_left_keep p [] h = refl
trim_left_keep p (c ∷ s) h = ground arith

-- A text with nothing to trim is left alone.
pub trim_by_keep : (p : ℕ → Bool) (s : Text) → all (λ c. not (p c)) s ≡ true → trim_by p s ≡ s
unfolding trim_by
trim_by_keep p s h = rw (trim_left_keep p s h) (
    ap reverse (trim_left_keep p (reverse s) (all-reverse (λ c. not (p c)) s h))
    ∙ reverse-reverse s)

pub trim_space_keep : (s : Text) → all (λ c. not (is_space c)) s ≡ true → trim_space s ≡ s
unfolding trim_space
trim_space_keep s h = trim_by_keep is_space s h
