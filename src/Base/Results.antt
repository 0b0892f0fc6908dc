-- ===== src/Base/Results.antt =====
-- A value or an error, for Go functions whose value is only looked at without an error.
use mathlib.Core.Path.{◌≡◌, refl}
use mathlib.Core.Logic.{◌≢◌, ◌⊎◌, inl, inr}
use mathlib.Core.Bool.{Bool, true, false, not, ◌&&◌, ◌||◌}
use native.Mathlib.Omega.{arith}
use proton5g.Base.Tests.{if◌then◌else◌}

pub data Result {ℓ κ} (E : Type ℓ) (A : Type κ) : Type (ℓ ⊔ κ) where
  ok : A → Result E A
  err : E → Result E A

module _ {ℓ κ} {E : Type ℓ} {A B : Type κ} where
  -- The rest of a function behind `if err != nil { return …, err }`.
  infixl 5 ◌>>=◌
  abbrev pub ◌>>=◌ : Result E A → (A → Result E B) → Result E B
  ◌>>=◌ (err e) rest = err e
  ◌>>=◌ (ok value) rest = rest value

module _ {ℓ κ} {E : Type ℓ} {A : Type κ} where
  -- a guard that a value came through
  pub guard_passed :
      (b : Bool) (e : E) (r : Result E A) (a : A)
      → (if b then err e else r) ≡ ok a
      → (b ≡ false) × (r ≡ ok a)
  guard_passed true e r a h = ground arith
  guard_passed false e r a h = (refl, h)

  pub ok_injective : (a b : A) (r : Result E A) → r ≡ ok a → r ≡ ok b → a ≡ b
  ok_injective a b r h k = ground arith

  pub err_ne_ok : (e : E) (a : A) → Result.err e ≢ ok a
  err_ne_ok e a h = ground arith

  pub Result-cases : (r : Result E A) → ((e : E) × (r ≡ err e)) ⊎ ((a : A) × (r ≡ ok a))
  Result-cases (err e) = inl (e, refl)
  Result-cases (ok a) = inr (a, refl)

pub or_false : (a b : Bool) → a || b ≡ false → (a ≡ false) × (b ≡ false)
or_false true b h = ground arith
or_false false b h = (refl, h)

pub true_of_not : (a : Bool) → not a ≡ false → a ≡ true
true_of_not true h = refl
true_of_not false h = ground arith

pub and_true : (a b : Bool) → a && b ≡ true → (a ≡ true) × (b ≡ true)
and_true true b h = (refl, h)
and_true false b h = ground arith

pub if_cases {ℓ κ} :
    {A : Type ℓ} (P : A → Type κ) (b : Bool) (x y : A)
    → (b ≡ true → P x)
    → (b ≡ false → P y)
    → P (if b then x else y)
if_cases P true x y left right = left refl
if_cases P false x y left right = right refl
