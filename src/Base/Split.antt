-- ===== src/Base/Split.antt =====
-- The functions of Go's `strings` that take texts apart. The separators and sets of runes come first.
use Prim.Native.Nat.{ℕ, ◌+◌}
use mathlib.Core.Bool.{Bool, ◌||◌}
use mathlib.Core.List.{List, [], ◌∷◌, reverse}
use mathlib.Core.Option.{Option, none, some}
use proton5g.Base.Tests.{ltb, ◌==◌, if◌then◌else◌}
use proton5g.Base.Lists.{length, drop}
use proton5g.Base.Strings.{Text, is_empty, has_prefix, trim_by}

-- a rune in front of the first part
abbrev pub onto_first : ℕ → List Text → List Text
onto_first c [] = (c ∷ []) ∷ []
onto_first c (part ∷ parts) = (c ∷ part) ∷ parts

-- `strings.Split(s, sep)` for a separator of one rune
unfoldable pub split_on : ℕ → Text → List Text
split_on sep [] = [] ∷ []
split_on sep (c ∷ s) =
    let parts = split_on sep s in if c == sep then [] ∷ parts else onto_first c parts

-- `strings.Contains(s, p)`, with the part first
unfoldable pub contains : Text → Text → Bool
contains p [] = is_empty p
contains p (c ∷ s) = has_prefix p (c ∷ s) || contains p s

-- what stands in front of the first rune of the set, and what stands behind it
unfoldable pub cut_at : (ℕ → Bool) → Text → Option (Text × Text)
cut_at p [] = none
cut_at p (c ∷ s) =
    let rest = cut_at p s in
    if p c
    then some ([], s)
    else elim rest [ none ↦ none | some (front, back) ↦ some (c ∷ front, back) ]

-- `strings.TrimPrefix(s, p)`
unfoldable pub trim_prefix : Text → Text → Text
unfolding has_prefix
trim_prefix p s = if has_prefix p s then drop (length p) s else s

-- `strings.HasSuffix(s, p)` and `strings.TrimSuffix(s, p)`
unfoldable pub has_suffix : Text → Text → Bool
unfolding has_prefix
has_suffix p s = has_prefix (reverse p) (reverse s)

unfoldable pub trim_suffix : Text → Text → Text
unfolding trim_prefix
trim_suffix p s = reverse (trim_prefix (reverse p) (reverse s))

-- `strings.ReplaceAll(s, x, "")` for one rune
unfoldable pub without : ℕ → Text → Text
without x [] = []
without x (c ∷ s) = let rest = without x s in if c == x then rest else c ∷ rest

-- `strings.Trim(s, "\"")` and `strings.Trim(s, "\" ")`
abbrev pub unquoted : Text → Text
unquoted = trim_by (λ c. c == b'"')

abbrev pub unquoted_field : Text → Text
unquoted_field = trim_by (λ c. c == b'"' || c == b' ')

-- the bytes of a rune in UTF-8, and `len(s)`
abbrev pub rune_bytes : ℕ → ℕ
rune_bytes c = if ltb c 0x80 then 1 else if ltb c 0x800 then 2 else if ltb c 0x10000 then 3 else 4

unfoldable pub byte_length : Text → ℕ
byte_length [] = 0
byte_length (c ∷ s) = rune_bytes c + byte_length s
