-- ===== src/At/Info/Lines.antt =====
-- internal/repository/at_parser.go: the loop over the lines of a response that most parsers share.
use proton5g.Base.{List, [], ◌∷◌, Option, none, some, Text, split_on, trim_space, map}

-- the lines, without the space around them
abbrev pub lines_of : Text → List Text
lines_of response = map trim_space (split_on b'\n' response)

-- the first value that a test finds
unfoldable pub first_some {ℓ κ} : {A : Type ℓ} {B : Type κ} → (A → Option B) → List A → Option B
first_some f [] = none
first_some f (a ∷ as') = let rest = first_some f as' in elim (f a) [ none ↦ rest | some b ↦ some b ]

-- `for … { if … { return value } }; return default`
unfoldable pub first_line {ℓ} : {A : Type ℓ} → (Text → Option A) → A → Text → A
unfolding first_some
first_line f default response = elim (first_some f (lines_of response)) [
  | none ↦ default
  | some a ↦ a
]
