-- ===== src/At/Info/Addresses.antt =====
-- internal/repository/at_parser.go: an IPv4 address in the answers about a PDP context.
use proton5g.Base.{
  ℕ, zero, suc, ◌<◌, Bool, true, false, not, ◌&&◌, ◌||◌, List, [], ◌∷◌, ◌++◌, map, Option, some,
  ◌≡◌, ◌∙◌, refl, sym, ap, inl, inr, arith, Bool-cases, all, ◌==◌, Text, codes, same, is_empty,
  is_digit, is_space, split_on, trim_space, unquoted, atoi, itoa, and_true, or_false, contains,
  has_prefix, cut_at, append_assoc,
}
use proton5g.Base.Trim.{all-append}
use proton5g.Base.Pieces.{
  avoids, digits_avoid, split_on-avoids, split_on-append, trim_by_ends, trim_by_quoted,
}
use proton5g.At.Info.Lines.{first_line, first_some, lines_of}
use proton5g.At.Info.Ips.{
  usable_ip, is_octet, is_ipv4_addr, ip_fields, quoted_or_bare_ips, cgpaddr_line, parse_cgpaddr,
}

-- what is used of the decimals of a byte
abbrev plain : ℕ → Bool
plain n = is_octet (itoa n) && all is_digit (itoa n) && not (is_empty (itoa n))

all_below : (ℕ → Bool) → ℕ → Bool
all_below q zero = true
all_below q (suc n) = q n && all_below q n

all_below_sound : (q : ℕ → Bool) (m n : ℕ) → all_below q m ≡ true → n < m → q n ≡ true
unfolding all_below
all_below_sound q zero n h k = absurd (omega arith)
all_below_sound q (suc m) n h k =
    let (here, rest) = and_true (q m) (all_below q m) h in
    elim (Bool-cases (n == m)) [
      | inl e ↦ let same_n : m ≡ n = ground (arith, e) in ap q (sym same_n) ∙ here
      | inr ne ↦ all_below_sound q m n rest (ground (arith, ne))
    ]

bytes_plain : all_below plain 256 ≡ true
unfolding all_below itoa atoi
bytes_plain = refl

byte_plain : (n : ℕ) → n < 256 → plain n ≡ true
byte_plain n h = all_below_sound plain 256 n bytes_plain h

-- a dotted address
abbrev pub quad : ℕ → ℕ → ℕ → ℕ → Text
quad a b c d = itoa a ++ b'.' ∷ (itoa b ++ b'.' ∷ (itoa c ++ b'.' ∷ itoa d))

-- four bytes
pub record Bytes (a b c d : ℕ) : Type 0 where
  pub first : a < 256
  pub second : b < 256
  pub third : c < 256
  pub fourth : d < 256

digits_of : (n : ℕ) → n < 256 → all is_digit (itoa n) ≡ true
digits_of n h = ground (arith, byte_plain n h)

octet_of : (n : ℕ) → n < 256 → is_octet (itoa n) ≡ true
octet_of n h =
    (and_true _ _
      (and_true (is_octet (itoa n) && all is_digit (itoa n)) (not (is_empty (itoa n)))
        (byte_plain n h)).0).0

avoids_of : (sep n : ℕ) → is_digit sep ≡ false → n < 256 → avoids sep (itoa n) ≡ true
avoids_of sep n h k = digits_avoid sep (itoa n) h (digits_of n k)

quad-split :
    (a b c d : ℕ)
    → Bytes a b c d
    → split_on b'.' (quad a b c d) ≡ itoa a ∷ itoa b ∷ itoa c ∷ itoa d ∷ []
quad-split a b c d h =
    split_on-append b'.' (itoa a) (itoa b ++ b'.' ∷ (itoa c ++ b'.' ∷ itoa d))
      (avoids_of b'.' a refl h.first)
    ∙ ap (λ (l : List Text). itoa a ∷ l)
        (split_on-append b'.' (itoa b) (itoa c ++ b'.' ∷ itoa d) (avoids_of b'.' b refl h.second)
          ∙ ap (λ (l : List Text). itoa b ∷ l)
              (split_on-append b'.' (itoa c) (itoa d) (avoids_of b'.' c refl h.third)
                ∙ ap (λ (l : List Text). itoa c ∷ l)
                    (split_on-avoids b'.' (itoa d) (avoids_of b'.' d refl h.fourth))))

quad-is_ipv4 : (a b c d : ℕ) → Bytes a b c d → is_ipv4_addr (quad a b c d) ≡ true
unfolding is_ipv4_addr
quad-is_ipv4 a b c d h = rw (
  quad-split a b c d h,
  octet_of a h.first,
  octet_of b h.second,
  octet_of c h.third,
  octet_of d h.fourth,
)

-- a separator that is neither a digit nor a dot
avoids-quad :
    (sep a b c d : ℕ)
    → is_digit sep || sep == b'.' ≡ false
    → Bytes a b c d
    → avoids sep (quad a b c d) ≡ true
avoids-quad sep a b c d h k =
    let s = or_false (is_digit sep) (sep == b'.') h in
    let dot : not (b'.' == sep) ≡ true = ground (arith, s.1) in
    let p = λ (c : ℕ). not (c == sep) in
    all-append p (itoa a) (b'.' ∷ (itoa b ++ b'.' ∷ (itoa c ++ b'.' ∷ itoa d)))
      (avoids_of sep a s.0 k.first)
      (rw dot (
        all-append p (itoa b) (b'.' ∷ (itoa c ++ b'.' ∷ itoa d)) (avoids_of sep b s.0 k.second) (
          rw dot (
            all-append p (itoa c) (b'.' ∷ itoa d) (avoids_of sep c s.0 k.third)
              (rw dot (avoids_of sep d s.0 k.fourth))))))

-- a field that is left out
abbrev left_out : Text → Bool
left_out p =
    is_empty p || same p (codes "0.0.0.0") || ((atoi p).good && not (contains (codes ".") p))

abbrev cid_left_out : ℕ → Bool
cid_left_out n = left_out (unquoted (trim_space (b' ' ∷ itoa n)))

cids_left_out : all_below cid_left_out 256 ≡ true
unfolding all_below itoa atoi trim_space same contains has_prefix
cids_left_out = refl

ip_fields-skip :
    (g : Text) (parts : List Text)
    → left_out (unquoted (trim_space g)) ≡ true
    → ip_fields (g ∷ parts) ≡ ip_fields parts
unfolding ip_fields
ip_fields-skip g parts h = rw h

ip_fields-keep :
    (g v : Text) (parts : List Text)
    → unquoted (trim_space g) ≡ v
    → left_out v ≡ false
    → ip_fields (g ∷ parts) ≡ v ∷ ip_fields parts
unfolding ip_fields
ip_fields-keep g v parts e h = rw (e, h)

contains-dot : (s t : Text) → contains (codes ".") (s ++ b'.' ∷ t) ≡ true
unfolding contains has_prefix
contains-dot [] t = refl
contains-dot (c ∷ s) t = ground (arith, contains-dot s t)

filled : (s : Text) (x : ℕ) (t : Text) → is_empty (s ++ x ∷ t) ≡ false
filled [] x t = refl
filled (c ∷ s) x t = refl

quad_left_in :
    (a b c d : ℕ) → same (quad a b c d) (codes "0.0.0.0") ≡ false → left_out (quad a b c d) ≡ false
quad_left_in a b c d ne =
    let rest = itoa b ++ b'.' ∷ (itoa c ++ b'.' ∷ itoa d) in
    ground (arith, ne, contains-dot (itoa a) rest, filled (itoa a) b'.' rest)

-- the field with the quoted address
quoted :
    (a b c d : ℕ)
    → Bytes a b c d
    → unquoted (trim_space (b'"' ∷ (quad a b c d ++ b'"' ∷ []))) ≡ quad a b c d
unfolding trim_space is_space
quoted a b c d k =
    ap unquoted (trim_by_ends is_space b'"' b'"' (quad a b c d) refl refl)
    ∙ trim_by_quoted (λ r. r == b'"') b'"' (quad a b c d) refl (avoids-quad b'"' a b c d refl k)

-- the answer to AT+CGPADDR behind its colon: the context, and its address in quotes
abbrev fields_text : ℕ → ℕ → ℕ → ℕ → ℕ → Text
fields_text cid a b c d = (b' ' ∷ itoa cid) ++ b',' ∷ (b'"' ∷ (quad a b c d ++ b'"' ∷ []))

ip_fields-answer :
    (cid a b c d : ℕ)
    → cid < 256
    → Bytes a b c d
    → same (quad a b c d) (codes "0.0.0.0") ≡ false
    → ip_fields (split_on b',' (fields_text cid a b c d)) ≡ quad a b c d ∷ []
unfolding ip_fields
ip_fields-answer cid a b c d h k ne =
    let given = b'"' ∷ (quad a b c d ++ b'"' ∷ []) in
    let comma : avoids b',' given ≡ true =
      all-append (λ (r : ℕ). not (r == b',')) (quad a b c d) (b'"' ∷ [])
        (avoids-quad b',' a b c d refl k) refl in
    ap ip_fields (
      split_on-append b',' (b' ' ∷ itoa cid) given (avoids_of b',' cid refl h)
      ∙ ap (λ (l : List Text). (b' ' ∷ itoa cid) ∷ l) (split_on-avoids b',' given comma))
    ∙ ip_fields-skip (b' ' ∷ itoa cid) (given ∷ [])
        (all_below_sound cid_left_out 256 cid cids_left_out h)
    ∙ ip_fields-keep given (quad a b c d) [] (quoted a b c d k) (quad_left_in a b c d ne)

-- the line of the answer
abbrev pub cgpaddr_answer : ℕ → ℕ → ℕ → ℕ → ℕ → Text
cgpaddr_answer cid a b c d = codes "+CGPADDR:" ++ fields_text cid a b c d

answer-ips :
    (cid a b c d : ℕ)
    → cid < 256
    → Bytes a b c d
    → same (quad a b c d) (codes "0.0.0.0") ≡ false
    → quoted_or_bare_ips (cgpaddr_answer cid a b c d) ≡ quad a b c d ∷ []
unfolding quoted_or_bare_ips cut_at
answer-ips cid a b c d h k ne = ip_fields-answer cid a b c d h k ne

answer-trim :
    (cid a b c d : ℕ) → trim_space (cgpaddr_answer cid a b c d) ≡ cgpaddr_answer cid a b c d
unfolding trim_space is_space
answer-trim cid a b c d =
    let front = itoa cid ++ b',' ∷ (b'"' ∷ quad a b c d) in
    let joined : cgpaddr_answer cid a b c d ≡ b'+' ∷ ((codes "CGPADDR: " ++ front) ++ b'"' ∷ []) =
      ap (λ (u : Text). codes "+CGPADDR: " ++ u)
        (sym (append_assoc (itoa cid) (b',' ∷ (b'"' ∷ quad a b c d)) (b'"' ∷ []))) in
    ap trim_space joined
    ∙ trim_by_ends is_space b'+' b'"' (codes "CGPADDR: " ++ front) refl refl
    ∙ sym joined

first_some-hit {ℓ κ} :
    {A : Type ℓ} {B : Type κ} (f : A → Option B) (x : A) (v : B) (xs : List A)
    → f x ≡ some v
    → first_some f (x ∷ xs) ≡ some v
unfolding first_some
first_some-hit f x v xs h = ground (arith, h)

first_line-hit :
    (f : Text → Option Text) (d v response : Text)
    → first_some f (lines_of response) ≡ some v
    → first_line f d response ≡ v
unfolding first_line
first_line-hit f d v response h = ground (arith, h)

usable :
    (a b c d : ℕ)
    → Bytes a b c d
    → same (quad a b c d) (codes "0.0.0.0") ≡ false
    → usable_ip (quad a b c d) ≡ some (quad a b c d)
usable a b c d k ne = ground (arith, quad-is_ipv4 a b c d k, ne)

answer-line :
    (cid a b c d : ℕ)
    → cid < 256
    → Bytes a b c d
    → same (quad a b c d) (codes "0.0.0.0") ≡ false
    → cgpaddr_line (cgpaddr_answer cid a b c d) ≡ some (quad a b c d)
unfolding cgpaddr_line has_prefix
answer-line cid a b c d h k ne =
    ap (first_some usable_ip) (answer-ips cid a b c d h k ne)
    ∙ first_some-hit usable_ip (quad a b c d) (quad a b c d) [] (usable a b c d k ne)

answer-avoids :
    (cid a b c d : ℕ) → cid < 256 → Bytes a b c d → avoids b'\n' (cgpaddr_answer cid a b c d) ≡ true
answer-avoids cid a b c d h k =
    let p = λ (r : ℕ). not (r == b'\n') in
    all-append p (itoa cid) (b',' ∷ (b'"' ∷ (quad a b c d ++ b'"' ∷ [])))
      (avoids_of b'\n' cid refl h)
      (all-append p (quad a b c d) (b'"' ∷ []) (avoids-quad b'\n' a b c d refl k) refl)

-- A context with a number below 256, and the bytes of an address other than 0.0.0.0: from the answer to
-- AT+CGPADDR that names the context and has the address in quotes, with any lines behind it, `ParseCGPADDR` reads that
-- address.
pub parse_cgpaddr-answer :
    (cid a b c d : ℕ) (more : Text)
    → cid < 256
    → Bytes a b c d
    → same (quad a b c d) (codes "0.0.0.0") ≡ false
    → parse_cgpaddr (cgpaddr_answer cid a b c d ++ b'\n' ∷ more) ≡ quad a b c d
unfolding parse_cgpaddr
parse_cgpaddr-answer cid a b c d more h k ne =
    let line = cgpaddr_answer cid a b c d in
    let found : first_some cgpaddr_line (lines_of (line ++ b'\n' ∷ more)) ≡ some (quad a b c d) =
      ap (λ (ls : List Text). first_some cgpaddr_line (map trim_space ls))
        (split_on-append b'\n' line more (answer-avoids cid a b c d h k))
      ∙ first_some-hit cgpaddr_line (trim_space line) (quad a b c d)
          (map trim_space (split_on b'\n' more))
          (ap cgpaddr_line (answer-trim cid a b c d) ∙ answer-line cid a b c d h k ne) in
    first_line-hit cgpaddr_line [] (quad a b c d) (line ++ b'\n' ∷ more) found
