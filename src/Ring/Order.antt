-- ===== src/Ring/Order.antt =====
-- internal/repository/history_ring.go: the ring against a bounded log of samples.
use mathlib.Core.Path.{subst}
use native.Mathlib.Numerals.{add-one}
use proton5g.Base.{
  ℕ, zero, suc, ◌+◌, ◌-◌, ◌%◌, ◌≤◌, ◌<◌, Bool, List, [], ◌∷◌, ◌++◌, ◌≡◌, ◌≢◌, inl, inr, refl, sym,
  ◌∙◌, arith, ltb, ◌==◌, if◌then◌else◌, Bool-cases, length, get_or, drop, map, length-append,
  length-set, length-replicate, length-drop, drop_all, drop-get_or, nil_of_length, append-nil,
  append_assoc, get_or-set_self, get_or-set_ne, get_or-append_left, get_or-append_last,
  get_or-drop_one, drop-append, drop_one-drop,
}
use proton5g.Ring.{Ring, new_ring, add, read_from, snapshot}

-- Reduction of an index that runs over the end at most once.
wrap_low : (a n : ℕ) → a < n → a % n ≡ a
wrap_low a n h = grind arith

wrap_high : (a n : ℕ) → n ≤ a → a < n + n → a % n ≡ a - n
wrap_high a n h k = grind arith

-- What a log of at most `n` samples holds after one more.
abbrev pub bounded_push {ℓ} : {A : Type ℓ} → ℕ → List A → A → List A
bounded_push n xs x = if ltb (length xs) n then xs ++ x ∷ [] else drop 1 xs ++ x ∷ []

module _ {ℓ} {A : Type ℓ} (blank : A) where
  abbrev start : Ring A → ℕ
  start r = if r.size == r.cap then r.head else 0

  -- The ring `r` holds the samples `xs`, oldest first.
  pub record Holds (r : Ring A) (xs : List A) : Type ℓ where
    pub cap_pos : 0 < r.cap
    pub full_buf : length r.buf ≡ r.cap
    pub head_lt : r.head < r.cap
    pub size_le : r.size ≤ r.cap
    pub head_filling : r.size < r.cap → r.head ≡ r.size
    pub counts : length xs ≡ r.size
    pub at : (i : ℕ) → i < r.size → get_or r.buf ((start r + i) % r.cap) blank ≡ get_or xs i blank

  pub new_ring-Holds : (capacity : ℕ) → Holds (new_ring blank capacity) []
  unfolding new_ring
  new_ring-Holds capacity = record {
    cap_pos = ground arith;
    full_buf = length-replicate _ _;
    head_lt = ground arith;
    size_le = omega arith;
    head_filling = λ _. refl;
    counts = refl;
    at = λ i h. elim h [ ];
  }

  module _ (is_zero : A → Bool) (stamp : A → A) where
    -- the sample that `add` stores
    abbrev pub stored : A → A
    stored s = if is_zero s then stamp s else s

    -- Where `Snapshot` reads its `i`-th sample, before and after an `add`.
    place_filling :
        (r : Ring A) (xs : List A)
        → Holds r xs
        → r.size < r.cap
        → (i : ℕ) → i < r.size
        → (start r + i) % r.cap ≡ i
    place_filling r xs h lt i hi = ground (arith, wrap_low i r.cap, wrap_low (0 + i) r.cap)

    place_after_filling :
        (s : A) (r : Ring A) (xs : List A)
        → Holds r xs
        → r.size < r.cap
        → (i : ℕ) → i < r.size + 1
        → (start (add is_zero stamp s r) + i) % r.cap ≡ i
    unfolding add
    place_after_filling s r xs h lt i hi = ground (
      arith,
      wrap_low i r.cap,
      wrap_low (0 + i) r.cap,
      wrap_high (r.head + 1) r.cap,
      wrap_low (r.head + 1) r.cap,
      wrap_low ((r.head + 1) % r.cap + i) r.cap,
    )

    place_after_full :
        (s : A) (r : Ring A) (xs : List A)
        → Holds r xs
        → r.size ≡ r.cap
        → (i : ℕ) → i < r.size
        → (start (add is_zero stamp s r) + i) % r.cap ≡ (r.head + (i + 1)) % r.cap
    unfolding add
    place_after_full s r xs h full i hi = ground (
      arith,
      wrap_high (r.head + 1) r.cap,
      wrap_low (r.head + 1) r.cap,
      wrap_low ((r.head + 1) % r.cap + i) r.cap,
      wrap_high ((r.head + 1) % r.cap + i) r.cap,
      wrap_low (r.head + (i + 1)) r.cap,
      wrap_high (r.head + (i + 1)) r.cap,
    )

    place_full_ne_head :
        (r : Ring A) (xs : List A)
        → Holds r xs
        → r.size ≡ r.cap
        → (i : ℕ) → i + 1 < r.size
        → r.head ≢ (r.head + (i + 1)) % r.cap
    place_full_ne_head r xs h full i hi =
        ground (arith, wrap_low (r.head + (i + 1)) r.cap, wrap_high (r.head + (i + 1)) r.cap)

    place_full_last :
        (r : Ring A) (xs : List A)
        → Holds r xs
        → r.size ≡ r.cap
        → (i : ℕ) → i + 1 ≡ r.size
        → (r.head + (i + 1)) % r.cap ≡ r.head
    place_full_last r xs h full i hi =
        ground (arith, wrap_low (r.head + (i + 1)) r.cap, wrap_high (r.head + (i + 1)) r.cap)

    add_filling :
        (s : A) (r : Ring A) (xs : List A)
        → Holds r xs
        → r.size < r.cap
        → (i : ℕ) → i < r.size + 1
        → get_or (add is_zero stamp s r).buf ((start (add is_zero stamp s r) + i) % r.cap) blank
          ≡ get_or (xs ++ stored s ∷ []) i blank
    unfolding add
    add_filling s r xs h lt i hi =
        rw (place_after_filling s r xs h lt i hi) (elim (Bool-cases (ltb i r.size)) [
          | inl old ↦
              let below : i < r.size = ground arith in
              get_or-set_ne r.buf r.head i (stored s) blank (ground arith)
              ∙ (rw (place_filling r xs h lt i below) at (h.at i below))
              ∙ sym (get_or-append_left xs (stored s ∷ []) i blank (ground arith))
          | inr new ↦
              let e : r.head ≡ i = ground arith in
              rw (← e) (get_or-set_self r.buf r.head (stored s) blank (omega arith))
              ∙ sym (get_or-append_last xs (stored s) i blank (ground arith))
        ])

    add_full :
        (s : A) (r : Ring A) (xs : List A)
        → Holds r xs
        → r.size ≡ r.cap
        → (i : ℕ) → i < r.size
        → get_or (add is_zero stamp s r).buf ((start (add is_zero stamp s r) + i) % r.cap) blank
          ≡ get_or (drop 1 xs ++ stored s ∷ []) i blank
    unfolding add
    add_full s r xs h full i hi =
        rw (place_after_full s r xs h full i hi) (elim (Bool-cases (ltb (i + 1) r.size)) [
          | inl old ↦
              let below : i + 1 < r.size = ground arith in
              let begins : start r ≡ r.head = ground arith in
              get_or-set_ne r.buf r.head _ (stored s) blank (place_full_ne_head r xs h full i below)
              ∙ (rw begins at (h.at (i + 1) below))
              ∙ rw add-one (sym (get_or-drop_one xs i blank))
              ∙ sym (
                  get_or-append_left (drop 1 xs) (stored s ∷ []) i blank
                    (omega (arith, length-drop 1 xs)))
          | inr new ↦
              let last : i + 1 ≡ r.size = ground arith in
              rw (place_full_last r xs h full i last)
                (get_or-set_self r.buf r.head (stored s) blank (omega arith))
              ∙ sym (
                  get_or-append_last (drop 1 xs) (stored s) i blank
                    (omega (arith, length-drop 1 xs)))
        ])

    add-Holds_filling :
        (s : A) (r : Ring A) (xs : List A)
        → Holds r xs
        → r.size < r.cap
        → Holds (add is_zero stamp s r) (xs ++ stored s ∷ [])
    unfolding add
    add-Holds_filling s r xs h lt =
        let grown : (if ltb r.size r.cap then r.size + 1 else r.size) ≡ r.size + 1 = ground arith in
        record {
          cap_pos = h.cap_pos;
          full_buf = length-set _ _ _ ∙ h.full_buf;
          head_lt = grind arith;
          size_le = ground arith;
          head_filling = λ k. ground (arith, wrap_low (r.head + 1) r.cap);
          counts = grown_eq grown;
          at = λ i hi. add_filling s r xs h lt i (rw grown at hi);
        }
      where
        grown_eq :
            (if ltb r.size r.cap then r.size + 1 else r.size) ≡ r.size + 1
            → length (xs ++ stored s ∷ []) ≡ (if ltb r.size r.cap then r.size + 1 else r.size)
        grown_eq e = rw e (omega (arith, length-append xs (stored s ∷ [])))

    add-Holds_full :
        (s : A) (r : Ring A) (xs : List A)
        → Holds r xs
        → r.size ≡ r.cap
        → Holds (add is_zero stamp s r) (drop 1 xs ++ stored s ∷ [])
    unfolding add
    add-Holds_full s r xs h full =
        let same_size : (if ltb r.size r.cap then r.size + 1 else r.size) ≡ r.size = ground arith in
        record {
          cap_pos = h.cap_pos;
          full_buf = length-set _ _ _ ∙ h.full_buf;
          head_lt = grind arith;
          size_le = ground arith;
          head_filling = λ k. absurd (ground arith);
          counts = same_eq same_size;
          at = λ i hi. add_full s r xs h full i (rw same_size at hi);
        }
      where
        same_eq :
            (if ltb r.size r.cap then r.size + 1 else r.size) ≡ r.size
            → length (drop 1 xs ++ stored s ∷ [])
              ≡ (if ltb r.size r.cap then r.size + 1 else r.size)
        same_eq e =
            rw e (omega (arith, length-append (drop 1 xs) (stored s ∷ []), length-drop 1 xs))

    -- `Add` keeps the ring well formed, and pushes onto the bounded log.
    pub add-Holds :
        (s : A) (r : Ring A) (xs : List A)
        → Holds r xs
        → Holds (add is_zero stamp s r) (bounded_push r.cap xs (stored s))
    add-Holds s r xs h = elim (Bool-cases (ltb (length xs) r.cap)) [
      | inl lt ↦ rw lt (add-Holds_filling s r xs h (ground arith))
      | inr full ↦ rw full (add-Holds_full s r xs h (ground arith))
    ]

    pub add_all : List A → Ring A → Ring A
    add_all [] r = r
    add_all (s ∷ ss) r = add_all ss (add is_zero stamp s r)

    cap-add : (s : A) (r : Ring A) → (add is_zero stamp s r).cap ≡ r.cap
    unfolding add
    cap-add s r = refl

  read_from_lem :
      (r : Ring A) (xs : List A) (n i : ℕ)
      → Holds r xs
      → i + n ≡ r.size
      → read_from blank r.buf r.cap (start r) n i ≡ drop i xs
  unfolding read_from
  read_from_lem r xs zero i h e = sym (drop_all i xs (omega (arith, h.counts)))
  read_from_lem r xs (suc n) i h e =
      rw (h.at i (omega arith), read_from_lem r xs n (i + 1) h (omega arith), add-one)
        (sym (drop-get_or i xs blank (omega (arith, h.counts))))

  -- A snapshot of a ring that holds `xs` is `xs`.
  pub snapshot-Holds : (r : Ring A) (xs : List A) → Holds r xs → snapshot blank r ≡ xs
  unfolding snapshot
  snapshot-Holds r xs h = elim (Bool-cases (r.size == 0)) [
    | inl none_yet ↦ rw none_yet (sym (nil_of_length xs (ground arith)))
    | inr some_held ↦ rw some_held (read_from_lem r xs r.size 0 h (omega arith))
  ]

-- The last `n` of a list.
abbrev pub newest {ℓ} : {A : Type ℓ} → ℕ → List A → List A
newest n xs = drop (length xs - n) xs

bounded_push-newest {ℓ} :
    {A : Type ℓ} (n : ℕ) (xs : List A) (x : A)
    → 0 < n
    → bounded_push n (newest n xs) x ≡ newest n (xs ++ x ∷ [])
bounded_push-newest n xs x pos = elim (Bool-cases (ltb (length (newest n xs)) n)) [
  | inl room ↦
      let e : length xs - n ≡ 0 = ground (arith, length-drop (length xs - n) xs) in
      let e' : length (xs ++ x ∷ []) - n ≡ 0 =
        ground (arith, length-drop (length xs - n) xs, length-append xs (x ∷ [])) in
      rw room (rw (e, e'))
  | inr full ↦
      let e : length (xs ++ x ∷ []) - n ≡ suc (length xs - n) =
        ground (arith, length-drop (length xs - n) xs, length-append xs (x ∷ [])) in
      let fits : suc (length xs - n) ≤ length xs = ground (arith, length-drop (length xs - n) xs) in
      rw full (rw (e, drop_one-drop (length xs - n) xs) (sym (drop-append _ xs (x ∷ []) fits)))
]

module _ {ℓ} {A : Type ℓ} (blank : A) (is_zero : A → Bool) (stamp : A → A) where
  add_all-Holds :
      (n : ℕ) (ss past : List A) (r : Ring A)
      → 0 < n
      → r.cap ≡ n
      → Holds blank r (newest n past)
      → Holds blank
          (add_all blank is_zero stamp ss r)
          (newest n (past ++ map (stored blank is_zero stamp) ss))
  unfolding add_all
  add_all-Holds n [] past r pos e h = rw append-nil h
  add_all-Holds n (s ∷ ss) past r pos e h =
      let x = stored blank is_zero stamp s in
      let pushed : Holds blank (add is_zero stamp s r) (newest n (past ++ x ∷ [])) =
        subst (Holds blank (add is_zero stamp s r)) (bounded_push-newest n past x pos) (
          subst (λ k. Holds blank (add is_zero stamp s r) (bounded_push k (newest n past) x)) e
            (add-Holds blank is_zero stamp s r (newest n past) h)) in
      rw (sym (append_assoc past (x ∷ []) (map (stored blank is_zero stamp) ss))) (
        add_all-Holds n ss (past ++ x ∷ []) (add is_zero stamp s r) pos
          (cap-add blank is_zero stamp s r ∙ e) pushed)

  -- After any samples added to a new ring, `Snapshot` is the newest of them, as many as the ring has
  -- room for (at least one), oldest first, each with its time stamped if it had none.
  pub snapshot-add_all :
      (capacity : ℕ) (ss : List A)
      → snapshot blank (add_all blank is_zero stamp ss (new_ring blank capacity))
        ≡ newest (if ltb capacity 1 then 1 else capacity) (map (stored blank is_zero stamp) ss)
  snapshot-add_all capacity ss = snapshot-Holds blank _ _ (
      add_all-Holds (if ltb capacity 1 then 1 else capacity) ss [] (new_ring blank capacity)
        (ground arith) (unfold new_ring in refl)
        (subst (Holds blank (new_ring blank capacity)) (sym (drop_all _ [] (omega arith)))
          (new_ring-Holds blank capacity)))
