-- ===== src/Sms/Urc/Queue.antt =====
-- internal/repository/at_urc.go: a description of the queue and of the stripped response.
use proton5g.Base.{
  split_on, without, ℕ, suc, ◌+◌, ◌-◌, ◌≤◌, ◌<◌, true, false, List, [], ◌∷◌, ◌++◌, ◌≡◌, ◌∙◌, refl,
  sym, ap, inl, inr, arith, Bool-cases, if_cases, leb, length, drop, length-append, length-drop,
  drop-append, drop_one-drop, append-nil, Text, trim_space, join_lines,
}
use proton5g.Sms.Urc.{is_urc_line, push_item, strip_lines, store_and_strip}

-- the last `n` of a list
unfoldable pub newest : ℕ → List Text → List Text
newest n items = drop (length items - n) items

-- the lines of a response that are unasked, as they are stored
unfoldable pub urcs_of : List Text → List Text
urcs_of [] = []
urcs_of (line ∷ lines) = elim (is_urc_line line) [
  | true ↦ trim_space line ∷ urcs_of lines
  | false ↦ urcs_of lines
]

-- the lines of a response that are not
unfoldable pub others_of : List Text → List Text
others_of [] = []
others_of (line ∷ lines) = elim (is_urc_line line) [
  | true ↦ others_of lines
  | false ↦ line ∷ others_of lines
]

lt_of_leb : (a b : ℕ) → leb a b ≡ false → b < a
lt_of_leb a b h = ground arith

newest_all : (n : ℕ) (items : List Text) → length items ≤ n → newest n items ≡ items
unfolding newest
newest_all n items fits = let none_over : length items - n ≡ 0 = omega arith in rw none_over refl

push_item-newest :
    (line : Text) (items : List Text) → push_item line items ≡ newest 128 (items ++ line ∷ [])
unfolding push_item newest
push_item-newest line items =
    let grown : length (items ++ line ∷ []) ≡ length items + 1 = length-append items (line ∷ []) in
    if_cases (λ k. k ≡ drop (length (items ++ line ∷ []) - 128) (items ++ line ∷ []))
      (leb 128 (length items)) _ _
      (λ full.
        let over : length (items ++ line ∷ []) - 128 ≡ length items - 127 = ground arith in
        rw over (sym (drop-append (length items - 127) items (line ∷ []) (omega arith))))
      (λ room.
        let none_over : length (items ++ line ∷ []) - 128 ≡ 0 = ground arith in rw none_over refl)

-- a line that is dropped early is dropped anyway
newest-append :
    (n : ℕ) (items : List Text) (line : Text)
    → newest (suc n) (newest (suc n) items ++ line ∷ []) ≡ newest (suc n) (items ++ line ∷ [])
unfolding newest
newest-append n items line =
    let k = length items - suc n in
    let grown : length (items ++ line ∷ []) ≡ length items + 1 = length-append items (line ∷ []) in
    elim (Bool-cases (leb (length items) (suc n))) [
      | inl fits ↦
          ap (λ kept. newest (suc n) (kept ++ line ∷ [])) (newest_all (suc n) items (ground arith))
      | inr over ↦
          let kept : length (drop k items) ≡ suc n =
            omega (arith, length-drop k items, lt_of_leb (length items) (suc n) over) in
          let front : length (drop k items ++ line ∷ []) - suc n ≡ 1 =
            omega (arith, length-append (drop k items) (line ∷ []), kept) in
          let back : length (items ++ line ∷ []) - suc n ≡ suc k =
            omega (arith, grown, lt_of_leb (length items) (suc n) over) in
          rw (front, back)
            (drop-append 1 (drop k items) (line ∷ []) (omega (arith, kept))
              ∙ ap (λ rest. rest ++ line ∷ []) (drop_one-drop k items)
              ∙ sym (
                  drop-append (suc k) items (line ∷ [])
                    (omega (arith, lt_of_leb (length items) (suc n) over))))
    ]

newest-length : (n : ℕ) (items : List Text) → length (newest n items) ≤ n
unfolding newest
newest-length n items = omega (arith, length-drop (length items - n) items)

one_more :
    (items lines : List Text) (line : Text) → (items ++ line ∷ []) ++ lines ≡ items ++ line ∷ lines
one_more [] lines line = refl
one_more (i ∷ items) lines line = ap (λ k. i ∷ k) (one_more items lines line)

newest-append_all :
    (n : ℕ) (items lines : List Text)
    → newest (suc n) (newest (suc n) items ++ lines) ≡ newest (suc n) (items ++ lines)
newest-append_all n items [] =
    rw (append-nil (newest (suc n) items), append-nil items)
      (newest_all (suc n) (newest (suc n) items) (newest-length (suc n) items))
newest-append_all n items (line ∷ lines) =
    ap (newest (suc n)) (sym (one_more (newest (suc n) items) lines line))
    ∙ sym (newest-append_all n (newest (suc n) items ++ line ∷ []) lines)
    ∙ ap (λ kept. newest (suc n) (kept ++ lines)) (newest-append n items line)
    ∙ newest-append_all n (items ++ line ∷ []) lines
    ∙ ap (newest (suc n)) (one_more items lines line)

-- the loop, from a queue in its bound
strip_lines-refines :
    (lines items : List Text)
    → length items ≤ 128
    → strip_lines lines items ≡ (others_of lines, newest 128 (items ++ urcs_of lines))
unfolding strip_lines others_of urcs_of
strip_lines-refines [] items fits = rw (append-nil items, newest_all 128 items fits) refl
strip_lines-refines (line ∷ lines) items fits = elim (Bool-cases (is_urc_line line)) [
  | inl urc ↦
      let pushed = push_item-newest (trim_space line) items in
      let step =
        strip_lines-refines lines (push_item (trim_space line) items)
          (rw pushed (newest-length 128 (items ++ trim_space line ∷ []))) in
      rw (urc, strip_lines, others_of, urcs_of)
        (step
          ∙ ap (λ kept. (others_of lines, newest 128 (kept ++ urcs_of lines))) pushed
          ∙ ap (λ queue. (others_of lines, queue))
              (newest-append_all 127 (items ++ trim_space line ∷ []) (urcs_of lines)
                ∙ ap (newest 128) (one_more items (urcs_of lines) (trim_space line))))
  | inr other ↦
      rw (other, strip_lines, others_of, urcs_of)
        (ap (λ p. (line ∷ p.0, p.1)) (strip_lines-refines lines items fits))
]

-- A response is read against a queue of at most 128 lines. The text that stays for the command is, joined
-- by newlines and trimmed, the lines that are no unasked ones, in their order. The queue is the newest 128
-- of its lines followed by the unasked lines of the response, trimmed and in their order, and is again in
-- its bound.
pub store_and_strip-refines :
    (raw : Text) (items : List Text)
    → length items ≤ 128
    → let lines = split_on b'\n' (without 13 raw) in
      (store_and_strip raw items
        ≡ (trim_space (join_lines (others_of lines)), newest 128 (items ++ urcs_of lines)))
      × (length (store_and_strip raw items).1 ≤ 128)
unfolding store_and_strip
store_and_strip-refines raw items fits =
    let lines = split_on b'\n' (without 13 raw) in
    let loop = strip_lines-refines lines items fits in
    (
      ap (λ p. (trim_space (join_lines p.0), p.1)) loop,
      rw loop (newest-length 128 (items ++ urcs_of lines)),
    )
