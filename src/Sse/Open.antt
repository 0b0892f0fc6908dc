-- ===== src/Sse/Open.antt =====
-- internal/handler/sse_hub.go: which channels are open.
use proton5g.Base.{
  ℕ, zero, suc, Bool, true, false, not, List, [], ◌∷◌, ◌++◌, ◌≡◌, ◌≢◌, refl, ap, inl, inr, arith,
  Bool-cases, Option-cases, ◌==◌, length, set, all,
}
use proton5g.Sse.{Channel, SseHub, channel_at, remove, subscribe, receive, deliver}

abbrev pub is_open : List Channel → ℕ → Bool
is_open channels id = not (channel_at channels id).closed

all_imply :
    (p q : ℕ → Bool) (ids : List ℕ)
    → ((id : ℕ) → p id ≡ true → q id ≡ true)
    → all p ids ≡ true
    → all q ids ≡ true
all_imply p q [] step h = refl
all_imply p q (id ∷ ids) step h = let rest = all_imply p q ids step in ground (arith, rest, step id)

pub all-append_one :
    (p : ℕ → Bool) (ids : List ℕ) (id : ℕ)
    → all p ids ≡ true
    → p id ≡ true
    → all p (ids ++ id ∷ []) ≡ true
all-append_one p [] id h k = ground arith
all-append_one p (i ∷ ids) id h k = let rest = all-append_one p ids id in ground (arith, rest)

is_open-append :
    (channels : List Channel) (c : Channel) (id : ℕ)
    → is_open channels id ≡ true
    → is_open (channels ++ c ∷ []) id ≡ true
is_open-append [] c id h = ground arith
is_open-append (d ∷ channels) c zero h = h
is_open-append (d ∷ channels) c (suc id) h = is_open-append channels c id h

pub is_open-new :
    (channels : List Channel) (c : Channel)
    → is_open (channels ++ c ∷ []) (length channels) ≡ not c.closed
is_open-new [] c = refl
is_open-new (d ∷ channels) c = is_open-new channels c

is_open-set :
    (channels : List Channel) (at id : ℕ) (c : Channel)
    → c.closed ≡ false
    → is_open channels id ≡ true
    → is_open (set channels at c) id ≡ true
is_open-set [] at id c k h = h
is_open-set (d ∷ channels) zero zero c k h = ground arith
is_open-set (d ∷ channels) zero (suc id) c k h = h
is_open-set (d ∷ channels) (suc at) zero c k h = h
is_open-set (d ∷ channels) (suc at) (suc id) c k h = is_open-set channels at id c k h

is_open-set_same :
    (channels : List Channel) (at id : ℕ) (c : Channel)
    → c.closed ≡ (channel_at channels at).closed
    → is_open channels id ≡ true
    → is_open (set channels at c) id ≡ true
is_open-set_same [] at id c k h = h
is_open-set_same (d ∷ channels) zero zero c k h = ground arith
is_open-set_same (d ∷ channels) zero (suc id) c k h = h
is_open-set_same (d ∷ channels) (suc at) zero c k h = h
is_open-set_same (d ∷ channels) (suc at) (suc id) c k h = is_open-set_same channels at id c k h

is_open-set_other :
    (channels : List Channel) (at id : ℕ) (c : Channel)
    → at ≢ id
    → is_open channels id ≡ true
    → is_open (set channels at c) id ≡ true
is_open-set_other [] at id c ne h = h
is_open-set_other (d ∷ channels) zero zero c ne h = absurd (ne refl)
is_open-set_other (d ∷ channels) zero (suc id) c ne h = h
is_open-set_other (d ∷ channels) (suc at) zero c ne h = h
is_open-set_other (d ∷ channels) (suc at) (suc id) c ne h =
    is_open-set_other channels at id c (λ e. ne (ap suc e)) h

pub all-remove :
    (channels : List Channel) (at : ℕ) (c : Channel) (ids : List ℕ)
    → all (is_open channels) ids ≡ true
    → all (is_open (set channels at c)) (remove at ids) ≡ true
unfolding remove
all-remove channels at c [] h = refl
all-remove channels at c (id ∷ ids) h =
    let rest = all-remove channels at c ids in
    elim (Bool-cases (id == at)) [
      | inl hit ↦ rw (hit, remove) (rest (ground arith))
      | inr miss ↦
          let stays = is_open-set_other channels at id c (ground arith) (ground arith) in
          rw (miss, remove) (ground (arith, rest, stays))
    ]

module _ {Status : Type 0} where
  -- the registered channels are open
  abbrev pub ClientsOpen : SseHub Status → Type 0
  ClientsOpen h = all (is_open h.channels) h.clients ≡ true

  -- and so are those that `broadcast` has yet to send to
  abbrev pub PendingOpen : SseHub Status → Type 0
  PendingOpen h = all (is_open h.channels) h.pending ≡ true

  pub subscribe-open :
      (h : SseHub Status) (ids : List ℕ)
      → all (is_open h.channels) ids ≡ true
      → all (is_open (subscribe h).channels) ids ≡ true
  unfolding subscribe
  subscribe-open h ids ok = all_imply _ _ ids (λ id. is_open-append h.channels _ id) ok

  pub receive-open :
      (at : ℕ) (h : SseHub Status) (ids : List ℕ)
      → all (is_open h.channels) ids ≡ true
      → all (is_open (receive at h).channels) ids ≡ true
  unfolding receive
  receive-open at h ids ok = all_imply _ _ ids (λ id. is_open-set_same h.channels at id _ refl) ok

  pub deliver-open :
      (at : ℕ) (h : SseHub Status) (ids : List ℕ)
      → all (is_open h.channels) ids ≡ true
      → all (is_open (deliver at h).channels) ids ≡ true
  unfolding deliver
  deliver-open at h ids ok = elim (Bool-cases (channel_at h.channels at).closed) [
    | inl shut ↦ rw (shut, deliver) ok
    | inr opened ↦ elim (Option-cases (channel_at h.channels at).buffer) [
      | inl room ↦
          rw (opened, room, deliver)
            (all_imply _ _ ids (λ id. is_open-set h.channels at id _ refl) ok)
      | inr (_, full) ↦ rw (opened, full, deliver) ok
    ]
  ]

  pub deliver-fields :
      (at : ℕ) (h : SseHub Status)
      → ((deliver at h).clients ≡ h.clients) × ((deliver at h).pending ≡ h.pending)
  unfolding deliver
  deliver-fields at h = elim (Bool-cases (channel_at h.channels at).closed) [
    | inl shut ↦ rw (shut, deliver) (refl, refl)
    | inr opened ↦ elim (Option-cases (channel_at h.channels at).buffer) [
      | inl room ↦ rw (opened, room, deliver) (refl, refl)
      | inr (_, full) ↦ rw (opened, full, deliver) (refl, refl)
    ]
  ]

  pub deliver-panicked :
      (at : ℕ) (h : SseHub Status)
      → is_open h.channels at ≡ true
      → (deliver at h).panicked ≡ h.panicked
  unfolding deliver
  deliver-panicked at h ok =
      let opened : (channel_at h.channels at).closed ≡ false = ground arith in
      elim (Option-cases (channel_at h.channels at).buffer) [
        | inl room ↦ rw (opened, room, deliver) refl
        | inr (_, full) ↦ rw (opened, full, deliver) refl
      ]
