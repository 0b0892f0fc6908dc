-- ===== src/Sse/Panic.antt =====
-- internal/handler/sse_hub.go: a subscriber that leaves while a payload is on its way to it.
use mathlib.Core.Path.{subst}
use proton5g.Base.{
  ℕ, zero, suc, Bool, true, false, List, [], ◌∷◌, Option, some, ◌≡◌, ◌≢◌, if_cases, sym, ◌∙◌, refl,
  inl, inr, arith, Bool-cases, Option-cases, ◌==◌, length, set, any, Text, replicate,
}
use proton5g.Sse.{
  Action, Channel, SseHub, channel_at, unsubscribe, deliver, send_next, unchanged, sample, act, run,
  unsubscribed, sampled, sent,
}
use proton5g.Sse.Open.{deliver-fields}

true_ne_false : true ≢ false
true_ne_false h = ground arith

abbrev is_closed : List Channel → ℕ → Bool
is_closed channels id = (channel_at channels id).closed

is_closed-set :
    (channels : List Channel) (at id : ℕ) (c : Channel)
    → is_closed channels at ≡ false
    → is_closed channels id ≡ true
    → is_closed (set channels at c) id ≡ true
is_closed-set [] at id c k h = h
is_closed-set (d ∷ channels) zero zero c k h = ground arith
is_closed-set (d ∷ channels) zero (suc id) c k h = h
is_closed-set (d ∷ channels) (suc at) zero c k h = h
is_closed-set (d ∷ channels) (suc at) (suc id) c k h = is_closed-set channels at id c k h

is_closed-set_self :
    (channels : List Channel) (id : ℕ) (c : Channel)
    → c.closed ≡ true
    → is_closed (set channels id c) id ≡ true
is_closed-set_self [] id c h = refl
is_closed-set_self (d ∷ channels) zero c h = h
is_closed-set_self (d ∷ channels) (suc id) c h = is_closed-set_self channels id c h

module _ {Status : Type 0} where
  deliver-closed :
      (at id : ℕ) (h : SseHub Status)
      → is_closed h.channels id ≡ true
      → is_closed (deliver at h).channels id ≡ true
  unfolding deliver
  deliver-closed at id h ok = elim (Bool-cases (channel_at h.channels at).closed) [
    | inl shut ↦ rw (shut, deliver) ok
    | inr opened ↦ elim (Option-cases (channel_at h.channels at).buffer) [
      | inl room ↦ rw (opened, room, deliver) (is_closed-set h.channels at id _ opened ok)
      | inr (_, full) ↦ rw (opened, full, deliver) ok
    ]
  ]

  send_next-deliver :
      (c : ℕ) (ids : List ℕ) (h : SseHub Status)
      → h.pending ≡ c ∷ ids
      → send_next h ≡ deliver c (record h { pending = ids })
  unfolding send_next
  send_next-deliver c ids h waiting = rw (waiting, send_next) refl

  deliver-panics :
      (at : ℕ) (h : SseHub Status) → is_closed h.channels at ≡ true → (deliver at h).panicked ≡ true
  unfolding deliver
  deliver-panics at h shut = rw (shut, deliver) refl

module _ {Status : Type 0} (same_status : Status → Status → Bool)
    (marshal : Status → Option Text) where
  run-panicked :
      (actions : List (Action Status)) (h : SseHub Status)
      → h.panicked ≡ true
      → (run same_status marshal actions h).panicked ≡ true
  unfolding run
  run-panicked [] h over = over
  run-panicked (a ∷ actions) h over =
      if_cases (λ k. k.panicked ≡ true) h.panicked h
        (run same_status marshal actions (act same_status marshal a h)) (λ _. over)
        (λ alive. absurd (true_ne_false (sym over ∙ alive)))

  -- the sends that are left panic where one of them meets a closed channel
  flush-panics :
      (ids : List ℕ) (id : ℕ) (h : SseHub Status)
      → h.pending ≡ ids
      → any (λ c. id == c) ids ≡ true
      → is_closed h.channels id ≡ true
      → (run same_status marshal (replicate (length ids) sent) h).panicked ≡ true
  unfolding run act send_next
  flush-panics [] id h waiting member shut = absurd (ground arith)
  flush-panics (c ∷ ids) id h waiting member shut =
      let h' = deliver c (record h { pending = ids }) in
      let step = send_next-deliver c ids h waiting in
      let rest = run same_status marshal (replicate (length ids) sent) in
      if_cases (λ k. k.panicked ≡ true) h.panicked h (rest (send_next h)) (λ over. over)
        (λ alive. rw step (elim (Bool-cases (id == c)) [
          | inl hit ↦
              let same_id : id ≡ c = ground arith in
              run-panicked (replicate (length ids) sent) h' (
                deliver-panics c (record h { pending = ids })
                  (subst (λ i. is_closed h.channels i ≡ true) same_id shut))
          | inr miss ↦
              flush-panics ids id h' (deliver-fields c (record h { pending = ids })).1
                (ground arith) (deliver-closed c id (record h { pending = ids }) shut)
        ]))

  act_sampled :
      (st : Status) (h : SseHub Status)
      → h.pending ≡ []
      → act same_status marshal (sampled st) h ≡ sample same_status marshal st h
  unfolding act
  act_sampled st h idle =
      let sampled_hub = sample same_status marshal st h in
      subst (λ waiting. (elim waiting [ [] ↦ sampled_hub | _ ∷ _ ↦ h ]) ≡ sampled_hub) (sym idle)
        refl

  sample_new :
      (st : Status) (payload : Text) (h : SseHub Status)
      → unchanged same_status marshal st h ≡ false
      → marshal st ≡ some payload
      → sample same_status marshal st h
        ≡ record h { last_status = some st; last = payload; pending = h.clients; payload = payload }
  unfolding sample
  sample_new st payload h new done = rw (new, done, sample) refl

  unsubscribe_member :
      (id : ℕ) (h : SseHub Status)
      → any (λ c. id == c) h.clients ≡ true
      → ((unsubscribe id h).pending ≡ h.pending) × (is_closed (unsubscribe id h).channels id ≡ true)
  unfolding unsubscribe
  unsubscribe_member id h member =
      rw (member, unsubscribe) (refl, is_closed-set_self h.channels id _ refl)

  -- Take any hub of which the goroutine of `Run` is idle, a status that differs from the last one and can
  -- be marshaled, and a subscriber. If that subscriber leaves after `broadcast` has copied the list of
  -- clients and before it sends to them, the process panics by its last send: the channel that
  -- `unsubscribe` closes is still in the list that was copied.
  pub run-panics :
      (st : Status) (payload : Text) (id : ℕ) (h : SseHub Status)
      → h.pending ≡ []
      → unchanged same_status marshal st h ≡ false
      → marshal st ≡ some payload
      → any (λ c. id == c) h.clients ≡ true
      → (run same_status marshal
          (sampled st ∷ unsubscribed id ∷ replicate (length h.clients) sent)
          h).panicked
        ≡ true
  unfolding run act
  run-panics st payload id h idle new done member =
      let h' : SseHub Status = record h {
        last_status = some st;
        last = payload;
        pending = h.clients;
        payload = payload;
      } in
      let step : act same_status marshal (sampled st) h ≡ h' =
        act_sampled st h idle ∙ sample_new st payload h new done in
      let (pending, shut) = unsubscribe_member id h' member in
      let rest = run same_status marshal (replicate (length h.clients) sent) in
      if_cases (λ k. k.panicked ≡ true) h.panicked h _ (λ over. over)
        (λ _. rw step (
          if_cases (λ k. k.panicked ≡ true) h'.panicked h' (rest (unsubscribe id h')) (λ over. over)
            (λ _. flush-panics h.clients id (unsubscribe id h') pending member shut)))
