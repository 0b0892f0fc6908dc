-- ===== src/Service/Poll/Recovery.antt =====
-- internal/usecase/modem.go: how often polls reset the modem.
use proton5g.Base.{
  ℕ, zero, suc, ◌+◌, ◌*◌, ◌≤◌, not, [], ◌∷◌, ◌≡◌, inl, inr, refl, ◌∙◌, arith, Bool-cases,
  Option-cases, if_cases, ltb, Text, is_empty,
}
use proton5g.Domain.{AtPoll, ModemStatus, SignalInfo}
use proton5g.Ports
use proton5g.Ports.{AtPort, Call, Env, Fault, History, NetPort}
use proton5g.Service.{Service, record_call, set_port_name}
use proton5g.Service.Poll.{
  PollEnv, elapsed, count_traffic, refresh_wan, sample_history, apply_at_success,
  log_permission_once, rediscover_at_port, reset_usb, maybe_hard_reset, show_error, give_up_poll,
  retry_poll, count_failure, handle_at_failure, lost_service, show_lost, poll_at, poll_status,
}

-- the resets among the calls
unfoldable pub resets : History → ℕ
resets [] = 0
resets (Ports.usb_reset _ ∷ calls) = suc (resets calls)
resets (_ ∷ calls) = resets calls

-- `s'` has the failures in a row and the resets of `s`
abbrev Quiet : Service → Service → Type 0
Quiet s s' = (resets s'.calls ≡ resets s.calls) × (s'.at_fail_streak ≡ s.at_fail_streak)

-- `s'` has the resets of `s`, and no failures in a row
abbrev Cleared : Service → Service → Type 0
Cleared s s' = (resets s'.calls ≡ resets s.calls) × (s'.at_fail_streak ≡ 0)

module _ (pe : PollEnv) where
  refresh_wan-Quiet : (now : ℕ) (s : Service) → Quiet s (refresh_wan pe now s)
  unfolding refresh_wan count_traffic
  refresh_wan-Quiet now s = elim (Option-cases pe.env.net) [
    | inl missing ↦ rw (missing, refresh_wan) (refl, refl)
    | inr (net, present) ↦ elim (Bool-cases (is_empty s.selected_net)) [
      | inl empty ↦ rw (present, empty, refresh_wan) (refl, refl)
      | inr named ↦ rw (present, named, refresh_wan) (refl, refl)
    ]
  ]

  sample_history-Quiet :
      (env : Env) (sig : SignalInfo) (s : Service) → Quiet s (sample_history env sig s)
  unfolding sample_history resets
  sample_history-Quiet env sig s =
      if_cases (Quiet s) _ (record_call Ports.add_sample s) s (λ _. (refl, refl))
        (λ _. (refl, refl))

  apply_at_success-Cleared :
      (poll : AtPoll) (now : ℕ) (s : Service) → Cleared s (apply_at_success pe poll now s)
  unfolding apply_at_success
  apply_at_success-Cleared poll now s =
      let (r1, f1) = refresh_wan-Quiet now _ in
      let (r2, f2) = sample_history-Quiet pe.env poll.signal _ in (r1 ∙ r2, f1 ∙ f2)

  log_permission_once-Quiet : (s : Service) → Quiet s (log_permission_once pe s)
  unfolding log_permission_once
  log_permission_once-Quiet s = if_cases (Quiet s) _ _ _ (λ _. (refl, refl)) (λ _. (refl, refl))

  set_port_name-Quiet : (port : Text) (s : Service) → Quiet s (set_port_name port s)
  unfolding set_port_name
  set_port_name-Quiet port s = if_cases (Quiet s) _ _ _ (λ _. (refl, refl)) (λ _. (refl, refl))

  rediscover_at_port-Quiet : (s : Service) → Quiet s (rediscover_at_port pe s)
  unfolding rediscover_at_port resets
  rediscover_at_port-Quiet s = elim (Option-cases pe.env.discover) [
    | inl missing ↦ rw (missing, rediscover_at_port) (refl, refl)
    | inr (discover, present) ↦
        elim (Option-cases (discover (Ports.close_port s.port_name ∷ s.calls)).1) [
          | inl found ↦
              rw (present, found, rediscover_at_port)
                (set_port_name-Quiet _ (record s {
                  calls = Ports.discover_port ∷ Ports.close_port s.port_name ∷ s.calls;
                }))
          | inr (_, failed) ↦ rw (present, failed, rediscover_at_port) (refl, refl)
        ]
  ]

  -- the failures in a row count against the resets
  abbrev Fair : Service → Service → Type 0
  Fair s s' =
      s'.at_fail_streak + pe.fail_streak_max * resets s'.calls
      ≤ s.at_fail_streak + pe.fail_streak_max * resets s.calls

  Quiet-Fair : (s s' : Service) → Quiet s s' → Fair s s'
  Quiet-Fair s s' (r, f) = rw (r, f) (omega arith)

  Cleared-Fair : (s s' : Service) → Cleared s s' → Fair s s'
  Cleared-Fair s s' (r, f) = rw (r, f) (omega arith)

  reset_usb-Fair : (s : Service) → pe.fail_streak_max ≤ s.at_fail_streak → Fair s (reset_usb pe s)
  unfolding reset_usb resets
  reset_usb-Fair s enough =
      elim (Option-cases (pe.env.usb.hard_reset s.calls s.status.modem.sys_path)) [
        | inl done ↦ rw (done, reset_usb) (ground arith)
        | inr (_, failed) ↦ rw (failed, reset_usb) (ground arith)
      ]

  maybe_hard_reset-Fair : (e : Fault) (s : Service) → Fair s (maybe_hard_reset pe e s)
  unfolding maybe_hard_reset
  maybe_hard_reset-Fair e s =
      if_cases (Fair s) (pe.is_permission e) s _ (λ _. omega arith)
        (λ _.
          if_cases (Fair s) (ltb s.at_fail_streak pe.fail_streak_max) s _ (λ _. omega arith)
            (λ enough.
              if_cases (Fair s) (not (elapsed (pe.clock s.calls) s.last_reset_at pe.reset_cooldown))
                s (reset_usb pe s) (λ _. omega arith) (λ _. reset_usb-Fair s (ground arith))))

  give_up_poll-Fair : (e : Fault) (s : Service) → Fair s (give_up_poll pe e s)
  unfolding give_up_poll show_error
  give_up_poll-Fair e s =
      let s1 = show_error pe e s in
      if_cases (Fair s) (pe.is_permission e) (log_permission_once pe s1) (maybe_hard_reset pe e s1)
        (λ _. Quiet-Fair s1 (log_permission_once pe s1) (log_permission_once-Quiet s1))
        (λ _. maybe_hard_reset-Fair e s1)

  retry_poll-Fair : (p : AtPort) (s : Service) → Fair s (retry_poll pe p s)
  unfolding retry_poll resets
  retry_poll-Fair p s =
      let s0 : Service = record s { last_rediscover = pe.clock s.calls } in
      let s1 = rediscover_at_port pe s0 in
      let s2 = record_call (Ports.full_status s1.port_name) s1 in
      let before : Fair s s2 = Quiet-Fair s0 s1 (rediscover_at_port-Quiet s0) in
      elim (Option-cases (p.full_status s1.calls).1) [
        | inl done ↦
            let s3 = apply_at_success pe (p.full_status s1.calls).0 (pe.clock s2.calls) s2 in
            let after : Fair s2 s3 =
              Cleared-Fair s2 s3
                (apply_at_success-Cleared (p.full_status s1.calls).0 (pe.clock s2.calls) s2) in
            rw (done, retry_poll) (omega arith)
        | inr (e, failed) ↦
            let after = give_up_poll-Fair e s2 in rw (failed, retry_poll) (omega arith)
      ]

  -- one failure is counted at most
  abbrev Counts : Service → Service → Type 0
  Counts s s' =
      s'.at_fail_streak + pe.fail_streak_max * resets s'.calls
      ≤ suc (s.at_fail_streak + pe.fail_streak_max * resets s.calls)

  handle_at_failure-Counts :
      (p : AtPort) (stat : ModemStatus) (e : Fault) (s : Service)
      → Counts s (handle_at_failure pe p stat e s)
  unfolding handle_at_failure count_failure show_error
  handle_at_failure-Counts p stat e s =
      let s1 = count_failure pe stat e s in
      let logged = Quiet-Fair s1 (log_permission_once pe s1) (log_permission_once-Quiet s1) in
      let retried = retry_poll-Fair p s1 in
      let reset = maybe_hard_reset-Fair e s1 in
      if_cases (Counts s) (pe.is_permission e) (log_permission_once pe s1) _ (λ _. omega arith)
        (λ _.
          if_cases (Counts s) _ (retry_poll pe p s1) (maybe_hard_reset pe e s1) (λ _. omega arith)
            (λ _. omega arith))

  show_lost-Counts :
      (stat : ModemStatus) (now : ℕ) (s : Service) → Counts s (show_lost pe stat now s)
  unfolding show_lost lost_service
  show_lost-Counts stat now s =
      let lost = lost_service pe stat now s in
      let (r, f) = refresh_wan-Quiet now lost in rw (r, f) (omega arith)

  poll_at-Counts :
      (p : AtPort) (stat : ModemStatus) (now : ℕ) (s : Service) → Counts s (poll_at pe p stat now s)
  unfolding poll_at resets
  poll_at-Counts p stat now s =
      let s1 = record_call (Ports.full_status s.port_name) s in
      elim (Option-cases (p.full_status s.calls).1) [
        | inl done ↦
            let (r, f) = apply_at_success-Cleared (p.full_status s.calls).0 now (record s1 {
              status = record (s1.status) { modem = record stat { port_path = s.port_name } };
            }) in
            rw (done, poll_at, r, f) (omega arith)
        | inr (e, failed) ↦ rw (failed, poll_at) (handle_at_failure-Counts p stat e s1)
      ]

  poll_status-Counts : (s : Service) → Counts s (poll_status pe s)
  unfolding poll_status resets
  poll_status-Counts s =
      let stat = pe.env.usb.check s.calls in
      let s1 = record_call Ports.usb_check s in
      let now = pe.clock s1.calls in
      elim (Option-cases pe.env.at) [
        | inl missing ↦ rw (missing, poll_status) (show_lost-Counts stat now s1)
        | inr (p, present) ↦
            rw (present, poll_status)
              (if_cases (Counts s) stat.connected (poll_at pe p stat now s1)
                (show_lost pe stat now s1) (λ _. poll_at-Counts p stat now s1)
                (λ _. show_lost-Counts stat now s1))
      ]

  -- `n` polls one after the other
  unfoldable pub polls : ℕ → Service → Service
  polls zero s = s
  polls (suc n) s = polls n (poll_status pe s)

  -- Whatever the modem answers, `n` polls of the status issue few resets of the USB device: each takes
  -- `failStreakMax` failures in a row, so that many times the resets, and the failures in a row that are
  -- left, are together at most `n` more than before the polls.
  pub polls-resets :
      (n : ℕ) (s : Service)
      → (polls n s).at_fail_streak + pe.fail_streak_max * resets (polls n s).calls
        ≤ n + s.at_fail_streak + pe.fail_streak_max * resets s.calls
  unfolding polls
  polls-resets zero s = omega arith
  polls-resets (suc n) s =
      let first = poll_status-Counts s in
      let rest = polls-resets n (poll_status pe s) in omega arith
