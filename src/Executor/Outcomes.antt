-- ===== src/Executor/Outcomes.antt =====
-- core/mikrotik_api.py: what an execution returns and what it reports to the circuit breaker.
use mikrotik_bot.Prelude.{
  ℕ, zero, suc, ◌+◌, ◌≡◌, refl, sym, ◌∙◌, subst, ◌⊎◌, inl, inr, Bool, true, false, String, Result,
  ok, err, Bool-cases, ◌==◌, string_eq,
}
use mikrotik_bot.Breaker.{CircuitBreaker, circuit_open, can_attempt, before_request, on_failure}
use mikrotik_bot.Breaker.Phase.{
  Phase, closed_after, attempt, failure, Shows, attempt-Shows, failure-Shows,
}
use mikrotik_bot.Breaker.Events.{step_threshold, attempts, step}
use mikrotik_bot.Executor.{
  MikrotikApi, Outside, ApiError, open_circuit, caught, uncaught, is_final, succeed, fail, handle,
  settle, attempts_from, retries, throttled, enter, execute,
}
use mikrotik_bot.Executor.Attempts.{At, Attempted, success-At, attempt_command-Attempted}

-- What the breaker shows of router `k` after a run that began in phase `p`, by how the run ends.
abbrev pub Ended :
    {Rows : Type 0} → String → Phase → ℕ → ℕ → Result ApiError Rows → CircuitBreaker → Type 0
Ended k p n failed_at (ok rows) cb = Shows cb k (closed_after 0)
Ended k p n failed_at (err (open_circuit e)) cb = At k p n cb
Ended k p n failed_at (err uncaught) cb = At k p n cb
Ended k p n failed_at (err (caught text)) cb =
    ((is_final text ≡ true) × Shows cb k (closed_after 0))
    ⊎ ((is_final text ≡ false)
        × (q : Phase) × ((q ≡ p) ⊎ (q ≡ closed_after 0))
        × Shows cb k (failure n q failed_at))

module _ {Api Info Rows : Type 0} (out : Outside Api Info Rows) (k command : String) (p : Phase)
    (n : ℕ) where
  abbrev pub Ends : Result ApiError Rows × MikrotikApi Api → Type 0
  Ends (r, s) = Ended k p n out.failed_at r s.circuit_breaker

  module _ (text : String) (again : MikrotikApi Api → Result ApiError Rows × MikrotikApi Api)
      (s : MikrotikApi Api) where
    handle-Ends :
        At k p n s.circuit_breaker
        → (is_final text ≡ false → Ends (again s))
        → Ends (handle out k command text again s)
    unfolding handle succeed
    handle-Ends h next =
        let shown = (success-At s.circuit_breaker k p n h).0 in
        elim (Bool-cases (command == "system/reboot")) [
          | inl reboot ↦ rw reboot shown
          | inr other ↦ elim (Bool-cases (is_final text)) [
            | inl final ↦ rw (other, final) (inl (final, shown))
            | inr retry ↦ rw (other, retry) (next retry)
          ]
        ]

  settle-Ends :
      (again : String → MikrotikApi Api → Result ApiError Rows × MikrotikApi Api)
      → ((text : String) (s : MikrotikApi Api)
          → At k p n s.circuit_breaker
          → is_final text ≡ false
          → Ends (again text s))
      → (r : Result ApiError Rows) (s : MikrotikApi Api) → Attempted k p n r s.circuit_breaker
      → Ends (settle out k command again (r, s))
  unfolding settle
  settle-Ends again next (ok rows) s h = h
  settle-Ends again next (err (open_circuit e)) s h = h
  settle-Ends again next (err uncaught) s h = h
  settle-Ends again next (err (caught text)) s h = handle-Ends text (again text) s h (next text s h)

  attempts_from-Ends :
      (left : ℕ) (force : Bool) (i : ℕ) (s : MikrotikApi Api)
      → At k p n s.circuit_breaker
      → Ends (attempts_from out k command left force i s)
  unfolding attempts_from fail
  attempts_from-Ends zero force i s h =
      settle-Ends _
        (λ text s' (q, from, shown, e) retry. inr (
          retry,
          q,
          from,
          subst
              (λ m.
                Shows (on_failure s'.circuit_breaker k out.failed_at) k (failure m q out.failed_at))
              e (failure-Shows s'.circuit_breaker k q out.failed_at shown),
        ))
        _ _ (attempt_command-Attempted out k p n force i s h)
  attempts_from-Ends (suc left) force i s h =
      settle-Ends _ (λ text s' at _. attempts_from-Ends left true (i + 1) s' at) _ _
        (attempt_command-Attempted out k p n force i s h)

before_request_admits :
    (cb : CircuitBreaker) (k : String) (now later : ℕ)
    → (can_attempt cb k now later).0 ≡ true
    → before_request cb k now later ≡ (ok tt, (can_attempt cb k now later).1)
unfolding before_request
before_request_admits cb k now later h = rw h

before_request_refuses :
    (cb : CircuitBreaker) (k : String) (now later : ℕ)
    → (can_attempt cb k now later).0 ≡ false
    → before_request cb k now later ≡ (err (circuit_open k), (can_attempt cb k now later).1)
unfolding before_request
before_request_refuses cb k now later h = rw h

attempt-threshold :
    (cb : CircuitBreaker) (k : String) (now later : ℕ)
    → (can_attempt cb k now later).1.failure_threshold ≡ cb.failure_threshold
unfolding step
attempt-threshold cb k now later = step_threshold cb (attempts k now later)

module _ {Api Info Rows : Type 0} (out : Outside Api Info Rows) (k command : String)
    (s : MikrotikApi Api) (p : Phase) where
  -- the phase machine's answer to the request
  abbrev pub answer : Bool × Phase
  answer = attempt s.circuit_breaker.reset_timeout p out.asked_at out.claimed_at

  abbrev pub refused_state : MikrotikApi Api
  refused_state = record s {
    circuit_breaker = (can_attempt s.circuit_breaker k out.asked_at out.claimed_at).1;
  }

  abbrev pub Reports : Type 0
  Reports =
      ((answer.0 ≡ false)
        × (execute out k command s ≡ (err (open_circuit (circuit_open k)), refused_state)))
      ⊎ ((answer.0 ≡ true)
          × Ended k answer.1 s.circuit_breaker.failure_threshold out.failed_at
              (execute out k command s).0 (execute out k command s).1.circuit_breaker)

  enter-Ends :
      Shows (can_attempt s.circuit_breaker k out.asked_at out.claimed_at).1 k answer.1
      → Ends out k command answer.1 s.circuit_breaker.failure_threshold (
          enter out k command
            (ok tt, (can_attempt s.circuit_breaker k out.asked_at out.claimed_at).1)
            s)
  unfolding enter
  enter-Ends h =
      attempts_from-Ends out k command answer.1 s.circuit_breaker.failure_threshold retries false 0
        (throttled out k command (can_attempt s.circuit_breaker k out.asked_at out.claimed_at).1 s)
        (answer.1, inl refl, h, attempt-threshold s.circuit_breaker k out.asked_at out.claimed_at)

  -- Let the circuit of router `k` show phase `p`. If the phase machine refuses the request, the
  -- execution raises the open-circuit error and touches neither the pool nor the throttle. If it
  -- admits it, then: a value leaves the circuit closed with no failures; a caught error with a final
  -- text does so too; any other caught error counts exactly one failure, however many attempts were
  -- made, from the admitted phase, or from the closed circuit if a success was reported before; and
  -- any other exception reports no failure.
  pub execute_reports : Shows s.circuit_breaker k p → Reports
  unfolding execute
  execute_reports shown =
      let cb = s.circuit_breaker in
      let (agrees, shows) = attempt-Shows cb k p out.asked_at out.claimed_at shown in
      elim (Bool-cases (can_attempt cb k out.asked_at out.claimed_at).0) [
        | inl admitted ↦ inr (
          sym agrees ∙ admitted,
          subst (λ c. Ends out k command answer.1 cb.failure_threshold (enter out k command c s))
              (sym (before_request_admits cb k out.asked_at out.claimed_at admitted))
              (enter-Ends shows),
        )
        | inr refused ↦ inl (
          sym agrees ∙ refused,
          subst
              (λ c. enter out k command c s ≡ (err (open_circuit (circuit_open k)), refused_state))
              (sym (before_request_refuses cb k out.asked_at out.claimed_at refused))
              (unfold enter in refl),
        )
      ]
