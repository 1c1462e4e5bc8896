-- ===== src/Breaker/Windows.antt =====
-- core/circuit_breaker.py over time: what an open circuit and a claimed trial refuse, when a trial
-- is let through again, and when failures open the circuit.
use mikrotik_bot.Prelude.{
  ℕ, ◌+◌, ◌<◌, ◌≡◌, ◌≢◌, refl, sym, ap, subst, ◌∙◌, inl, inr, Bool, true, false, some, List, [],
  ◌∷◌, String, arith, ◌==◌, string_eq, Bool-cases, beq_of_ne, eq_of_beq, leb, All,
}
use mikrotik_bot.Dict.{get}
use mikrotik_bot.Breaker.{CircuitBreaker, closed, opened, get_state, can_attempt}
use mikrotik_bot.Breaker.Phase.{
  Phase, closed_after, open_since, probing_since, attempt, failure, Shows, attempt-Shows,
}
use mikrotik_bot.Breaker.Events.{
  Event, attempts, succeeds, fails, resets, step, run, advance, phase_after, IsSetTo, run-IsSetTo,
  run-Shows, started, reached, reached-Shows,
}

-- No report ends an outage of `j`, and every attempt on `j` reads a clock below `limit`.
abbrev pub WithinOutage : String → ℕ → Event → Type 0
WithinOutage j limit (attempts k now later) = k ≡ j → now < limit
WithinOutage j limit (succeeds k) = k ≢ j
WithinOutage j limit (fails k now) = Unit
WithinOutage j limit (resets k) = k ≢ j

-- Nor does a failure of the trial request come back.
abbrev pub WithinTrial : String → ℕ → Event → Type 0
WithinTrial j limit (attempts k now later) = k ≡ j → now < limit
WithinTrial j limit (succeeds k) = k ≢ j
WithinTrial j limit (fails k now) = k ≢ j
WithinTrial j limit (resets k) = k ≢ j

too_soon :
    (timeout n t now later : ℕ)
    → now < t + timeout
    → (attempt timeout (open_since n t) now later ≡ (false, open_since n t))
      × (attempt timeout (probing_since n t) now later ≡ (false, probing_since n t))
unfolding attempt
too_soon timeout n t now later h =
    let early : leb (t + timeout) now ≡ false = ground arith in (rw early, rw early)

module _ (threshold timeout : ℕ) where
  -- an open circuit stays open, with the time of its opening
  outage_lasts :
      (j : String) (n t : ℕ) (es : List Event)
      → All (WithinOutage j (t + timeout)) es
      → (m : ℕ) × (phase_after threshold timeout j (open_since n t) es ≡ open_since m t)
  unfolding phase_after advance failure
  outage_lasts j n t [] h = (n, refl)
  outage_lasts j n t (attempts k now later ∷ es) h = elim (Bool-cases (k == j)) [
    | inl same ↦
        let (m, e) = outage_lasts j n t es h.1 in
        (
          m,
          rw same (
              subst (λ (r : Bool × Phase). phase_after threshold timeout j r.1 es ≡ open_since m t)
                (sym (too_soon timeout n t now later (h.0 (eq_of_beq same))).0) e),
        )
    | inr other ↦ let (m, e) = outage_lasts j n t es h.1 in (m, rw other e)
  ]
  outage_lasts j n t (succeeds k ∷ es) h =
      let (m, e) = outage_lasts j n t es h.1 in (m, rw (beq_of_ne h.0) e)
  outage_lasts j n t (fails k now ∷ es) h = elim (Bool-cases (k == j)) [
    | inl same ↦ let (m, e) = outage_lasts j (n + 1) t es h.1 in (m, rw same e)
    | inr other ↦ let (m, e) = outage_lasts j n t es h.1 in (m, rw other e)
  ]
  outage_lasts j n t (resets k ∷ es) h =
      let (m, e) = outage_lasts j n t es h.1 in (m, rw (beq_of_ne h.0) e)

  -- so does a claimed trial
  trial_lasts :
      (j : String) (n t : ℕ) (es : List Event)
      → All (WithinTrial j (t + timeout)) es
      → phase_after threshold timeout j (probing_since n t) es ≡ probing_since n t
  unfolding phase_after advance failure
  trial_lasts j n t [] h = refl
  trial_lasts j n t (attempts k now later ∷ es) h = elim (Bool-cases (k == j)) [
    | inl same ↦ rw same (
        subst (λ (r : Bool × Phase). phase_after threshold timeout j r.1 es ≡ probing_since n t)
          (sym (too_soon timeout n t now later (h.0 (eq_of_beq same))).1)
          (trial_lasts j n t es h.1))
    | inr other ↦ rw other (trial_lasts j n t es h.1)
  ]
  trial_lasts j n t (succeeds k ∷ es) h = rw (beq_of_ne h.0) (trial_lasts j n t es h.1)
  trial_lasts j n t (fails k now ∷ es) h = rw (beq_of_ne h.0) (trial_lasts j n t es h.1)
  trial_lasts j n t (resets k ∷ es) h = rw (beq_of_ne h.0) (trial_lasts j n t es h.1)

  answers :
      (cb : CircuitBreaker) (j : String) (p : Phase) (now later : ℕ)
      → IsSetTo threshold timeout cb
      → Shows cb j p
      → (can_attempt cb j now later).0 ≡ (attempt timeout p now later).0
  answers cb j p now later set_to h =
      subst (λ o. (can_attempt cb j now later).0 ≡ (attempt o p now later).0) set_to.1
        (attempt-Shows cb j p now later h).0

  outage_refuses :
      (cb : CircuitBreaker) (j : String) (n t : ℕ) (es : List Event) (now later : ℕ)
      → IsSetTo threshold timeout cb
      → Shows cb j (open_since n t)
      → All (WithinOutage j (t + timeout)) es
      → now < t + timeout
      → (can_attempt (run cb es) j now later).0 ≡ false
  outage_refuses cb j n t es now later set_to h quiet early =
      let (m, e) = outage_lasts j n t es quiet in
      let shown = run-Shows threshold timeout cb j (open_since n t) es set_to h in
      answers (run cb es) j (open_since m t) now later (run-IsSetTo threshold timeout cb es set_to)
        (subst (Shows (run cb es) j) e shown)
      ∙ ap (λ (r : Bool × Phase). r.0) (too_soon timeout m t now later early).0

  trial_refuses :
      (cb : CircuitBreaker) (j : String) (n t : ℕ) (es : List Event) (now later : ℕ)
      → IsSetTo threshold timeout cb
      → Shows cb j (probing_since n t)
      → All (WithinTrial j (t + timeout)) es
      → now < t + timeout
      → (can_attempt (run cb es) j now later).0 ≡ false
  trial_refuses cb j n t es now later set_to h quiet early =
      let shown = run-Shows threshold timeout cb j (probing_since n t) es set_to h in
      answers (run cb es) j (probing_since n t) now later
        (run-IsSetTo threshold timeout cb es set_to)
        (subst (Shows (run cb es) j) (trial_lasts j n t es quiet) shown)
      ∙ ap (λ (r : Bool × Phase). r.0) (too_soon timeout n t now later early).1

  -- what the state and the time of the last failure say of the phase
  phase_of_opened :
      (cb : CircuitBreaker) (j : String) (p : Phase) (t : ℕ)
      → Shows cb j p
      → get_state cb j ≡ opened
      → get cb.last_failure_time j ≡ some t
      → (n : ℕ) × Shows cb j (open_since n t)
  unfolding get_state
  phase_of_opened cb j (closed_after n) t h is_open last = absurd (ground arith)
  phase_of_opened cb j (open_since n s) t h is_open last = (n, ground arith)
  phase_of_opened cb j (probing_since n s) t h is_open last = absurd (ground arith)

  -- After any history that leaves the circuit of router `j` open since its failure at `t`: whatever
  -- happens next, as long as nothing reports a success on `j` or resets it and the attempts on `j`
  -- read a clock below `t + timeout`, each further attempt on `j` below that time is refused.
  -- Failures that still come in do not change this.
  pub fail_fast :
      (es later_events : List Event) (j : String) (t now later : ℕ)
      → get_state (run (started threshold timeout) es) j ≡ opened
      → get (run (started threshold timeout) es).last_failure_time j ≡ some t
      → All (WithinOutage j (t + timeout)) later_events
      → now < t + timeout
      → (can_attempt (run (run (started threshold timeout) es) later_events) j now later).0 ≡ false
  fail_fast es later_events j t now later is_open last quiet early =
      let cb = run (started threshold timeout) es in
      let shown = reached-Shows threshold timeout es j in
      let (n, h) = phase_of_opened cb j (reached threshold timeout j es) t shown is_open last in
      outage_refuses cb j n t later_events now later
        (run-IsSetTo threshold timeout (started threshold timeout) es (refl, refl)) h quiet early

  -- an admitted attempt that is no ordinary request of a closed circuit claims the trial
  trial_claimed :
      (cb : CircuitBreaker) (j : String) (p : Phase) (now later : ℕ)
      → IsSetTo threshold timeout cb
      → Shows cb j p
      → get_state cb j ≢ closed
      → (can_attempt cb j now later).0 ≡ true
      → (n : ℕ) × Shows (can_attempt cb j now later).1 j (probing_since n later)
  unfolding get_state attempt
  trial_claimed cb j (closed_after n) now later set_to h busy admitted = absurd (busy h.0)
  trial_claimed cb j (open_since n t) now later set_to h busy admitted =
      let r = attempt-Shows cb j (open_since n t) now later h in
      elim (Bool-cases (leb (t + cb.reset_timeout) now)) [
        | inl due ↦ (n, rw due at (r.1))
        | inr early ↦ absurd (cc (admitted, r.0, early))
      ]
  trial_claimed cb j (probing_since n t) now later set_to h busy admitted =
      absurd (ground (arith, (attempt-Shows cb j (probing_since n t) now later h).0))

  -- After any history that leaves the circuit of router `j` not closed: if an attempt on `j` is
  -- admitted at clock reading `claimed_at`, it is the only one. Whatever happens next, as long as
  -- nothing is reported for `j` and the attempts on `j` read a clock below `claimed_at + timeout`,
  -- each further attempt on `j` below that time is refused.
  pub single_trial :
      (es later_events : List Event) (j : String) (at claimed_at now later : ℕ)
      → get_state (run (started threshold timeout) es) j ≢ closed
      → (can_attempt (run (started threshold timeout) es) j at claimed_at).0 ≡ true
      → All (WithinTrial j (claimed_at + timeout)) later_events
      → now < claimed_at + timeout
      → (can_attempt
          (run (can_attempt (run (started threshold timeout) es) j at claimed_at).1 later_events)
          j
          now
          later).0
        ≡ false
  unfolding step run
  single_trial es later_events j at claimed_at now later busy admitted quiet early =
      let cb = run (started threshold timeout) es in
      let set_to = run-IsSetTo threshold timeout (started threshold timeout) es (refl, refl) in
      let (n, h) =
        trial_claimed cb j (reached threshold timeout j es) at claimed_at set_to
          (reached-Shows threshold timeout es j) busy admitted in
      trial_refuses (can_attempt cb j at claimed_at).1 j n claimed_at later_events now later
        (run-IsSetTo threshold timeout cb (attempts j at claimed_at ∷ []) set_to) h quiet early
