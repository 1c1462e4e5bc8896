-- ===== src/Breaker/Events.antt =====
-- Histories of core/circuit_breaker.py: the calls of all threads, in the order in which they take
-- the breaker's lock. Each call holds the lock for all of its body.
use mikrotik_bot.Prelude.{
  ℕ, ◌≡◌, ◌≢◌, refl, sym, inl, inr, List, [], ◌∷◌, String, arith, if◌then◌else◌, ◌==◌, string_eq,
  Bool-cases, eq_of_beq, ne_of_beq, subst, subst₂, ◌∙◌,
}
use mikrotik_bot.Dict.{get}
use mikrotik_bot.Breaker.{CircuitBreaker, init, can_attempt, on_success, on_failure, reset}
use mikrotik_bot.Breaker.Phase.{
  Phase, closed_after, attempt, failure, Shows, Agrees, Shows-Agrees, attempt-Shows, success-Shows,
  failure-Shows, reset-Shows, attempt-Agrees, success-Agrees, failure-Agrees, reset-Agrees,
}

pub data Event : Type 0 where
  attempts : String → ℕ → ℕ → Event
  succeeds : String → Event
  fails : String → ℕ → Event
  resets : String → Event

unfoldable pub step : CircuitBreaker → Event → CircuitBreaker
step cb (attempts k now later) = (can_attempt cb k now later).1
step cb (succeeds k) = on_success cb k
step cb (fails k now) = on_failure cb k now
step cb (resets k) = reset cb k

unfoldable pub run : CircuitBreaker → List Event → CircuitBreaker
run cb [] = cb
run cb (e ∷ es) = run (step cb e) es

abbrev pub router : Event → String
router (attempts k now later) = k
router (succeeds k) = k
router (fails k now) = k
router (resets k) = k

module _ (threshold timeout : ℕ) where
  -- one event at the router itself
  unfoldable pub advance : Phase → Event → Phase
  advance p (attempts k now later) = (attempt timeout p now later).1
  advance p (succeeds k) = closed_after 0
  advance p (fails k now) = failure threshold p now
  advance p (resets k) = closed_after 0

  -- the phase of router `j` after a history, which skips the events of other routers
  unfoldable pub phase_after : String → Phase → List Event → Phase
  phase_after j p [] = p
  phase_after j p (e ∷ es) = phase_after j (if router e == j then advance p e else p) es

pub step_timeout : (cb : CircuitBreaker) (e : Event) → (step cb e).reset_timeout ≡ cb.reset_timeout
unfolding step can_attempt on_success on_failure reset
step_timeout cb (attempts k now later) = ground arith
step_timeout cb (succeeds k) = ground arith
step_timeout cb (fails k now) = ground arith
step_timeout cb (resets k) = refl

pub step_threshold :
    (cb : CircuitBreaker) (e : Event) → (step cb e).failure_threshold ≡ cb.failure_threshold
unfolding step can_attempt on_success on_failure reset
step_threshold cb (attempts k now later) = ground arith
step_threshold cb (succeeds k) = ground arith
step_threshold cb (fails k now) = ground arith
step_threshold cb (resets k) = refl

step-Shows_self :
    (cb : CircuitBreaker) (e : Event) (p : Phase)
    → Shows cb (router e) p
    → Shows (step cb e) (router e) (advance cb.failure_threshold cb.reset_timeout p e)
unfolding step advance
step-Shows_self cb (attempts k now later) p h = (attempt-Shows cb k p now later h).1
step-Shows_self cb (succeeds k) p h = success-Shows cb k p h
step-Shows_self cb (fails k now) p h = failure-Shows cb k p now h
step-Shows_self cb (resets k) p h = reset-Shows cb k

step-Agrees :
    (cb : CircuitBreaker) (e : Event) (j : String) → router e ≢ j → Agrees cb (step cb e) j
unfolding step
step-Agrees cb (attempts k now later) j h = attempt-Agrees cb k j h now later
step-Agrees cb (succeeds k) j h = success-Agrees cb k j h
step-Agrees cb (fails k now) j h = failure-Agrees cb k j h now
step-Agrees cb (resets k) j h = reset-Agrees cb k j h

step-Shows :
    (cb : CircuitBreaker) (e : Event) (j : String) (p : Phase)
    → Shows cb j p
    → Shows
        (step cb e)
        j
        (if router e == j then advance cb.failure_threshold cb.reset_timeout p e else p)
step-Shows cb e j p h = elim (Bool-cases (router e == j)) [
  | inl same ↦
      let at_j = eq_of_beq same in
      rw same (
        subst (λ k. Shows (step cb e) k (advance cb.failure_threshold cb.reset_timeout p e)) at_j
          (step-Shows_self cb e p (subst (λ k. Shows cb k p) (sym at_j) h)))
  | inr other ↦ rw other (Shows-Agrees cb (step cb e) j p (step-Agrees cb e j (ne_of_beq other)) h)
]

module _ (threshold timeout : ℕ) where
  -- Every call keeps the two settings of the constructor.
  abbrev pub IsSetTo : CircuitBreaker → Type 0
  IsSetTo cb = (cb.failure_threshold ≡ threshold) × (cb.reset_timeout ≡ timeout)

  pub run-IsSetTo : (cb : CircuitBreaker) (es : List Event) → IsSetTo cb → IsSetTo (run cb es)
  unfolding run
  run-IsSetTo cb [] h = h
  run-IsSetTo cb (e ∷ es) h =
      run-IsSetTo (step cb e) es (step_threshold cb e ∙ h.0, step_timeout cb e ∙ h.1)

  pub run-IsSetTo_success :
      (cb : CircuitBreaker) (k : String) → IsSetTo cb → IsSetTo (on_success cb k)
  unfolding step
  run-IsSetTo_success cb k h =
      (step_threshold cb (succeeds k) ∙ h.0, step_timeout cb (succeeds k) ∙ h.1)

  pub run-Shows :
      (cb : CircuitBreaker) (j : String) (p : Phase) (es : List Event)
      → IsSetTo cb
      → Shows cb j p
      → Shows (run cb es) j (phase_after threshold timeout j p es)
  unfolding run phase_after
  run-Shows cb j p [] set_to h = h
  run-Shows cb j p (e ∷ es) set_to h =
      run-Shows (step cb e) j (if router e == j then advance threshold timeout p e else p) es
        (run-IsSetTo cb (e ∷ []) set_to)
        (subst₂ (λ m o. Shows (step cb e) j (if router e == j then advance m o p e else p)) set_to.0
          set_to.1 (step-Shows cb e j p h))

  abbrev pub started : CircuitBreaker
  started = init threshold timeout

  abbrev pub reached : String → List Event → Phase
  reached j es = phase_after threshold timeout j (closed_after 0) es

  pub reached-Shows : (es : List Event) (j : String) → Shows (run started es) j (reached j es)
  unfolding get
  reached-Shows es j = run-Shows started j (closed_after 0) es (refl, refl) (refl, refl, refl, refl)

  pub attempt-reached :
      (es : List Event) (j : String) (now later : ℕ)
      → (can_attempt (run started es) j now later).0 ≡ (attempt timeout (reached j es) now later).0
  attempt-reached es j now later =
      subst
        (λ o. (can_attempt (run started es) j now later).0 ≡ (attempt o (reached j es) now later).0)
        (run-IsSetTo started es (refl, refl)).1
        (attempt-Shows (run started es) j (reached j es) now later (reached-Shows es j)).0

  -- From a new breaker, whatever calls have been made for whatever routers: the data of router `j`
  -- show the phase which the one-router machine reaches on the calls for `j` alone, and the next
  -- attempt is admitted exactly if that machine admits it.
  pub breaker_refines :
      (es : List Event) (j : String) (now later : ℕ)
      → Shows (run started es) j (reached j es)
        × ((can_attempt (run started es) j now later).0
            ≡ (attempt timeout (reached j es) now later).0)
  breaker_refines es j now later = (reached-Shows es j, attempt-reached es j now later)
