-- ===== src/Breaker/Recovery.antt =====
-- core/circuit_breaker.py: how a circuit opens and how it comes back.
use native.Mathlib.Nat.{zero-add}
use mikrotik_bot.Prelude.{
  ℕ, ◌+◌, ◌≤◌, ◌≡◌, refl, ap, subst, ◌∙◌, ◌⊎◌, inl, inr, Bool, true, false, ◌&&◌, some, List, [],
  ◌∷◌, map, String, arith, string_eq, length, leb, ltb, if◌then◌else◌, le→leb,
}
use mikrotik_bot.Dict.{get, ==_refl}
use mikrotik_bot.Breaker.{
  CircuitBreaker, CircuitState, closed, opened, half_open, get_state, can_attempt, on_success,
}
use mikrotik_bot.Breaker.Phase.{
  Phase, closed_after, open_since, probing_since, attempt, failure, Shows, attempt-Shows,
  success-Shows,
}
use mikrotik_bot.Breaker.Events.{
  Event, attempts, fails, step, run, advance, phase_after, step_timeout, IsSetTo, run-IsSetTo,
  run-IsSetTo_success, run-Shows, started, reached, reached-Shows,
}

mode : Phase → CircuitState
mode (closed_after n) = closed
mode (open_since n t) = opened
mode (probing_since n t) = half_open

get_state-mode :
    (cb : CircuitBreaker) (j : String) (p : Phase) → Shows cb j p → get_state cb j ≡ mode p
unfolding get_state mode
get_state-mode cb j (closed_after n) h = h.0
get_state-mode cb j (open_since n t) h = ground arith
get_state-mode cb j (probing_since n t) h = ground arith

module _ (threshold timeout : ℕ) where
  open_keeps :
      (j : String) (n t : ℕ) (times : List ℕ)
      → mode (phase_after threshold timeout j (open_since n t) (map (fails j) times)) ≡ opened
  unfolding phase_after advance failure mode
  open_keeps j n t [] = refl
  open_keeps j n t (now ∷ times) =
      ground (arith, ==_refl {K = String} j, open_keeps j (n + 1) t times)

  mode-failures :
      (j : String) (n : ℕ) (times : List ℕ)
      → mode (phase_after threshold timeout j (closed_after n) (map (fails j) times))
        ≡ (if ltb 0 (length times) && leb threshold (n + length times) then opened else closed)
  unfolding phase_after advance failure mode
  mode-failures j n [] = refl
  mode-failures j n (now ∷ times) =
      ground (
        arith,
        ==_refl {K = String} j,
        open_keeps j (n + 1) now times,
        mode-failures j (n + 1) times,
      )

  -- After any history and then a reported success on router `j`, a row of failures reported for `j`
  -- leaves its circuit open exactly if there was a failure and there were at least
  -- `failure_threshold` of them, and closed otherwise.
  pub opens_at_threshold :
      (es : List Event) (j : String) (times : List ℕ)
      → get_state (run (on_success (run (started threshold timeout) es) j) (map (fails j) times)) j
        ≡ (if ltb 0 (length times) && leb threshold (length times) then opened else closed)
  opens_at_threshold es j times =
      get_state-mode _ j _ (
        run-Shows threshold timeout (on_success cb j) j (closed_after 0) (map (fails j) times)
          set_to (success-Shows cb j (reached threshold timeout j es) shown))
      ∙ mode-failures j 0 times
      ∙ ap (λ n. if ltb 0 (length times) && leb threshold n then opened else closed)
          (zero-add (length times))
    where
      cb : CircuitBreaker
      cb = run (started threshold timeout) es

      shown : Shows cb j (reached threshold timeout j es)
      shown = reached-Shows threshold timeout es j

      set_to : IsSetTo threshold timeout (on_success cb j)
      set_to =
          run-IsSetTo_success threshold timeout cb j
            (run-IsSetTo threshold timeout (started threshold timeout) es (refl, refl))

due :
    (timeout n t now later : ℕ)
    → t + timeout ≤ now
    → (attempt timeout (open_since n t) now later ≡ (true, probing_since n later))
      × (attempt timeout (probing_since n t) now later ≡ (false, open_since n later))
unfolding attempt
due timeout n t now later h = let over = le→leb _ _ h in (rw over, rw over)

two_attempts :
    (cb : CircuitBreaker) (j : String) (p : Phase) (now later now' later' : ℕ)
    → Shows cb j p
    → ((t : ℕ) → get cb.last_failure_time j ≡ some t → t + cb.reset_timeout ≤ now)
    → ((t : ℕ) → get cb.trial_started_at j ≡ some t → t + cb.reset_timeout ≤ now)
    → later + cb.reset_timeout ≤ now'
    → ((can_attempt cb j now later).0 ≡ true)
      ⊎ ((can_attempt (can_attempt cb j now later).1 j now' later').0 ≡ true)
two_attempts cb j (closed_after n) now later now' later' h failed tried wait =
    inl (unfold attempt in (attempt-Shows cb j (closed_after n) now later h).0)
two_attempts cb j (open_since n t) now later now' later' h failed tried wait = inl (
    (attempt-Shows cb j (open_since n t) now later h).0
    ∙ ap (λ (r : Bool × Phase). r.0) (due cb.reset_timeout n t now later (failed t h.4)).0)
two_attempts cb j (probing_since n t) now later now' later' h failed tried wait = inr (
    (attempt-Shows cb' j (open_since n later) now' later' reopened).0
    ∙ ap (λ (r : Bool × Phase). r.0)
        (due cb'.reset_timeout n later now' later' (rw same_timeout wait)).0)
  where
    cb' : CircuitBreaker
    cb' = (can_attempt cb j now later).1

    same_timeout : cb'.reset_timeout ≡ cb.reset_timeout
    same_timeout = unfold step in step_timeout cb (attempts j now later)

    reopened : Shows cb' j (open_since n later)
    reopened =
        subst (λ (r : Bool × Phase). Shows cb' j r.1)
          (due cb.reset_timeout n t now later (tried t h.3)).1
          (attempt-Shows cb j (probing_since n t) now later h).1

-- After any history no router is shut out for good: at a clock reading that is a full
-- `reset_timeout` past its last failure and past its claimed trial, an attempt is admitted, or the
-- next one is that comes a full `reset_timeout` after it.
pub never_wedged :
    (threshold timeout : ℕ) (es : List Event) (j : String) (now later now' later' : ℕ)
    → ((t : ℕ)
        → get (run (started threshold timeout) es).last_failure_time j ≡ some t
        → t + timeout ≤ now)
    → ((t : ℕ)
        → get (run (started threshold timeout) es).trial_started_at j ≡ some t
        → t + timeout ≤ now)
    → later + timeout ≤ now'
    → ((can_attempt (run (started threshold timeout) es) j now later).0 ≡ true)
      ⊎ ((can_attempt
            (can_attempt (run (started threshold timeout) es) j now later).1
            j
            now'
            later').0
          ≡ true)
never_wedged threshold timeout es j now later now' later' failed tried wait =
    two_attempts (run (started threshold timeout) es) j (reached threshold timeout j es) now later
      now' later' (reached-Shows threshold timeout es j) (λ t e. rw set_to (failed t e))
      (λ t e. rw set_to (tried t e)) (rw set_to wait)
  where
    set_to : (run (started threshold timeout) es).reset_timeout ≡ timeout
    set_to = (run-IsSetTo threshold timeout (started threshold timeout) es (refl, refl)).1
