-- ===== src/Breaker/Wrap.antt =====
-- `CircuitBreaker.wrap` of core/circuit_breaker.py: the wrapped call and its report.
use mikrotik_bot.Prelude.{
  ℕ, ◌≡◌, refl, ap, ◌⊎◌, inl, inr, true, false, String, Result, ok, err, Bool-cases,
}
use mikrotik_bot.Breaker.{
  CircuitBreaker, circuit_open, WrapError, short_circuited, raised, can_attempt, before_request,
  report, wrap,
}
use mikrotik_bot.Breaker.Phase.{Phase, closed_after, failure, Shows, success-Shows, failure-Shows}

module _ {E A : Type 0} (func : CircuitBreaker → Result E A × CircuitBreaker) (cb : CircuitBreaker)
    (k : String) (p : Phase) (now later failed_at : ℕ) where
  abbrev pub entered : CircuitBreaker
  entered = (can_attempt cb k now later).1

  abbrev pub wrapped : Result (WrapError E) A × CircuitBreaker
  wrapped = wrap func cb k now later failed_at

  report_cases :
      (r : Result E A) (after : CircuitBreaker)
      → Shows after k p
      → ((a : A) × (r ≡ ok a)
          × ((report k failed_at (r, after)).0 ≡ ok a)
          × Shows (report k failed_at (r, after)).1 k (closed_after 0))
        ⊎ ((e : E) × (r ≡ err e)
            × ((report k failed_at (r, after)).0 ≡ err (raised e))
            × Shows
                (report k failed_at (r, after)).1
                k
                (failure after.failure_threshold p failed_at))
  unfolding report
  report_cases (ok a) after h = inl (a, refl, refl, success-Shows after k p h)
  report_cases (err e) after h = inr (e, refl, refl, failure-Shows after k p failed_at h)

  before-admitted :
      (can_attempt cb k now later).0 ≡ true → before_request cb k now later ≡ (ok tt, entered)
  unfolding before_request
  before-admitted h = rw h

  before-refused :
      (can_attempt cb k now later).0 ≡ false
      → before_request cb k now later ≡ (err (circuit_open k), entered)
  unfolding before_request
  before-refused h = rw h

  wrapped_admitted :
      (can_attempt cb k now later).0 ≡ true → wrapped ≡ report k failed_at (func entered)
  unfolding wrap
  wrapped_admitted h =
      let e = before-admitted h in rw (e, wrap) (ap (λ c. report k failed_at (func c.1)) e)

  wrapped_refused :
      (can_attempt cb k now later).0 ≡ false
      → wrapped ≡ (err (short_circuited (circuit_open k)), entered)
  unfolding wrap
  wrapped_refused h =
      let e = before-refused h in
      rw (e, wrap) (ap (λ c. (err (short_circuited (circuit_open k)), c.1)) e)

  abbrev pub WrapOutcome : Type 0
  WrapOutcome =
      (((can_attempt cb k now later).0 ≡ false)
        × (wrapped ≡ (err (short_circuited (circuit_open k)), entered)))
      ⊎ ((a : A) × ((func entered).0 ≡ ok a)
          × (wrapped.0 ≡ ok a)
          × Shows wrapped.1 k (closed_after 0))
      ⊎ ((e : E) × ((func entered).0 ≡ err e)
          × (wrapped.0 ≡ err (raised e))
          × Shows wrapped.1 k (failure (func entered).1.failure_threshold p failed_at))

  -- Let `func` leave the data of router `k` showing phase `p`. Then a wrapped call ends in one of
  -- three ways: the attempt is refused, and the call raises the open-circuit error without running
  -- `func`; or `func` returns, its value is returned and the circuit of `k` is closed with no
  -- failures counted; or `func` raises, its error is raised again and a failure is counted from `p`.
  pub wrap_cases : Shows (func entered).1 k p → WrapOutcome
  wrap_cases h = elim (Bool-cases (can_attempt cb k now later).0) [
    | inl admitted ↦
        inr (rw (wrapped_admitted admitted) (report_cases (func entered).0 (func entered).1 h))
    | inr refused ↦ inl (refused, wrapped_refused refused)
  ]
