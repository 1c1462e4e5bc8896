-- ===== src/Tests/Circuits.antt =====
-- core/circuit_breaker.py on concrete histories: a threshold of 2 failures, a window of 30.
use mathlib.Core.Bool.{false≢true}
use mikrotik_bot.Prelude.{
  ℕ, ◌+◌, ◌≤◌, ◌≡◌, ◌≢◌, refl, ◌⊎◌, true, false, List, [], ◌∷◌, String, some, arith, string_eq,
  Result, err, eq_iff,
}
use mikrotik_bot.Dict.{get, set, pop}
use mikrotik_bot.Breaker.{CircuitBreaker, opened, get_state, can_attempt, on_failure}
use mikrotik_bot.Breaker.Phase.{Shows, attempt}
use mikrotik_bot.Breaker.Events.{
  Event, attempts, succeeds, fails, run, step, started, reached, breaker_refines,
}
use mikrotik_bot.Breaker.Windows.{fail_fast, single_trial}
use mikrotik_bot.Breaker.Recovery.{never_wedged}

abbrev two_failures : List Event
two_failures = fails "a" 5 ∷ fails "b" 6 ∷ fails "a" 10 ∷ []

breaker_refines_example :
    Shows (run (started 2 30) two_failures) "a" (reached 2 30 "a" two_failures)
    × ((can_attempt (run (started 2 30) two_failures) "a" 20 20).0
        ≡ (attempt 30 (reached 2 30 "a" two_failures) 20 20).0)
breaker_refines_example = breaker_refines 2 30 two_failures "a" 20 20

a_is_open : get_state (run (started 2 30) two_failures) "a" ≡ opened
unfolding get_state run step on_failure get set pop string_eq
a_is_open = refl

b_is_not_a : ◌≢◌ {A = String} "b" "a"
b_is_not_a e = false≢true ((eq_iff "b" "a").1 e)

fail_fast_example :
    (can_attempt
      (run
        (run (started 2 30) two_failures)
        (attempts "a" 20 20 ∷ succeeds "b" ∷ fails "a" 21 ∷ []))
      "a"
      39
      39).0
    ≡ false
unfolding get_state run step on_failure get set pop string_eq
fail_fast_example =
    fail_fast 2 30 two_failures (attempts "a" 20 20 ∷ succeeds "b" ∷ fails "a" 21 ∷ []) "a" 10 39 39
      refl refl ((λ e. omega arith), (b_is_not_a, (tt, tt))) (omega arith)

-- The window has passed at 40, and the trial is claimed at 41.
single_trial_example :
    (can_attempt
      (run
        (can_attempt (run (started 2 30) two_failures) "a" 40 41).1
        (attempts "a" 50 50 ∷ fails "b" 51 ∷ []))
      "a"
      70
      70).0
    ≡ false
unfolding get_state can_attempt run step on_failure get set pop string_eq
single_trial_example =
    single_trial 2 30 two_failures (attempts "a" 50 50 ∷ fails "b" 51 ∷ []) "a" 40 41 70 70
      (λ e. cc) refl ((λ e. omega arith), (b_is_not_a, tt)) (omega arith)

last_failure_of_a :
    (t : ℕ) → get (run (started 2 30) two_failures).last_failure_time "a" ≡ some t → t + 30 ≤ 60
unfolding run step on_failure get set pop string_eq
last_failure_of_a t e = ground arith

no_trial_of_a :
    (t : ℕ) → get (run (started 2 30) two_failures).trial_started_at "a" ≡ some t → t + 30 ≤ 60
unfolding run step on_failure get set pop string_eq
no_trial_of_a t e = ground arith

never_wedged_example :
    ((can_attempt (run (started 2 30) two_failures) "a" 60 61).0 ≡ true)
    ⊎ ((can_attempt (can_attempt (run (started 2 30) two_failures) "a" 60 61).1 "a" 91 91).0 ≡ true)
never_wedged_example =
    never_wedged 2 30 two_failures "a" 60 61 91 91 last_failure_of_a no_trial_of_a (omega arith)

abbrev failing : CircuitBreaker → Result ℕ ℕ × CircuitBreaker
failing cb = (err 7, cb)
