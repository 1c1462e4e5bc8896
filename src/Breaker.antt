-- ===== src/Breaker.antt =====
-- core/circuit_breaker.py. Times are ticks of `time.monotonic()`, and each reading of the clock
-- within a call is an argument: `now` is the first one, `later` the second. A test such as
-- `now - last >= timeout` is written `last + timeout ≤ now`, which is the same over the integers.
pub mod Phase
pub mod Events
pub mod Windows
pub mod Recovery
pub mod Wrap
use mikrotik_bot.Prelude.{
  ℕ, ◌+◌, String, Bool, true, false, ◌&&◌, Option, none, some, [], leb, if◌then◌else◌, get_or,
  string_eq, Result, ok, err,
}
use mikrotik_bot.Dict.{Dict, get, set, pop}

pub data CircuitState : Type 0 where
  closed opened half_open : CircuitState

pub data CircuitBreakerOpenError : Type 0 where
  circuit_open : String → CircuitBreakerOpenError

pub record CircuitBreaker : Type 0 where
  pub failure_threshold : ℕ
  pub reset_timeout : ℕ
  pub state : Dict String CircuitState
  pub failure_count : Dict String ℕ
  pub last_failure_time : Dict String ℕ
  pub in_trial : Dict String Bool
  pub trial_started_at : Dict String ℕ

-- __init__
abbrev pub init : ℕ → ℕ → CircuitBreaker
init failure_threshold reset_timeout = record {
  failure_threshold = failure_threshold;
  reset_timeout = reset_timeout;
  state = [];
  failure_count = [];
  last_failure_time = [];
  in_trial = [];
  trial_started_at = [];
}

-- get_state, _get_state
unfoldable pub get_state : CircuitBreaker → String → CircuitState
get_state cb k = get_or (get cb.state k) closed

unfoldable pub get_failure_count : CircuitBreaker → String → ℕ
get_failure_count cb k = get_or (get cb.failure_count k) 0

-- self._in_trial[k] = True; self._trial_started_at[k] = t
claim_trial : CircuitBreaker → String → ℕ → CircuitBreaker
claim_trial cb k t = record cb {
  in_trial = set cb.in_trial k true;
  trial_started_at = set cb.trial_started_at k t;
}

-- the two `pop`s that give the trial slot back
drop_trial : CircuitBreaker → String → CircuitBreaker
drop_trial cb k = record cb {
  in_trial = pop cb.in_trial k;
  trial_started_at = pop cb.trial_started_at k;
}

-- self._state[k] = OPEN; self._last_failure_time[k] = t
trip : CircuitBreaker → String → ℕ → CircuitBreaker
trip cb k t = record cb {
  state = set cb.state k opened;
  last_failure_time = set cb.last_failure_time k t;
}

-- started is not None and time.monotonic() - started >= self._reset_timeout
is_leaked : Option ℕ → ℕ → ℕ → Bool
is_leaked none timeout now = false
is_leaked (some started) timeout now = leb (started + timeout) now

attempt_in : CircuitState → CircuitBreaker → String → ℕ → ℕ → Bool × CircuitBreaker
unfolding claim_trial drop_trial trip is_leaked
attempt_in closed cb k now later = (true, cb)
attempt_in opened cb k now later =
    if leb (get_or (get cb.last_failure_time k) 0 + cb.reset_timeout) now
    then (true, claim_trial (record cb { state = set cb.state k half_open }) k later)
    else (false, cb)
attempt_in half_open cb k now later =
    if get_or (get cb.in_trial k) false
    then (if is_leaked (get cb.trial_started_at k) cb.reset_timeout now
        then (false, trip (drop_trial cb k) k later)
        else (false, cb))
    else (true, claim_trial cb k now)

-- _can_attempt
unfoldable pub can_attempt : CircuitBreaker → String → ℕ → ℕ → Bool × CircuitBreaker
unfolding attempt_in get_state
can_attempt cb k now later = attempt_in (get_state cb k) cb k now later

unfoldable pub before_request :
    CircuitBreaker → String → ℕ → ℕ → Result CircuitBreakerOpenError (Unit {0}) × CircuitBreaker
before_request cb k now later =
    let (allowed, cb') = can_attempt cb k now later in
    if allowed then (ok tt, cb') else (err (circuit_open k), cb')

close_from : CircuitState → CircuitBreaker → String → CircuitBreaker
close_from closed cb k = cb
close_from opened cb k = record cb { state = set cb.state k closed }
close_from half_open cb k = record cb { state = set cb.state k closed }

unfoldable pub on_success : CircuitBreaker → String → CircuitBreaker
unfolding close_from drop_trial get_state
on_success cb k =
    close_from (get_state cb k)
      (drop_trial (record cb { failure_count = set cb.failure_count k 0 }) k) k

-- the `else` branch of `on_failure`: one more failure, and the circuit opens at the threshold
count_failure : Bool → CircuitBreaker → String → ℕ → CircuitBreaker
unfolding trip get_failure_count
count_failure was_closed cb k now =
    let count = get_failure_count cb k + 1 in
    let counted = record cb { failure_count = set cb.failure_count k count } in
    if leb cb.failure_threshold count && was_closed then trip counted k now else counted

fail_in : CircuitState → CircuitBreaker → String → ℕ → CircuitBreaker
unfolding count_failure
fail_in half_open cb k now =
    trip (drop_trial (record cb { failure_count = set cb.failure_count k 0 }) k) k now
fail_in closed cb k now = count_failure true cb k now
fail_in opened cb k now = count_failure false cb k now

unfoldable pub on_failure : CircuitBreaker → String → ℕ → CircuitBreaker
unfolding fail_in drop_trial get_state
on_failure cb k now = fail_in (get_state cb k) cb k now

unfoldable pub reset : CircuitBreaker → String → CircuitBreaker
reset cb k = record cb {
  state = pop cb.state k;
  failure_count = pop cb.failure_count k;
  last_failure_time = pop cb.last_failure_time k;
  in_trial = pop cb.in_trial k;
  trial_started_at = pop cb.trial_started_at k;
}

pub data WrapError (E : Type 0) : Type 0 where
  short_circuited : CircuitBreakerOpenError → WrapError E
  raised : E → WrapError E

module _ {E A : Type 0} where
  report : String → ℕ → Result E A × CircuitBreaker → Result (WrapError E) A × CircuitBreaker
  report k failed_at (ok a, cb) = (ok a, on_success cb k)
  report k failed_at (err e, cb) = (err (raised e), on_failure cb k failed_at)

  -- `wrap(k, func)`: `func` may use the breaker itself, and so may other threads while it runs
  unfoldable pub wrap :
      (CircuitBreaker → Result E A × CircuitBreaker)
      → CircuitBreaker
      → String
      → ℕ
      → ℕ
      → ℕ
      → Result (WrapError E) A × CircuitBreaker
  unfolding report
  wrap func cb k now later failed_at =
      let (admitted, cb') = before_request cb k now later in
      elim admitted [
        | ok _ ↦ report k failed_at (func cb')
        | err e ↦ (err (short_circuited e), cb')
      ]
