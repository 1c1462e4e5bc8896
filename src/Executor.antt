-- ===== src/Executor.antt =====
-- core/mikrotik_api.py, the execution template of `MikrotikAPI`. Times are milliseconds. What the
-- outside does during one execution is an `Outside`: its connections during each attempt, the text
-- of each error, the outcome of each command and the readings of the clock. An execution is
-- modelled as one thread runs it; logging and sleeping leave no trace in the state.
pub mod Throttle
pub mod Attempts
pub mod Outcomes
pub mod Limits
pub mod Answers
use text.Mathlib.Text.{find?}
use mikrotik_bot.Prelude.{
  ℕ, zero, suc, ◌+◌, ◌-◌, String, Bool, true, false, ◌||◌, not, [], List, if◌then◌else◌, get_or,
  is_some, string_eq, Result, ok, err, ◌==◌,
}
use mikrotik_bot.Dict.{Dict, get, set}
use mikrotik_bot.Breaker.{
  CircuitBreaker, CircuitBreakerOpenError, before_request, on_success, on_failure,
}
use mikrotik_bot.Breaker
use mikrotik_bot.Pool.{
  Link, ConnectionPool, PoolError, router_not_found, librouteros_error, other_error, os_error,
}
use mikrotik_bot.Pool
use mikrotik_bot.Pool.Calls.{get_connection, release_connection, reconnect}

abbrev pub min_interval : ℕ
min_interval = 100

-- len(_RETRY_DELAYS)
abbrev pub retries : ℕ
retries = 2

-- `caught e` is a LibRouterosError, ConnectionError or OSError with str(e), `uncaught` any other
-- exception of the connection or the command
pub data ApiError : Type 0 where
  open_circuit : CircuitBreakerOpenError → ApiError
  caught : String → ApiError
  uncaught : ApiError

pub record Outside (Api Info Rows : Type 0) : Type 0 where
  pub link : ℕ → Link Api Info
  pub message : ℕ → PoolError → String
  pub call_command : Api → ℕ → Result ApiError Rows
  -- the empty answer
  pub no_rows : Rows
  -- the clock of `before_request` (twice), of `_throttle` and of `on_failure`
  pub asked_at : ℕ
  pub claimed_at : ℕ
  pub throttled_at : ℕ
  pub failed_at : ℕ

pub record MikrotikApi (Api : Type 0) : Type 0 where
  pub pool : ConnectionPool Api
  pub last_api_call : Dict String ℕ
  pub circuit_breaker : CircuitBreaker

abbrev pub init : {Api : Type 0} → MikrotikApi Api
init = record { pool = Pool.init; last_api_call = []; circuit_breaker = Breaker.init 3 30000 }

-- any(pat in str(e) for pat in NON_RETRYABLE_ERRORS)
unfoldable pub is_final : String → Bool
is_final text = is_some (find? text "unknown parameter") || is_some (find? text "no such command")

-- how `_connection_ctx` sees the outcome of its body
unfoldable pub is_broken : {A : Type 0} → Result ApiError A → Bool
unfolding is_final
is_broken (ok a) = false
is_broken (err e) = elim e [ caught text ↦ not (is_final text) | _ ↦ true ]

-- the exception that leaves the pool
unfoldable pub api_error : (PoolError → String) → PoolError → ApiError
api_error message router_not_found = uncaught
api_error message librouteros_error = caught (message librouteros_error)
api_error message os_error = caught (message os_error)
api_error message other_error = uncaught

-- `_throttle`: how long to sleep, and until when
-- max(0, min_interval - (now - last)) is last + min_interval - now, or 0
unfoldable pub throttle : Dict String ℕ → String → ℕ → ℕ × Dict String ℕ
throttle last_api_call k now =
    let sleep_needed = get_or (get last_api_call k) 0 + min_interval - now in
    (sleep_needed, set last_api_call k (now + sleep_needed))

-- an exception of `release_connection` takes the place of the outcome
unfoldable pub after_release :
    {A B : Type 0}
    → (PoolError → String)
    → Result PoolError B
    → Result ApiError A
    → Result ApiError A
unfolding api_error
after_release message (ok b) outcome = outcome
after_release message (err e) outcome = err (api_error message e)

module _ {Api Info Rows : Type 0} (out : Outside Api Info Rows) (k : String) where
  unfoldable pub succeed : MikrotikApi Api → MikrotikApi Api
  succeed s = record s { circuit_breaker = on_success s.circuit_breaker k }

  unfoldable pub fail : MikrotikApi Api → MikrotikApi Api
  fail s = record s { circuit_breaker = on_failure s.circuit_breaker k out.failed_at }

  -- the `with` body after the command: a success is reported before the connection goes back
  unfoldable pub note : Result ApiError Rows → MikrotikApi Api → MikrotikApi Api
  unfolding succeed
  note (ok rows) s = succeed s
  note (err e) s = s

  -- the rest of the `with` block on connection `api` in attempt `i`
  unfoldable pub use_connection :
      ℕ → Api → Result ApiError Rows → MikrotikApi Api → Result ApiError Rows × MikrotikApi Api
  unfolding note after_release is_broken
  use_connection i api outcome s =
      let noted = note outcome s in
      let (released, pool) = release_connection (out.link i) k api (is_broken outcome) noted.pool in
      (after_release (out.message i) released outcome, record noted { pool = pool })

  acquire : Bool → ℕ → ConnectionPool Api → Result PoolError Api × ConnectionPool Api
  acquire force i p = if force then reconnect (out.link i) k p else get_connection (out.link i) k p

  -- the body of `_connection_ctx`, once the pool has answered
  unfoldable pub with_connection :
      ℕ
      → Result PoolError Api × ConnectionPool Api
      → MikrotikApi Api
      → Result ApiError Rows × MikrotikApi Api
  unfolding use_connection api_error
  with_connection i (ok api, pool) s =
      use_connection i api (out.call_command api i) (record s { pool = pool })
  with_connection i (err e, pool) s = (err (api_error (out.message i) e), record s { pool = pool })

  -- one attempt: `_connection_ctx` around `_call_command`
  unfoldable pub attempt_command :
      Bool → ℕ → MikrotikApi Api → Result ApiError Rows × MikrotikApi Api
  unfolding acquire with_connection
  attempt_command force i s = with_connection i (acquire force i s.pool) s

  module _ (command : String) where
    -- the handler of a caught error, where `again` is what the rest of the loop does
    unfoldable pub handle :
        String
        → (MikrotikApi Api → Result ApiError Rows × MikrotikApi Api)
        → MikrotikApi Api
        → Result ApiError Rows × MikrotikApi Api
    unfolding succeed is_final
    handle text again s =
        if command == "system/reboot"
        then (ok out.no_rows, succeed s)
        else if is_final text
        then (err (caught text), succeed s)
        else again s

    unfoldable pub settle :
        (String → MikrotikApi Api → Result ApiError Rows × MikrotikApi Api)
        → Result ApiError Rows × MikrotikApi Api
        → Result ApiError Rows × MikrotikApi Api
    unfolding handle
    settle again (ok rows, s) = (ok rows, s)
    settle again (err e, s) = elim e [
      | caught text ↦ handle text (again text) s
      | other ↦ (err other, s)
    ]

    -- the loop from attempt `i` on, with the number of attempts that may follow it
    unfoldable pub attempts_from :
        ℕ → Bool → ℕ → MikrotikApi Api → Result ApiError Rows × MikrotikApi Api
    unfolding settle fail attempt_command
    attempts_from zero force i s =
        settle (λ text s'. (err (caught text), fail s')) (attempt_command force i s)
    attempts_from (suc left) force i s =
        settle (λ text s'. attempts_from left true (i + 1) s') (attempt_command force i s)

    -- `_throttle` on the state, once the breaker has let the request pass
    abbrev pub throttled : CircuitBreaker → MikrotikApi Api → MikrotikApi Api
    throttled breaker s = record s {
      last_api_call = (throttle s.last_api_call k out.throttled_at).1;
      circuit_breaker = breaker;
    }

    -- the rest of `_execute_locked`
    unfoldable pub enter :
        Result CircuitBreakerOpenError (Unit {0}) × CircuitBreaker
        → MikrotikApi Api
        → Result ApiError Rows × MikrotikApi Api
    unfolding attempts_from throttle
    enter (ok _, breaker) s = attempts_from retries false 0 (throttled breaker s)
    enter (err e, breaker) s = (err (open_circuit e), record s { circuit_breaker = breaker })

    -- `_execute_locked`
    unfoldable pub execute : MikrotikApi Api → Result ApiError Rows × MikrotikApi Api
    unfolding enter
    execute s = enter (before_request s.circuit_breaker k out.asked_at out.claimed_at) s
