-- ===== src/Api/Health.antt =====
-- core/mikrotik_api.py: `check_connection_health` and `execute_non_blocking`, which use the
-- connection context without the circuit breaker and without a second attempt.
use mikrotik_bot.Prelude.{String, Bool, true, false, List, [], ◌∷◌, Result, ok, err}
use mikrotik_bot.Action.{Fault, ◌>>=◌}
use mikrotik_bot.Client.{Row}
use mikrotik_bot.Pool.{ConnectionPool, PoolError}
use mikrotik_bot.Pool.Calls.{get_connection, release_connection}
use mikrotik_bot.Executor.{
  Outside, ApiError, caught, uncaught, is_broken, after_release, api_error, throttle,
}
use mikrotik_bot.Api.{
  Gateway, State, set_pool, api_timeout, get_router_name, log_action_best_effort,
}

module _ {Api Info W : Type 0} (gateway : Gateway Api Info W) (k : String) where
  abbrev pub released :
      {A : Type 0}
      → Outside Api Info (List Row)
      → Api
      → Result ApiError A × State Api W
      → Result ApiError A × State Api W
  released out api (outcome, s) =
      let r = release_connection (out.link 0) k api (is_broken outcome) s.mikrotik.pool in
      (after_release (out.message 0) r.0 outcome, set_pool gateway s r.1)

  -- `_connection_ctx` around a body, once the pool has answered
  unfoldable pub with_api :
      {A : Type 0}
      → Outside Api Info (List Row)
      → (Api → State Api W → Result ApiError A × State Api W)
      → Result PoolError Api × ConnectionPool Api
      → State Api W
      → Result ApiError A × State Api W
  with_api out body (ok api, pool) s = released out api (body api (set_pool gateway s pool))
  with_api out body (err e, pool) s = (err (api_error (out.message 0) e), set_pool gateway s pool)

  -- `self._connection_ctx(router_key, timeout)`, without a forced reconnection
  unfoldable pub connection_ctx :
      {A : Type 0}
      → Outside Api Info (List Row)
      → (Api → State Api W → Result ApiError A × State Api W)
      → State Api W
      → Result ApiError A × State Api W
  connection_ctx out body s = with_api out body (get_connection (out.link 0) k s.mikrotik.pool) s

  abbrev pub throttled : Outside Api Info (List Row) → State Api W → State Api W
  throttled out s = record s {
    mikrotik = record s.mikrotik {
      last_api_call = (throttle s.mikrotik.last_api_call k out.throttled_at).1;
    };
  }

  -- str(e), where the text of an error that is not caught by name is `crash`
  abbrev pub text_of : String → ApiError → String
  text_of crash (caught text) = text
  text_of crash _ = crash

  unfoldable pub health_of : String → Result ApiError (List Row) → Bool × String
  health_of crash (ok []) = (false, "empty_response")
  health_of crash (ok (row ∷ rows)) = (true, "healthy")
  health_of crash (err e) = (false, text_of crash e)

  unfoldable pub check_connection_health : String → State Api W → (Bool × String) × State Api W
  check_connection_health crash s =
      let asked = gateway.execution api_timeout k "system/resource/print" [] s.world in
      let r =
        connection_ctx asked.0 (λ api t. (asked.0.call_command api 0, t))
          (throttled asked.0 (record s { world = asked.1 })) in
      (health_of crash r.0, r.1)

  -- the name and the log of the action, inside the connection context: an exception that the body
  -- lets through marks the connection as broken
  abbrev pub logged :
      Result Fault (Unit {0}) × State Api W → Result ApiError (Unit {0}) × State Api W
  logged (ok _, s) = (ok tt, s)
  logged (err e, s) = (err uncaught, s)

  unfoldable pub log_sent :
      String → Result ApiError (List Row) → State Api W → Result ApiError (Unit {0}) × State Api W
  log_sent command (ok rows) s = logged (
      (get_router_name gateway k >>= λ router_name.
      log_action_best_effort gateway k command router_name)
        s)
  log_sent command (err e) s = (err e, s)

  -- `_execute_non_blocking_locked`: whatever is raised is logged and dropped
  unfoldable pub execute_non_blocking : String → Row → State Api W → State Api W
  execute_non_blocking command kwargs s =
      let asked = gateway.execution api_timeout k command kwargs s.world in
      (connection_ctx asked.0 (λ api. log_sent command (asked.0.call_command api 0))
        (record s { world = asked.1 })).1
