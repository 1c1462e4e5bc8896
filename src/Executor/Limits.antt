-- ===== src/Executor/Limits.antt =====
-- core/mikrotik_api.py: an execution leaves the pool within its bounds.
use mikrotik_bot.Prelude.{
  ℕ, zero, suc, ◌+◌, inl, inr, Bool, true, false, String, Result, ok, err, Bool-cases, ◌==◌,
  string_eq,
}
use mikrotik_bot.Breaker.{CircuitBreaker, CircuitBreakerOpenError}
use mikrotik_bot.Pool.Bounds.{IsBounded}
use mikrotik_bot.Executor.{
  MikrotikApi, Outside, ApiError, open_circuit, caught, uncaught, is_final, succeed, fail, handle,
  settle, attempts_from, retries, throttled, enter, execute,
}
use mikrotik_bot.Executor.Attempts.{attempt_command-IsBounded}

module _ {Api Info Rows : Type 0} (out : Outside Api Info Rows) (k command : String) where
  module _ (again : String → MikrotikApi Api → Result ApiError Rows × MikrotikApi Api)
      (next : (text : String) (s : MikrotikApi Api)
        → IsBounded s.pool
        → IsBounded (again text s).1.pool) where
    handle-IsBounded :
        (text : String) (s : MikrotikApi Api)
        → IsBounded s.pool
        → IsBounded (handle out k command text (again text) s).1.pool
    unfolding handle succeed
    handle-IsBounded text s h = elim (Bool-cases (command == "system/reboot")) [
      | inl reboot ↦ rw reboot h
      | inr other ↦ elim (Bool-cases (is_final text)) [
        | inl final ↦ rw (other, final) h
        | inr retry ↦ rw (other, retry) (next text s h)
      ]
    ]

    settle-IsBounded :
        (r : Result ApiError Rows) (s : MikrotikApi Api)
        → IsBounded s.pool
        → IsBounded (settle out k command again (r, s)).1.pool
    unfolding settle
    settle-IsBounded (ok rows) s h = h
    settle-IsBounded (err (open_circuit e)) s h = h
    settle-IsBounded (err uncaught) s h = h
    settle-IsBounded (err (caught text)) s h = handle-IsBounded text s h

  attempts_from-IsBounded :
      (left : ℕ) (force : Bool) (i : ℕ) (s : MikrotikApi Api)
      → IsBounded s.pool
      → IsBounded (attempts_from out k command left force i s).1.pool
  unfolding attempts_from fail
  attempts_from-IsBounded zero force i s h =
      settle-IsBounded _ (λ text s' h'. h') _ _ (attempt_command-IsBounded out k force i s h)
  attempts_from-IsBounded (suc left) force i s h =
      settle-IsBounded _ (λ text s' h'. attempts_from-IsBounded left true (i + 1) s' h') _ _
        (attempt_command-IsBounded out k force i s h)

  enter-IsBounded :
      (c : Result CircuitBreakerOpenError (Unit {0}) × CircuitBreaker) (s : MikrotikApi Api)
      → IsBounded s.pool
      → IsBounded (enter out k command c s).1.pool
  unfolding enter
  enter-IsBounded (ok _, breaker) s h =
      attempts_from-IsBounded retries false 0 (throttled out k command breaker s) h
  enter-IsBounded (err e, breaker) s h = h

  pub execute-IsBounded :
      (s : MikrotikApi Api) → IsBounded s.pool → IsBounded (execute out k command s).1.pool
  unfolding execute
  execute-IsBounded s h = enter-IsBounded _ s h
