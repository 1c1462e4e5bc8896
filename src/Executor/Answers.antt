-- ===== src/Executor/Answers.antt =====
-- core/mikrotik_api.py: the answers of executions, and those of reboots.
use mikrotik_bot.Prelude.{
  ℕ, zero, suc, ◌+◌, ◌≤◌, ◌≡◌, refl, subst, ◌⊎◌, inl, inr, Bool, true, false, String, Result, ok,
  err, Bool-cases, ◌==◌, string_eq, arith, eq_of_beq, ap, sym, ◌∙◌,
}
use mikrotik_bot.Breaker.{CircuitBreaker, CircuitBreakerOpenError, before_request, on_success}
use mikrotik_bot.Pool.{ConnectionPool, PoolError, os_error}
use mikrotik_bot.Pool.Calls.{get_connection}
use mikrotik_bot.Executor.{
  MikrotikApi, Outside, ApiError, open_circuit, caught, uncaught, is_final, succeed, after_release,
  use_connection, with_connection, acquire, attempt_command, handle, settle, attempts_from, retries,
  throttled, enter, execute, api_error,
}

after_release-Allowed :
    {A B : Type 0} (P : Result ApiError A → Type 0) (message : PoolError → String)
    (released : Result PoolError B) (outcome : Result ApiError A)
    → ((e : ApiError) → P (err e))
    → P outcome
    → P (after_release message released outcome)
unfolding after_release
after_release-Allowed P message (ok b) outcome errors h = h
after_release-Allowed P message (err e) outcome errors h = errors (api_error message e)

module _ {Api Info Rows : Type 0} (out : Outside Api Info Rows) (k command : String) where
  -- an answer is what the command answered in one of the first attempts, or that of a reboot
  abbrev pub From : ℕ → Result ApiError Rows → Type 0
  From last (err e) = Unit
  From last (ok rows) =
      ((i : ℕ) × (i ≤ last) × (api : Api) × (out.call_command api i ≡ ok rows))
      ⊎ ((command ≡ "system/reboot") × (rows ≡ out.no_rows))

  From-err : (last : ℕ) (e : ApiError) → From last (err e)
  From-err last e = tt

  From-command :
      (last i : ℕ) (api : Api) (outcome : Result ApiError Rows)
      → i ≤ last
      → out.call_command api i ≡ outcome
      → From last outcome
  From-command last i api (ok rows) few same = inl (i, few, api, same)
  From-command last i api (err e) few same = tt

  with_connection-From :
      (last i : ℕ) (c : Result PoolError Api × ConnectionPool Api) (s : MikrotikApi Api)
      → i ≤ last
      → From last (with_connection out k i c s).0
  unfolding with_connection use_connection
  with_connection-From last i (err e, pool) s few = tt
  with_connection-From last i (ok api, pool) s few =
      after_release-Allowed (From last) (out.message i) _ (out.call_command api i) (From-err last)
        (From-command last i api (out.call_command api i) few refl)

  module _ (last : ℕ) (again : String → MikrotikApi Api → Result ApiError Rows × MikrotikApi Api)
      (next : (text : String) (s : MikrotikApi Api) → From last (again text s).0) where
    handle-From :
        (text : String) (s : MikrotikApi Api)
        → From last (handle out k command text (again text) s).0
    unfolding handle
    handle-From text s = elim (Bool-cases (command == "system/reboot")) [
      | inl reboot ↦ rw reboot (inr (eq_of_beq reboot, refl))
      | inr other ↦ elim (Bool-cases (is_final text)) [
        | inl final ↦ rw (other, final) tt
        | inr retry ↦ rw (other, retry) (next text s)
      ]
    ]

    settle-From :
        (r : Result ApiError Rows) (s : MikrotikApi Api)
        → From last r
        → From last (settle out k command again (r, s)).0
    unfolding settle
    settle-From (ok rows) s h = h
    settle-From (err (open_circuit e)) s h = tt
    settle-From (err uncaught) s h = tt
    settle-From (err (caught text)) s h = handle-From text s

  attempts_from-From :
      (left : ℕ) (force : Bool) (i : ℕ) (s : MikrotikApi Api)
      → From (i + left) (attempts_from out k command left force i s).0
  unfolding attempts_from attempt_command
  attempts_from-From zero force i s =
      settle-From (i + 0) _ (λ text s'. tt) _ _
        (with_connection-From (i + 0) i (acquire out k force i s.pool) s (omega arith))
  attempts_from-From (suc left) force i s =
      settle-From (i + suc left) _
        (λ text s'.
          subst (λ m. From m (attempts_from out k command left true (i + 1) s').0) (omega arith)
            (attempts_from-From left true (i + 1) s'))
        _ _ (with_connection-From (i + suc left) i (acquire out k force i s.pool) s (omega arith))

  enter-From :
      (c : Result CircuitBreakerOpenError (Unit {0}) × CircuitBreaker) (s : MikrotikApi Api)
      → From retries (enter out k command c s).0
  unfolding enter
  enter-From (ok _, breaker) s =
      attempts_from-From retries false 0 (throttled out k command breaker s)
  enter-From (err e, breaker) s = tt

  -- If an execution returns, then what it returns is what the command answered on some connection in
  -- one of the first three attempts; or the command is a reboot and the answer is empty.
  pub execute_answers : (s : MikrotikApi Api) → From retries (execute out k command s).0
  unfolding execute
  execute_answers s = enter-From (before_request s.circuit_breaker k out.asked_at out.claimed_at) s

module _ {Api Info Rows : Type 0} (out : Outside Api Info Rows) (k : String) where
  attempt_unconnected :
      (s : MikrotikApi Api) (pool : ConnectionPool Api)
      → get_connection (out.link 0) k s.pool ≡ (err os_error, pool)
      → attempt_command out k false 0 s
        ≡ (err (caught (out.message 0 os_error)), record s { pool = pool })
  unfolding attempt_command acquire with_connection api_error
  attempt_unconnected s pool unconnected = ap (λ c. with_connection out k 0 c s) unconnected

  unsent :
      (s : MikrotikApi Api) (breaker : CircuitBreaker) (pool : ConnectionPool Api)
      → before_request s.circuit_breaker k out.asked_at out.claimed_at ≡ (ok tt, breaker)
      → get_connection (out.link 0) k s.pool ≡ (err os_error, pool)
      → execute out k "system/reboot" s ≡ (
        ok out.no_rows,
        succeed out k (record (throttled out k "system/reboot" breaker s) { pool = pool }),
      )
  unfolding execute enter attempts_from
  unsent s breaker pool admitted unconnected =
      let waiting = throttled out k "system/reboot" breaker s in
      rw (admitted, enter, attempts_from, attempt_unconnected waiting pool unconnected)
        (unfold settle handle string_eq in refl)

module _ {Api Info Rows : Type 0} (out : Outside Api Info Rows) (k : String) where
  -- Let the breaker admit the request, and let the pool raise an OSError, a timeout for example,
  -- instead of giving a connection. A reboot then returns the empty answer, the answer of a reboot
  -- that was sent, and the breaker is told of a success; and the result and the state are the same
  -- whatever any connection would answer to any command: nothing was sent.
  pub reboot_unsent :
      (s : MikrotikApi Api) (breaker : CircuitBreaker) (pool : ConnectionPool Api)
      (call_command : Api → ℕ → Result ApiError Rows)
      → before_request s.circuit_breaker k out.asked_at out.claimed_at ≡ (ok tt, breaker)
      → get_connection (out.link 0) k s.pool ≡ (err os_error, pool)
      → ((execute out k "system/reboot" s).0 ≡ ok out.no_rows)
        × ((execute out k "system/reboot" s).1.circuit_breaker ≡ on_success breaker k)
        × ((execute out k "system/reboot" s).1.pool ≡ pool)
        × (execute (record out { call_command = call_command }) k "system/reboot" s
            ≡ execute out k "system/reboot" s)
  unfolding succeed
  reboot_unsent s breaker pool call_command admitted unconnected =
      let here = unsent out k s breaker pool admitted unconnected in
      let there =
        unsent (record out { call_command = call_command }) k s breaker pool admitted unconnected in
      (
        ap (λ r. r.0) here,
        ap (λ r. r.1.circuit_breaker) here,
        ap (λ r. r.1.pool) here,
        there ∙ sym here,
      )
