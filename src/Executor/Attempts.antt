-- ===== src/Executor/Attempts.antt =====
-- core/mikrotik_api.py: what one attempt of the retry template leaves behind.
use mikrotik_bot.Prelude.{ℕ, ◌≡◌, refl, ◌∙◌, ◌⊎◌, inr, Bool, true, false, String, Result, ok, err}
use mikrotik_bot.Breaker.{CircuitBreaker, on_success}
use mikrotik_bot.Breaker.Phase.{Phase, closed_after, Shows, success-Shows}
use mikrotik_bot.Breaker.Events.{step_threshold, succeeds, step}
use mikrotik_bot.Pool.{PoolError, ConnectionPool}
use mikrotik_bot.Pool.Bounds.{IsBounded}
use mikrotik_bot.Pool.Capped.{
  get_connection-IsBounded, release_connection-IsBounded, reconnect-IsBounded,
}
use mikrotik_bot.Executor.{
  MikrotikApi, Outside, ApiError, note, succeed, use_connection, acquire, attempt_command,
  with_connection, after_release,
}

-- The breaker shows phase `p`, or the closed circuit of a success reported meanwhile.
abbrev pub At : String → Phase → ℕ → CircuitBreaker → Type 0
At k p n cb =
    (q : Phase) × ((q ≡ p) ⊎ (q ≡ closed_after 0)) × Shows cb k q × (cb.failure_threshold ≡ n)

-- If the outcome is a value, a success was reported.
abbrev pub Attempted :
    {Rows : Type 0} → String → Phase → ℕ → Result ApiError Rows → CircuitBreaker → Type 0
Attempted k p n (ok rows) cb = Shows cb k (closed_after 0)
Attempted k p n (err e) cb = At k p n cb

pub success-threshold :
    (cb : CircuitBreaker) (k : String) → (on_success cb k).failure_threshold ≡ cb.failure_threshold
unfolding step
success-threshold cb k = step_threshold cb (succeeds k)

pub success-At :
    (cb : CircuitBreaker) (k : String) (p : Phase) (n : ℕ)
    → At k p n cb
    → Shows (on_success cb k) k (closed_after 0) × At k p n (on_success cb k)
success-At cb k p n (q, _, h, e) =
    let shown = success-Shows cb k q h in
    (shown, (closed_after 0, inr refl, shown, success-threshold cb k ∙ e))

released-Attempted :
    {Rows B : Type 0} (message : PoolError → String) (released : Result PoolError B)
    (outcome : Result ApiError Rows) (k : String) (p : Phase) (n : ℕ) (cb : CircuitBreaker)
    → Attempted k p n outcome cb
    → At k p n cb
    → Attempted k p n (after_release message released outcome) cb
unfolding after_release
released-Attempted message (ok b) outcome k p n cb h at = h
released-Attempted message (err e) outcome k p n cb h at = at

module _ {Api Info Rows : Type 0} (out : Outside Api Info Rows) (k : String) where
  module _ (p : Phase) (n : ℕ) where
    use_connection-Attempted :
        (i : ℕ) (api : Api) (outcome : Result ApiError Rows) (s : MikrotikApi Api)
        → At k p n s.circuit_breaker
        → Attempted k p n
            (use_connection out k i api outcome s).0
            (use_connection out k i api outcome s).1.circuit_breaker
    unfolding use_connection note succeed
    use_connection-Attempted i api (ok rows) s h =
        let (shown, at) = success-At s.circuit_breaker k p n h in
        released-Attempted (out.message i) _ (ok rows) k p n _ shown at
    use_connection-Attempted i api (err e) s h =
        released-Attempted {Rows = Rows} (out.message i) _ (err e) k p n _ h h

    with_connection-Attempted :
        (i : ℕ) (c : Result PoolError Api × ConnectionPool Api) (s : MikrotikApi Api)
        → At k p n s.circuit_breaker
        → Attempted k p n
            (with_connection out k i c s).0
            (with_connection out k i c s).1.circuit_breaker
    unfolding with_connection
    with_connection-Attempted i (ok api, pool) s h =
        use_connection-Attempted i api (out.call_command api i) _ h
    with_connection-Attempted i (err e, pool) s h = h

    pub attempt_command-Attempted :
        (force : Bool) (i : ℕ) (s : MikrotikApi Api)
        → At k p n s.circuit_breaker
        → Attempted k p n
            (attempt_command out k force i s).0
            (attempt_command out k force i s).1.circuit_breaker
    unfolding attempt_command
    attempt_command-Attempted force i s h =
        with_connection-Attempted i (acquire out k force i s.pool) s h

  use_connection-IsBounded :
      (i : ℕ) (api : Api) (outcome : Result ApiError Rows) (s : MikrotikApi Api)
      → IsBounded s.pool
      → IsBounded (use_connection out k i api outcome s).1.pool
  unfolding use_connection note succeed
  use_connection-IsBounded i api (ok rows) s h =
      release_connection-IsBounded (out.link i) k api _ _ h
  use_connection-IsBounded i api (err e) s h = release_connection-IsBounded (out.link i) k api _ _ h

  with_connection-IsBounded :
      (i : ℕ) (c : Result PoolError Api × ConnectionPool Api) (s : MikrotikApi Api)
      → IsBounded c.1
      → IsBounded (with_connection out k i c s).1.pool
  unfolding with_connection
  with_connection-IsBounded i (ok api, pool) s h =
      use_connection-IsBounded i api (out.call_command api i) _ h
  with_connection-IsBounded i (err e, pool) s h = h

  acquire-IsBounded :
      (force : Bool) (i : ℕ) (p : ConnectionPool Api)
      → IsBounded p
      → IsBounded (acquire out k force i p).1
  unfolding acquire
  acquire-IsBounded true i p h = reconnect-IsBounded (out.link i) k p h
  acquire-IsBounded false i p h = get_connection-IsBounded (out.link i) k p h

  pub attempt_command-IsBounded :
      (force : Bool) (i : ℕ) (s : MikrotikApi Api)
      → IsBounded s.pool
      → IsBounded (attempt_command out k force i s).1.pool
  unfolding attempt_command
  attempt_command-IsBounded force i s h =
      with_connection-IsBounded i (acquire out k force i s.pool) s
        (acquire-IsBounded force i s.pool h)
