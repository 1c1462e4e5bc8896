-- ===== src/Pool/Retry.antt =====
-- `_connect_with_retry` of core/connection_pool.py.
use mikrotik_bot.Prelude.{
  ℕ, zero, suc, ◌+◌, ◌≤◌, ◌≡◌, ◌∙◌, ap, String, inl, inr, Result-cases, Result, ok, err, arith, min,
  leb, if◌then◌else◌,
}
use mikrotik_bot.Pool.{
  Link, ConnectionPool, PoolError, librouteros_error, connect_from, connect_with_retry,
  open_connection,
}

-- Two pools differ in the connection counters alone.
pub record SameBut {Api : Type 0} (p p' : ConnectionPool Api) : Type 0 where
  pub pools : p'.pools ≡ p.pools
  pub active_counts : p'.active_counts ≡ p.active_counts
  pub router_versions : p'.router_versions ≡ p.router_versions
  pub router_names : p'.router_names ≡ p.router_names
  pub cache_hits : p'.cache_hits ≡ p.cache_hits
  pub closed : p'.closed ≡ p.closed

-- the librouteros errors in a row from attempt `i` on, `left` attempts at most
unfoldable pub leading_failures : {Api : Type 0} → (ℕ → Result PoolError Api) → ℕ → ℕ → ℕ
leading_failures connect zero i = 0
leading_failures connect (suc left) i =
    let rest = leading_failures connect left (i + 1) in
    elim (connect i) [ ok api ↦ 0 | err e ↦ elim e [ librouteros_error ↦ suc rest | _ ↦ 0 ] ]

abbrev pub successes : {Api : Type 0} → Result PoolError Api → ℕ
successes (ok api) = 1
successes (err e) = 0

module _ {Api Info : Type 0} (link : Link Api Info) where
  connect_from-SameBut :
      (left attempt : ℕ) (info : Info) (p : ConnectionPool Api)
      → SameBut p (connect_from link left attempt info p).1
  unfolding connect_from
  connect_from-SameBut zero attempt info p = ground arith
  connect_from-SameBut (suc left) attempt info p = ground (
    arith,
    connect_from-SameBut left (attempt + 1) info (record p {
      total_connection_attempts = p.total_connection_attempts + 1;
      failed_connections = p.failed_connections + 1;
    }),
  )

  pub open_connection-SameBut :
      (k : String) (p : ConnectionPool Api) → SameBut p (open_connection link k p).1
  unfolding open_connection connect_with_retry
  open_connection-SameBut k p = elim (Result-cases (link.router_info k)) [
    | inl (info, e) ↦ rw (e, open_connection) (connect_from-SameBut 3 0 info p)
    | inr (x, e) ↦ rw (e, open_connection) (ground arith)
  ]

  connect_from_counts :
      (left i : ℕ) (info : Info) (p : ConnectionPool Api)
      → let n = leading_failures (link.connect info) left i in
        let r = connect_from link left i info p in
        (r.0 ≡ (if leb left n then err librouteros_error else link.connect info (i + n)))
        × (n ≤ left)
        × (r.1.failed_connections ≡ p.failed_connections + n)
        × (r.1.total_connection_attempts ≡ p.total_connection_attempts + min left (n + 1))
        × (r.1.successful_connections ≡ p.successful_connections + successes r.0)
  unfolding connect_from leading_failures
  connect_from_counts zero i info p = ground arith
  connect_from_counts (suc left) i info p = ground (
    arith,
    ap (link.connect info) add_shift,
    connect_from_counts left (i + 1) info (record p {
      total_connection_attempts = p.total_connection_attempts + 1;
      failed_connections = p.failed_connections + 1;
    }),
  )
    where
      add_shift :
          i + 1 + leading_failures (link.connect info) left (i + 1)
          ≡ i + suc (leading_failures (link.connect info) left (i + 1))
      add_shift = omega arith

  -- Let `n` be the number of librouteros errors in a row at the beginning of three attempts. Then
  -- `_connect_with_retry` gives the outcome of attempt `n`, or raises a librouteros error if all
  -- three failed so; it counts `n` failures, one attempt more than that but three at most, and one
  -- success exactly if it returns; and it changes nothing else of the pool.
  pub connect_with_retry_counts :
      (info : Info) (p : ConnectionPool Api)
      → let n = leading_failures (link.connect info) 3 0 in
        let r = connect_with_retry link info p in
        (r.0 ≡ (if leb 3 n then err librouteros_error else link.connect info n))
        × (r.1.failed_connections ≡ p.failed_connections + n)
        × (r.1.total_connection_attempts ≡ p.total_connection_attempts + min 3 (n + 1))
        × (r.1.successful_connections ≡ p.successful_connections + successes r.0)
        × SameBut p r.1
  unfolding connect_with_retry
  connect_with_retry_counts info p =
      let (outcome, few, failed, total, successful) = connect_from_counts 3 0 info p in
      let n = leading_failures (link.connect info) 3 0 in
      let shift : 0 + n ≡ n = omega arith in
      (
        outcome ∙ ap (λ m. if leb 3 n then err librouteros_error else link.connect info m) shift,
        failed,
        total,
        successful,
        connect_from-SameBut 3 0 info p,
      )
