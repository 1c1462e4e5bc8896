-- ===== src/Pool.antt =====
-- core/connection_pool.py, `ConnectionPool`. `Api` is the type of librouteros connections. What the
-- outside does during one call is a `Link`: the router's settings, the outcome of each connection
-- attempt, of the health check and of `close`. Logging and sleeping leave no trace in the state.
-- A call is modelled as one thread runs it with no other call in between: `q.get(timeout=30)` on an
-- empty queue then always times out.
pub mod Calls
pub mod Closing
pub mod Bounds
pub mod Retry
pub mod Capped
pub mod Histories
pub mod Accounts
pub mod Leases
use mikrotik_bot.Prelude.{
  ℕ, zero, suc, ◌+◌, String, Bool, true, false, ◌&&◌, Option, none, some, List, [], ◌∷◌, ◌++◌, ltb,
  if◌then◌else◌, get_or, length, string_eq, Result, ok, err, ℤ, pos, negsuc, increment, decrement,
  is_positive, lt_ℕ,
}
use mikrotik_bot.Dict
use mikrotik_bot.Dict.{Dict}
use mikrotik_bot.Cache
use mikrotik_bot.Cache.{TtlCache}

abbrev pub max_retries : ℕ
max_retries = 2

abbrev pub max_connections_per_router : ℕ
max_connections_per_router = 3

-- `os_error` is OSError with its kinds TimeoutError and ConnectionError, `other_error` any exception
-- that no handler below names. Where `close` fails unhandled, its OSError stands for both that it can raise.
pub data PoolError : Type 0 where
  router_not_found librouteros_error other_error os_error : PoolError

-- the health check: an answer, one of the four errors that the pool handles, or another exception
pub data Probe : Type 0 where
  answers fails crashes : Probe

-- `get_router_info`, `connect` (the outcome of the n-th attempt of a call, from 0), the health
-- check of a pooled connection, and whether `close` returns
pub record Link (Api Info : Type 0) : Type 0 where
  pub router_info : String → Result PoolError Info
  pub connect : Info → ℕ → Result PoolError Api
  pub probe : Api → Probe
  pub closes : Api → Bool

pub record ConnectionPool (Api : Type 0) : Type 0 where
  pub pools : Dict String (List Api)
  pub active_counts : Dict String ℤ
  pub router_versions : TtlCache String
  pub router_names : TtlCache String
  pub total_connection_attempts : ℕ
  pub successful_connections : ℕ
  pub failed_connections : ℕ
  pub cache_hits : ℕ
  -- the connections on which `close` was called, oldest first
  pub closed : List Api

module _ {Api : Type 0} where
  -- __init__
  abbrev pub init : ConnectionPool Api
  init = record {
    pools = [];
    active_counts = [];
    router_versions = Cache.init 50 86400;
    router_names = Cache.init 50 86400;
    total_connection_attempts = 0;
    successful_connections = 0;
    failed_connections = 0;
    cache_hits = 0;
    closed = [];
  }

  -- self.pools[k] and self.active_counts[k], where the key is there
  unfoldable pub queue : ConnectionPool Api → String → List Api
  queue p k = get_or (Dict.get p.pools k) []

  unfoldable pub count : ConnectionPool Api → String → ℤ
  count p k = get_or (Dict.get p.active_counts k) (pos 0)

  unfoldable pub set_queue : ConnectionPool Api → String → List Api → ConnectionPool Api
  set_queue p k q = record p { pools = Dict.set p.pools k q }

  unfoldable pub set_count : ConnectionPool Api → String → ℤ → ConnectionPool Api
  set_count p k n = record p { active_counts = Dict.set p.active_counts k n }

  -- api.close()
  unfoldable pub close : ConnectionPool Api → Api → ConnectionPool Api
  close p api = record p { closed = p.closed ++ api ∷ [] }

  -- if self.active_counts.get(k, 0) > 0: self.active_counts[k] -= 1
  unfoldable pub drop_count : ConnectionPool Api → String → ConnectionPool Api
  unfolding count set_count
  drop_count p k = if is_positive (count p k) then set_count p k (decrement (count p k)) else p

  -- if k not in self.pools: a new queue and a count of 0
  unfoldable pub ensure : ConnectionPool Api → String → ConnectionPool Api
  ensure p k = elim (Dict.get p.pools k) [
    | none ↦ record p {
      pools = Dict.set p.pools k [];
      active_counts = Dict.set p.active_counts k (pos 0);
    }
    | some q ↦ p
  ]

  -- the metadata of a router is forgotten
  unfoldable pub forget : String → ConnectionPool Api → ConnectionPool Api
  forget k p = record p {
    router_versions = Cache.invalidate p.router_versions k;
    router_names = Cache.invalidate p.router_names k;
  }

module _ {Api Info : Type 0} (link : Link Api Info) where
  -- the loop of `_connect_with_retry`, with the attempts left and the number of the next one
  unfoldable pub connect_from :
      ℕ → ℕ → Info → ConnectionPool Api → Result PoolError Api × ConnectionPool Api
  connect_from zero attempt info p = (err librouteros_error, p)
  connect_from (suc left) attempt info p =
      let tried = record p { total_connection_attempts = p.total_connection_attempts + 1 } in
      elim (link.connect info attempt) [
        | ok api ↦ (ok api, record tried { successful_connections = p.successful_connections + 1 })
        | err e ↦ elim e [
          | librouteros_error ↦
              connect_from left (attempt + 1) info
                (record tried { failed_connections = p.failed_connections + 1 })
          | other ↦ (err other, tried)
        ]
      ]

  unfoldable pub connect_with_retry :
      Info → ConnectionPool Api → Result PoolError Api × ConnectionPool Api
  unfolding connect_from
  connect_with_retry info p = connect_from (1 + max_retries) 0 info p

  -- `get_router_info` followed by `_connect_with_retry`
  unfoldable pub open_connection :
      String → ConnectionPool Api → Result PoolError Api × ConnectionPool Api
  open_connection k p = elim (link.router_info k) [
    | ok info ↦ connect_with_retry info p
    | err e ↦ (err e, p)
  ]
