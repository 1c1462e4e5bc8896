-- ===== src/Pool/Closing.antt =====
-- `close_connection`, `close_all`, the metadata caches and the metrics of core/connection_pool.py.
use mikrotik_bot.Prelude.{
  ℕ, ◌+◌, String, Bool, Option, none, some, List, [], ◌∷◌, map, length, string_eq, Result, ok, err,
  ℤ, pos, get_or, is_positive, ◌+ℤ◌,
}
use mikrotik_bot.Dict
use mikrotik_bot.Dict.{Dict}
use mikrotik_bot.Cache
use mikrotik_bot.Cache.{KeyError}
use mikrotik_bot.Pool.{ConnectionPool, set_queue, close, drop_count, forget}

pub record Metrics : Type 0 where
  pub active_connections : ℤ
  pub idle_connections : ℕ
  pub total_attempts : ℕ
  pub successful : ℕ
  pub failed : ℕ
  pub cache_hits : ℕ
  pub cached_names : ℕ
  pub cached_versions : ℕ

sum_counts : Dict String ℤ → ℤ
sum_counts [] = pos 0
sum_counts ((k, n) ∷ counts) = n +ℤ sum_counts counts

module _ {Api : Type 0} where
  -- the loop of `close_connection` over the idle connections
  unfoldable pub close_idle : String → List Api → ConnectionPool Api → ConnectionPool Api
  unfolding close drop_count set_queue
  close_idle k [] p = p
  close_idle k (api ∷ rest) p = close_idle k rest (drop_count (close (set_queue p k rest) api) k)

  unfoldable pub close_queue : String → Option (List Api) → ConnectionPool Api → ConnectionPool Api
  unfolding close_idle
  close_queue k none p = p
  close_queue k (some q) p = close_idle k q p

  -- the idle connections are closed in order, each with its place in the count
  unfoldable pub close_connection : String → ConnectionPool Api → ConnectionPool Api
  unfolding close_queue forget
  close_connection k p = close_queue k (Dict.get p.pools k) (forget k p)

  unfoldable pub close_keys : List String → ConnectionPool Api → ConnectionPool Api
  close_keys [] p = p
  close_keys (k ∷ ks) p = close_keys ks (close_connection k p)

  -- the health-check executor is stopped too, which is no part of this state
  unfoldable pub close_all : ConnectionPool Api → ConnectionPool Api
  unfolding close_keys
  close_all p = record (close_keys (map (λ entry. entry.0) p.pools) p) {
    pools = [];
    active_counts = [];
  }

  unfoldable pub has_active_connection : ConnectionPool Api → String → Bool
  has_active_connection p k = is_positive (get_or (Dict.get p.active_counts k) (pos 0))

  -- the empty text for a version that is not cached
  unfoldable pub get_version : ConnectionPool Api → String → ℕ → String × ConnectionPool Api
  get_version p k now =
      let (cached, versions) = Cache.get p.router_versions k now in
      (get_or cached "", record p { router_versions = versions })

  unfoldable pub set_version :
      ConnectionPool Api → String → String → ℕ → Result KeyError (ConnectionPool Api)
  set_version p k version now = elim (Cache.set p.router_versions k version now) [
    | ok versions ↦ ok (record p { router_versions = versions })
    | err e ↦ err e
  ]

  unfoldable pub get_cached_name :
      ConnectionPool Api → String → ℕ → Option String × ConnectionPool Api
  get_cached_name p k now =
      let (cached, names) = Cache.get p.router_names k now in
      (cached, record p { router_names = names })

  unfoldable pub set_cached_name :
      ConnectionPool Api → String → String → ℕ → Result KeyError (ConnectionPool Api)
  set_cached_name p k name now = elim (Cache.set p.router_names k name now) [
    | ok names ↦ ok (record p { router_names = names })
    | err e ↦ err e
  ]

  unfoldable pub invalidate_name : ConnectionPool Api → String → ConnectionPool Api
  invalidate_name p k = record p { router_names = Cache.invalidate p.router_names k }

  unfoldable pub invalidate_version : ConnectionPool Api → String → ConnectionPool Api
  invalidate_version p k = record p { router_versions = Cache.invalidate p.router_versions k }

  sum_idle : Dict String (List Api) → ℕ
  sum_idle [] = 0
  sum_idle ((k, q) ∷ pools) = length q + sum_idle pools

  unfoldable pub get_metrics : ConnectionPool Api → ℕ → Metrics
  unfolding sum_counts sum_idle
  get_metrics p now = record {
    active_connections = sum_counts p.active_counts;
    idle_connections = sum_idle p.pools;
    total_attempts = p.total_connection_attempts;
    successful = p.successful_connections;
    failed = p.failed_connections;
    cache_hits = p.cache_hits;
    cached_names = Cache.size p.router_names now;
    cached_versions = Cache.size p.router_versions now;
  }
