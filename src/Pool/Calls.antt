-- ===== src/Pool/Calls.antt =====
-- `get_connection`, `release_connection` and `reconnect` of core/connection_pool.py.
use mikrotik_bot.Prelude.{
  String, Bool, Option, none, some, ◌+◌, List, [], ◌∷◌, ◌++◌, ltb, if◌then◌else◌, length, string_eq,
  Result, ok, err, pos, increment, decrement, lt_ℕ,
}
use mikrotik_bot.Dict
use mikrotik_bot.Pool.{
  Link, ConnectionPool, PoolError, Probe, answers, fails, crashes, other_error, os_error,
  max_connections_per_router, queue, count, set_queue, set_count, close, drop_count, ensure,
  open_connection, forget,
}

module _ {Api Info : Type 0} (link : Link Api Info) where
  -- `except Exception: self.active_counts[k] -= 1; raise`
  unfoldable pub or_give_back :
      String → Result PoolError Api × ConnectionPool Api → Result PoolError Api × ConnectionPool Api
  unfolding count set_count
  or_give_back k (ok api, p) = (ok api, p)
  or_give_back k (err e, p) = (err e, set_count p k (decrement (count p k)))

  -- a new connection in place of a stale one: counted only once it is there
  unfoldable pub replace_stale :
      String → Result PoolError Api × ConnectionPool Api → Result PoolError Api × ConnectionPool Api
  unfolding count set_count
  replace_stale k (ok api, p) = (ok api, set_count p k (increment (count p k)))
  replace_stale k (err e, p) = (err e, p)

  -- the connection that `q.get` returned, checked
  unfoldable pub checked :
      String → Api → Probe → ConnectionPool Api → Result PoolError Api × ConnectionPool Api
  unfolding replace_stale drop_count close open_connection
  checked k api answers p = (ok api, record p { cache_hits = p.cache_hits + 1 })
  checked k api fails p = replace_stale k (open_connection link k (close (drop_count p k) api))
  checked k api crashes p = (err other_error, p)

  -- `get_connection` once the router has an entry
  unfoldable pub take_or_open :
      String → List Api → ConnectionPool Api → Result PoolError Api × ConnectionPool Api
  unfolding checked or_give_back set_queue
  take_or_open k [] p =
      if lt_ℕ (count p k) max_connections_per_router
      then or_give_back k (open_connection link k (set_count p k (increment (count p k))))
      else (err os_error, p)
  take_or_open k (api ∷ rest) p = checked k api (link.probe api) (set_queue p k rest)

  unfoldable pub get_connection :
      String → ConnectionPool Api → Result PoolError Api × ConnectionPool Api
  unfolding take_or_open ensure queue
  get_connection k p = take_or_open k (queue (ensure p k) k) (ensure p k)

  -- the branch of `release_connection` for a sound connection
  unfoldable pub put_back :
      String
      → Api
      → Option (List Api)
      → ConnectionPool Api
      → Result PoolError (Unit {0}) × ConnectionPool Api
  unfolding close set_queue set_count count
  put_back k api none p = (ok tt, p)
  put_back k api (some q) p =
      if ltb (length q) max_connections_per_router
      then (ok tt, set_queue p k (q ++ api ∷ []))
      else if link.closes api
      then (ok tt, set_count (close p api) k (decrement (count p k)))
      else (err os_error, close p api)

  unfoldable pub release_connection :
      String → Api → Bool → ConnectionPool Api → Result PoolError (Unit {0}) × ConnectionPool Api
  unfolding put_back drop_count
  release_connection k api broken p =
      if broken then (ok tt, close (drop_count p k) api) else put_back k api (Dict.get p.pools k) p

  -- `reconnect` at the cap: an idle connection is used again, or the count is pinned at the cap
  unfoldable pub at_the_cap :
      String → List Api → ConnectionPool Api → Result PoolError Api × ConnectionPool Api
  unfolding or_give_back set_queue set_count count open_connection
  at_the_cap k [] p =
      or_give_back k (open_connection link k (set_count p k (pos max_connections_per_router)))
  at_the_cap k (api ∷ rest) p = (ok api, set_queue p k rest)

  -- `reconnect` once the router has an entry
  unfoldable pub open_again :
      String → List Api → ConnectionPool Api → Result PoolError Api × ConnectionPool Api
  unfolding at_the_cap
  open_again k q p =
      if lt_ℕ (count p k) max_connections_per_router
      then or_give_back k (open_connection link k (set_count p k (increment (count p k))))
      else at_the_cap k q p

  unfoldable pub reconnect : String → ConnectionPool Api → Result PoolError Api × ConnectionPool Api
  unfolding open_again ensure queue forget
  reconnect k p = let ready = ensure (forget k p) k in open_again k (queue ready k) ready
