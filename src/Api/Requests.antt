-- ===== src/Api/Requests.antt =====
-- core/mikrotik_api.py: histories of calls of `MikrotikAPI`, whatever the outside does.
use mikrotik_bot.Prelude.{◌≤◌, refl, String, List, [], ◌∷◌, length, AtMost}
use mikrotik_bot.Client.{Row}
use mikrotik_bot.Pool.{count, queue}
use mikrotik_bot.Pool.Bounds.{SamePools-IsBounded}
use mikrotik_bot.Pool.Histories.{empty-IsBounded}
use mikrotik_bot.Pool.Closing
use mikrotik_bot.Api.{
  Gateway, State, init, set_pool, execute, execute_long, get_router_name, get_version,
  invalidate_router_name, invalidate_version,
}
use mikrotik_bot.Api.Health.{check_connection_health, execute_non_blocking}
use mikrotik_bot.Api.Bounds.{
  IsCapped, get_router_name-IsCapped, execute_within-IsCapped, get_version-IsCapped,
  check_connection_health-IsCapped, execute_non_blocking-IsCapped,
}

pub data Request : Type 0 where
  executes executes_long sends : String → String → Row → Request
  names reads_version forgets_name forgets_version : String → Request
  checks_health : String → String → Request
  closes : Request

module _ {Api Info W : Type 0} (gateway : Gateway Api Info W) where
  -- close()
  unfoldable pub close : State Api W → State Api W
  close s = set_pool gateway s (Closing.close_all s.mikrotik.pool)

  unfoldable pub perform : Request → State Api W → State Api W
  unfolding close
  perform (executes k command kwargs) s = (execute gateway k command kwargs s).1
  perform (executes_long k command kwargs) s = (execute_long gateway k command kwargs s).1
  perform (sends k command kwargs) s = execute_non_blocking gateway k command kwargs s
  perform (names k) s = (get_router_name gateway k s).1
  perform (reads_version k) s = (get_version gateway k s).1
  perform (forgets_name k) s = (invalidate_router_name gateway k s).1
  perform (forgets_version k) s = (invalidate_version gateway k s).1
  perform (checks_health k crash) s = (check_connection_health gateway k crash s).1
  perform closes s = close s

  unfoldable pub run : List Request → State Api W → State Api W
  run [] s = s
  run (r ∷ rs) s = run rs (perform r s)

  perform-IsCapped : (r : Request) (s : State Api W) → IsCapped s → IsCapped (perform r s)
  unfolding perform Closing.invalidate_name Closing.invalidate_version Closing.close_all
  perform-IsCapped (executes k command kwargs) s h =
      (execute_within-IsCapped gateway k _ command kwargs).at s h
  perform-IsCapped (executes_long k command kwargs) s h =
      (execute_within-IsCapped gateway k _ command kwargs).at s h
  perform-IsCapped (sends k command kwargs) s h =
      execute_non_blocking-IsCapped gateway k command kwargs s h
  perform-IsCapped (names k) s h = (get_router_name-IsCapped gateway k).at s h
  perform-IsCapped (reads_version k) s h = (get_version-IsCapped gateway k).at s h
  perform-IsCapped (forgets_name k) s h = SamePools-IsBounded s.mikrotik.pool _ refl refl h
  perform-IsCapped (forgets_version k) s h = SamePools-IsBounded s.mikrotik.pool _ refl refl h
  perform-IsCapped (checks_health k crash) s h =
      check_connection_health-IsCapped gateway k crash s h
  perform-IsCapped closes s h = empty-IsBounded _ refl refl

  run-IsCapped : (rs : List Request) (s : State Api W) → IsCapped s → IsCapped (run rs s)
  unfolding run
  run-IsCapped [] s h = h
  run-IsCapped (r ∷ rs) s h = run-IsCapped rs (perform r s) (perform-IsCapped r s h)

  -- After any sequence of calls of a new API object (executions, health checks, commands that are
  -- not waited for, look-ups of names and versions, closing), whatever the routers, the database and
  -- the clock answer: no router has more than three connections counted, nor more than three idle.
  pub requests_capped :
      (rs : List Request) (w : W) (k : String)
      → AtMost (count (run rs (init w)).mikrotik.pool k) 3
        × (length (queue (run rs (init w)).mikrotik.pool k) ≤ 3)
  requests_capped rs w k =
      let h = run-IsCapped rs (init w) (empty-IsBounded _ refl refl) in (h.counted k, h.idle k)
