-- ===== src/Pool/Histories.antt =====
-- core/connection_pool.py: any sequence of calls, each with its own outside world.
use mikrotik_bot.Prelude.{
  ◌≤◌, ◌≡◌, refl, String, Bool, List, [], ◌∷◌, length, AtMost, arith, Option, none, some, string_eq,
  get_or,
}
use mikrotik_bot.Dict
use mikrotik_bot.Pool.{Link, ConnectionPool, queue, count, set_queue, close, init, forget}
use mikrotik_bot.Pool.Calls.{get_connection, release_connection, reconnect}
use mikrotik_bot.Pool.Closing.{close_idle, close_queue, close_connection, close_all}
use mikrotik_bot.Pool.Bounds.{
  IsBounded, set_queue-IsBounded, SamePools-IsBounded, drop_count-IsBounded,
}
use mikrotik_bot.Pool.Capped.{
  get_connection-IsBounded, release_connection-IsBounded, reconnect-IsBounded,
}

module _ {Api : Type 0} where
  close_idle-IsBounded :
      (k : String) (q : List Api) (p : ConnectionPool Api)
      → length q ≤ 3
      → IsBounded p
      → IsBounded (close_idle k q p)
  unfolding close_idle
  close_idle-IsBounded k [] p few h = h
  close_idle-IsBounded k (api ∷ rest) p few h = close_idle-IsBounded k rest _ (omega arith) (
      drop_count-IsBounded _ k (
        unfold close in
        SamePools-IsBounded (set_queue p k rest) _ refl refl
          (set_queue-IsBounded p k rest (omega arith) h)))

  close_queue-IsBounded :
      (k : String) (q : Option (List Api)) (p : ConnectionPool Api)
      → length (get_or q []) ≤ 3
      → IsBounded p
      → IsBounded (close_queue k q p)
  unfolding close_queue
  close_queue-IsBounded k none p few h = h
  close_queue-IsBounded k (some q) p few h = close_idle-IsBounded k q p few h

  close_connection-IsBounded :
      (k : String) (p : ConnectionPool Api) → IsBounded p → IsBounded (close_connection k p)
  unfolding close_connection
  close_connection-IsBounded k p h =
      close_queue-IsBounded k (Dict.get p.pools k) (forget k p) (unfold queue in h.idle k)
        (unfold forget in SamePools-IsBounded p _ refl refl h)

  pub empty-IsBounded : (p : ConnectionPool Api) → p.pools ≡ [] → p.active_counts ≡ [] → IsBounded p
  unfolding queue count Dict.get
  empty-IsBounded p no_pools no_counts = record {
    counted = λ k. rw no_counts (omega arith);
    idle = λ k. rw no_pools (omega arith);
  }

pub data Call (Api Info : Type 0) : Type 0 where
  gets reconnects : Link Api Info → String → Call Api Info
  releases : Link Api Info → String → Api → Bool → Call Api Info
  closes : String → Call Api Info
  closes_all : Call Api Info

module _ {Api Info : Type 0} where
  unfoldable pub step : ConnectionPool Api → Call Api Info → ConnectionPool Api
  step p (gets link k) = (get_connection link k p).1
  step p (reconnects link k) = (reconnect link k p).1
  step p (releases link k api broken) = (release_connection link k api broken p).1
  step p (closes k) = close_connection k p
  step p closes_all = close_all p

  unfoldable pub run : ConnectionPool Api → List (Call Api Info) → ConnectionPool Api
  run p [] = p
  run p (c ∷ cs) = run (step p c) cs

  step-IsBounded : (p : ConnectionPool Api) (c : Call Api Info) → IsBounded p → IsBounded (step p c)
  unfolding step
  step-IsBounded p (gets link k) h = get_connection-IsBounded link k p h
  step-IsBounded p (reconnects link k) h = reconnect-IsBounded link k p h
  step-IsBounded p (releases link k api broken) h =
      release_connection-IsBounded link k api broken p h
  step-IsBounded p (closes k) h = close_connection-IsBounded k p h
  step-IsBounded p closes_all h = unfold close_all in empty-IsBounded _ refl refl

  run-IsBounded :
      (p : ConnectionPool Api) (cs : List (Call Api Info)) → IsBounded p → IsBounded (run p cs)
  unfolding run
  run-IsBounded p [] h = h
  run-IsBounded p (c ∷ cs) h = run-IsBounded (step p c) cs (step-IsBounded p c h)

  -- After any sequence of calls on a new pool, whatever the routers answer: no router has more than
  -- three connections counted, nor more than three idle ones.
  pub pool_capped :
      (cs : List (Call Api Info)) (k : String)
      → AtMost (count (run init cs) k) 3 × (length (queue (run init cs) k) ≤ 3)
  pool_capped cs k =
      let h = run-IsBounded init cs (empty-IsBounded init refl refl) in (h.counted k, h.idle k)
