-- ===== src/Tests/Connections.antt =====
-- core/connection_pool.py against small outside worlds. Connections are numbers.
use mikrotik_bot.Prelude.{
  ℕ, ◌+◌, ◌≤◌, ◌≡◌, ◌≢◌, refl, true, false, List, [], ◌∷◌, arith, string_eq, increment, decrement,
  ok, err, pos, AtMost, length, leb, if◌then◌else◌, nat_eqb,
}
use mikrotik_bot.Dict
use mikrotik_bot.Pool.{
  Link, ConnectionPool, answers, fails, crashes, librouteros_error, init, count, queue,
  connect_with_retry,
}
use mikrotik_bot.Pool.Calls.{get_connection, release_connection, reconnect}
use mikrotik_bot.Pool.Closing.{close_connection, close_idle}
use mikrotik_bot.Pool.Histories.{Call, gets, releases, reconnects, closes, run, step, pool_capped}
use mikrotik_bot.Pool.Retry.{successes}
use mikrotik_bot.Pool.Accounts.{Account}
use mikrotik_bot.Pool.Bounds.{IsBounded}
use mikrotik_bot.Pool.Leases.{get_connection_accounts, reconnect_accounts}

-- the second attempt succeeds, and a pooled connection answers unless it is number 9
abbrev pub world : Link ℕ ℕ
world = record {
  router_info = λ k. ok 0;
  connect = λ info n. if leb 1 n then ok (n + 100) else err librouteros_error;
  probe = λ api. if nat_eqb api 9 then fails else answers;
  closes = λ api. true;
}

-- no attempt succeeds
abbrev pub dead_world : Link ℕ ℕ
dead_world = record world { connect = λ info n. err librouteros_error }

abbrev some_calls : List (Call ℕ ℕ)
some_calls =
    gets world "a"
    ∷ gets world "a"
    ∷ releases world "a" 101 false
    ∷ reconnects world "a"
    ∷ gets dead_world "b"
    ∷ closes "a"
    ∷ []

pool_capped_example :
    AtMost (count (run init some_calls) "a") 3 × (length (queue (run init some_calls) "a") ≤ 3)
pool_capped_example = pool_capped some_calls "a"

after_some_calls :
    (count (run init some_calls) "a" ≡ pos 2) × (count (run init some_calls) "b" ≡ pos 0)
unfolding run step count get_connection release_connection reconnect close_connection
    connect_with_retry close_idle string_eq Dict.get Dict.set increment decrement
after_some_calls = (refl, refl)

-- Router "a" has connection 9 idle and two out.
abbrev busy : ConnectionPool ℕ
busy = record init { pools = ("a", 9 ∷ []) ∷ []; active_counts = ("a", pos 3) ∷ [] }

busy-Account : Account busy "a" (9 ∷ []) 2
unfolding Dict.get string_eq
busy-Account = record { found = refl; counted = refl }

no_crash : (api : ℕ) → world.probe api ≢ crashes
no_crash api e = ground arith

-- The stale connection 9 is replaced.
get_connection_accounts_example :
    (q : List ℕ) × Account
      (get_connection world "a" busy).1
      "a"
      q
      (successes (get_connection world "a" busy).0 + 2)
get_connection_accounts_example =
    get_connection_accounts world "a" (9 ∷ []) 2 busy no_crash busy-Account

-- Two connections out, with no idle one or with connection 5 idle.
abbrev lent : List ℕ → ConnectionPool ℕ
lent q = record init { pools = ("a", q) ∷ []; active_counts = ("a", pos (2 + length q)) ∷ [] }

lent-Account : (q : List ℕ) → Account (lent q) "a" q 2
unfolding Dict.get string_eq
lent-Account q = record { found = refl; counted = refl }

lent-IsBounded : IsBounded (lent (5 ∷ []))
unfolding count queue Dict.get
lent-IsBounded = record { counted = λ k. ground arith; idle = λ k. ground arith }

-- Three connections out, none idle.
abbrev exhausted : ConnectionPool ℕ
exhausted = record init { pools = ("a", []) ∷ []; active_counts = ("a", pos 3) ∷ [] }

exhausted-Account : Account exhausted "a" [] 3
unfolding Dict.get string_eq
exhausted-Account = record { found = refl; counted = refl }

reconnect_accounts_example :
    Account
      (reconnect dead_world "a" exhausted).1
      "a"
      []
      (successes (reconnect dead_world "a" exhausted).0 + 2)
reconnect_accounts_example =
    reconnect_accounts dead_world "a" 3 exhausted (omega arith) exhausted-Account
