-- ===== src/Tests/Executions.antt =====
-- core/mikrotik_api.py against small outside worlds. Connections and answers are numbers.
use mikrotik_bot.Prelude.{
  ℕ, ◌≡◌, refl, String, List, [], ◌∷◌, string_eq, increment, decrement, ok, err, pos, if◌then◌else◌,
  nat_eqb,
}
use mikrotik_bot.Dict
use mikrotik_bot.Breaker
use mikrotik_bot.Breaker.{before_request, can_attempt, on_failure, on_success, get_failure_count}
use mikrotik_bot.Breaker.Phase.{closed_after, attempt}
use mikrotik_bot.Pool
use mikrotik_bot.Pool.{
  ConnectionPool, PoolError, os_error, count, queue, connect_with_retry, librouteros_error,
}
use mikrotik_bot.Pool.Calls.{get_connection, release_connection, reconnect}
use mikrotik_bot.Executor.{
  MikrotikApi, Outside, caught, init, execute, throttle, is_final, fail, retries,
}
use mikrotik_bot.Executor.Throttle.{passes, Spaced, throttle-Spaced}
use mikrotik_bot.Executor.Outcomes.{Reports, execute_reports}
use mikrotik_bot.Executor.Answers.{From, execute_answers, reboot_unsent}
use mikrotik_bot.Tests.Connections.{world}

-- the second command is answered, and the others lose their connection
abbrev flaky : Outside ℕ ℕ ℕ
flaky = record {
  link = λ i. world;
  message = λ i e. "timed out";
  call_command = λ api i. if nat_eqb i 1 then ok 7 else err (caught "connection reset");
  no_rows = 0;
  asked_at = 5000;
  claimed_at = 5000;
  throttled_at = 5001;
  failed_at = 9000;
}

abbrev broken : Outside ℕ ℕ ℕ
broken = record flaky { call_command = λ api i. err (caught "connection reset") }

abbrev calls_of_two_routers : List (String × ℕ)
calls_of_two_routers = ("a", 5000) ∷ ("b", 5010) ∷ ("a", 5020) ∷ ("a", 9000) ∷ []

throttle-Spaced_example : Spaced 0 (passes "a" [] calls_of_two_routers)
unfolding Dict.get
throttle-Spaced_example = throttle-Spaced [] "a" calls_of_two_routers

passes_of_a : passes "a" [] calls_of_two_routers ≡ (5000, 5000) ∷ (5020, 5100) ∷ (9000, 9000) ∷ []
unfolding passes throttle string_eq Dict.get Dict.set
passes_of_a = refl

execute_reports_example : Reports flaky "a" "ip/hotspot/active/print" init (closed_after 0)
unfolding Dict.get
execute_reports_example =
    execute_reports flaky "a" "ip/hotspot/active/print" init (closed_after 0)
      (refl, refl, refl, refl)

execute_answers_example : From flaky "a" "print" retries (execute flaky "a" "print" init).0
execute_answers_example = execute_answers flaky "a" "print" init

flaky_is_answered : (execute flaky "a" "print" init).0 ≡ ok 7
unfolding execute get_connection release_connection reconnect connect_with_retry before_request
    can_attempt on_success count Dict.get Dict.set string_eq increment decrement is_final attempt
flaky_is_answered = refl

one_failure_counted : get_failure_count (execute broken "a" "print" init).1.circuit_breaker "a" ≡ 1
unfolding execute get_connection release_connection reconnect connect_with_retry before_request
    can_attempt on_failure get_failure_count count Dict.get Dict.set string_eq increment decrement
    is_final fail
one_failure_counted = refl

-- three connections are out, and none is idle
abbrev exhausted : MikrotikApi ℕ
exhausted = record init {
  pool = record Pool.init { pools = ("a", []) ∷ []; active_counts = ("a", pos 3) ∷ [] };
}

no_connection : get_connection world "a" exhausted.pool ≡ (err os_error, exhausted.pool)
unfolding get_connection count queue Dict.get string_eq
no_connection = refl

let_pass : before_request (Breaker.init 3 30000) "a" 5000 5000 ≡ (ok tt, Breaker.init 3 30000)
unfolding before_request can_attempt Dict.get
let_pass = refl

reboot_unsent_example :
    ((execute flaky "a" "system/reboot" exhausted).0 ≡ ok 0)
    × ((execute flaky "a" "system/reboot" exhausted).1.circuit_breaker
        ≡ on_success (Breaker.init 3 30000) "a")
    × ((execute flaky "a" "system/reboot" exhausted).1.pool ≡ exhausted.pool)
    × (execute (record flaky { call_command = λ api i. ok 9 }) "a" "system/reboot" exhausted
        ≡ execute flaky "a" "system/reboot" exhausted)
reboot_unsent_example =
    reboot_unsent flaky "a" exhausted (Breaker.init 3 30000) exhausted.pool (λ api i. ok 9) let_pass
      no_connection
