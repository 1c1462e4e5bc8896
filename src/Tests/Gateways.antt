-- ===== src/Tests/Gateways.antt =====
-- core/mikrotik_api.py: calls of `MikrotikAPI` on a router whose version is 7.14.
use mikrotik_bot.Prelude.{
  ℕ, ◌+◌, ◌≡◌, ◌≢◌, refl, ◌⊎◌, ◌↔◌, String, string_eq, some, none, [], ◌∷◌, ok, err, pos, increment,
  decrement,
}
use mikrotik_bot.Dict
use mikrotik_bot.Dict.Recency.{make_room}
use mikrotik_bot.Action.{expected, unforeseen, try, within, ◌>>=◌, ◌>>◌}
use mikrotik_bot.Pool.{count, queue, connect_with_retry}
use mikrotik_bot.Pool.Calls.{get_connection, release_connection}
use mikrotik_bot.Breaker.{before_request, can_attempt, on_success}
use mikrotik_bot.Cache
use mikrotik_bot.Pool.Closing
use mikrotik_bot.Executor
use mikrotik_bot.Api.{
  Gateway, init, asks_pool, get_version, get_router_name, execute_with_retry, execute_within,
  version_or_fetched, log_answer, log_action_best_effort, note_version,
}
use mikrotik_bot.Action.Total.{Total}
use mikrotik_bot.RouterKey.Digits.{number}
use mikrotik_bot.Api.Remembered.{Remembers, FromRouter, get_version_answers}
use mikrotik_bot.Api.Names.{execute_returns}
use mikrotik_bot.Tests.Connections.{world}

-- the world counts the readings of the clock and the log of actions fails
abbrev gateway : Gateway ℕ ℕ ℕ
gateway = record {
  execution = λ timeout k command kwargs w. (
    record {
      link = λ i. world;
      message = λ i e. "timed out";
      call_command = λ api i. ok ((("version", "7.14") ∷ []) ∷ []);
      no_rows = [];
      asked_at = 5000;
      claimed_at = 5000;
      throttled_at = 5001;
      failed_at = 9000;
    },
    w,
  );
  kind = λ w text. expected;
  get_router_by_id = λ db_id w. (ok none, w);
  log_action = λ action username router admin_id w. (err unforeseen, w);
  time = λ w. (w, w + 1);
  text = record {
    lower = λ s. s;
    strip = λ s. s;
    int = λ s. elim (number s) [ some n ↦ some (pos n) | none ↦ none ];
  };
}

reads_7_14 : (get_version gateway "a" (init 0)).0 ≡ ok "7.14"
unfolding get_version ◌>>=◌ version_or_fetched string_eq Closing.get_version Cache.get Dict.get try
    execute_within execute_with_retry Executor.execute before_request can_attempt get_connection
    Dict.set connect_with_retry release_connection log_answer within ◌>>◌ get_router_name
    log_action_best_effort note_version on_success Cache.set Executor.is_final
    Closing.get_cached_name Closing.set_version count queue increment decrement make_room
reads_7_14 = refl

known : ◌≢◌ {A = String} "7.14" "unknown"
known h = absurd (cc)

get_version_answers_example :
    ((t : ℕ) × Remembers gateway "a" (get_version gateway "a" (init 0)).1 "7.14" t)
    × (((t : ℕ) × Remembers gateway "a" (init 0) "7.14" t)
        ⊎ FromRouter gateway "a" "7.14"
            (asks_pool gateway (λ p. Closing.get_version p "a") (init 0)).1)
get_version_answers_example = get_version_answers gateway "a" (init 0) "7.14" reads_7_14 known

execute_returns_example :
    let sent = execute_with_retry gateway "a" 30 "print" [] (init 0) in
    ((execute_within gateway "a" 30 "print" [] (init 0)).0 ≡ ok ((("version", "7.14") ∷ []) ∷ []))
    ↔ ((sent.0 ≡ ok ((("version", "7.14") ∷ []) ∷ []))
        × (name : String) × ((get_router_name gateway "a" sent.1).0 ≡ ok name))
execute_returns_example =
    execute_returns gateway "a" 30 "print" [] ((("version", "7.14") ∷ []) ∷ []) (init 0)
