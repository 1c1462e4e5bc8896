-- ===== src/Lib.antt =====
-- The core of a Telegram bot that manages MikroTik routers.
--
-- The bot's handlers call the core with a router key, the string that names a router. A request to
-- a router passes the circuit breaker, borrows a connection from the pool, sends commands and
-- gives the connection back; what it read may be kept in a cache, and lists are shown in pages.
-- Before a handler runs, the decorators check the sender's rate, role and routers.
--
-- Parts, files and sources:
--   Breaker    core/circuit_breaker.py. The record CircuitBreaker has the five dictionaries and
--              the two settings; _can_attempt is `can_attempt`, and on_success, on_failure,
--              before_request, reset and wrap keep their names. Breaker/Phase has the specification,
--              a state machine for one router; Breaker/Events relates the two over histories.
--   Pool       core/connection_pool.py. The record ConnectionPool has the dictionaries of queues,
--              counts, versions and names and the four counters. Pool/Calls has get_connection,
--              release_connection and reconnect; Pool/Closing has close_connection and close_all;
--              Pool/Retry is about _connect_with_retry.
--   Executor   core/mikrotik_api.py, the execution template. The record MikrotikApi has the pool, the
--              breaker and the throttle's times; `execute` is _execute_locked, `throttle` is
--              _throttle, `acquire`, `use_connection` and `is_broken` are _connection_ctx.
--   Locks      core/mikrotik_api.py, _is_write_command, _get_cmd_lock and the locks around executions:
--              a step relation of any number of threads. `Shared` has _cmd_lock_guard and _cmd_locks,
--              and `Pc` says where a thread is. Locks/Invariant has what holds in every state.
--   Api        core/mikrotik_api.py, the other calls of MikrotikAPI: execute, execute_long, get_version,
--              get_router_name, get_userman_base_path; Api/Health has check_connection_health and
--              execute_non_blocking, Api/Requests histories of calls.
--   Cache      core/cache.py, the class TTLCache over any type of values.
--   Profiles   core/profile_cache.py, the class ProfileCache.
--   Paginator  utils/pagination.py, the class Paginator.
--   Access     utils/admin_decorator.py. `check_rate_limit` is _check_rate_limit on the record
--              RateLimits of the module's variables; admin_only, require_role and require_ownership
--              keep their names and give the fate of an update, a Verdict.
--   Watchdog   core/watchdog.py. The record Watchdog has _router_status and _last_known_status;
--              `change` is the body of record_check_result, `note_online` and `note_offline` are
--              what check_router_health stores.
--   Callbacks  utils/callback_utils.py, is_duplicate_callback.
--   Userman    core/userman_manager.py, the class UserManager. Userman/Accounts has _create_user and
--              the links to profiles, Userman/Lookup what finds or changes one user or session,
--              Userman/Cards create_cards.
--   Hotspot    core/hotspot_manager.py, the class HotspotManager. Hotspot/Cards has create_cards,
--              Hotspot/Purge purge_expired_users, Hotspot/Uptime _parse_uptime_seconds.
--   AddUser    bot/handlers/hotspot_add.py, the conversation that adds a hotspot user, with
--              execute_add_user of bot/handlers/hotspot_common.py; AddUser/Fields has the handlers, and
--              AddUser/Steps which of them bot/registration_parts/conversation.py registers in which
--              state. The record Bot is what they use beside the manager.
--              AddUser/Buttons: get_profile_keyboard of bot/keyboards/hotspot.py, and the profile that a
--              press of one of its buttons names.
--   ProfileSync core/profile_sync.py, the names of the user manager's profiles.
--   Hosts      core/hotspot_search.py and core/hotspot_blocking.py; Hosts/Users has kick_user. An
--              action's state is the world alone.
--   Usage      core/hotspot_stats.py, build_usage_report.
--   Scheduler  core/backup_scheduler.py, the calls of BackupScheduler that start and stop its jobs, and
--              the stored schedule of database/repositories/backups.py. The telegram library's queue
--              of jobs is the parameter JobQueue; what its documentation says is IsJobQueue.
--              Scheduler/Runs has the three jobs; the record Services is what they call, and
--              Scheduler/Outcomes describes what a report says, from what the services answer.
--   RouterKey  core/router_key.py, the class RouterKey; RouterKey/Digits has decimal texts.
--   Validators utils/validators.py, sanitize_comment; Validators/Checks has the other checks.
--   Client     core/mikrotik_client.py: the protocol Client, and the record Outside of what the
--              managers call besides it.
--   Action     Python functions that change a state and may raise, with the rules for what they
--              return (Action/Ensures, Action/Total) and keep (Action/Keeping), and a TTL cache
--              within such a state (Action/Cached).
--   Dict       Python's dict and OrderedDict as association lists in the order of insertion.
--   Prelude    What all parts share: Boolean tests, list lemmas, results and integers.
--   Tests      Runs of the theorems at concrete inputs.
--
-- Correspondence. Every call is a function from the state and its arguments to the new state, with a
-- Result where the Python code can raise. The time is an argument: each reading of time.time() or
-- time.monotonic() is a number of ticks, milliseconds where a file says so, and no theorem assumes
-- that readings grow unless it says so. Each call of the breaker and the caches holds the object's
-- lock throughout, so a history is the list of calls in the order in which they take the lock. The
-- calls of the pool are modelled as one thread runs them. Counters that the code may make negative
-- are the integers of Prelude/Int.
--
-- Code outside the repository, and the database, are parameters. The record Link of Pool holds it:
-- what the look-up of a router gives, the outcome of each attempt to connect, what the health check
-- of a connection says and whether closing a connection succeeds. The record Outside of Executor
-- adds the texts of errors, the outcome of each command and the readings of the clock. Access takes
-- ADMIN_IDS and what the database records of roles and owners as arguments. The managers take the
-- record Client (what a router answers, as a function of the world, which it may change), the record
-- Outside (the clock, the random digits and the log of actions) and the record Texts (lower, strip
-- and int, which follow the tables of Unicode). A row of an answer maps fields to texts: the numbers
-- and Booleans that librouteros makes of some texts are those texts.
--
-- Loops. The retry loops of the pool and of the executor recurse on the attempts that are left, at
-- most MAX_RETRIES + 1 = 3 and 1 + len(_RETRY_DELAYS) = 3, and the loop that empties a queue on the
-- queue. A unique name is looked for in at most 10 attempts in Userman/Cards and 100 in
-- Hotspot/Cards, as in the code. A list is cut into chunks in as many rounds as it has elements,
-- which `concat-chunks` of Prelude/Lists shows to be enough, and the decimal text of n is written in
-- n + 1 rounds, enough by `digits_value-digits_of` of RouterKey/Digits. Every function is total.
--
-- Not modelled: the log messages and measured durations; the threads that interleave inside one call
-- of the pool, and the locks of card creation; percentages, which are floats; what reads free text by
-- regular expressions (days of renewal, expiring users); the Telegram handlers and keyboards (bot/)
-- other than the conversation that adds a user; the database (database/, alembic/) but for the stored
-- backup schedule; reports and PDF files (pdf/); sockets and file transfer (core/backup/,
-- core/network_scanner.py); the scripts and the tests.
pub mod Prelude
pub mod Dict
pub mod Breaker
pub mod Cache
pub mod Profiles
pub mod Paginator
pub mod Pool
pub mod Tests
pub mod Executor
pub mod Access
pub mod Watchdog
pub mod Callbacks
pub mod Action
pub mod Client
pub mod Userman
pub mod Validators
pub mod Hotspot
pub mod RouterKey
pub mod Scheduler
pub mod Hosts
pub mod Usage
pub mod Locks
pub mod Api
pub mod AddUser
pub mod ProfileSync
