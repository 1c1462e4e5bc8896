-- ===== src/Api.antt =====
-- core/mikrotik_api.py: the calls of `MikrotikAPI` around the execution template, as one thread
-- runs them. The state is the API object and the world beyond it; `Gateway` is what the calls use of
-- that world. Log lines and measured durations leave no trace.
pub mod Bounds
pub mod Health
pub mod Requests
pub mod Versions
pub mod Remembered
pub mod Names
use Prim.Native.String.{[], ◌∷◌}
use text.Mathlib.Text.{starts_with}
use mikrotik_bot.Prelude.{
  ℕ, zero, suc, String, string_eq, Bool, true, false, ◌||◌, Option, none, some, List, [], ◌∷◌,
  if◌then◌else◌, get_or, Result, ok, err, ◌==◌, ℤ, pos, negsuc, leb,
}
use mikrotik_bot.Dict.{Dict, get}
use mikrotik_bot.Cache.{KeyError}
use mikrotik_bot.Action.{
  Fault, expected, unforeseen, Action, give, throw, writes, try, ◌>>=◌, ◌>>◌, within,
}
use mikrotik_bot.Client.{Row, Client, Texts, is_text}
use mikrotik_bot.RouterKey.{router_key_prefix}
use mikrotik_bot.Pool.{ConnectionPool}
use mikrotik_bot.Pool.Closing
use mikrotik_bot.Executor
use mikrotik_bot.Executor.{MikrotikApi, ApiError, caught, open_circuit, uncaught}

-- a row of the database, where a column may be NULL
abbrev pub StoredRow : Type 0
StoredRow = Dict String (Option String)

pub record Gateway (Api Info W : Type 0) : Type 0 where
  -- what the outside does during one execution, of its timeout, router, command and arguments
  pub execution : ℕ → String → String → Row → W → Executor.Outside Api Info (List Row) × W
  -- whether the caught error with this text is a TrapError, ConnectionError or OSError
  pub kind : W → String → Fault
  -- `expected` is a ValueError or a TypeError
  pub get_router_by_id : ℤ → Action W (Option StoredRow)
  pub log_action : String → String → String → ℕ → Action W (Unit {0})
  -- time.time()
  pub time : W → ℕ × W
  pub text : Texts

pub record State (Api W : Type 0) : Type 0 where
  pub mikrotik : MikrotikApi Api
  pub world : W

abbrev pub init : {Api W : Type 0} → W → State Api W
init w = record { mikrotik = Executor.init; world = w }

abbrev pub api_timeout : ℕ
api_timeout = 30

abbrev pub long_timeout : ℕ
long_timeout = 120

-- the Arabic for "no router was chosen"
abbrev pub no_router_name : String
no_router_name =
    "\u{644}\u{645} \u{64a}\u{62a}\u{645} \u{627}\u{62e}\u{62a}\u{64a}\u{627}\u{631} \u{631}\u{648}\u{62a}\u{631}"

-- the rest of s.replace(ROUTER_KEY_PREFIX, ""), after `skip` letters of an occurrence
unfoldable pub without_prefix : ℕ → String → String
without_prefix skip [] = ""
without_prefix (suc skip) (c ∷ s) = without_prefix skip s
without_prefix zero (c ∷ s) =
    let found = starts_with (c ∷ s) router_key_prefix in
    let rest = without_prefix (if found then 10 else 0) s in if found then rest else c ∷ rest

-- str(value), where None reads `None`
abbrev pub str_of : Option String → String
str_of value = get_or value "None"

unfoldable pub get_router_display_name : StoredRow → String
unfolding string_eq
get_router_display_name router =
    let alias = get_or (get_or (get router "name_alias") none) "" in
    let identity = str_of (get_or (get router "identity") (some "Unknown")) in
    if is_text alias
    then alias
    else if is_text identity
    then if identity == "Unknown"
      then str_of (get_or (get router "ip_address") (some "Unknown"))
      else identity
    else str_of (get_or (get router "ip_address") (some "Unknown"))

module _ {Api Info W : Type 0} (gateway : Gateway Api Info W) where
  abbrev pub on_world : {A : Type 0} → Action W A → Action (State Api W) A
  on_world = within (λ s. s.world) (λ s w. record s { world = w })

  abbrev pub set_pool : State Api W → ConnectionPool Api → State Api W
  set_pool s p = record s { mikrotik = record s.mikrotik { pool = p } }

  -- a call of the pool that reads the clock
  abbrev pub asks_pool :
      {A : Type 0} → (ConnectionPool Api → ℕ → A × ConnectionPool Api) → Action (State Api W) A
  asks_pool f s =
      let now = gateway.time s.world in
      let r = f s.mikrotik.pool now.0 in (ok r.0, record (set_pool s r.1) { world = now.1 })

  abbrev pub stored :
      State Api W → Result KeyError (ConnectionPool Api) → Result Fault (Unit {0}) × State Api W
  stored s (ok p) = (ok tt, set_pool s p)
  stored s (err e) = (err unforeseen, s)

  abbrev pub tells_pool :
      (ConnectionPool Api → ℕ → Result KeyError (ConnectionPool Api))
      → Action (State Api W) (Unit {0})
  tells_pool f s =
      let now = gateway.time s.world in
      stored (record s { world = now.1 }) (f s.mikrotik.pool now.0)

  module _ (k : String) where
    abbrev pub name_found : Option StoredRow → Action (State Api W) String
    name_found none = give no_router_name
    name_found (some router) =
        let name = get_router_display_name router in
        tells_pool (λ p. Closing.set_cached_name p k name) >> give name

    abbrev pub no_number : Fault → Action (State Api W) (Option StoredRow)
    no_number expected = give none
    no_number unforeseen = throw unforeseen

    abbrev pub name_of_id : Option ℤ → Action (State Api W) String
    name_of_id none = give no_router_name
    name_of_id (some db_id) =
        try (on_world (gateway.get_router_by_id db_id)) no_number >>= name_found

    abbrev pub name_or_stored : Option String → Action (State Api W) String
    name_or_stored (some name) = give name
    name_or_stored none =
        if starts_with k router_key_prefix
        then name_of_id (gateway.text.int (without_prefix 0 k))
        else give no_router_name

    unfoldable pub get_router_name : Action (State Api W) String
    get_router_name = asks_pool (λ p. Closing.get_cached_name p k) >>= name_or_stored

    abbrev pub invalidate_router_name : Action (State Api W) (Unit {0})
    invalidate_router_name = writes (λ s. set_pool s (Closing.invalidate_name s.mikrotik.pool k))

    abbrev pub invalidate_version : Action (State Api W) (Unit {0})
    invalidate_version = writes (λ s. set_pool s (Closing.invalidate_version s.mikrotik.pool k))

    unfoldable pub log_action_best_effort : String → String → Action (State Api W) (Unit {0})
    log_action_best_effort action router_name =
        try (on_world (gateway.log_action action "" router_name 0)) (λ e. give tt)

    -- how the caller sees the exception of an execution
    abbrev pub fault_of : W → ApiError → Fault
    fault_of w (caught text) = gateway.kind w text
    fault_of w (open_circuit e) = unforeseen
    fault_of w uncaught = unforeseen

    abbrev pub outcome_of : W → Result ApiError (List Row) → Result Fault (List Row)
    outcome_of w (ok rows) = ok rows
    outcome_of w (err e) = err (fault_of w e)

    -- `_execute_with_retry`; its write lock is in Locks
    unfoldable pub execute_with_retry : ℕ → String → Row → Action (State Api W) (List Row)
    execute_with_retry timeout command kwargs s =
        let asked = gateway.execution timeout k command kwargs s.world in
        let r = Executor.execute asked.0 k command s.mikrotik in
        (outcome_of asked.1 r.0, record { mikrotik = r.1; world = asked.1 })

    -- what `execute` and `execute_long` do with an answer
    unfoldable pub log_answer : String → List Row → Action (State Api W) (List Row)
    log_answer command rows =
        get_router_name >>= λ router_name. log_action_best_effort command router_name >> give rows

    unfoldable pub execute_within : ℕ → String → Row → Action (State Api W) (List Row)
    execute_within timeout command kwargs =
        execute_with_retry timeout command kwargs >>= log_answer command

    abbrev pub execute : String → Row → Action (State Api W) (List Row)
    execute = execute_within api_timeout

    abbrev pub execute_long : String → Row → Action (State Api W) (List Row)
    execute_long = execute_within long_timeout

    abbrev pub version_of : Row → String
    version_of row = get_or (get row "version") "unknown"

    unfoldable pub note_version : List Row → Action (State Api W) String
    note_version [] = give "unknown"
    note_version (row ∷ rows) =
        tells_pool (λ p. Closing.set_version p k (version_of row)) >> give (version_of row)

    unfoldable pub version_or_fetched : String → Action (State Api W) String
    version_or_fetched cached =
        if is_text cached
        then give cached
        else try (execute_long "system/resource/print" [] >>= note_version)
            (λ e. invalidate_version >> give "unknown")

    unfoldable pub get_version : Action (State Api W) String
    get_version = asks_pool (λ p. Closing.get_version p k) >>= version_or_fetched

    abbrev pub is_version_7 : Action (State Api W) Bool
    is_version_7 = get_version >>= λ version. give (starts_with version "7")
