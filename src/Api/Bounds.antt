-- ===== src/Api/Bounds.antt =====
-- core/mikrotik_api.py: each call of `MikrotikAPI` leaves the pool within its bounds.
use mikrotik_bot.Prelude.{
  ℕ, ◌≡◌, refl, String, Option, none, some, List, [], ◌∷◌, Result, ok, err, Bool-cases, inl, inr, ℤ,
  arith,
}
use text.Mathlib.Text.{starts_with}
use mikrotik_bot.Cache.{KeyError}
use mikrotik_bot.Action.{Fault, expected, unforeseen, Action, within}
use mikrotik_bot.Action.Ensures.{Keeps}
use mikrotik_bot.Action.Keeping.{
  Keeps-give, Keeps-throw, Keeps-writes, Keeps-try, Keeps-then, Keeps-next,
}
use mikrotik_bot.Client.{Row, is_text}
use mikrotik_bot.RouterKey.{router_key_prefix}
use mikrotik_bot.Pool.{ConnectionPool, PoolError}
use mikrotik_bot.Pool.Closing
use mikrotik_bot.Pool.Bounds.{IsBounded, SamePools-IsBounded}
use mikrotik_bot.Pool.Capped.{get_connection-IsBounded, release_connection-IsBounded}
use mikrotik_bot.Executor
use mikrotik_bot.Executor.{ApiError}
use mikrotik_bot.Executor.Limits.{execute-IsBounded}
use mikrotik_bot.Api.{
  Gateway, State, StoredRow, on_world, asks_pool, stored, tells_pool, name_found, no_number,
  name_of_id, name_or_stored, get_router_name, invalidate_version, log_action_best_effort,
  execute_with_retry, log_answer, execute_within, note_version, version_or_fetched, get_version,
}
use mikrotik_bot.Api.Health.{
  with_api, connection_ctx, check_connection_health, log_sent, execute_non_blocking, logged,
}

module _ {Api W : Type 0} where
  abbrev pub IsCapped : State Api W → Type 0
  IsCapped s = IsBounded s.mikrotik.pool

module _ {Api Info W : Type 0} (gateway : Gateway Api Info W) where
  on_world-IsCapped : {A : Type 0} (m : Action W A) → Keeps IsCapped (on_world gateway m)
  unfolding within
  on_world-IsCapped m = record { at = λ s h. h }

  asks_pool-IsCapped :
      {A : Type 0} (f : ConnectionPool Api → ℕ → A × ConnectionPool Api)
      → ((p : ConnectionPool Api) (now : ℕ) → IsBounded p → IsBounded (f p now).1)
      → Keeps IsCapped (asks_pool gateway f)
  asks_pool-IsCapped f h = record { at = λ s. h s.mikrotik.pool _ }

  -- a write that succeeds leaves the queues and the counts alone
  abbrev Spares : ConnectionPool Api → Result KeyError (ConnectionPool Api) → Type 0
  Spares p (ok q) = (q.pools ≡ p.pools) × (q.active_counts ≡ p.active_counts)
  Spares p (err e) = Unit

  stored-IsCapped :
      (s : State Api W) (r : Result KeyError (ConnectionPool Api))
      → Spares s.mikrotik.pool r
      → IsCapped s
      → IsCapped (stored gateway s r).1
  stored-IsCapped s (ok q) same h = SamePools-IsBounded s.mikrotik.pool q same.0 same.1 h
  stored-IsCapped s (err e) same h = h

  tells_pool-IsCapped :
      (f : ConnectionPool Api → ℕ → Result KeyError (ConnectionPool Api))
      → ((p : ConnectionPool Api) (now : ℕ) → Spares p (f p now))
      → Keeps IsCapped (tells_pool gateway f)
  tells_pool-IsCapped f h = record {
    at = λ s. stored-IsCapped _ (f s.mikrotik.pool _) (h s.mikrotik.pool _);
  }

  set_cached_name-Spares :
      (k name : String) (p : ConnectionPool Api) (now : ℕ)
      → Spares p (Closing.set_cached_name p k name now)
  unfolding Closing.set_cached_name
  set_cached_name-Spares k name p now = ground arith

  set_version-Spares :
      (k version : String) (p : ConnectionPool Api) (now : ℕ)
      → Spares p (Closing.set_version p k version now)
  unfolding Closing.set_version
  set_version-Spares k version p now = ground arith

  module _ (k : String) where
    get_cached_name-IsBounded :
        (p : ConnectionPool Api) (now : ℕ)
        → IsBounded p
        → IsBounded (Closing.get_cached_name p k now).1
    unfolding Closing.get_cached_name
    get_cached_name-IsBounded p now h = SamePools-IsBounded p _ refl refl h

    get_version-IsBounded :
        (p : ConnectionPool Api) (now : ℕ) → IsBounded p → IsBounded (Closing.get_version p k now).1
    unfolding Closing.get_version
    get_version-IsBounded p now h = SamePools-IsBounded p _ refl refl h

    name_found-IsCapped : (row : Option StoredRow) → Keeps IsCapped (name_found gateway k row)
    name_found-IsCapped none = Keeps-give _
    name_found-IsCapped (some router) =
        Keeps-next _ _ (tells_pool-IsCapped _ (set_cached_name-Spares k _)) (Keeps-give _)

    no_number-IsCapped : (e : Fault) → Keeps IsCapped (no_number gateway k e)
    no_number-IsCapped expected = Keeps-give _
    no_number-IsCapped unforeseen = Keeps-throw _

    name_of_id-IsCapped : (db_id : Option ℤ) → Keeps IsCapped (name_of_id gateway k db_id)
    name_of_id-IsCapped none = Keeps-give _
    name_of_id-IsCapped (some db_id) =
        Keeps-then _ _ (Keeps-try _ _ (on_world-IsCapped _) no_number-IsCapped) name_found-IsCapped

    name_or_stored-IsCapped :
        (cached : Option String) → Keeps IsCapped (name_or_stored gateway k cached)
    name_or_stored-IsCapped (some name) = Keeps-give _
    name_or_stored-IsCapped none = elim (Bool-cases (starts_with k router_key_prefix)) [
      | inl discovered ↦ rw discovered (name_of_id-IsCapped _)
      | inr other ↦ rw other (Keeps-give _)
    ]

    pub get_router_name-IsCapped : Keeps IsCapped (get_router_name gateway k)
    unfolding get_router_name
    get_router_name-IsCapped =
        Keeps-then _ _
          (asks_pool-IsCapped (λ p. Closing.get_cached_name p k) get_cached_name-IsBounded)
          name_or_stored-IsCapped

    log_action-IsCapped :
        (action name : String) → Keeps IsCapped (log_action_best_effort gateway k action name)
    unfolding log_action_best_effort
    log_action-IsCapped action name = Keeps-try _ _ (on_world-IsCapped _) λ e. Keeps-give _

    execute_with_retry-IsCapped :
        (timeout : ℕ) (command : String) (kwargs : Row)
        → Keeps IsCapped (execute_with_retry gateway k timeout command kwargs)
    unfolding execute_with_retry
    execute_with_retry-IsCapped timeout command kwargs = record {
      at = λ s h. execute-IsBounded _ k command s.mikrotik h;
    }

    pub execute_within-IsCapped :
        (timeout : ℕ) (command : String) (kwargs : Row)
        → Keeps IsCapped (execute_within gateway k timeout command kwargs)
    unfolding execute_within log_answer
    execute_within-IsCapped timeout command kwargs =
        Keeps-then _ _ (execute_with_retry-IsCapped timeout command kwargs) λ rows.
          Keeps-then _ _ get_router_name-IsCapped
            λ name. Keeps-next _ _ (log_action-IsCapped command name) (Keeps-give _)

    invalidate_version-IsCapped : Keeps IsCapped (invalidate_version gateway k)
    invalidate_version-IsCapped = Keeps-writes _ λ s h.
        unfold Closing.invalidate_version in SamePools-IsBounded s.mikrotik.pool _ refl refl h

    note_version-IsCapped : (rows : List Row) → Keeps IsCapped (note_version gateway k rows)
    unfolding note_version
    note_version-IsCapped [] = Keeps-give _
    note_version-IsCapped (row ∷ rows) =
        Keeps-next _ _ (tells_pool-IsCapped _ (set_version-Spares k _)) (Keeps-give _)

    version_or_fetched-IsCapped :
        (cached : String) → Keeps IsCapped (version_or_fetched gateway k cached)
    unfolding version_or_fetched
    version_or_fetched-IsCapped cached = elim (Bool-cases (is_text cached)) [
      | inl there ↦ rw there (Keeps-give _)
      | inr absent ↦ rw absent (
          Keeps-try _ _
            (Keeps-then _ _ (execute_within-IsCapped _ "system/resource/print" [])
              note_version-IsCapped)
            λ e. Keeps-next _ _ invalidate_version-IsCapped (Keeps-give _))
    ]

    pub get_version-IsCapped : Keeps IsCapped (get_version gateway k)
    unfolding get_version
    get_version-IsCapped =
        Keeps-then _ _ (asks_pool-IsCapped (λ p. Closing.get_version p k) get_version-IsBounded)
          version_or_fetched-IsCapped

    with_api-IsCapped :
        {A : Type 0} (out : Executor.Outside Api Info (List Row))
        (body : Api → State Api W → Result ApiError A × State Api W)
        → ((api : Api) (s : State Api W) → IsCapped s → IsCapped (body api s).1)
        → (c : Result PoolError Api × ConnectionPool Api) (s : State Api W) → IsBounded c.1
        → IsCapped (with_api gateway k out body c s).1
    unfolding with_api
    with_api-IsCapped out body keeps (ok api, pool) s h =
        release_connection-IsBounded (out.link 0) k api _ _ (keeps api _ h)
    with_api-IsCapped out body keeps (err e, pool) s h = h

    connection_ctx-IsCapped :
        {A : Type 0} (out : Executor.Outside Api Info (List Row))
        (body : Api → State Api W → Result ApiError A × State Api W)
        → ((api : Api) (s : State Api W) → IsCapped s → IsCapped (body api s).1)
        → (s : State Api W) → IsCapped s
        → IsCapped (connection_ctx gateway k out body s).1
    unfolding connection_ctx
    connection_ctx-IsCapped out body keeps s h =
        with_api-IsCapped out body keeps _ s (get_connection-IsBounded (out.link 0) k _ h)

    pub check_connection_health-IsCapped :
        (crash : String) (s : State Api W)
        → IsCapped s
        → IsCapped (check_connection_health gateway k crash s).1
    unfolding check_connection_health
    check_connection_health-IsCapped crash s h = connection_ctx-IsCapped _ _ (λ api t h'. h') _ h

    logged-IsCapped :
        (r : Result Fault (Unit {0}) × State Api W) → IsCapped r.1 → IsCapped (logged gateway k r).1
    logged-IsCapped (ok _, s) h = h
    logged-IsCapped (err e, s) h = h

    log_sent-IsCapped :
        (command : String) (outcome : Result ApiError (List Row)) (s : State Api W)
        → IsCapped s
        → IsCapped (log_sent gateway k command outcome s).1
    unfolding log_sent
    log_sent-IsCapped command (ok rows) s h =
        logged-IsCapped _
          ((Keeps-then _ _ get_router_name-IsCapped (log_action-IsCapped command)).at s h)
    log_sent-IsCapped command (err e) s h = h

    pub execute_non_blocking-IsCapped :
        (command : String) (kwargs : Row) (s : State Api W)
        → IsCapped s
        → IsCapped (execute_non_blocking gateway k command kwargs s)
    unfolding execute_non_blocking
    execute_non_blocking-IsCapped command kwargs s h =
        connection_ctx-IsCapped _ _ (λ api. log_sent-IsCapped command _) _ h
