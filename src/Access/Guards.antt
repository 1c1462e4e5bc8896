-- ===== src/Access/Guards.antt =====
-- utils/admin_decorator.py: when a decorated handler runs.
use mikrotik_bot.Prelude.{
  ℕ, ◌≤◌, ◌≡◌, ◌≢◌, refl, ◌↔◌, ◌⊎◌, inl, inr, Bool, true, false, String, Option, none, some, List,
  contains, arith, leb, if◌then◌else◌, ◌==◌, Option-cases, nat_eq, string_eq,
}
use mikrotik_bot.Dict.{==_refl}
use mikrotik_bot.Access.{
  RateLimits, Update, Verdict, runs, check_rate_limit, is_authorized, role_level, check_role_level,
  admin_check, guard, admin_only, require_role, require_ownership,
}

-- the level of a user, by whether ADMIN_IDS names the user and by the recorded role
unfoldable pub level_of : Bool → Option String → Option ℕ
level_of true role = some 40
level_of false none = none
level_of false (some role) = some (role_level 0 (if role == "" then "admin" else role))

unfoldable pub reaches : Option ℕ → ℕ → Bool
reaches none min_level = false
reaches (some n) min_level = leb min_level n

module _ (admin_ids : List ℕ) (get_admin_role : ℕ → Option String) where
  abbrev pub level : ℕ → Option ℕ
  level user_id = level_of (contains admin_ids user_id) (get_admin_role user_id)

  role_cases :
      (is_admin : Bool) (role : Option String) (user_id min_level : ℕ)
      → contains admin_ids user_id ≡ is_admin
      → get_admin_role user_id ≡ role
      → (check_role_level admin_ids get_admin_role user_id min_level ≡ runs)
        ↔ (reaches (level_of is_admin role) min_level ≡ true)
  unfolding check_role_level reaches level_of string_eq
  role_cases true role user_id min_level a r = rw a (ground arith)
  role_cases false none user_id min_level a r = rw (a, r) (ground arith)
  role_cases false (some role) user_id min_level a r = rw (a, r) (ground arith)

  -- what lets a handler run, whatever the decorator tests last
  abbrev pub Passes : (ℕ → Type 0) → Update → String → ℕ → RateLimits → Type 0
  Passes Test update func_name now limits =
      (user_id : ℕ) × (update.effective_user ≡ some user_id)
      × (update.is_group_chat ≡ false)
      × ((check_rate_limit limits user_id func_name now).0 ≡ true)
      × Test user_id

  guard-runs :
      (check : ℕ → Verdict) (update : Update) (func_name : String) (now : ℕ) (limits : RateLimits)
      → ((guard admin_ids get_admin_role check update func_name now limits).0 ≡ runs)
        ↔ Passes (λ user_id. check user_id ≡ runs) update func_name now limits
  unfolding guard
  guard-runs check update func_name now limits = elim (Option-cases update.effective_user) [
    | inl nobody ↦ rw nobody grind arith
    | inr (user_id, found) ↦ rw found grind arith
  ]

  -- Under `require_ownership` the handler runs exactly if there is a user whom ADMIN_IDS names, or who
  -- is the recorded owner of the router that the update is about and whose identifier is not 0.
  pub ownership_runs :
      (owner_of : ℕ → Option (Option ℕ)) (user router_id : Option ℕ)
      → (require_ownership admin_ids get_admin_role owner_of user router_id ≡ runs) ↔ (
          (user_id : ℕ) × (user ≡ some user_id)
          × ((contains admin_ids user_id ≡ true)
              ⊎ ((i : ℕ) × (router_id ≡ some i)
                  × (owner_of i ≡ some (some user_id))
                  × (user_id ≢ 0))))
  unfolding require_ownership
  ownership_runs owner_of none router_id = grind arith
  ownership_runs owner_of (some user_id) none = grind arith
  ownership_runs owner_of (some user_id) (some i) = grind arith

  guard_by :
      (check : ℕ → Verdict) (Test : ℕ → Type 0) (update : Update) (func_name : String) (now : ℕ)
      (limits : RateLimits)
      → ((user_id : ℕ) → (check user_id ≡ runs) ↔ Test user_id)
      → ((guard admin_ids get_admin_role check update func_name now limits).0 ≡ runs)
        ↔ Passes Test update func_name now limits
  guard_by check Test update func_name now limits tests =
      let whole = guard-runs check update func_name now limits in
      (
        (λ h.
            let (u, user, private, allowed, ran) = whole.0 h in
            (u, user, private, allowed, (tests u).0 ran)),
        (λ (u, user, private, allowed, test).
            whole.1 (u, user, private, allowed, (tests u).1 test)),
      )

  -- Under `require_role` the handler runs exactly if the update has a user and a private chat, the
  -- rate limit allows the call, and the user's level reaches the one required: 40 for ADMIN_IDS,
  -- else that of the recorded role; a user without either has none.
  require_role_runs :
      (min_role : String) (update : Update) (func_name : String) (now : ℕ) (limits : RateLimits)
      → ((require_role admin_ids get_admin_role min_role update func_name now limits).0 ≡ runs)
        ↔ Passes
            (λ user_id. reaches (level user_id) (role_level 30 min_role) ≡ true)
            update
            func_name
            now
            limits
  unfolding require_role
  require_role_runs min_role update func_name now limits =
      guard_by _ _ update func_name now limits
        (λ user_id. role_cases _ _ user_id (role_level 30 min_role) refl refl)

  admin_check-runs :
      (user_id : ℕ)
      → (admin_check admin_ids get_admin_role user_id ≡ runs) ↔ (
          (contains admin_ids user_id ≡ true)
          ⊎ ((role : String) × (get_admin_role user_id ≡ some role) × (role ≢ "")))
  unfolding admin_check is_authorized
  admin_check-runs user_id = elim (Option-cases (get_admin_role user_id)) [
    | inl nothing ↦ rw nothing grind (arith, ==_refl {K = String})
    | inr (role, found) ↦ rw found grind (arith, string_eq.equals_iff role "")
  ]

  -- Under `admin_only` the handler runs exactly if the update has a user and a private chat, the rate
  -- limit allows the call, and ADMIN_IDS names the user or a role that is not empty is recorded.
  admin_only_runs :
      (update : Update) (func_name : String) (now : ℕ) (limits : RateLimits)
      → ((admin_only admin_ids get_admin_role update func_name now limits).0 ≡ runs)
        ↔ Passes
            (λ user_id.
              (contains admin_ids user_id ≡ true)
              ⊎ ((role : String) × (get_admin_role user_id ≡ some role) × (role ≢ "")))
            update
            func_name
            now
            limits
  unfolding admin_only
  admin_only_runs update func_name now limits =
      guard_by (admin_check admin_ids get_admin_role) _ update func_name now limits admin_check-runs

  reaches-le :
      (o : Option ℕ) (low high : ℕ) → low ≤ high → reaches o high ≡ true → reaches o low ≡ true
  unfolding reaches
  reaches-le none low high le h = h
  reaches-le (some n) low high le h = ground arith

  -- Whoever may run a handler that requires one role may run it if it requires a role of no higher
  -- level.
  pub role_hierarchy :
      (low high : String) (update : Update) (func_name : String) (now : ℕ) (limits : RateLimits)
      → role_level 30 low ≤ role_level 30 high
      → (require_role admin_ids get_admin_role high update func_name now limits).0 ≡ runs
      → (require_role admin_ids get_admin_role low update func_name now limits).0 ≡ runs
  role_hierarchy low high update func_name now limits le h =
      let (u, user, private, allowed, reached) =
        (require_role_runs high update func_name now limits).0 h in
      (require_role_runs low update func_name now limits).1
        (u, user, private, allowed, reaches-le (level u) _ _ le reached)

  -- Under `require_role` the handler runs exactly if the update has a user and a private chat, the
  -- rate limit allows the call, and the user's level reaches the one required: 40 for ADMIN_IDS,
  -- else that of the recorded role; a user without either has none. Under `admin_only` it runs
  -- exactly if, beside the first three, ADMIN_IDS names the user or a role that is not empty is
  -- recorded.
  pub guards_exact :
      (role : String) (update : Update) (func_name : String) (now : ℕ) (limits : RateLimits)
      → (((require_role admin_ids get_admin_role role update func_name now limits).0 ≡ runs)
          ↔ Passes
              (λ user_id. reaches (level user_id) (role_level 30 role) ≡ true)
              update
              func_name
              now
              limits)
        × (((admin_only admin_ids get_admin_role update func_name now limits).0 ≡ runs)
            ↔ Passes
                (λ user_id.
                  (contains admin_ids user_id ≡ true)
                  ⊎ ((name : String) × (get_admin_role user_id ≡ some name) × (name ≢ "")))
                update
                func_name
                now
                limits)
  guards_exact role update func_name now limits = (
    require_role_runs role update func_name now limits,
    admin_only_runs update func_name now limits,
  )
