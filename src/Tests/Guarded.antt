-- ===== src/Tests/Guarded.antt =====
-- utils/admin_decorator.py for a few users: 7 is one of ADMIN_IDS, 8 an operator, 9 a viewer.
use mikrotik_bot.Prelude.{
  ℕ, ◌≤◌, ◌≡◌, ◌≢◌, refl, ◌↔◌, ◌⊎◌, true, false, String, Option, none, some, List, [], ◌∷◌,
  contains, arith, nat_eqb, if◌then◌else◌, nat_eq, string_eq, pair_eq,
}
use mikrotik_bot.Dict
use mikrotik_bot.Access.{
  RateLimits, Update, runs, check_rate_limit, get_rate_limit, admin_only, require_role,
  require_ownership, role_level,
}
use mikrotik_bot.Access.Limiter.{
  Call, answers, allowances, times_of, IsMonotonic, rate_limit_refines,
}
use mikrotik_bot.Access.Guards.{
  Passes, reaches, level, guards_exact, ownership_runs, role_hierarchy,
}

abbrev presses : List Call
presses =
    ((8, "reboot"), 100000)
    ∷ ((9, "reboot"), 100500)
    ∷ ((8, "reboot"), 105000)
    ∷ ((8, "reboot"), 110001)
    ∷ []

in_order : IsMonotonic 100000 presses
unfolding IsMonotonic
in_order = ground arith

rate_limit_refines_example :
    answers (8, "reboot") (record { data_of = []; last_cleanup = 100000 }) presses
    ≡ allowances (get_rate_limit "reboot") 0 (times_of (8, "reboot") presses)
rate_limit_refines_example = rate_limit_refines (8, "reboot") 100000 presses in_order

second_press_refused :
    answers (8, "reboot") (record { data_of = []; last_cleanup = 100000 }) presses
    ≡ true ∷ false ∷ true ∷ []
unfolding answers check_rate_limit get_rate_limit Dict.get Dict.set pair_eq nat_eq string_eq
second_press_refused = refl

abbrev admins : List ℕ
admins = 7 ∷ []

abbrev roles : ℕ → Option String
roles user_id =
    if nat_eqb user_id 8 then some "operator" else if nat_eqb user_id 9 then some "viewer" else none

abbrev unused_limits : RateLimits
unused_limits = record { data_of = []; last_cleanup = 100000 }

abbrev from_operator : Update
from_operator = record { effective_user = some 8; is_group_chat = false }

-- the owner of router 3 is user 8
abbrev owners : ℕ → Option (Option ℕ)
owners i = if nat_eqb i 3 then some (some 8) else none

guards_exact_example :
    (((require_role admins roles "operator" from_operator "reboot" 100000 unused_limits).0 ≡ runs)
      ↔ Passes admins roles
          (λ user_id. reaches (level admins roles user_id) (role_level 30 "operator") ≡ true)
          from_operator
          "reboot"
          100000
          unused_limits)
    × (((admin_only admins roles from_operator "reboot" 100000 unused_limits).0 ≡ runs)
        ↔ Passes admins roles
            (λ user_id.
              (contains admins user_id ≡ true)
              ⊎ ((role : String) × (roles user_id ≡ some role) × (role ≢ "")))
            from_operator
            "reboot"
            100000
            unused_limits)
guards_exact_example =
    guards_exact admins roles "operator" from_operator "reboot" 100000 unused_limits

ownership_runs_example : (require_ownership admins roles owners (some 8) (some 3) ≡ runs) ↔ (
    (user_id : ℕ) × (some 8 ≡ some user_id)
    × ((contains admins user_id ≡ true)
        ⊎ ((i : ℕ) × (some 3 ≡ some i) × (owners i ≡ some (some user_id)) × (user_id ≢ 0))))
ownership_runs_example = ownership_runs admins roles owners (some 8) (some 3)

operator_level_suffices : role_level 30 "viewer" ≤ role_level 30 "operator"
unfolding role_level string_eq
operator_level_suffices = omega arith

operator_runs :
    (require_role admins roles "operator" from_operator "reboot" 100000 unused_limits).0 ≡ runs
unfolding require_role check_rate_limit role_level get_rate_limit string_eq nat_eq Dict.get Dict.set
operator_runs = refl

viewer_runs :
    (require_role admins roles "viewer" from_operator "reboot" 100000 unused_limits).0 ≡ runs
viewer_runs =
    role_hierarchy admins roles "viewer" "operator" from_operator "reboot" 100000 unused_limits
      operator_level_suffices operator_runs
