-- ===== src/Access.antt =====
-- utils/admin_decorator.py: the rate limits and the guards of the bot's handlers. Times are
-- milliseconds of `time.monotonic()`. The administrators' identifiers (config.ADMIN_IDS), the role
-- that the database records for a user and the owner of a router are arguments. The exemption that
-- `_check_rate_limit` makes while the repository's tests run is left out.
pub mod Limiter
pub mod Guards
use text.Mathlib.Text.{find?}
use mikrotik_bot.Prelude.{
  ℕ, ◌+◌, String, Bool, true, false, ◌&&◌, ◌||◌, not, Option, none, some, List, [], ◌∷◌, map,
  filter, ltb, leb, nat_eqb, if◌then◌else◌, get_or, is_some, contains, ◌==◌, string_eq, nat_eq,
  pair_eq,
}
use mikrotik_bot.Dict.{Dict, get, set, pop}

abbrev pub cleanup_interval : ℕ
cleanup_interval = 300000

abbrev pub max_age : ℕ
max_age = 60000

abbrev pub default_rate_limit : ℕ
default_rate_limit = 1000

abbrev pub rate_limits : List (String × ℕ)
rate_limits =
    ("reboot", 10000)
    ∷ ("manual_add", 2000)
    ∷ ("backup", 30000)
    ∷ ("restore", 60000)
    ∷ ("delete", 5000)
    ∷ ("add", 2000)
    ∷ ("edit", 2000)
    ∷ []

-- the first entry whose key is part of the name
abbrev pub rate_limit_in : List (String × ℕ) → String → ℕ
rate_limit_in [] func_name = default_rate_limit
rate_limit_in ((key, limit) ∷ limits) func_name =
    if is_some (find? func_name key) then limit else rate_limit_in limits func_name

unfoldable pub get_rate_limit : String → ℕ
get_rate_limit func_name = rate_limit_in rate_limits func_name

abbrev pub Key : Type 0
Key = ℕ × String

-- the module's `_rate_limit_data` and `_last_cleanup`
pub record RateLimits : Type 0 where
  pub data_of : Dict Key ℕ
  pub last_cleanup : ℕ

-- now - ts > max_age
abbrev pub is_stale : Dict Key ℕ → ℕ → Key → Bool
is_stale d now key = ltb (get_or (get d key) 0 + max_age) now

-- for k in keys: d.pop(k, None)
unfoldable pub remove : Dict Key ℕ → List Key → Dict Key ℕ
remove d [] = d
remove d (key ∷ keys) = remove (pop d key) keys

abbrev pub keys_of : Dict Key ℕ → List Key
keys_of d = map (λ entry. entry.0) d

unfoldable pub clean : RateLimits → ℕ → RateLimits
unfolding remove
clean limits now =
    if ltb (limits.last_cleanup + cleanup_interval) now
    then record {
      data_of =
          remove limits.data_of (filter (is_stale limits.data_of now) (keys_of limits.data_of));
      last_cleanup = now;
    }
    else limits

-- 0.05 <= now - last < limit
abbrev pub is_too_soon : ℕ → ℕ → ℕ → Bool
is_too_soon limit last now = leb (last + 50) now && ltb now (last + limit)

-- `_check_rate_limit` under the lock
unfoldable pub check_rate_limit : RateLimits → ℕ → String → ℕ → Bool × RateLimits
unfolding clean
check_rate_limit limits user_id func_name now =
    let cleaned = clean limits now in
    if is_too_soon (get_rate_limit func_name) (get_or (get cleaned.data_of (user_id, func_name)) 0)
      now
    then (false, cleaned)
    else (true, record cleaned { data_of = set cleaned.data_of (user_id, func_name) now })

unfoldable pub reset_rate_limit : RateLimits → ℕ → RateLimits
unfolding remove
reset_rate_limit limits user_id = record limits {
  data_of = remove limits.data_of (filter (λ key. nat_eqb key.0 user_id) (keys_of limits.data_of));
}

-- ROLE_LEVELS.get(role, missing)
unfoldable pub role_level : ℕ → String → ℕ
role_level missing role =
    if role == "super_admin"
    then 40
    else if role == "customer"
    then 30
    else if role == "admin"
    then 30
    else if role == "operator"
    then 20
    else if role == "viewer"
    then 10
    else missing

-- what becomes of an update: nothing, one of the replies, or a run of the handler
pub data Verdict : Type 0 where
  ignored rate_limited admin_only_msg insufficient_role_msg not_owner_msg runs : Verdict

-- an update's sender and whether its chat is not private
pub record Update : Type 0 where
  pub effective_user : Option ℕ
  pub is_group_chat : Bool

module _ (admin_ids : List ℕ) (get_admin_role : ℕ → Option String) where
  -- a stored role counts unless it is the empty text
  unfoldable pub is_authorized : ℕ → Bool
  is_authorized user_id =
      contains admin_ids user_id || not (get_or (get_admin_role user_id) "" == "")

  -- `db_role or "admin"`
  abbrev pub recorded : Option String → String
  recorded none = "admin"
  recorded (some role) = if role == "" then "admin" else role

  unfoldable pub check_role_level : ℕ → ℕ → Verdict
  unfolding role_level
  check_role_level user_id min_level =
      if not (contains admin_ids user_id) && not (is_some (get_admin_role user_id))
      then admin_only_msg
      else let role =
          if contains admin_ids user_id then "super_admin" else recorded (get_admin_role user_id) in
        if ltb (role_level 0 role) min_level then insufficient_role_msg else runs

  unfoldable pub admin_check : ℕ → Verdict
  unfolding is_authorized
  admin_check user_id = if is_authorized user_id then runs else admin_only_msg

  -- what both decorators do before their own test
  unfoldable pub guard : (ℕ → Verdict) → Update → String → ℕ → RateLimits → Verdict × RateLimits
  unfolding check_rate_limit
  guard check update func_name now limits = elim update.effective_user [
    | none ↦ (ignored, limits)
    | some user_id ↦
        if update.is_group_chat
        then (ignored, limits)
        else let (allowed, limits') = check_rate_limit limits user_id func_name now in
          if allowed then (check user_id, limits') else (rate_limited, limits')
  ]

  unfoldable pub admin_only : Update → String → ℕ → RateLimits → Verdict × RateLimits
  unfolding guard admin_check
  admin_only = guard admin_check

  unfoldable pub require_role : String → Update → String → ℕ → RateLimits → Verdict × RateLimits
  unfolding guard check_role_level role_level
  require_role min_role = guard (λ user_id. check_role_level user_id (role_level 30 min_role))

  -- `router_id` is what `_extract_router_id` gives and `owner` the `owner_id` of the router's record,
  -- where there is one
  unfoldable pub require_ownership : (ℕ → Option (Option ℕ)) → Option ℕ → Option ℕ → Verdict
  require_ownership owner_of effective_user router_id = elim effective_user [
    | none ↦ ignored
    | some user_id ↦ if contains admin_ids user_id then runs else elim router_id [
      | none ↦ not_owner_msg
      | some i ↦ elim (owner_of i) [
        | none ↦ not_owner_msg
        | some owner_id ↦ elim owner_id [
          | none ↦ not_owner_msg
          | some owner ↦
              if nat_eqb owner 0 || not (nat_eqb owner user_id) then not_owner_msg else runs
        ]
      ]
    ]
  ]
