-- ===== src/Userman.antt =====
-- core/userman_manager.py, `UserManager`. An action's state is the manager with its three caches and
-- the world beyond it. Log lines leave no trace.
pub mod Accounts
pub mod Lookup
pub mod Links
pub mod Cards
pub mod Fresh
pub mod Ids
use Prim.Native.String.{◌++◌}
use text.Mathlib.Text.{starts_with}
use mikrotik_bot.Prelude.{
  ℕ, ◌+◌, String, Bool, true, false, ◌&&◌, not, Option, none, some, List, [], ◌∷◌, get_or,
  if◌then◌else◌, string_eq, Result, ok, err, ◌==◌, take, map,
}
use mikrotik_bot.Prelude
use mikrotik_bot.Dict.{Dict, get, set}
use mikrotik_bot.Cache
use mikrotik_bot.Cache.{TtlCache}
use mikrotik_bot.Action.{
  Fault, expected, unforeseen, Action, give, throw, reads, writes, try, ◌>>=◌, ◌>>◌, within,
}
use mikrotik_bot.Client.{Row, Client, Outside, Texts, is_text, first_text, str_get}

pub record UserManager (W : Type 0) : Type 0 where
  pub world : W
  pub users_cache : TtlCache (List Row)
  pub sessions_cache : TtlCache (List Row)
  pub customers_cache : TtlCache String

abbrev pub init : {W : Type 0} → W → UserManager W
init w = record {
  world = w;
  users_cache = Cache.init 20 5;
  sessions_cache = Cache.init 20 5;
  customers_cache = Cache.init 20 300;
}

-- not base_path.startswith("tool/")
abbrev pub is_v7 : String → Bool
is_v7 base_path = not (starts_with base_path "tool/")

abbrev pub user_field : String → String
user_field base_path = if is_v7 base_path then "name" else "username"

-- the first row that a test accepts
unfoldable pub first_row : (Row → Bool) → List Row → Option Row
first_row p [] = none
first_row p (row ∷ rows) = let rest = first_row p rows in if p row then some row else rest

-- str(user.get(field)) == str(username)
abbrev pub has_name : String → String → Row → Bool
has_name field username row = str_get row field == username

-- `a or b`, where b may be missing
abbrev pub or_else : Option String → Option String → Option String
or_else a b = if is_text (get_or a "") then a else b

abbrev pub is_field : Option String → String → Bool
is_field none s = false
is_field (some v) s = v == s

-- a row of the link table that links the user to the profile
abbrev pub is_link : String → String → Row → Bool
is_link username profile row =
    is_field (get row "profile") profile
    && is_field (or_else (get row "user") (get row "username")) username

-- params[field] = value, where the value is not empty
abbrev pub set_text : String → String → Row → Row
set_text field value params = if is_text value then set params field value else params

-- a row with its `username` under `name`, or its `username` under `user`
abbrev pub named : String → Row → Row
named field row = elim (get row field) [
  | some v ↦ row
  | none ↦ elim (get row "username") [ some u ↦ set row field u | none ↦ row ]
]

-- the reasons for which a link is reported as missing, in place of their texts
pub data LinkError : Type 0 where
  attach_failed verify_failed : Fault → LinkError
  link_not_found : LinkError

-- what `_create_user` returns
pub record Card : Type 0 where
  pub username : String
  pub password : String
  pub profile_linked : Bool
  pub link_error : Option LinkError

pub data CardSystem : Type 0 where
  different_credentials same_credentials empty_password : CardSystem

module _ {W : Type 0} (out : Outside W) where
  abbrev pub on_world : {A : Type 0} → Action W A → Action (UserManager W) A
  on_world m = within (λ s. s.world) (λ s w. record s { world = w }) m

  abbrev pub execute : String → String → Row → Action (UserManager W) (List Row)
  execute k command args = on_world (out.client.execute k command args)

  abbrev pub base_path_of : String → Action (UserManager W) String
  base_path_of k = on_world (out.client.get_userman_base_path k)

  -- a call of a cache at the time that the clock reads
  abbrev pub at_time : {A : Type 0} → (ℕ → Action (UserManager W) A) → Action (UserManager W) A
  at_time f s = let (now, w) = out.time s.world in f now (record s { world = w })

  -- self._users_cache.get(k), .set(k, rows) and .invalidate(k)
  unfoldable pub cached_users : String → Action (UserManager W) (Option (List Row))
  cached_users k = at_time λ now.
      λ s. let (rows, c) = Cache.get s.users_cache k now in (ok rows, record s { users_cache = c })

  unfoldable pub keep_users : String → List Row → Action (UserManager W) (Unit {0})
  keep_users k rows = at_time λ now. λ s. elim (Cache.set s.users_cache k rows now) [
    | ok c ↦ (ok tt, record s { users_cache = c })
    | err e ↦ (err unforeseen, s)
  ]

  unfoldable pub forget_users : String → UserManager W → UserManager W
  forget_users k s = record s { users_cache = Cache.invalidate s.users_cache k }

  unfoldable pub invalidate_users_cache : String → UserManager W → UserManager W
  invalidate_users_cache k s = record (forget_users k s) {
    sessions_cache = Cache.invalidate s.sessions_cache k;
    customers_cache = Cache.invalidate s.customers_cache k;
  }

  abbrev pub user_proplist : String → String
  user_proplist base_path =
      ".id,"
      ++ (user_field base_path ++ ",password,profile,disabled,shared-users,caller-id,comment")

  unfoldable pub fetch_users : String → String → Action (UserManager W) (List Row)
  fetch_users k base_path = do
    users ← execute k (base_path ++ "/user/print") ((".proplist", user_proplist base_path) ∷ [])
    keep_users k users
    give users

  unfoldable pub get_all_users_cached : String → String → Action (UserManager W) (List Row)
  get_all_users_cached k base_path = cached_users k >>= λ cached. elim cached [
    | some users ↦ give users
    | none ↦ fetch_users k base_path
  ]

  unfoldable pub cached_customer : String → Action (UserManager W) (Option String)
  cached_customer k = at_time λ now. λ s.
      let (login, c) = Cache.get s.customers_cache k now in
      (ok login, record s { customers_cache = c })

  unfoldable pub keep_customer : String → String → Action (UserManager W) (Unit {0})
  keep_customer k login = at_time λ now. λ s. elim (Cache.set s.customers_cache k login now) [
    | ok c ↦ (ok tt, record s { customers_cache = c })
    | err e ↦ (err unforeseen, s)
  ]

  -- the first login among the customers' rows
  unfoldable pub first_login : String → List Row → String
  first_login field [] = "admin"
  first_login field (row ∷ rows) =
      let candidate = first_text (get row field ∷ get row "login" ∷ get row "name" ∷ []) in
      let others = first_login field rows in if is_text candidate then candidate else others

  unfoldable pub fetch_customer : String → Action (UserManager W) String
  fetch_customer k = do
    base_path ← base_path_of k
    let field = if is_v7 base_path then "name" else "login"
    login ←
        try
          (execute k (base_path ++ "/customer/print") ((".proplist", ".id," ++ field) ∷ [])
            >>= λ rows. give (first_login field rows))
          (λ e. give "admin")
    keep_customer k login
    give login

  unfoldable pub get_customer_login : String → Action (UserManager W) String
  get_customer_login k = cached_customer k >>= λ cached. elim cached [
    | some login ↦ give login
    | none ↦ fetch_customer k
  ]

  -- `_fetch_existing_usernames`
  unfoldable pub fetch_existing_usernames : String → Action (UserManager W) (List String)
  fetch_existing_usernames k =
      try
        (do
          base_path ← base_path_of k
          rows ← execute k (base_path ++ "/user/print") ((".proplist", user_field base_path) ∷ [])
          give (map (λ row. first_text (get row "name" ∷ get row "username" ∷ [])) rows))
        (λ e. give [])
