-- ===== src/Userman/Lookup.antt =====
-- core/userman_manager.py: users and sessions by name or id, and the commands on one of them.
use Prim.Native.String.{◌++◌}
use mikrotik_bot.Prelude.{
  ℕ, String, Bool, Option, none, some, List, [], ◌∷◌, if◌then◌else◌, string_eq, get_or, take, map,
  filter, ◌==◌,
}
use mikrotik_bot.Dict.{get}
use mikrotik_bot.Action.{unforeseen, Action, give, throw, try, ◌>>=◌, ◌>>◌}
use mikrotik_bot.Client.{Row, Outside, Texts, is_text, occurs_in}
use mikrotik_bot.Userman.{
  UserManager, is_v7, user_field, first_row, has_name, named, execute, base_path_of,
  get_all_users_cached,
}
use mikrotik_bot.Userman.Accounts.{log_um_action}

-- str(user.get(".id", ""))
abbrev pub id_of : Row → String
id_of row = get_or (get row ".id") ""

-- the id of the first row with the name
unfoldable pub found_id : String → String → List Row → Option String
found_id field username rows = elim (first_row (has_name field username) rows) [
  | some row ↦ some (id_of row)
  | none ↦ none
]

-- search in str(user.get(field, "")).lower()
unfoldable pub matches : Texts → String → String → Row → Bool
matches text field search row = occurs_in search (text.lower (get_or (get row field) ""))

abbrev pub session_proplist : String
session_proplist = ".id,user,username,active,host-ip,uptime,download,upload"

unfoldable pub is_active : Texts → Row → Bool
is_active text row = text.lower (get_or (get row "active") "false") == "true"

module _ {W : Type 0} (out : Outside W) (k : String) where
  -- the query with a filter
  unfoldable pub filtered_id : String → String → Action (UserManager W) (Option String)
  filtered_id base_path username =
      try
        (execute out k (base_path ++ "/user/print") (
            ("?" ++ user_field base_path, username)
            ∷ (".proplist", ".id," ++ user_field base_path)
            ∷ [])
          >>= λ rows. give (found_id (user_field base_path) username rows))
        (λ e. give none)

  -- the whole list
  unfoldable pub listed_id : String → String → Action (UserManager W) (Option String)
  listed_id base_path username =
      try
        (get_all_users_cached out k base_path >>= λ rows.
          give (found_id (user_field base_path) username rows))
        (λ e. give none)

  abbrev pub if_missing :
      Action (UserManager W) (Option String)
      → Option String
      → Action (UserManager W) (Option String)
  if_missing fallback (some i) = give (some i)
  if_missing fallback none = fallback

  unfoldable pub look_up : String → String → Action (UserManager W) (Option String)
  look_up base_path username =
      filtered_id base_path username >>= if_missing (listed_id base_path username)

  unfoldable pub get_user_id : String → Action (UserManager W) (Option String)
  get_user_id username = base_path_of out k >>= λ base_path. look_up base_path username

  -- `if not uid`: a missing id and an empty one are the same
  abbrev pub given_id :
      {A : Type 0}
      → Option String
      → Action (UserManager W) A
      → (String → Action (UserManager W) A)
      → Action (UserManager W) A
  given_id uid missing f =
      let i = get_or uid "" in let found = f i in if is_text i then found else missing

  -- `set_user_caller_id` for a caller id that is not empty
  unfoldable pub bind_caller_id : String → String → Action (UserManager W) (Unit {0})
  bind_caller_id username caller_id = do
    base_path ← base_path_of out k
    uid ← get_user_id username
    given_id uid (give tt) λ i.
        execute out k (base_path ++ "/user/set") ((".id", i) ∷ ("caller-id", caller_id) ∷ [])
        >> log_um_action out k "userman_set_caller_id" username

  unfoldable pub set_user_caller_id : String → String → Action (UserManager W) (Unit {0})
  set_user_caller_id username caller_id =
      if is_text caller_id then bind_caller_id username caller_id else give tt

  unfoldable pub list_users : ℕ → Action (UserManager W) (List Row)
  list_users limit = base_path_of out k >>= λ base_path.
      get_all_users_cached out k base_path >>= λ rows. give (take limit (map (named "name") rows))

  unfoldable pub search_users : Texts → String → Action (UserManager W) (List Row)
  search_users text search_term = base_path_of out k >>= λ base_path.
      get_all_users_cached out k base_path >>= λ rows. give (
        map (named "name")
          (filter (matches text (user_field base_path) (text.lower search_term)) rows))

  -- the first row with the id
  unfoldable pub entry_with : String → List Row → Option Row
  entry_with uid rows = elim (first_row (has_name ".id" uid) rows) [
    | some row ↦ some (named "name" row)
    | none ↦ none
  ]

  unfoldable pub get_user : String → Action (UserManager W) (Option Row)
  get_user username = get_user_id username >>= λ uid. given_id uid (give none) λ i.
      base_path_of out k >>= λ base_path.
      get_all_users_cached out k base_path >>= λ rows. give (entry_with i rows)

  -- a command on the user of the name, then the log of actions
  abbrev pub on_user : (String → String) → String → String → Action (UserManager W) (List Row)
  on_user command action username = base_path_of out k >>= λ base_path.
      get_user_id username >>= λ uid. given_id uid (throw unforeseen) λ i.
        execute out k (base_path ++ command base_path) ((".id", i) ∷ []) >>= λ result.
        log_um_action out k action username >> give result

  unfoldable pub delete_user : String → Action (UserManager W) (List Row)
  delete_user username = on_user (λ _. "/user/remove") "userman_user_delete" username

  unfoldable pub enable_user : String → Action (UserManager W) (List Row)
  enable_user username = on_user (λ _. "/user/enable") "userman_user_enable" username

  unfoldable pub disable_user : String → Action (UserManager W) (List Row)
  disable_user username = on_user (λ _. "/user/disable") "userman_user_disable" username

  unfoldable pub reset_user_counters : String → Action (UserManager W) (List Row)
  reset_user_counters username =
      on_user
        (λ base_path. if is_v7 base_path then "/user/reset-counters" else "/user/clear-profiles")
        "userman_reset_counters" username

  -- the second query, where the first one gives no session
  unfoldable pub sessions_from : Texts → String → List Row → Action (UserManager W) (List Row)
  sessions_from text base_path [] =
      execute out k (base_path ++ "/session/print") ((".proplist", session_proplist) ∷ [])
      >>= λ rows. give (filter (is_active text) rows)
  sessions_from text base_path (row ∷ rows) = give (row ∷ rows)

  unfoldable pub get_active_sessions : Texts → Action (UserManager W) (List Row)
  get_active_sessions text = do
    base_path ← base_path_of out k
    filtered ←
        execute out k (base_path ++ "/session/print")
          (("?active", "true") ∷ (".proplist", session_proplist) ∷ [])
    results ← sessions_from text base_path filtered
    give (map (named "user") results)

  unfoldable pub terminate_session : String → Action (UserManager W) (List Row)
  terminate_session session_id = do
    base_path ← base_path_of out k
    result ← execute out k (base_path ++ "/session/remove") (("numbers", session_id) ∷ [])
    log_um_action out k "userman_terminate_session" session_id
    give result
