-- ===== src/Userman/Accounts.antt =====
-- core/userman_manager.py: the creation of accounts and the links to their profiles.
use Prim.Native.String.{◌++◌}
use mikrotik_bot.Prelude.{
  String, Bool, true, false, Option, none, some, List, [], ◌∷◌, if◌then◌else◌, string_eq, is_some,
  get_or,
}
use mikrotik_bot.Dict.{get, set}
use mikrotik_bot.Action.{Fault, Action, give, writes, try, ◌>>=◌, ◌>>◌}
use mikrotik_bot.Client.{Row, Outside, Texts, is_text}
use mikrotik_bot.Validators.{sanitize_comment}
use mikrotik_bot.Userman.{
  UserManager, Card, LinkError, attach_failed, verify_failed, link_not_found, is_v7, first_row,
  is_link, set_text, on_world, execute, base_path_of, forget_users, get_customer_login,
}

abbrev pub Linked : Type 0
Linked = Bool × Option LinkError

abbrev pub failed : LinkError → Linked
failed e = (false, some e)

-- the comment of a new account, and its time stamp
unfoldable pub commented : Texts → String → String → Row → Row
commented text comment timestamp params =
    let noted =
      if is_text comment
      then set params "comment" (sanitize_comment text comment 200)
      else params in
    let so_far = get_or (get noted "comment") "" in
    if is_text timestamp
    then set noted "comment"
        (if is_text so_far then so_far ++ (" | ts:" ++ timestamp) else "ts:" ++ timestamp)
    else noted

module _ {W : Type 0} (out : Outside W) (k : String) where
  -- `_verify_profile_link`
  unfoldable pub verify_profile_link : String → String → String → Action (UserManager W) Linked
  verify_profile_link base_path username profile =
      try
        (execute out k (base_path ++ "/user-profile/print") [] >>= λ rows. give (
          if is_some (first_row (is_link username profile) rows)
          then (true, none)
          else failed link_not_found))
        (λ e. give (failed (verify_failed e)))

  -- what the fault of the attaching command leaves to do
  abbrev pub settle : Action (UserManager W) Linked → Option Fault → Action (UserManager W) Linked
  settle verify none = verify
  settle verify (some e) = give (failed (attach_failed e))

  -- the attaching command, then the read-back; a fault of the command is the answer
  unfoldable pub attach :
      Action (UserManager W) (List Row)
      → Action (UserManager W) Linked
      → Action (UserManager W) Linked
  attach command verify = try (command >>= λ rows. give none) (λ e. give (some e)) >>= settle verify

  unfoldable pub attach_v7_profile : String → String → String → Action (UserManager W) Linked
  attach_v7_profile base_path username profile =
      attach
        (execute out k (base_path ++ "/user-profile/add")
          (("user", username) ∷ ("profile", profile) ∷ []))
        (verify_profile_link base_path username profile)

  unfoldable pub attach_v6_profile : String → String → String → Action (UserManager W) Linked
  attach_v6_profile base_path username profile =
      attach
        (get_customer_login out k >>= λ customer.
          execute out k (base_path ++ "/user/create-and-activate-profile")
            (("profile", profile) ∷ ("numbers", username) ∷ ("customer", customer) ∷ []))
        (verify_profile_link base_path username profile)

  -- `_log_um_action`, with the router's name
  unfoldable pub log_um_action : String → String → Action (UserManager W) (Unit {0})
  log_um_action action username = on_world out (out.client.get_router_name k) >>= λ router_name.
      on_world out (out.log_action action username router_name 0)

  -- the fields that name the account, of the version that the base path tells
  unfoldable pub owner_fields : String → String → Action (UserManager W) Row
  owner_fields base_path username =
      if is_v7 base_path
      then give (("name", username) ∷ [])
      else get_customer_login out k >>= λ customer.
          give (("username", username) ∷ ("customer", customer) ∷ [])

  -- the profile's link, by the version that the base path tells
  unfoldable pub attach_profile : String → String → String → Action (UserManager W) Linked
  attach_profile base_path username profile =
      if is_v7 base_path
      then attach_v7_profile base_path username profile
      else attach_v6_profile base_path username profile

  unfoldable pub add_profile_to_user : String → String → Action (UserManager W) Linked
  add_profile_to_user username profile =
      base_path_of out k >>= λ base_path. attach_profile base_path username profile

  unfoldable pub link_profile : String → String → String → Action (UserManager W) Linked
  link_profile base_path username profile =
      if is_text profile then attach_profile base_path username profile else give (false, none)

  unfoldable pub create_user :
      (text : Texts) (username password profile comment caller_id timestamp : String)
      → Action (UserManager W) Card
  create_user text username password profile comment caller_id timestamp = do
    base_path ← base_path_of out k
    owner ← owner_fields base_path username
    let named = set_text "password" password owner
    let noted = commented text comment timestamp named
    let bound = set_text "caller-id" caller_id noted
    let params = if is_v7 base_path then bound else set bound "shared-users" "1"
    execute out k (base_path ++ "/user/add") params
    writes (forget_users out k)
    log_um_action "userman_user_create" username
    linked ← link_profile base_path username profile
    give (record {
      username = username;
      password = password;
      profile_linked = linked.0;
      link_error = linked.1;
    })
