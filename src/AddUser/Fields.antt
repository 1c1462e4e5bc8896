-- ===== src/AddUser/Fields.antt =====
-- bot/handlers/hotspot_add.py: the handlers of the fields, one after the other.
use mikrotik_bot.Prelude.{
  zero, suc, ℕ, String, Bool, true, false, Option, none, some, List, [], ◌∷◌, if◌then◌else◌, ℤ, pos,
  negsuc, string_eq, ◌==◌,
}
use mikrotik_bot.Action.{Action, give, writes, try, ◌>>=◌, ◌>>◌}
use mikrotik_bot.Client.{Texts, is_text}
use mikrotik_bot.Hotspot.{user_exists}
use mikrotik_bot.RouterKey.{from_char}
use mikrotik_bot.Validators.Checks.{validate_username, validate_password, validate_bytes_input}
use mikrotik_bot.AddUser.{
  WaitingState, waiting_username, waiting_password, waiting_profile, waiting_bytes_total,
  waiting_uptime_type, waiting_uptime_value, waiting_comment, HotspotAddSession, Talk, Bot,
  convert_uptime_value, get_hotspot_add_session, change_session, on_manager, Added, added,
  duplicate, failed, cleanup_state, ends, reports, execute_add_user,
}

-- names[index], where 0 <= index < len(names)
abbrev pub name_at : List String → ℕ → Option String
name_at [] i = none
name_at (name ∷ names) zero = some name
name_at (name ∷ names) (suc i) = name_at names i

abbrev pub name_of_index : List String → Option ℤ → Option String
name_of_index names none = none
name_of_index names (some (pos i)) = name_at names i
name_of_index names (some (negsuc i)) = none

-- the part of the data after the prefix `add_profile_` is the index of a name
abbrev pub resolve_profile_from_callback : Texts → List String → String → Option String
resolve_profile_from_callback text names callback_data =
    if is_text callback_data
    then name_of_index names (text.int (from_char 12 callback_data))
    else none

module _ {W : Type 0} (bot : Bot W) where
  abbrev pub Next : Type 0
  Next = Action (Talk W) (Option WaitingState)

  unfoldable pub hotspot_add_start : Next
  hotspot_add_start =
      cleanup_state bot
      >> on_manager (bot.set_action (some "hotspot_add"))
      >> give (some waiting_username)

  abbrev pub keep_username : String → Next
  keep_username username =
      change_session (λ d. record d { username = username }) >> give (some waiting_password)

  abbrev pub unless_exists : String → Bool → Next
  unless_exists username true = give (some waiting_username)
  unless_exists username false = keep_username username

  abbrev pub check_username : String → Option String → Next
  check_username username none = keep_username username
  check_username username (some k) =
      try (on_manager (user_exists bot.out k bot.text username) >>= unless_exists username)
        (reports bot)

  unfoldable pub hotspot_add_username : String → Next
  hotspot_add_username message =
      let username = bot.text.strip message in
      if validate_username bot.is_alnum username
      then on_manager bot.get_selected_router >>= check_username username
      else give (some waiting_username)

  abbrev pub fetch_and_cache_profiles : Option String → Action (Talk W) (Unit {0})
  fetch_and_cache_profiles none = give tt
  fetch_and_cache_profiles (some k) = on_manager (bot.fetch_profiles k) >>= λ names.
      writes (λ s. record s { user_data = record s.user_data { profile_names = names } })

  abbrev pub show_profiles_of : Option String → Next
  show_profiles_of router_key =
      try (fetch_and_cache_profiles router_key >> give (some waiting_profile)) (reports bot)

  -- the picker of profiles; this is all that `add_back_to_profile` does
  unfoldable pub add_back_to_profile : Next
  add_back_to_profile = on_manager bot.get_selected_router >>= show_profiles_of

  unfoldable pub hotspot_add_password : String → Next
  hotspot_add_password message =
      let password = bot.text.strip message in
      if validate_password password
      then change_session (λ d. record d { password = password }) >> add_back_to_profile
      else give (some waiting_password)

  unfoldable pub skip_password : Next
  skip_password = change_session (λ d. record d { password = "" }) >> add_back_to_profile

  unfoldable pub hotspot_add_profile : String → Next
  hotspot_add_profile message =
      change_session (λ d. record d { profile = bot.text.strip message })
      >> give (some waiting_bytes_total)

  abbrev pub keep_profile : Option String → Next
  keep_profile none = ends bot
  keep_profile (some profile) =
      if is_text profile
      then change_session (λ d. record d { profile = profile }) >> give (some waiting_bytes_total)
      else ends bot

  unfoldable pub hotspot_add_profile_selected : String → Next
  hotspot_add_profile_selected callback_data s =
      keep_profile (resolve_profile_from_callback bot.text s.user_data.profile_names callback_data)
        s

  abbrev pub keep_bytes : Option String → Next
  keep_bytes none = give (some waiting_bytes_total)
  keep_bytes (some bytes_total) =
      change_session (λ d. record d { bytes_total = bytes_total })
      >> give (some waiting_uptime_type)

  unfoldable pub hotspot_add_bytes : String → Next
  hotspot_add_bytes message =
      keep_bytes (validate_bytes_input bot.parse_bytes (bot.text.strip message))

  unfoldable pub skip_bytes : Next
  skip_bytes = keep_bytes (some "")

  unfoldable pub skip_uptime : Next
  skip_uptime = change_session (λ d. record d { uptime_value = "" }) >> give (some waiting_comment)

  unfoldable pub hotspot_add_uptime_type : String → Next
  unfolding skip_uptime string_eq
  hotspot_add_uptime_type query_data =
      if query_data == "uptime_hours"
      then change_session (λ d. record d { uptime_type = "hours" })
        >> give (some waiting_uptime_value)
      else if query_data == "uptime_days"
      then change_session (λ d. record d { uptime_type = "days" })
        >> give (some waiting_uptime_value)
      else if query_data == "skip_uptime"
      then skip_uptime
      else give (some waiting_uptime_type)

  abbrev pub keep_uptime : String → Next
  keep_uptime uptime =
      if is_text uptime
      then change_session (λ d. record d { uptime_value = uptime }) >> give (some waiting_comment)
      else give (some waiting_uptime_value)

  -- session.uptime_type or "hours"
  abbrev pub unit_of : HotspotAddSession → String
  unit_of session = if is_text session.uptime_type then session.uptime_type else "hours"

  unfoldable pub hotspot_add_uptime_value : String → Next
  hotspot_add_uptime_value message = get_hotspot_add_session >>= λ session.
      keep_uptime (convert_uptime_value bot.text (bot.text.strip message) (unit_of session))

  abbrev pub after_add : Added → Next
  after_add added = cleanup_state bot >> give (some waiting_username)
  after_add duplicate = give (some waiting_username)
  after_add failed = ends bot

  abbrev pub add_on : String → Option String → Next
  add_on comment none = ends bot
  add_on comment (some k) = execute_add_user bot k comment >>= after_add

  -- `hotspot_add_comment` after it has read the comment; `skip_comment` is that with no comment
  unfoldable pub hotspot_add_comment : String → Next
  hotspot_add_comment comment = on_manager bot.get_selected_router >>= add_on comment
