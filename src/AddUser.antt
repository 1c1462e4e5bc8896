-- ===== src/AddUser.antt =====
-- bot/handlers/hotspot_add.py: the conversation that adds a hotspot user, with the session of
-- bot/handlers/session_models.py and execute_add_user of bot/handlers/hotspot_common.py. The state is
-- the user's data in the conversation and the manager of hotspot users. Messages to the user leave no
-- trace. A handler gives the next state of the conversation, or none where it ends.
pub mod Buttons
pub mod Fields
pub mod Steps
pub mod Entries
pub mod Handlers
pub mod Limits
pub mod Adding
pub mod Sound
use Prim.Native.String.{◌++◌}
use mikrotik_bot.Prelude.{
  ℕ, String, Bool, true, false, Option, none, some, List, [], get_or, if◌then◌else◌, ltb, ℤ, pos,
  negsuc, string_eq, ◌==◌,
}
use mikrotik_bot.Action.{Fault, Action, give, throw, reads, writes, try, ◌>>=◌, ◌>>◌, within}
use mikrotik_bot.Client.{Outside, Texts, is_text}
use mikrotik_bot.Hotspot.{HotspotManager, add_user}
use mikrotik_bot.RouterKey.Digits.{decimal}

pub data WaitingState : Type 0 where
  waiting_username waiting_password waiting_profile waiting_bytes_total waiting_uptime_type
        waiting_uptime_value waiting_comment :
      WaitingState

pub record HotspotAddSession : Type 0 where
  pub username : String
  pub password : String
  pub profile : String
  pub uptime_type : String
  pub uptime_value : String
  pub bytes_total : String

abbrev pub new_session : HotspotAddSession
new_session = record {
  username = "";
  password = "";
  profile = "";
  uptime_type = "";
  uptime_value = "";
  bytes_total = "";
}

-- what the conversation uses of context.user_data
pub record UserData : Type 0 where
  pub hotspot_add_session : Option HotspotAddSession
  pub profile_names : List String

pub record Talk (W : Type 0) : Type 0 where
  pub user_data : UserData
  pub manager : HotspotManager W

-- how the handlers take an exception: as that of a name which the router has already, as one that
-- they name (LibRouterosError, OSError, MikrotikBotError), or as one that they let through
pub data Failure : Type 0 where
  already_have reported escapes : Failure

-- what the handlers use beside the manager: the user's row in the database, the log of actions, the
-- names of profiles, Python's tables of letters and the reading of byte limits as floats
pub record Bot (W : Type 0) : Type 0 where
  pub out : Outside W
  pub text : Texts
  pub is_alnum : String → Bool
  pub parse_bytes : String → Option String
  pub get_selected_router : Action (HotspotManager W) (Option String)
  pub fetch_profiles : String → Action (HotspotManager W) (List String)
  pub set_action : Option String → Action (HotspotManager W) (Unit {0})
  pub log_action : String → String → Action (HotspotManager W) (Unit {0})
  pub failure : HotspotManager W → Fault → Failure

-- f"{n:02d}"
unfoldable pub two_digits : ℕ → String
two_digits n = if ltb n 10 then "0" ++ decimal n else decimal n

abbrev pub uptime_text : String → ℕ → String
uptime_text unit n = if unit == "hours" then two_digits n ++ ":00:00" else decimal n ++ "d00:00:00"

-- the text of a positive number of hours or days, or the empty text
unfoldable pub positive_uptime : String → Option ℤ → String
unfolding string_eq
positive_uptime unit none = ""
positive_uptime unit (some (pos n)) = if ltb 0 n then uptime_text unit n else ""
positive_uptime unit (some (negsuc n)) = ""

abbrev pub convert_uptime_value : Texts → String → String → String
convert_uptime_value text value unit = positive_uptime unit (text.int value)

abbrev pub current : UserData → HotspotAddSession
current d = get_or d.hotspot_add_session new_session

module _ {W : Type 0} where
  abbrev pub with_session : Talk W → Option HotspotAddSession → Talk W
  with_session s session = record s {
    user_data = record s.user_data { hotspot_add_session = session };
  }

  -- get_hotspot_add_session(context.user_data)
  abbrev pub get_hotspot_add_session : Action (Talk W) HotspotAddSession
  get_hotspot_add_session s =
      give (current s.user_data) (with_session s (some (current s.user_data)))

  -- get_hotspot_add_session(context.user_data).field = value
  abbrev pub change_session : (HotspotAddSession → HotspotAddSession) → Action (Talk W) (Unit {0})
  change_session f = writes (λ s. with_session s (some (f (current s.user_data))))

  abbrev pub on_manager : {A : Type 0} → Action (HotspotManager W) A → Action (Talk W) A
  on_manager = within (λ s. s.manager) (λ s m. record s { manager = m })

-- what `execute_add_user` answers
pub data Added : Type 0 where
  added duplicate failed : Added

module _ {W : Type 0} (bot : Bot W) where
  -- cleanup_state: none of the keys that it drops is in `UserData`
  abbrev pub cleanup_state : Action (Talk W) (Unit {0})
  cleanup_state = on_manager (bot.set_action none)

  abbrev pub ends : Action (Talk W) (Option WaitingState)
  ends = cleanup_state >> give none

  abbrev pub ends_unless_escapes : Fault → Failure → Action (Talk W) (Option WaitingState)
  ends_unless_escapes e escapes = throw e
  ends_unless_escapes e _ = ends

  -- except (LibRouterosError, OSError, MikrotikBotError): the conversation ends
  abbrev pub reports : Fault → Action (Talk W) (Option WaitingState)
  reports e s = ends_unless_escapes e (bot.failure s.manager e) s

  abbrev pub not_added : Fault → Failure → Action (Talk W) Added
  not_added e already_have = writes (λ s. with_session s none) >> give duplicate
  not_added e reported = give failed
  not_added e escapes = throw e

  abbrev pub reports_failure : Fault → Action (Talk W) Added
  reports_failure e s = not_added e (bot.failure s.manager e) s

  abbrev pub adds : String → String → HotspotAddSession → Action (Talk W) Added
  adds k comment session =
      on_manager (
        add_user bot.out k bot.text session.username session.password session.profile
          session.bytes_total session.uptime_value comment)
      >> on_manager (bot.log_action session.username k)
      >> give added

  abbrev pub adds_named : String → String → HotspotAddSession → Action (Talk W) Added
  adds_named k comment session =
      if is_text session.username then try (adds k comment session) reports_failure else give failed

  unfoldable pub execute_add_user : String → String → Action (Talk W) Added
  execute_add_user k comment = get_hotspot_add_session >>= adds_named k comment
