-- ===== src/AddUser/Steps.antt =====
-- bot/registration_parts/conversation.py: which handler takes an event in which state of the
-- conversation, and the conversation as a run of events. An event that no handler of the state takes
-- leaves the state as it is, and so does a handler that raises. Events that `admin_only` turns away
-- are no events of this model, nor are those of the other conversations.
use mikrotik_bot.Prelude.{
  ℕ, String, Option, none, some, List, [], ◌∷◌, if◌then◌else◌, nat_eqb, Result, ok, err,
}
use mikrotik_bot.Action.{Fault, give}
use mikrotik_bot.AddUser.{
  WaitingState, waiting_username, waiting_password, waiting_profile, waiting_bytes_total,
  waiting_uptime_type, waiting_uptime_value, waiting_comment, Talk, Bot,
}
use mikrotik_bot.AddUser.Fields.{
  Next, hotspot_add_start, hotspot_add_username, add_back_to_profile, hotspot_add_password,
  skip_password, hotspot_add_profile, hotspot_add_profile_selected, hotspot_add_bytes, skip_bytes,
  skip_uptime, hotspot_add_uptime_type, hotspot_add_uptime_value, hotspot_add_comment,
}

-- the registered callbacks; two carry the data of the button
pub data Callback : Type 0 where
  back_to_username password_skipped back_to_password back_to_profile bytes_skipped uptime_skipped
        back_to_bytes back_to_uptime comment_skipped :
      Callback
  profile_picked uptime_type_picked : String → Callback

pub data Event : Type 0 where
  starts : Event
  says : String → Event
  presses : Callback → Event

-- the value of the state
unfoldable pub value : WaitingState → ℕ
value waiting_username = 0
value waiting_password = 1
value waiting_profile = 2
value waiting_bytes_total = 3
value waiting_comment = 4
value waiting_uptime_type = 5
value waiting_uptime_value = 6

-- the state for which a callback is registered
abbrev pub registered : Callback → WaitingState
registered back_to_username = waiting_password
registered password_skipped = waiting_password
registered back_to_password = waiting_profile
registered (profile_picked callback_data) = waiting_profile
registered back_to_profile = waiting_bytes_total
registered bytes_skipped = waiting_bytes_total
registered (uptime_type_picked callback_data) = waiting_uptime_type
registered uptime_skipped = waiting_uptime_value
registered back_to_bytes = waiting_uptime_value
registered back_to_uptime = waiting_comment
registered comment_skipped = waiting_comment

module _ {W : Type 0} (bot : Bot W) where
  unfoldable pub pressed : Callback → Next bot
  pressed back_to_username = give (some waiting_username)
  pressed password_skipped = skip_password bot
  pressed back_to_password = give (some waiting_password)
  pressed (profile_picked callback_data) = hotspot_add_profile_selected bot callback_data
  pressed back_to_profile = add_back_to_profile bot
  pressed bytes_skipped = skip_bytes bot
  pressed (uptime_type_picked callback_data) = hotspot_add_uptime_type bot callback_data
  pressed uptime_skipped = skip_uptime bot
  pressed back_to_bytes = give (some waiting_bytes_total)
  pressed back_to_uptime = give (some waiting_uptime_type)
  pressed comment_skipped = hotspot_add_comment bot ""

  unfoldable pub said : WaitingState → String → Next bot
  said waiting_username message = hotspot_add_username bot message
  said waiting_password message = hotspot_add_password bot message
  said waiting_profile message = hotspot_add_profile bot message
  said waiting_bytes_total message = hotspot_add_bytes bot message
  said waiting_uptime_type message = give (some waiting_uptime_type)
  said waiting_uptime_value message = hotspot_add_uptime_value bot message
  said waiting_comment message = hotspot_add_comment bot (bot.text.strip message)

  unfoldable pub handle : WaitingState → Event → Next bot
  unfolding pressed said value
  handle state starts = hotspot_add_start bot
  handle state (says message) = said state message
  handle state (presses callback) =
      if nat_eqb (value state) (value (registered callback))
      then pressed callback
      else give (some state)

  -- the state after a handler
  abbrev pub after :
      Option WaitingState
      → Result Fault (Option WaitingState) × Talk W
      → Option WaitingState × Talk W
  after state (ok next, s) = (next, s)
  after state (err e, s) = (state, s)

  unfoldable pub step : Event → Option WaitingState × Talk W → Option WaitingState × Talk W
  unfolding handle
  step starts (none, s) = after none (hotspot_add_start bot s)
  step event (none, s) = (none, s)
  step event (some state, s) = after (some state) (handle state event s)

  unfoldable pub converse : List Event → Option WaitingState × Talk W → Option WaitingState × Talk W
  unfolding step
  converse [] c = c
  converse (event ∷ events) c = converse events (step event c)
