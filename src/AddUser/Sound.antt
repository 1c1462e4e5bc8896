-- ===== src/AddUser/Sound.antt =====
-- bot/handlers/hotspot_add.py: the whole conversation, whatever the user types and presses.
use mikrotik_bot.Prelude.{
  ℕ, ◌≡◌, refl, sym, ap, ◌∙◌, inl, inr, String, true, Option, none, some, List, [], ◌∷◌, Result, ok,
  err, if◌then◌else◌, nat_eqb, nat_eqb_iff, Bool-cases, subst,
}
use mikrotik_bot.Action.{Fault}
use mikrotik_bot.Action.Ensures.{Keeps}
use mikrotik_bot.Action.Triples.{Ends, Meets}
use mikrotik_bot.Hotspot.{HotspotManager, add_user, user_exists}
use mikrotik_bot.AddUser.{
  WaitingState, waiting_username, waiting_password, waiting_profile, waiting_bytes_total,
  waiting_uptime_type, waiting_uptime_value, waiting_comment, HotspotAddSession, UserData, Talk,
  Bot,
}
use mikrotik_bot.AddUser.Fields.{Next, hotspot_add_start}
use mikrotik_bot.AddUser.Steps.{
  Callback, back_to_username, password_skipped, back_to_password, back_to_profile, bytes_skipped,
  uptime_skipped, back_to_bytes, back_to_uptime, comment_skipped, profile_picked,
  uptime_type_picked, Event, starts, says, presses, value, registered, pressed, said, handle, after,
  step, converse,
}
use mikrotik_bot.AddUser.Entries.{
  HasUsername, HasPassword, HasBytes, HasUptime, Holds, With, AtNext, stays,
}
use mikrotik_bot.AddUser.Limits.{
  hotspot_add_bytes-AtNext, skip_bytes-AtNext, skip_uptime-AtNext, hotspot_add_uptime_type-AtNext,
  hotspot_add_uptime_value-AtNext,
}
use mikrotik_bot.AddUser.Handlers.{
  Handles, hotspot_add_start-AtNext, hotspot_add_username-AtNext, add_back_to_profile-AtNext,
  hotspot_add_password-AtNext, skip_password-AtNext, hotspot_add_profile-AtNext,
  hotspot_add_profile_selected-AtNext,
}
use mikrotik_bot.AddUser.Adding.{hotspot_add_comment-AtNext}

state_of : ℕ → WaitingState
state_of n =
    if nat_eqb n 0
    then waiting_username
    else if nat_eqb n 1
    then waiting_password
    else if nat_eqb n 2
    then waiting_profile
    else if nat_eqb n 3
    then waiting_bytes_total
    else if nat_eqb n 4
    then waiting_comment
    else if nat_eqb n 5
    then waiting_uptime_type
    else waiting_uptime_value

state_of-value : (state : WaitingState) → state_of (value state) ≡ state
unfolding state_of value
state_of-value waiting_username = refl
state_of-value waiting_password = refl
state_of-value waiting_profile = refl
state_of-value waiting_bytes_total = refl
state_of-value waiting_comment = refl
state_of-value waiting_uptime_type = refl
state_of-value waiting_uptime_value = refl

same_state : (a b : WaitingState) → nat_eqb (value a) (value b) ≡ true → a ≡ b
same_state a b h =
    sym (state_of-value a)
    ∙ (ap state_of ((nat_eqb_iff (value a) (value b)).0 h) ∙ state_of-value b)

module _ {W : Type 0} (bot : Bot W) (P : HotspotManager W → Type 0)
    (acts : (action : Option String) → Keeps P (bot.set_action action))
    (selects : Keeps P bot.get_selected_router)
    (fetches : (k : String) → Keeps P (bot.fetch_profiles k))
    (looks : (k name : String) → Keeps P (user_exists bot.out k bot.text name))
    (logs : (name k : String) → Keeps P (bot.log_action name k))
    (makes : (k comment : String) (d : HotspotAddSession)
      → HasUsername bot d
      → HasPassword bot d
      → HasBytes bot d
      → HasUptime bot d
      → Keeps P (
          add_user bot.out k bot.text d.username d.password d.profile d.bytes_total d.uptime_value
            comment)) where
  -- a handler in a state keeps what the next state needs
  abbrev KeepsOn : WaitingState → Next bot → Type 0
  KeepsOn state = Handles bot P acts selects fetches looks state

  pressed-AtNext : (callback : Callback) → KeepsOn (registered callback) (pressed bot callback)
  unfolding pressed
  pressed-AtNext back_to_username =
      stays bot P (Holds bot waiting_password) waiting_username λ d h. tt
  pressed-AtNext password_skipped = skip_password-AtNext bot P acts selects fetches looks
  pressed-AtNext back_to_password =
      stays bot P (Holds bot waiting_profile) waiting_password λ d h. h.0
  pressed-AtNext (profile_picked callback_data) =
      hotspot_add_profile_selected-AtNext bot P acts selects fetches looks callback_data
  pressed-AtNext back_to_profile =
      add_back_to_profile-AtNext bot P acts selects fetches looks (Holds bot waiting_bytes_total)
        λ d h. h
  pressed-AtNext bytes_skipped = skip_bytes-AtNext bot P acts selects fetches looks
  pressed-AtNext (uptime_type_picked callback_data) =
      hotspot_add_uptime_type-AtNext bot P acts selects fetches looks callback_data
  pressed-AtNext uptime_skipped = skip_uptime-AtNext bot P acts selects fetches looks
  pressed-AtNext back_to_bytes =
      stays bot P (Holds bot waiting_uptime_value) waiting_bytes_total λ d h. (h.0, h.1)
  pressed-AtNext back_to_uptime =
      stays bot P (Holds bot waiting_comment) waiting_uptime_type λ d h. (h.0, h.1, h.2)
  pressed-AtNext comment_skipped =
      hotspot_add_comment-AtNext bot P acts selects fetches looks logs makes ""

  said-AtNext : (state : WaitingState) (message : String) → KeepsOn state (said bot state message)
  unfolding said
  said-AtNext waiting_username message =
      hotspot_add_username-AtNext bot P acts selects fetches looks message
  said-AtNext waiting_password message =
      hotspot_add_password-AtNext bot P acts selects fetches looks message
  said-AtNext waiting_profile message =
      hotspot_add_profile-AtNext bot P acts selects fetches looks message
  said-AtNext waiting_bytes_total message =
      hotspot_add_bytes-AtNext bot P acts selects fetches looks message
  said-AtNext waiting_uptime_type message =
      stays bot P (Holds bot waiting_uptime_type) waiting_uptime_type λ d h. h
  said-AtNext waiting_uptime_value message =
      hotspot_add_uptime_value-AtNext bot P acts selects fetches looks message
  said-AtNext waiting_comment message =
      hotspot_add_comment-AtNext bot P acts selects fetches looks logs makes
        (bot.text.strip message)

  handle-AtNext : (state : WaitingState) (event : Event) → KeepsOn state (handle bot state event)
  unfolding handle
  handle-AtNext state starts = hotspot_add_start-AtNext bot P acts selects fetches looks state
  handle-AtNext state (says message) = said-AtNext state message
  handle-AtNext state (presses callback) =
      elim (Bool-cases (nat_eqb (value state) (value (registered callback)))) [
        | inl here ↦ rw here (
            subst (λ a. KeepsOn a (pressed bot callback)) (sym (same_state _ _ here))
              (pressed-AtNext callback))
        | inr elsewhere ↦ rw elsewhere (stays bot P (Holds bot state) state λ d h. h)
      ]

  after-AtNext :
      (state : Option WaitingState) (r : Result Fault (Option WaitingState) × Talk W)
      → Ends (AtNext bot P) (AtNext bot P state) r
      → AtNext bot P (after bot state r).0 (after bot state r).1
  after-AtNext state (ok next, s) h = h
  after-AtNext state (err e, s) h = h

  start-AtNext :
      Meets (AtNext bot P none) (AtNext bot P) (AtNext bot P none) (hotspot_add_start bot)
  start-AtNext = record {
    at = λ s h.
        raised _ (
          (hotspot_add_start-AtNext bot P acts selects fetches looks waiting_username).at s
            (tt, h));
  }
    where
      raised :
          (r : Result Fault (Option WaitingState) × Talk W)
          → Ends (AtNext bot P) (With bot P (Holds bot waiting_username)) r
          → Ends (AtNext bot P) (AtNext bot P none) r
      raised (ok next, s) h = h
      raised (err e, s) h = h.1

  step-AtNext :
      (event : Event) (state : Option WaitingState) (s : Talk W)
      → AtNext bot P state s
      → AtNext bot P (step bot event (state, s)).0 (step bot event (state, s)).1
  unfolding step
  step-AtNext starts none s h = after-AtNext none _ (start-AtNext.at s h)
  step-AtNext (says message) none s h = h
  step-AtNext (presses callback) none s h = h
  step-AtNext starts (some state) s h =
      after-AtNext (some state) _ ((handle-AtNext state starts).at s h)
  step-AtNext (says message) (some state) s h =
      after-AtNext (some state) _ ((handle-AtNext state (says message)).at s h)
  step-AtNext (presses callback) (some state) s h =
      after-AtNext (some state) _ ((handle-AtNext state (presses callback)).at s h)

  manager_kept : (state : Option WaitingState) (s : Talk W) → AtNext bot P state s → P s.manager
  manager_kept none s h = h
  manager_kept (some state) s h = h.1

  converse-AtNext :
      (events : List Event) (state : Option WaitingState) (s : Talk W)
      → AtNext bot P state s
      → P (converse bot events (state, s)).1.manager
  unfolding converse
  converse-AtNext [] state s h = manager_kept state s h
  converse-AtNext (event ∷ events) state s h =
      converse-AtNext events _ _ (step-AtNext event state s h)

  -- Let a property of the manager be kept by whatever the handlers read or log, and by adding a user
  -- whose name passes the check, whose password is empty or passes the check, whose byte limit was
  -- read from a text and whose time limit is empty or a positive number of hours or days. Then it is
  -- kept by every conversation, whatever the user types and presses, and whatever an earlier
  -- conversation left in the session.
  pub adds_what_was_entered :
      (events : List Event) (d : UserData) (m : HotspotManager W)
      → P m
      → P (converse bot events (none, record { user_data = d; manager = m })).1.manager
  adds_what_was_entered events d m h = converse-AtNext events none _ h
