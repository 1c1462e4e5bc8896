-- ===== src/AddUser/Handlers.antt =====
-- bot/handlers/hotspot_add.py: each handler leaves the session with what the next state needs, and
-- adds a user with values that were entered.
use mikrotik_bot.Prelude.{
  ◌≡◌, refl, ◌⊎◌, inl, inr, String, Bool, true, false, Option, none, some, Bool-cases, string_eq,
}
use mikrotik_bot.Action.{give, ◌>>◌}
use mikrotik_bot.Action.Ensures.{Keeps}
use mikrotik_bot.Action.Triples.{
  Meets, Meets-give, Meets-if, Meets-try, Meets-bind, Meets-next, Meets-writes, Meets-raising,
}
use mikrotik_bot.Client.{is_text}
use mikrotik_bot.Hotspot.{HotspotManager, user_exists}
use mikrotik_bot.Validators.Checks.{validate_username, validate_password}
use mikrotik_bot.AddUser.{
  WaitingState, waiting_username, waiting_password, waiting_profile, waiting_bytes_total,
  HotspotAddSession, Bot, change_session, ends,
}
use mikrotik_bot.AddUser.Fields.{
  Next, hotspot_add_start, keep_username, unless_exists, check_username, hotspot_add_username,
  fetch_and_cache_profiles, add_back_to_profile, hotspot_add_password, skip_password,
  hotspot_add_profile, keep_profile, hotspot_add_profile_selected,
}
use mikrotik_bot.AddUser.Entries.{
  Holds, With, AtNext, framed, session_changed, stored, stays, cleaned, ended, AtNext-reports,
}

module _ {W : Type 0} (bot : Bot W) (P : HotspotManager W → Type 0)
    (acts : (action : Option String) → Keeps P (bot.set_action action))
    (selects : Keeps P bot.get_selected_router)
    (fetches : (k : String) → Keeps P (bot.fetch_profiles k))
    (looks : (k name : String) → Keeps P (user_exists bot.out k bot.text name)) where
  -- a handler that is called in this state
  abbrev pub Handles : WaitingState → Next bot → Type 0
  Handles state handler =
      Meets (With bot P (Holds bot state)) (AtNext bot P) (With bot P (Holds bot state)) handler

  AtNext-ends : (state : WaitingState) → Handles state (ends bot)
  AtNext-ends state = ended bot P acts (Holds bot state)

  module _ (name : String) (valid : validate_username bot.is_alnum name ≡ true) where
    keep_username-AtNext : Handles waiting_username (keep_username bot name)
    keep_username-AtNext =
        stored bot P (Holds bot waiting_username) (Holds bot waiting_username) waiting_password
          (λ d. record d { username = name }) λ d h. valid

    unless_exists-AtNext :
        (exists : Bool) → Handles waiting_username (unless_exists bot name exists)
    unless_exists-AtNext true = stays bot P (Holds bot waiting_username) waiting_username λ d h. tt
    unless_exists-AtNext false = keep_username-AtNext

    check_username-AtNext :
        (k : Option String) → Handles waiting_username (check_username bot name k)
    check_username-AtNext none = keep_username-AtNext
    check_username-AtNext (some k) =
        Meets-try (With bot P (Holds bot waiting_username)) _ _
          (Meets-bind (λ exists. With bot P (Holds bot waiting_username)) _ _
            (framed bot P (Holds bot waiting_username) _ (looks k name)) unless_exists-AtNext)
          (AtNext-reports bot P acts (Holds bot waiting_username))

  pub hotspot_add_username-AtNext :
      (message : String) → Handles waiting_username (hotspot_add_username bot message)
  unfolding hotspot_add_username
  hotspot_add_username-AtNext message =
      let username = bot.text.strip message in
      elim (Bool-cases (validate_username bot.is_alnum username)) [
        | inl valid ↦ rw valid (
            Meets-bind (λ k. With bot P (Holds bot waiting_username)) _ _
              (framed bot P (Holds bot waiting_username) _ selects)
              (check_username-AtNext username valid))
        | inr wrong ↦ rw wrong (stays bot P (Holds bot waiting_username) waiting_username λ d h. tt)
      ]

  -- the picker of profiles, from any state whose session has a name and a password
  module _ (I : HotspotAddSession → Type 0)
      (has : (d : HotspotAddSession) → I d → Holds bot waiting_profile d) where
    fetched :
        (k : Option String)
        → Meets (With bot P I) (λ u. With bot P I) (With bot P I) (fetch_and_cache_profiles bot k)
    fetched none = Meets-give tt λ s p. p
    fetched (some k) =
        Meets-bind (λ names. With bot P I) _ _ (framed bot P I _ (fetches k))
          λ names. Meets-writes _ λ s p. p

    pub add_back_to_profile-AtNext :
        Meets (With bot P I) (AtNext bot P) (With bot P I) (add_back_to_profile bot)
    unfolding add_back_to_profile
    add_back_to_profile-AtNext =
        Meets-bind (λ k. With bot P I) _ _ (framed bot P I _ selects)
          λ k.
            Meets-try (With bot P I) _ _
              (Meets-next (With bot P I) _ _ (fetched k) (stays bot P I waiting_profile has))
              (AtNext-reports bot P acts I)

  password_stored :
      (password : String)
      → (password ≡ "") ⊎ (validate_password password ≡ true)
      → Handles waiting_password
          (change_session (λ d. record d { password = password }) >> add_back_to_profile bot)
  password_stored password good =
      Meets-next (With bot P (Holds bot waiting_profile)) _ _
        (session_changed bot P (Holds bot waiting_password) (Holds bot waiting_profile)
          (Holds bot waiting_password) (λ d. record d { password = password }) λ d h. (h, good))
        (Meets-raising _ (λ s h. (h.0.0, h.1))
          (add_back_to_profile-AtNext (Holds bot waiting_profile) λ d h. h))

  pub hotspot_add_password-AtNext :
      (message : String) → Handles waiting_password (hotspot_add_password bot message)
  unfolding hotspot_add_password
  hotspot_add_password-AtNext message =
      let password = bot.text.strip message in
      elim (Bool-cases (validate_password password)) [
        | inl valid ↦ rw valid (password_stored password (inr valid))
        | inr wrong ↦ rw wrong (stays bot P (Holds bot waiting_password) waiting_password λ d h. h)
      ]

  pub skip_password-AtNext : Handles waiting_password (skip_password bot)
  unfolding skip_password
  skip_password-AtNext = password_stored "" (inl refl)

  profile_stored :
      (profile : String)
      → Handles waiting_profile
          (change_session (λ d. record d { profile = profile }) >> give (some waiting_bytes_total))
  profile_stored profile =
      stored bot P (Holds bot waiting_profile) (Holds bot waiting_profile) waiting_bytes_total
        (λ d. record d { profile = profile }) λ d h. h

  pub hotspot_add_profile-AtNext :
      (message : String) → Handles waiting_profile (hotspot_add_profile bot message)
  unfolding hotspot_add_profile
  hotspot_add_profile-AtNext message = profile_stored (bot.text.strip message)

  keep_profile-AtNext :
      (profile : Option String) → Handles waiting_profile (keep_profile bot profile)
  keep_profile-AtNext none = AtNext-ends waiting_profile
  keep_profile-AtNext (some profile) =
      Meets-if (is_text profile) _ _ (profile_stored profile) (AtNext-ends waiting_profile)

  pub hotspot_add_profile_selected-AtNext :
      (callback_data : String)
      → Handles waiting_profile (hotspot_add_profile_selected bot callback_data)
  unfolding hotspot_add_profile_selected
  hotspot_add_profile_selected-AtNext callback_data = record {
    at = λ s. (keep_profile-AtNext _).at s;
  }

  pub hotspot_add_start-AtNext : (state : WaitingState) → Handles state (hotspot_add_start bot)
  unfolding hotspot_add_start
  hotspot_add_start-AtNext state =
      Meets-next (With bot P (Holds bot state)) _ _
        (Meets-next (With bot P (Holds bot state)) _ _ (cleaned bot P acts (Holds bot state))
          (framed bot P (Holds bot state) _ (acts (some "hotspot_add"))))
        (stays bot P (Holds bot state) waiting_username λ d h. tt)
