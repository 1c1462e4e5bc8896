-- ===== src/AddUser/Limits.antt =====
-- bot/handlers/hotspot_add.py: the handlers of the byte limit and the time limit leave the session
-- with what the next state needs.
use mikrotik_bot.Prelude.{
  ℕ, ◌<◌, ◌≡◌, refl, ◌⊎◌, inl, inr, String, Bool, true, false, Option, none, some, if◌then◌else◌,
  ltb, ltb→lt, Bool-cases, ℤ, pos, negsuc, string_eq,
}
use mikrotik_bot.Action.{give, ◌>>◌}
use mikrotik_bot.Action.Ensures.{Keeps}
use mikrotik_bot.Action.Triples.{Meets, Meets-from, Meets-if, Meets-bind}
use mikrotik_bot.Client.{is_text}
use mikrotik_bot.Hotspot.{HotspotManager, user_exists}
use mikrotik_bot.Validators.Checks.{validate_bytes_input}
use mikrotik_bot.AddUser.{
  WaitingState, waiting_bytes_total, waiting_uptime_type, waiting_uptime_value, waiting_comment,
  HotspotAddSession, Bot, uptime_text, positive_uptime, get_hotspot_add_session, change_session,
}
use mikrotik_bot.AddUser.Fields.{
  keep_bytes, hotspot_add_bytes, skip_bytes, skip_uptime, hotspot_add_uptime_type, keep_uptime,
  unit_of, hotspot_add_uptime_value,
}
use mikrotik_bot.AddUser.Entries.{Holds, With, stored, stays}
use mikrotik_bot.AddUser.Handlers.{Handles}

positive_lem :
    (b : Bool) (unit : String) (n : ℕ)
    → ltb 0 n ≡ b
    → is_text (if b then uptime_text unit n else "") ≡ true
    → (m : ℕ) × (0 < m) × ((if b then uptime_text unit n else "") ≡ uptime_text unit m)
unfolding string_eq
positive_lem true unit n positive h = (n, ltb→lt 0 n positive, refl)
positive_lem false unit n positive h = absurd (cc)

-- a limit that is not empty is a positive number of hours or days
positive_uptime_lem :
    (unit : String) (n : Option ℤ)
    → is_text (positive_uptime unit n) ≡ true
    → (m : ℕ) × (0 < m) × (positive_uptime unit n ≡ uptime_text unit m)
unfolding positive_uptime string_eq
positive_uptime_lem unit none h = absurd (cc)
positive_uptime_lem unit (some (negsuc n)) h = absurd (cc)
positive_uptime_lem unit (some (pos n)) h = positive_lem (ltb 0 n) unit n refl h

module _ {W : Type 0} (bot : Bot W) (P : HotspotManager W → Type 0)
    (acts : (action : Option String) → Keeps P (bot.set_action action))
    (selects : Keeps P bot.get_selected_router)
    (fetches : (k : String) → Keeps P (bot.fetch_profiles k))
    (looks : (k name : String) → Keeps P (user_exists bot.out k bot.text name)) where
  keep_bytes-AtNext :
      (raw : String) (bytes : Option String)
      → validate_bytes_input bot.parse_bytes raw ≡ bytes
      → Handles bot P acts selects fetches looks waiting_bytes_total (keep_bytes bot bytes)
  keep_bytes-AtNext raw none h =
      stays bot P (Holds bot waiting_bytes_total) waiting_bytes_total λ d i. i
  keep_bytes-AtNext raw (some bytes_total) h =
      stored bot P (Holds bot waiting_bytes_total) (Holds bot waiting_bytes_total)
        waiting_uptime_type (λ d. record d { bytes_total = bytes_total })
        λ d i. (i.0, i.1, (raw, h))

  pub hotspot_add_bytes-AtNext :
      (message : String)
      → Handles bot P acts selects fetches looks waiting_bytes_total (hotspot_add_bytes bot message)
  unfolding hotspot_add_bytes
  hotspot_add_bytes-AtNext message = keep_bytes-AtNext (bot.text.strip message) _ refl

  pub skip_bytes-AtNext :
      Handles bot P acts selects fetches looks waiting_bytes_total (skip_bytes bot)
  unfolding skip_bytes
  skip_bytes-AtNext = keep_bytes-AtNext "" (some "") (unfold validate_bytes_input string_eq in refl)

  uptime_stored :
      (state : WaitingState) (uptime : String)
      → ((d : HotspotAddSession) → Holds bot state d → Holds bot waiting_uptime_type d)
      → (uptime ≡ "") ⊎ ((unit : String) × (n : ℕ) × (0 < n) × (uptime ≡ uptime_text unit n))
      → Handles bot P acts selects fetches looks state
          (change_session (λ d. record d { uptime_value = uptime }) >> give (some waiting_comment))
  uptime_stored state uptime has good =
      stored bot P (Holds bot state) (Holds bot state) waiting_comment
        (λ d. record d { uptime_value = uptime }) λ d h. let i = has d h in (i.0, i.1, i.2, good)

  pub skip_uptime-AtNext :
      Handles bot P acts selects fetches looks waiting_uptime_value (skip_uptime bot)
  unfolding skip_uptime
  skip_uptime-AtNext = uptime_stored waiting_uptime_value "" (λ d h. h) (inl refl)

  pub hotspot_add_uptime_type-AtNext :
      (query_data : String)
      → Handles bot P acts selects fetches looks waiting_uptime_type
          (hotspot_add_uptime_type bot query_data)
  unfolding hotspot_add_uptime_type skip_uptime
  hotspot_add_uptime_type-AtNext query_data = Meets-if _ _ _ (unit_stored "hours") (
      Meets-if _ _ _ (unit_stored "days") (
        Meets-if _ _ _ (uptime_stored waiting_uptime_type "" (λ d h. h) (inl refl))
          (stays bot P (Holds bot waiting_uptime_type) waiting_uptime_type λ d h. h)))
    where
      unit_stored :
          (unit : String)
          → Handles bot P acts selects fetches looks waiting_uptime_type (
              change_session (λ d. record d { uptime_type = unit })
              >> give (some waiting_uptime_value))
      unit_stored unit =
          stored bot P (Holds bot waiting_uptime_type) (Holds bot waiting_uptime_type)
            waiting_uptime_value (λ d. record d { uptime_type = unit }) λ d h. h

  keep_uptime-AtNext :
      (unit : String) (n : Option ℤ)
      → Handles bot P acts selects fetches looks waiting_uptime_value
          (keep_uptime bot (positive_uptime unit n))
  keep_uptime-AtNext unit n = elim (Bool-cases (is_text (positive_uptime unit n))) [
    | inl there ↦ rw there (
        uptime_stored waiting_uptime_value (positive_uptime unit n) (λ d h. h)
          (inr (
            let (m, positive, same) = positive_uptime_lem unit n there in
            (unit, m, positive, same))))
    | inr empty ↦
        rw empty (stays bot P (Holds bot waiting_uptime_value) waiting_uptime_value λ d h. h)
  ]

  -- the session is opened, and has what it had
  pub opened :
      (I : HotspotAddSession → Type 0)
      → Meets
          (With bot P I)
          (λ session s. I session × With bot P I s)
          (With bot P I)
          get_hotspot_add_session
  opened I = record { at = λ s h. (h.0, h) }

  pub hotspot_add_uptime_value-AtNext :
      (message : String)
      → Handles bot P acts selects fetches looks waiting_uptime_value
          (hotspot_add_uptime_value bot message)
  unfolding hotspot_add_uptime_value
  hotspot_add_uptime_value-AtNext message =
      Meets-bind
        (λ session s.
          Holds bot waiting_uptime_value session × With bot P (Holds bot waiting_uptime_value) s)
        _ _ (opened (Holds bot waiting_uptime_value))
        λ session. Meets-from _ (λ s h. h.1) (keep_uptime-AtNext (unit_of bot session) _)
