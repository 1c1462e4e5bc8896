-- ===== src/AddUser/Entries.antt =====
-- bot/handlers/hotspot_add.py: what the session holds in each state of the conversation, and with
-- which values users are added.
use mikrotik_bot.Prelude.{
  ℕ, ◌<◌, ◌≡◌, ◌⊎◌, String, true, Option, none, some, Result, ok, err, string_eq,
}
use mikrotik_bot.Action.{Fault, Action, give, within, ◌>>◌}
use mikrotik_bot.Action.Ensures.{Keeps}
use mikrotik_bot.Action.Triples.{Ends, Meets, Meets-give, Meets-throw, Meets-next, Meets-writes}
use mikrotik_bot.Hotspot.{HotspotManager}
use mikrotik_bot.Validators.Checks.{validate_username, validate_password, validate_bytes_input}
use mikrotik_bot.AddUser.{
  WaitingState, waiting_username, waiting_password, waiting_profile, waiting_bytes_total,
  waiting_uptime_type, waiting_uptime_value, waiting_comment, HotspotAddSession, Talk, Bot, Failure,
  already_have, reported, escapes, uptime_text, current, change_session, on_manager, cleanup_state,
  ends, ends_unless_escapes, reports,
}

module _ {W : Type 0} (bot : Bot W) where
  abbrev pub HasUsername : HotspotAddSession → Type 0
  HasUsername d = validate_username bot.is_alnum d.username ≡ true

  abbrev pub HasPassword : HotspotAddSession → Type 0
  HasPassword d = (d.password ≡ "") ⊎ (validate_password d.password ≡ true)

  abbrev pub HasBytes : HotspotAddSession → Type 0
  HasBytes d = (raw : String) × (validate_bytes_input bot.parse_bytes raw ≡ some d.bytes_total)

  -- no limit, or a positive number of hours or days
  abbrev pub HasUptime : HotspotAddSession → Type 0
  HasUptime d =
      (d.uptime_value ≡ "")
      ⊎ ((unit : String) × (n : ℕ) × (0 < n) × (d.uptime_value ≡ uptime_text unit n))

  -- what the session holds in a state
  abbrev pub Holds : WaitingState → HotspotAddSession → Type 0
  Holds waiting_username d = Unit
  Holds waiting_password d = HasUsername d
  Holds waiting_profile d = HasUsername d × HasPassword d
  Holds waiting_bytes_total d = HasUsername d × HasPassword d
  Holds waiting_uptime_type d = HasUsername d × HasPassword d × HasBytes d
  Holds waiting_uptime_value d = HasUsername d × HasPassword d × HasBytes d
  Holds waiting_comment d = HasUsername d × HasPassword d × HasBytes d × HasUptime d

  module _ (P : HotspotManager W → Type 0) where
    -- a property of the session, and `P` of the manager
    abbrev pub With : (HotspotAddSession → Type 0) → Talk W → Type 0
    With I s = I (current s.user_data) × P s.manager

    abbrev pub AtNext : Option WaitingState → Talk W → Type 0
    AtNext none s = P s.manager
    AtNext (some state) s = With (Holds state) s

    pub framed :
        {A : Type 0} (I : HotspotAddSession → Type 0) (m : Action (HotspotManager W) A)
        → Keeps P m
        → Meets (With I) (λ a. With I) (With I) (on_manager m)
    unfolding within
    framed I m h = record { at = λ s p. framed_at I (m s.manager) s p.0 (h.at s.manager p.1) }
      where
        framed_at :
            {A : Type 0} (I : HotspotAddSession → Type 0) (r : Result Fault A × HotspotManager W)
            (s : Talk W)
            → I (current s.user_data)
            → P r.1
            → Ends (λ a. With I) (With I) (r.0, record s { manager = r.1 })
        framed_at I (ok a, m) s i p = (i, p)
        framed_at I (err e, m) s i p = (i, p)

    pub session_changed :
        (I J E : HotspotAddSession → Type 0) (f : HotspotAddSession → HotspotAddSession)
        → ((d : HotspotAddSession) → I d → J (f d))
        → Meets (With I) (λ u. With J) (With E) (change_session f)
    session_changed I J E f h = Meets-writes _ λ s p. (h (current s.user_data) p.0, p.1)

    -- a field is stored and the conversation goes on
    pub stored :
        (I E : HotspotAddSession → Type 0) (next : WaitingState)
        (f : HotspotAddSession → HotspotAddSession)
        → ((d : HotspotAddSession) → I d → Holds next (f d))
        → Meets (With I) AtNext (With E) (change_session f >> give (some next))
    stored I E next f h =
        Meets-next (With (Holds next)) _ _ (session_changed I (Holds next) E f h)
          (Meets-give (some next) λ s p. p)

    pub stays :
        (I : HotspotAddSession → Type 0) (next : WaitingState)
        → ((d : HotspotAddSession) → I d → Holds next d)
        → Meets (With I) AtNext (With I) (give (some next))
    stays I next h = Meets-give (some next) λ s p. (h (current s.user_data) p.0, p.1)

    module _ (acts : (action : Option String) → Keeps P (bot.set_action action)) where
      pub cleaned :
          (I : HotspotAddSession → Type 0)
          → Meets (With I) (λ u. With I) (With I) (cleanup_state bot)
      cleaned I = framed I _ (acts none)

      pub ended : (I : HotspotAddSession → Type 0) → Meets (With I) AtNext (With I) (ends bot)
      ended I = Meets-next (With I) _ _ (cleaned I) (Meets-give none λ s p. p.1)

      ended_unless :
          (I : HotspotAddSession → Type 0) (e : Fault) (failure : Failure)
          → Meets (With I) AtNext (With I) (ends_unless_escapes bot e failure)
      ended_unless I e escapes = Meets-throw e λ s p. p
      ended_unless I e already_have = ended I
      ended_unless I e reported = ended I

      pub AtNext-reports :
          (I : HotspotAddSession → Type 0) (e : Fault)
          → Meets (With I) AtNext (With I) (reports bot e)
      AtNext-reports I e = record { at = λ s. (ended_unless I e (bot.failure s.manager e)).at s }
