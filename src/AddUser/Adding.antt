-- ===== src/AddUser/Adding.antt =====
-- bot/handlers/hotspot_add.py: the last handler, which adds the user.
use mikrotik_bot.Prelude.{String, Option, none, some}
use mikrotik_bot.Action.{Fault, ◌>>=◌}
use mikrotik_bot.Action.Ensures.{Keeps}
use mikrotik_bot.Action.Triples.{
  Meets, Meets-give, Meets-throw, Meets-if, Meets-try, Meets-bind, Meets-next, Meets-writes,
}
use mikrotik_bot.Client.{is_text}
use mikrotik_bot.Hotspot.{HotspotManager, add_user, user_exists}
use mikrotik_bot.AddUser.{
  WaitingState, waiting_username, waiting_comment, HotspotAddSession, Talk, Bot, Failure,
  already_have, reported, escapes, Added, added, duplicate, failed, not_added, adds, adds_named,
  execute_add_user, current,
}
use mikrotik_bot.AddUser.Fields.{Next, after_add, add_on, hotspot_add_comment}
use mikrotik_bot.AddUser.Entries.{
  HasUsername, HasPassword, HasBytes, HasUptime, Holds, With, AtNext, framed, stays, cleaned, ended,
}
use mikrotik_bot.AddUser.Handlers.{Handles}

module _ {W : Type 0} (bot : Bot W) (P : HotspotManager W → Type 0)
    (acts : (action : Option String) → Keeps P (bot.set_action action))
    (selects : Keeps P bot.get_selected_router)
    (fetches : (k : String) → Keeps P (bot.fetch_profiles k))
    (looks : (k name : String) → Keeps P (user_exists bot.out k bot.text name))
    (logs : (name k : String) → Keeps P (bot.log_action name k))
    (makes : (k comment : String) (d : HotspotAddSession)
      → HasUsername bot d
      → HasPassword bot d
      → HasBytes bot d
      → HasUptime bot d
      → Keeps P (
          add_user bot.out k bot.text d.username d.password d.profile d.bytes_total d.uptime_value
            comment)) where
  Entered : Talk W → Type 0
  Entered = With bot P (Holds bot waiting_comment)

  -- what holds with each answer of `execute_add_user`
  abbrev WithAnswer : Added → Talk W → Type 0
  WithAnswer duplicate s = P s.manager
  WithAnswer added s = Entered s
  WithAnswer failed s = Entered s

  not_added-WithAnswer :
      (e : Fault) (failure : Failure) → Meets Entered WithAnswer Entered (not_added bot e failure)
  unfolding Entered
  not_added-WithAnswer e already_have =
      Meets-next (λ s. P s.manager) _ _ (Meets-writes _ λ s h. h.1) (Meets-give duplicate λ s h. h)
  not_added-WithAnswer e reported = Meets-give failed λ s h. h
  not_added-WithAnswer e escapes = Meets-throw e λ s h. h

  module _ (k comment : String) where
    adds-WithAnswer :
        (d : HotspotAddSession)
        → Holds bot waiting_comment d
        → Meets Entered WithAnswer Entered (adds bot k comment d)
    unfolding Entered
    adds-WithAnswer d h =
        Meets-next Entered _ _
          (Meets-next Entered _ _
            (framed bot P (Holds bot waiting_comment) _ (makes k comment d h.0 h.1 h.2 h.3))
            (framed bot P (Holds bot waiting_comment) _ (logs d.username k)))
          (Meets-give added λ s i. i)

    adds_named-WithAnswer :
        (d : HotspotAddSession)
        → Holds bot waiting_comment d
        → Meets Entered WithAnswer Entered (adds_named bot k comment d)
    unfolding Entered
    adds_named-WithAnswer d h =
        Meets-if (is_text d.username) _ _
          (Meets-try Entered _ _ (adds-WithAnswer d h)
            λ e. record { at = λ s. (not_added-WithAnswer e (bot.failure s.manager e)).at s })
          (Meets-give failed λ s i. i)

    execute_add_user-WithAnswer : Meets Entered WithAnswer Entered (execute_add_user bot k comment)
    unfolding execute_add_user Entered ◌>>=◌
    execute_add_user-WithAnswer = record {
      at = λ s h. (adds_named-WithAnswer (current s.user_data) h.0).at _ h;
    }

  after_add-AtNext :
      (answer : Added) → Meets (WithAnswer answer) (AtNext bot P) Entered (after_add bot answer)
  unfolding Entered
  after_add-AtNext added =
      Meets-next Entered _ _ (cleaned bot P acts (Holds bot waiting_comment))
        (stays bot P (Holds bot waiting_comment) waiting_username λ d h. tt)
  after_add-AtNext duplicate = Meets-give (some waiting_username) λ s h. (tt, h)
  after_add-AtNext failed = ended bot P acts (Holds bot waiting_comment)

  add_on-AtNext :
      (comment : String) (k : Option String)
      → Meets Entered (AtNext bot P) Entered (add_on bot comment k)
  unfolding Entered
  add_on-AtNext comment none = ended bot P acts (Holds bot waiting_comment)
  add_on-AtNext comment (some k) =
      Meets-bind WithAnswer _ _ (execute_add_user-WithAnswer k comment) after_add-AtNext

  -- a handler in a state keeps what the next state needs
  abbrev KeepsOn : WaitingState → Next bot → Type 0
  KeepsOn state = Handles bot P acts selects fetches looks state

  pub hotspot_add_comment-AtNext :
      (comment : String) → KeepsOn waiting_comment (hotspot_add_comment bot comment)
  unfolding hotspot_add_comment Entered
  hotspot_add_comment-AtNext comment =
      Meets-bind (λ k. Entered) _ _ (framed bot P (Holds bot waiting_comment) _ selects)
        (add_on-AtNext comment)
