-- ===== src/Tests/Outages.antt =====
-- core/watchdog.py on a short history.
use mikrotik_bot.Prelude.{◌≡◌, refl, true, false, List, [], ◌∷◌, string_eq}
use mikrotik_bot.Dict
use mikrotik_bot.Watchdog.{alert_none, alert_went_offline, alert_recovered, init}
use mikrotik_bot.Watchdog.Alerts.{
  Event, observes, forgets, alerts, changes, step, alerts_are_changes,
}

abbrev outage : List Event
outage =
    observes "a" false 10
    ∷ observes "b" false 11
    ∷ observes "a" false 20
    ∷ observes "a" true 30
    ∷ forgets "b"
    ∷ []

alerts_are_changes_example : alerts "a" init outage ≡ changes "a" true outage
alerts_are_changes_example = alerts_are_changes "a" outage

alerts_of_a : alerts "a" init outage ≡ alert_went_offline ∷ alert_none ∷ alert_recovered ∷ []
unfolding alerts step string_eq Dict.get Dict.set Dict.pop
alerts_of_a = refl
