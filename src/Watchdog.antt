-- ===== src/Watchdog.antt =====
-- core/watchdog.py: the availability of routers and its alerts. A router's entry of `_router_status`
-- is modelled by the times and the flag that the alerts and the display read; the load readings, the
-- ping and the database records of a health check leave no trace in it. Each call holds the lock for
-- all of its body.
pub mod Alerts
use mikrotik_bot.Prelude.{
  ℕ, String, Bool, true, false, ◌&&◌, not, Option, none, some, [], if◌then◌else◌, get_or, string_eq,
}
use mikrotik_bot.Dict.{Dict, get, set, pop}

pub data Alert : Type 0 where
  alert_none alert_went_offline alert_recovered : Alert

pub record Status : Type 0 where
  pub last_ok : Option ℕ
  pub last_fail : Option ℕ
  pub alert_sent : Bool

-- `_router_status` and `_last_known_status`
pub record Watchdog : Type 0 where
  pub router_status : Dict String Status
  pub last_known_status : Dict String Bool

abbrev pub init : Watchdog
init = record { router_status = []; last_known_status = [] }

-- an entry `{}`, whose missing fields read as below
abbrev pub empty_status : Status
empty_status = record { last_ok = none; last_fail = none; alert_sent = false }

abbrev pub status_of : Watchdog → String → Status
status_of w k = get_or (get w.router_status k) empty_status

unfoldable pub was_alert_sent : Watchdog → String → Bool
was_alert_sent w k = (status_of w k).alert_sent

-- _router_status.setdefault(k, {})["alert_sent"] = sent
unfoldable pub set_alert_sent : Watchdog → String → Bool → Watchdog
set_alert_sent w k sent = record w {
  router_status = set w.router_status k (record (status_of w k) { alert_sent = sent });
}

-- the same, where the router has an entry
unfoldable pub if_known_set : Watchdog → String → Option Status → Bool → Watchdog
unfolding set_alert_sent
if_known_set w k none sent = w
if_known_set w k (some status) sent = set_alert_sent w k sent

unfoldable pub mark_alert_sent : Watchdog → String → Watchdog
unfolding if_known_set
mark_alert_sent w k = if_known_set w k (get w.router_status k) true

unfoldable pub clear_alert_sent : Watchdog → String → Watchdog
unfolding if_known_set
clear_alert_sent w k = if_known_set w k (get w.router_status k) false

unfoldable pub clear_status : Watchdog → String → Watchdog
clear_status w k = record {
  router_status = pop w.router_status k;
  last_known_status = pop w.last_known_status k;
}

-- the branches of `record_check_result`, by whether the router was and is online
unfoldable pub change : Bool → Bool → Watchdog → String → Alert × Watchdog
unfolding if_known_set set_alert_sent
change true true w k = (alert_none, w)
change true false w k =
    if (status_of w k).alert_sent
    then (alert_none, w)
    else (alert_went_offline, set_alert_sent w k true)
change false true w k = (alert_recovered, if_known_set w k (get w.router_status k) false)
change false false w k = (alert_none, w)

unfoldable pub record_check_result : Watchdog → String → Bool → Alert × Watchdog
unfolding change
record_check_result w k is_online =
    change (get_or (get w.last_known_status k) true) is_online
      (record w { last_known_status = set w.last_known_status k is_online }) k

-- what `check_router_health` stores when the router answers at time `now`, and when it does not
unfoldable pub note_online : Watchdog → String → ℕ → Watchdog
note_online w k now = record w {
  router_status =
      set w.router_status k (record (status_of w k) { last_ok = some now; alert_sent = false });
}

unfoldable pub note_offline : Watchdog → String → ℕ → Watchdog
note_offline w k now = record w {
  router_status = set w.router_status k (record (status_of w k) { last_fail = some now });
}
