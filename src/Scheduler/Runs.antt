-- ===== src/Scheduler/Runs.antt =====
-- core/backup_scheduler.py: the bodies of the three scheduled jobs. Python's lists that the backup of
-- a router appends to are a `Report` that is passed on. Measured durations and identifiers of
-- requests are left out.
use Prim.Native.String.{◌++◌ as ◌⧺◌}
use mikrotik_bot.Prelude.{
  ℕ, String, string_eq, Bool, true, false, ◌&&◌, Option, none, some, List, [], ◌∷◌, ◌++◌, get_or,
  is_some, if◌then◌else◌, ℤ,
}
use mikrotik_bot.Dict.{get}
use mikrotik_bot.Action.{
  Fault, expected, unforeseen, Action, give, throw, try, ◌>>=◌, ◌>>◌, for_each,
}
use mikrotik_bot.Client.{Row, Texts, is_text, first_text}
use mikrotik_bot.RouterKey.{router_key_prefix}

-- what the jobs call: the backup service, the API's health check, the database, the manager's
-- expiring users, the statistics and the messages to administrators, for which `expected` is an
-- OSError or a ConnectionError
pub record Services (W : Type 0) : Type 0 where
  pub get_saved_routers : Action W (List Row)
  pub check_connection_health : String → W → (Bool × String) × W
  pub userman_backup : String → Action W (Bool × String)
  pub full_backup : String → Action W (Bool × String)
  pub record_action : String → String → Bool → Action W (Unit {0})
  pub record_backup_result : String → String → Bool → String → String → Action W (Unit {0})
  pub record_backup_duration : String → Action W (Unit {0})
  pub text_of : Fault → String
  pub get_expiring_users : String → ℕ → Action W (List Row)
  pub get_hotspot_stats : String → Action W Row
  -- the numbers of active and of all users
  pub save_snapshot : String → ℤ → ℤ → Action W (Unit {0})
  pub text : Texts
  pub log_action : String → String → Action W (Unit {0})
  pub send_failures : ℕ → List String → Action W (Unit {0})
  pub send_expiring : ℕ → String → List Row → Action W (Unit {0})
  pub admin_ids : List ℕ

pub record Report : Type 0 where
  pub failed_routers : List String
  pub successful_routers : List String

-- f"{ROUTER_KEY_PREFIX}{r['id']}"
abbrev pub key_of : Row → String
key_of r = router_key_prefix ⧺ get_or (get r "id") ""

-- str(r.get("identity", router_key))
abbrev pub name_of : Row → String
name_of r = get_or (get r "identity") (key_of r)

-- r.get("username")
abbrev pub has_username : Row → Bool
has_username r = is_text (get_or (get r "username") "")

-- f"{router_name} (…)" for the full backup, and the mark of a router that does not answer
abbrev pub full_mark : String
full_mark = " (\u{628}\u{627}\u{643}\u{648}\u{628} \u{643}\u{627}\u{645}\u{644})"

abbrev pub offline_mark : String
offline_mark = " (\u{63a}\u{64a}\u{631} \u{645}\u{62a}\u{635}\u{644})"

-- u["name"], u["profile"] and u["remaining_days"] are there
abbrev pub has_fields : Row → Bool
has_fields u =
    is_some (get u "name") && is_some (get u "profile") && is_some (get u "remaining_days")

abbrev pub with_failed : String → Report → Report
with_failed line report = record report { failed_routers = report.failed_routers ++ line ∷ [] }

abbrev pub with_successful : String → Report → Report
with_successful line report = record report {
  successful_routers = report.successful_routers ++ line ∷ [];
}

module _ {W : Type 0} (services : Services W) where
  -- try: m; except Exception: a log line
  unfoldable pub best_effort : Action W (Unit {0}) → Action W (Unit {0})
  best_effort m = try m (λ e. give tt)

  -- `_run_backup_operation` once the service has answered or raised
  unfoldable pub record_outcome :
      String → String → String → String → Bool → Bool × String → Action W Bool
  record_outcome k router_name backup_type action_name record_duration (done, msg) =
      best_effort (services.record_action k action_name done)
      >> best_effort (services.record_backup_result k backup_type done msg router_name)
      >> (if done && record_duration
          then best_effort (services.record_backup_duration backup_type)
          else give tt)
      >> give done

  unfoldable pub run_backup_operation :
      String → String → String → (String → Action W (Bool × String)) → String → Bool → Action W Bool
  run_backup_operation k router_name backup_type service_method action_name record_duration =
      try (service_method k) (λ e. give (false, services.text_of e))
      >>= record_outcome k router_name backup_type action_name record_duration

  abbrev pub run_userman_backup : String → String → Action W Bool
  run_userman_backup k router_name =
      run_backup_operation k router_name "userman" services.userman_backup "backup_userman" false

  abbrev pub run_full_backup : String → String → Action W Bool
  run_full_backup k router_name =
      run_backup_operation k router_name "full" services.full_backup "backup_full" true

  abbrev pub after_userman : String → Bool → Report → Report
  after_userman router_name true report = with_successful router_name report
  after_userman router_name false report = with_failed router_name report

  abbrev pub after_full : String → Bool → Report → Report
  after_full router_name true report = report
  after_full router_name false report = with_failed (router_name ⧺ full_mark) report

  abbrev pub back_up : String → String → Report → Action W Report
  back_up k router_name report = run_userman_backup k router_name >>= λ userman_ok.
      run_full_backup k router_name >>= λ full_ok.
      give (after_full router_name full_ok (after_userman router_name userman_ok report))

  abbrev pub if_healthy : Row → Report → Bool × String → Action W Report
  if_healthy r report (true, health_msg) = back_up (key_of r) (name_of r) report
  if_healthy r report (false, health_msg) = give (with_failed (name_of r ⧺ offline_mark) report)

  unfoldable pub backup_single_router : Row → Report → Action W Report
  backup_single_router r report w =
      let health = services.check_connection_health (key_of r) w in
      if_healthy r report health.0 health.1

  -- for r in routers: a router without a username is passed over
  unfoldable pub backup_routers : List Row → Report → Action W Report
  backup_routers [] report = give report
  backup_routers (r ∷ routers) report =
      (if has_username r then backup_single_router r report else give report)
      >>= backup_routers routers

  -- except (OSError, ConnectionError)
  abbrev pub unless_named : Fault → Action W (Unit {0})
  unless_named expected = give tt
  unless_named unforeseen = throw unforeseen

  unfoldable pub notify : List String → Action W (Unit {0})
  notify [] = give tt
  notify (line ∷ lines) =
      for_each services.admin_ids
        λ admin_id. try (services.send_failures admin_id (line ∷ lines)) unless_named

  -- `_do_backup`, which gives the report that it sends
  unfoldable pub do_backup : Action W Report
  do_backup = services.get_saved_routers >>= λ routers.
      backup_routers routers (record { failed_routers = []; successful_routers = [] }) >>= λ report.
      notify report.failed_routers >> give report

  -- the text of the message: a KeyError where a user lacks a field, outside every `try`
  unfoldable pub render : List Row → Action W (Unit {0})
  render [] = give tt
  render (u ∷ users) = if has_fields u then render users else throw unforeseen

  unfoldable pub alert : String → List Row → Action W (Unit {0})
  alert router_name [] = give tt
  alert router_name (user ∷ expiring) =
      render (user ∷ expiring)
      >> for_each services.admin_ids
          (λ admin_id. best_effort (services.send_expiring admin_id router_name (user ∷ expiring)))
      >> best_effort (services.log_action "expiry_check_alert" router_name)

  -- the answer, or none after a fault; either is recorded
  unfoldable pub check_expiry : String → Action W (Option (List Row))
  check_expiry k =
      try
        (services.get_expiring_users k 3 >>= λ expiring.
          services.record_action k "expiry_check" true >> give (some expiring))
        (λ e. services.record_action k "expiry_check" false >> give none)

  abbrev pub alert_if_checked : Row → Option (List Row) → Action W (Unit {0})
  alert_if_checked r none = give tt
  alert_if_checked r (some expiring) = alert (name_of r) expiring

  unfoldable pub expiry_of : Row → Action W (Unit {0})
  expiry_of r = if has_username r then check_expiry (key_of r) >>= alert_if_checked r else give tt

  unfoldable pub do_expiry_check : Action W (Unit {0})
  do_expiry_check = services.get_saved_routers >>= λ routers. for_each routers expiry_of

  abbrev pub number_or_raise : Option ℤ → Action W ℤ
  number_or_raise none = throw unforeseen
  number_or_raise (some n) = give n

  -- int(raw.get(field, 0) or 0)
  abbrev pub number_of : String → Row → Action W ℤ
  number_of field raw =
      number_or_raise (services.text.int (first_text (get raw field ∷ some "0" ∷ [])))

  unfoldable pub save_stats : Row → Row → Action W (Unit {0})
  save_stats r [] = services.record_action (key_of r) "stats_snapshot" true
  save_stats r (field ∷ raw) = do
    active_users ← number_of "active_users" (field ∷ raw)
    total_users ← number_of "total_users" (field ∷ raw)
    services.save_snapshot (key_of r) active_users total_users
    services.record_action (key_of r) "stats_snapshot" true
    best_effort (services.log_action "stats_snapshot" (name_of r))

  unfoldable pub snapshot_of : Row → Action W (Unit {0})
  snapshot_of r =
      if has_username r
      then try (services.get_hotspot_stats (key_of r) >>= save_stats r)
          (λ e. services.record_action (key_of r) "stats_snapshot" false)
      else give tt

  unfoldable pub do_stats_snapshot : Action W (Unit {0})
  do_stats_snapshot = services.get_saved_routers >>= λ routers. for_each routers snapshot_of
