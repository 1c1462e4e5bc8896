-- ===== src/Tests/Backups.antt =====
-- core/backup_scheduler.py: the jobs on three routers. The first answers and its full backup fails, the
-- second has no username and the third does not answer.
use mikrotik_bot.Prelude.{
  contains, ◌||◌, ℕ, ◌+◌, ◌≡◌, ◌≢◌, refl, String, string_eq, ◌==◌, true, false, if◌then◌else◌, some,
  List, [], ◌∷◌, ok, err, pos, Bool, arith,
}
use mikrotik_bot.Action.{give, throw, expected, unforeseen, ◌>>=◌, ◌>>◌, for_each, try}
use mikrotik_bot.Dict.{get}
use mikrotik_bot.Action.Total.{IsOk}
use mikrotik_bot.Client.{Row}
use mikrotik_bot.Scheduler.Runs.{
  Services, backup_routers, backup_single_router, run_backup_operation, record_outcome, best_effort,
  notify, do_backup, do_expiry_check, do_stats_snapshot,
}
use mikrotik_bot.Scheduler.Outcomes.{Tells}
use mikrotik_bot.Scheduler.Finished.{do_backup_reports}
use mikrotik_bot.Scheduler.Daily.{daily_jobs_reach_all, Done}
use mikrotik_bot.Scheduler.Keeping.{AreKeeping}
use mikrotik_bot.Action.Triples.{Meets}
use text.Mathlib.TextEquality.{eq_iff}

abbrev three_routers : List Row
three_routers =
    (("id", "1") ∷ ("identity", "hall") ∷ ("username", "admin") ∷ [])
    ∷ (("id", "2") ∷ ("identity", "attic") ∷ [])
    ∷ (("id", "3") ∷ ("identity", "yard") ∷ ("username", "admin") ∷ [])
    ∷ []

-- the world counts the records of an outcome
abbrev services : Services ℕ
services = record {
  get_saved_routers = give three_routers;
  check_connection_health =
      λ k w. (if k == "discovered_1" then (true, "") else (false, "timed out"), w);
  userman_backup = λ k. give (true, "");
  full_backup = λ k. throw unforeseen;
  record_action = λ k action done w. (ok tt, w + 1);
  record_backup_result = λ k t done msg name. throw expected;
  record_backup_duration = λ t. give tt;
  text_of = λ e. "error";
  get_expiring_users = λ k days. throw expected;
  get_hotspot_stats = λ k. throw unforeseen;
  save_snapshot = λ k active total. give tt;
  text = record { int = λ s. some (pos 0); lower = λ s. s; strip = λ s. s };
  log_action = λ action name. throw unforeseen;
  send_failures = λ admin_id lines. throw expected;
  send_expiring = λ admin_id name rows. throw unforeseen;
  admin_ids = 7 ∷ 8 ∷ [];
}

-- no message raises anything but an OSError
only_named :
    (admin_id : ℕ) (lines : List String) (w : ℕ)
    → (services.send_failures admin_id lines w).0 ≢ err unforeseen
only_named admin_id lines w = λ e. ground arith

do_backup_tells :
    (do_backup services 0).0
    ≡ ok (record {
      failed_routers =
          "hall (\u{628}\u{627}\u{643}\u{648}\u{628} \u{643}\u{627}\u{645}\u{644})"
          ∷ "yard (\u{63a}\u{64a}\u{631} \u{645}\u{62a}\u{635}\u{644})" ∷ [];
      successful_routers = "hall" ∷ [];
    })
unfolding do_backup backup_routers backup_single_router run_backup_operation record_outcome
    best_effort notify for_each get try ◌>>=◌ ◌>>◌ string_eq
do_backup_tells = refl

do_backup_reports_example :
    IsOk
      (λ report.
        (routers : List Row) × ((services.get_saved_routers 0).0 ≡ ok routers)
        × Tells services
            (services.get_saved_routers 0).1
            routers
            report.failed_routers
            report.successful_routers)
      (do_backup services 0).0
do_backup_reports_example = do_backup_reports services only_named 0 tt

-- the routers that were asked, and those whose outcome was recorded
record Notes : Type 0 where
  asked : List String
  recorded : List String

abbrev asks_router : String → Notes → Notes
asks_router k w = record w { asked = k ∷ w.asked }

-- routers are asked, the first call fails and the second gives rows; messages fail
abbrev noting : Services Notes
noting = record {
  get_saved_routers = give three_routers;
  check_connection_health = λ k w. ((true, ""), w);
  userman_backup = λ k. give (true, "");
  full_backup = λ k. give (true, "");
  record_action = λ k action done w. (ok tt, record w { recorded = k ∷ w.recorded });
  record_backup_result = λ k t done msg name. give tt;
  record_backup_duration = λ t. give tt;
  text_of = λ e. "error";
  get_expiring_users = λ k days w. (err expected, asks_router k w);
  get_hotspot_stats = λ k w. (ok (("active_users", "1") ∷ []), asks_router k w);
  save_snapshot = λ k active total. give tt;
  text = record { int = λ s. some (pos 0); lower = λ s. s; strip = λ s. s };
  log_action = λ action name. throw unforeseen;
  send_failures = λ admin_id lines. give tt;
  send_expiring = λ admin_id name rows. throw unforeseen;
  admin_ids = 7 ∷ 8 ∷ [];
}

abbrev IsAsked : String → Notes → Type 0
IsAsked k w = contains w.asked k ≡ true

abbrev IsRecorded : String → Notes → Type 0
IsRecorded k w = contains w.recorded k ≡ true

still_there : (x k : String) (ks : List String) → contains ks k ≡ true → contains (x ∷ ks) k ≡ true
still_there x k ks h = go (x == k) h
  where
    go : (b : Bool) → contains ks k ≡ true → (b || contains ks k) ≡ true
    go true h = refl
    go false h = h

now_there : (k : String) (ks : List String) → contains (k ∷ ks) k ≡ true
unfolding string_eq
now_there k ks = rw ((eq_iff k k).1 refl) refl

asked_is_kept : (k : String) → AreKeeping noting (IsAsked k)
asked_is_kept k = record {
  asked = λ x. record { at = λ w h. still_there x k w.asked h };
  counted = λ x. record { at = λ w h. still_there x k w.asked h };
  recorded = λ x action done. record { at = λ w h. h };
  saved = λ x active total. record { at = λ w h. h };
  logged = λ action name. record { at = λ w h. h };
  sent = λ admin_id name users. record { at = λ w h. h };
}

recorded_is_kept : (k : String) → AreKeeping noting (IsRecorded k)
recorded_is_kept k = record {
  asked = λ x. record { at = λ w h. h };
  counted = λ x. record { at = λ w h. h };
  recorded = λ x action done. record { at = λ w h. still_there x k w.recorded h };
  saved = λ x active total. record { at = λ w h. h };
  logged = λ action name. record { at = λ w h. h };
  sent = λ admin_id name users. record { at = λ w h. h };
}

daily_jobs_reach_all_example :
    let AllDone =
      Done noting IsAsked IsRecorded asked_is_kept recorded_is_kept
        (λ k. record { at = λ w h. now_there k w.asked })
        (λ k. record { at = λ w h. now_there k w.asked })
        (λ k action done. record { at = λ w h. now_there k w.recorded })
        three_routers in
    Meets
      (λ w. (noting.get_saved_routers w).0 ≡ ok three_routers)
      (λ u. AllDone)
      (λ w. ⊥)
      (do_expiry_check noting)
    × Meets
        (λ w. (noting.get_saved_routers w).0 ≡ ok three_routers)
        (λ u. AllDone)
        (λ w. ⊥)
        (do_stats_snapshot noting)
daily_jobs_reach_all_example =
    daily_jobs_reach_all noting IsAsked IsRecorded asked_is_kept recorded_is_kept
      (λ k. record { at = λ w h. now_there k w.asked })
      (λ k. record { at = λ w h. now_there k w.asked })
      (λ k action done. record { at = λ w h. now_there k w.recorded }) three_routers
