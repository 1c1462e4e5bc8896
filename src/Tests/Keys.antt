-- ===== src/Tests/Keys.antt =====
-- Router keys and the backup schedule on concrete inputs.
use mikrotik_bot.Prelude.{
  ℕ, ◌≡◌, refl, true, false, some, none, pos, List, [], ◌∷◌, ◌++◌, if◌then◌else◌, arith, inl, inr,
}
use mikrotik_bot.Client.{Texts}
use mikrotik_bot.AddUser.Buttons.{press_names_button, profile_buttons}
use mikrotik_bot.AddUser.Fields.{resolve_profile_from_callback}
use mikrotik_bot.RouterKey.{discovered, is_discovered, parse}
use mikrotik_bot.RouterKey.Digits.{number, decimal}
use mikrotik_bot.RouterKey.RoundTrip.{db_id-discovered}
use mikrotik_bot.Scheduler.{
  JobName, JobQueue, Schedule, BackupScheduler, start_daily, restore, or_default,
}
use mikrotik_bot.Scheduler.Jobs.{is_same, IsJobQueue, HasJobs, restarted, schedule_survives}

-- only ASCII digits are numbers here
abbrev text : Texts
text = record {
  lower = λ s. s;
  strip = λ s. s;
  int = λ s. elim (number s) [ some n ↦ some (pos n) | none ↦ none ];
}

db_id-discovered_example :
    ((discovered text 507).db_id ≡ some (pos 507))
    × (is_discovered (discovered text 507) ≡ true)
    × (parse text (discovered text 507).raw ≡ discovered text 507)
db_id-discovered_example = db_id-discovered text 507 λ s m h. rw (h, text) refl

-- the second button of the keyboard of two profiles
press_names_button_example :
    resolve_profile_from_callback text ("day" ∷ "week" ∷ []) "add_profile_1" ≡ some "week"
unfolding profile_buttons decimal
press_names_button_example =
    press_names_button text (λ s m h. rw (h, text) refl) ("week", "add_profile_1")
      ("day" ∷ "week" ∷ []) (inr (inl refl))

-- a queue for each name
abbrev Queues : Type 0
Queues = JobName → List ℕ

abbrev queues : JobQueue Queues
queues = record {
  run_daily = λ n t q m. if is_same n m then q m ++ (t ∷ []) else q m;
  remove_jobs = λ n q m. if is_same n m then [] else q m;
  get_jobs_by_name = λ m q. q m;
}

queues-IsJobQueue : IsJobQueue queues
queues-IsJobQueue = record { added = λ n m t q. refl; removed = λ n m q. refl }

abbrev row : Schedule
row = record { schedule_enabled = false; schedule_hour = 3; schedule_minute = 0 }

-- two jobs are left over from an earlier start
abbrev busy : BackupScheduler Queues
busy = record { running = false; job_queue = λ m. 60 ∷ 90 ∷ []; settings = some row }

schedule_survives_example :
    HasJobs queues queues-IsJobQueue 0 30 (start_daily queues 0 30 true busy).1
    × HasJobs queues queues-IsJobQueue
        (or_default 0 3)
        30
        (restore queues (
          restarted queues queues-IsJobQueue
            (λ m. [])
            (start_daily queues 0 30 true busy).1.settings)).1
schedule_survives_example =
    schedule_survives queues queues-IsJobQueue 0 30 busy row (λ m. []) (omega arith) (omega arith)
      refl
