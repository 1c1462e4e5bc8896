-- ===== src/Scheduler.antt =====
-- core/backup_scheduler.py, `BackupScheduler`, and the stored schedule of
-- database/repositories/backups.py. A time of day is its number of minutes. Names of the jobs are
-- their kinds: scheduled_backup, scheduled_backup_expiry and scheduled_backup_snapshot.
pub mod Jobs
pub mod Runs
pub mod Outcomes
pub mod Finished
pub mod Keeping
pub mod Daily
use mikrotik_bot.Prelude.{
  ℕ, ◌+◌, ◌*◌, ◌%◌, Bool, true, false, ◌&&◌, Option, none, some, List, [], ◌∷◌, ltb, nat_eqb,
  length, if◌then◌else◌, ok, err,
}
use mikrotik_bot.Action.{Action, unforeseen, give, throw, writes, reads, ◌>>=◌, ◌>>◌}

pub data JobName : Type 0 where
  backup backup_expiry backup_snapshot : JobName

-- the telegram library's queue of jobs
pub record JobQueue (Q : Type 0) : Type 0 where
  -- name, time of day
  pub run_daily : JobName → ℕ → Q → Q
  -- schedule_removal of every job of a name
  pub remove_jobs : JobName → Q → Q
  -- the times of the jobs of a name
  pub get_jobs_by_name : JobName → Q → List ℕ

-- the row of backup_settings
pub record Schedule : Type 0 where
  pub schedule_enabled : Bool
  pub schedule_hour : ℕ
  pub schedule_minute : ℕ

pub record BackupScheduler (Q : Type 0) : Type 0 where
  pub running : Bool
  pub job_queue : Q
  pub settings : Option Schedule

-- `x or default`
abbrev pub or_default : ℕ → ℕ → ℕ
or_default x default = if nat_eqb x 0 then default else x

unfoldable pub get_backup_schedule : Option Schedule → Schedule
get_backup_schedule none = record {
  schedule_enabled = false;
  schedule_hour = 3;
  schedule_minute = 0;
}
get_backup_schedule (some row) = record {
  schedule_enabled = row.schedule_enabled;
  schedule_hour = or_default row.schedule_hour 3;
  schedule_minute = or_default row.schedule_minute 0;
}

-- an UPDATE of the row, where there is one
unfoldable pub save_backup_schedule : Schedule → Option Schedule → Option Schedule
save_backup_schedule new none = none
save_backup_schedule new (some row) = some new

-- a time of day some minutes after hour:minute
abbrev pub at_time : ℕ → ℕ → ℕ → ℕ
at_time hour minute later = (hour * 60 + minute + later) % 1440

module _ {Q : Type 0} (jobs : JobQueue Q) where
  abbrev pub saved : Schedule → BackupScheduler Q → BackupScheduler Q
  saved new s = record s { settings = save_backup_schedule new s.settings }

  unfoldable pub remove_all : Q → Q
  remove_all q =
      jobs.remove_jobs backup_snapshot (jobs.remove_jobs backup_expiry (jobs.remove_jobs backup q))

  abbrev pub disabled : BackupScheduler Q → Schedule
  disabled s =
      let current = get_backup_schedule s.settings in
      record {
        schedule_enabled = false;
        schedule_hour = or_default current.schedule_hour 3;
        schedule_minute = or_default current.schedule_minute 0;
      }

  -- `stop` with a queue
  unfoldable pub stop : Bool → BackupScheduler Q → BackupScheduler Q
  stop persist s =
      let stopped = record s { running = false; job_queue = remove_all s.job_queue } in
      if persist then saved (disabled stopped) stopped else stopped

  unfoldable pub schedule_jobs : ℕ → ℕ → Q → Q
  schedule_jobs hour minute q = jobs.run_daily backup_snapshot (at_time hour minute 10) (
      jobs.run_daily backup_expiry (at_time hour minute 5)
        (jobs.run_daily backup (at_time hour minute 0) q))

  -- what `start_daily` does after `stop`; `replace` raises for a time that is none
  unfoldable pub started : ℕ → ℕ → Bool → Action (BackupScheduler Q) (Unit {0})
  started hour minute persist s =
      let on : BackupScheduler Q = record s {
        running = true;
        job_queue = schedule_jobs hour minute s.job_queue;
      } in
      let kept =
        if persist
        then saved
            (record { schedule_enabled = true; schedule_hour = hour; schedule_minute = minute }) on
        else on in
      if ltb hour 24 && ltb minute 60 then (ok tt, kept) else (err unforeseen, s)

  unfoldable pub start_daily : ℕ → ℕ → Bool → Action (BackupScheduler Q) (Unit {0})
  start_daily hour minute persist s = started hour minute persist (stop false s)

  unfoldable pub is_running : BackupScheduler Q → Bool
  is_running s =
      if ltb 0 (length (jobs.get_jobs_by_name backup s.job_queue))
      then true
      else (get_backup_schedule s.settings).schedule_enabled

  unfoldable pub restore : Action (BackupScheduler Q) (Unit {0})
  restore s =
      let settings = get_backup_schedule s.settings in
      let again =
        start_daily (or_default settings.schedule_hour 3) (or_default settings.schedule_minute 0)
          false s in
      if settings.schedule_enabled then again else (ok tt, s)
