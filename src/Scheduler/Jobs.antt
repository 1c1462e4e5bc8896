-- ===== src/Scheduler/Jobs.antt =====
-- core/backup_scheduler.py: the jobs in the queue after a start and after a restart of the bot.
use mikrotik_bot.Prelude.{
  ℕ, ◌<◌, ◌≡◌, refl, Bool, true, false, Option, some, [], ◌∷◌, ◌++◌, if◌then◌else◌, ok, arith,
  lt→ltb,
}
use mikrotik_bot.Scheduler.{
  JobName, backup, backup_expiry, backup_snapshot, JobQueue, Schedule, BackupScheduler, or_default,
  get_backup_schedule, save_backup_schedule, at_time, remove_all, stop, schedule_jobs, started,
  start_daily, restore,
}

abbrev pub is_same : JobName → JobName → Bool
is_same backup backup = true
is_same backup_expiry backup_expiry = true
is_same backup_snapshot backup_snapshot = true
is_same _ _ = false

-- what the documentation of the queue says: a job is found under its name until it is removed
pub record IsJobQueue {Q : Type 0} (jobs : JobQueue Q) : Type 0 where
  pub added :
      (n m : JobName) (t : ℕ) (q : Q)
      → jobs.get_jobs_by_name m (jobs.run_daily n t q)
        ≡ (if is_same n m then jobs.get_jobs_by_name m q ++ (t ∷ []) else jobs.get_jobs_by_name m q)
  pub removed :
      (n m : JobName) (q : Q)
      → jobs.get_jobs_by_name m (jobs.remove_jobs n q)
        ≡ (if is_same n m then [] else jobs.get_jobs_by_name m q)

-- how long after the hour and minute of the schedule a job runs
abbrev pub later : JobName → ℕ
later backup = 0
later backup_expiry = 5
later backup_snapshot = 10

or_default-lt : (x d n : ℕ) → x < n → d < n → or_default x d < n
or_default-lt x d n h k = ground arith

or_default_twice : (x d : ℕ) → or_default (or_default x d) d ≡ or_default x d
or_default_twice x d = ground arith

or_default_zero : (x : ℕ) → or_default x 0 ≡ x
or_default_zero x = ground arith

module _ {Q : Type 0} (jobs : JobQueue Q) (laws : IsJobQueue jobs) where
  remove_all-none : (m : JobName) (q : Q) → jobs.get_jobs_by_name m (remove_all jobs q) ≡ []
  unfolding remove_all
  remove_all-none backup q = simp laws.removed refl
  remove_all-none backup_expiry q = simp laws.removed refl
  remove_all-none backup_snapshot q = simp laws.removed refl

  schedule_jobs-one :
      (m : JobName) (hour minute : ℕ) (q : Q)
      → jobs.get_jobs_by_name m q ≡ []
      → jobs.get_jobs_by_name m (schedule_jobs jobs hour minute q)
        ≡ at_time hour minute (later m) ∷ []
  unfolding schedule_jobs
  schedule_jobs-one backup hour minute q h = simp (laws.added, h) refl
  schedule_jobs-one backup_expiry hour minute q h = simp (laws.added, h) refl
  schedule_jobs-one backup_snapshot hour minute q h = simp (laws.added, h) refl

  -- the state after a start, the queue written out
  start_daily-queue :
      (hour minute : ℕ) (persist : Bool) (s : BackupScheduler Q)
      → hour < 24
      → minute < 60
      → ((start_daily jobs hour minute persist s).0 ≡ ok tt)
        × ((start_daily jobs hour minute persist s).1.running ≡ true)
        × ((start_daily jobs hour minute persist s).1.job_queue
            ≡ schedule_jobs jobs hour minute (remove_all jobs s.job_queue))
        × ((start_daily jobs hour minute persist s).1.settings ≡ (
            if persist
            then save_backup_schedule
                (record { schedule_enabled = true; schedule_hour = hour; schedule_minute = minute })
                s.settings
            else s.settings))
  unfolding start_daily started stop
  start_daily-queue hour minute true s h m =
      rw (lt→ltb hour 24 h, lt→ltb minute 60 m) (refl, refl, refl, refl)
  start_daily-queue hour minute false s h m =
      rw (lt→ltb hour 24 h, lt→ltb minute 60 m) (refl, refl, refl, refl)

  -- one job of each kind, at its time
  abbrev pub HasJobs : ℕ → ℕ → BackupScheduler Q → Type 0
  HasJobs hour minute s =
      (m : JobName) → jobs.get_jobs_by_name m s.job_queue ≡ at_time hour minute (later m) ∷ []

  start_daily-HasJobs :
      (hour minute : ℕ) (persist : Bool) (s : BackupScheduler Q)
      → hour < 24
      → minute < 60
      → HasJobs hour minute (start_daily jobs hour minute persist s).1
  start_daily-HasJobs hour minute persist s h m name =
      let after = start_daily-queue hour minute persist s h m in
      rw after.2 (
        schedule_jobs-one name hour minute (remove_all jobs s.job_queue)
          (remove_all-none name s.job_queue))

  -- the scheduler of a new process, with the stored settings
  abbrev pub restarted : Q → Option Schedule → BackupScheduler Q
  restarted q settings = record { running = false; job_queue = q; settings = settings }

  -- what `restore` does with settings that are enabled
  restored-HasJobs :
      (hour minute : ℕ) (q : Q)
      → hour < 24
      → minute < 60
      → HasJobs
          (or_default hour 3)
          minute
          (restore jobs (
            restarted q (
              some (record {
                schedule_enabled = true;
                schedule_hour = hour;
                schedule_minute = minute;
              })))).1
  unfolding restore get_backup_schedule
  restored-HasJobs hour minute q h m =
      rw (or_default_twice hour 3, or_default_twice minute 0, or_default_zero minute)
        (start_daily-HasJobs (or_default hour 3) minute false _
          (or_default-lt hour 3 24 h (omega arith)) m)

  -- Let the row of settings exist. After `start_daily` for a time of day, whatever jobs were queued
  -- before, the queue has one job of each kind: the backup at that time, the check of expiry five
  -- minutes and the snapshot ten minutes later. After a restart of the bot `restore` queues the same
  -- jobs, for whatever jobs the new queue has, except that a schedule for hour 0 comes back at hour 3.
  pub schedule_survives :
      (hour minute : ℕ) (s : BackupScheduler Q) (row : Schedule) (q : Q)
      → hour < 24
      → minute < 60
      → s.settings ≡ some row
      → HasJobs hour minute (start_daily jobs hour minute true s).1
        × HasJobs
            (or_default hour 3)
            minute
            (restore jobs (restarted q (start_daily jobs hour minute true s).1.settings)).1
  unfolding save_backup_schedule
  schedule_survives hour minute s row q h m stored =
      let after = start_daily-queue hour minute true s h m in
      (
        start_daily-HasJobs hour minute true s h m,
        rw (after.3, stored, save_backup_schedule) (restored-HasJobs hour minute q h m),
      )
