-- ===== src/Scheduler/Outcomes.antt =====
-- core/backup_scheduler.py: an independent description of the lines that a report of the backup has.
use Prim.Native.String.{◌++◌ as ◌⧺◌}
use mikrotik_bot.Action.{Fault}
use mikrotik_bot.Prelude.{
  Result, ok, err, ◌≡◌, refl, ap, String, Bool, true, false, List, [], ◌∷◌, ◌++◌,
}
use mikrotik_bot.Client.{Row}
use mikrotik_bot.Scheduler.Runs.{
  Services, key_of, run_userman_backup, backup_single_router, Report, name_of, has_username,
  full_mark, offline_mark,
}

-- how the backup of a router ended: it did not answer, or the two backups succeeded or failed
pub data Outcome : Type 0 where
  offline : Outcome
  attempted : Bool → Bool → Outcome

abbrev pub failed_lines : String → Outcome → List String
failed_lines name offline = (name ⧺ offline_mark) ∷ []
failed_lines name (attempted true true) = []
failed_lines name (attempted true false) = (name ⧺ full_mark) ∷ []
failed_lines name (attempted false true) = name ∷ []
failed_lines name (attempted false false) = name ∷ (name ⧺ full_mark) ∷ []

abbrev pub successful_lines : String → Outcome → List String
successful_lines name offline = []
successful_lines name (attempted true full) = name ∷ []
successful_lines name (attempted false full) = []

-- whether a backup answered with a success
abbrev pub succeeds : Result Fault (Bool × String) → Bool
succeeds (ok (done, msg)) = done
succeeds (err e) = false

module _ {W : Type 0} (services : Services W) where
  -- the outcome for a router whose check gave this answer and left this world
  abbrev pub outcome_after : Row → Bool × String → W → Outcome
  outcome_after r (false, msg) w = offline
  outcome_after r (true, msg) w = attempted (succeeds (services.userman_backup (key_of r) w).0) (
      succeeds
        (services.full_backup (key_of r)
          (run_userman_backup services (key_of r) (name_of r) w).1).0)

  -- the outcome for a router whose turn comes in this world: what the check and the two backups
  -- answer one after the other
  abbrev pub outcome_at : Row → W → Outcome
  outcome_at r w =
      let health = services.check_connection_health (key_of r) w in
      outcome_after r health.0 health.1

  -- the lines of a report on these routers, from the world in which the first has its turn: each
  -- that has a username is told of once, in order, by its outcome
  pub data Tells : W → List Row → List String → List String → Type 0 where
    none_left : {w : W} → Tells w [] [] []
    passed_over :
        {w : W} {r : Row} {rs : List Row} {failed done : List String}
        → has_username r ≡ false
        → Tells w rs failed done
        → Tells w (r ∷ rs) failed done
    told :
        {w : W} {r : Row} {rs : List Row} {failed done : List String} (report : Report)
        → has_username r ≡ true
        → Tells (backup_single_router services r report w).1 rs failed done
        → Tells w
            (r ∷ rs)
            (failed_lines (name_of r) (outcome_at r w) ++ failed)
            (successful_lines (name_of r) (outcome_at r w) ++ done)

abbrev pub extended : String → Outcome → Report → Report
extended name o report = record {
  failed_routers = report.failed_routers ++ failed_lines name o;
  successful_routers = report.successful_routers ++ successful_lines name o;
}

pub append_nil : (xs : List String) → xs ++ [] ≡ xs
append_nil [] = refl
append_nil (x ∷ xs) = ap (λ ys. x ∷ ys) (append_nil xs)
