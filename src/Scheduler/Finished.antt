-- ===== src/Scheduler/Finished.antt =====
-- core/backup_scheduler.py: what the report of a scheduled backup says of each router.
use Prim.Native.String.{◌++◌ as ◌⧺◌}
use mathlib.Core.List.{append_assoc}
use mikrotik_bot.Prelude.{
  ◌∙◌, ap, ℕ, ◌≡◌, ◌≢◌, refl, subst, sym, String, Bool, true, false, ◌&&◌, List, [], ◌∷◌, ◌++◌,
  Bool-cases, inl, inr, if◌then◌else◌, ok, Result, err, arith,
}
use mikrotik_bot.Action.{◌>>=◌, proceed, Fault, expected, unforeseen, Action, give, recover, try}
use mikrotik_bot.Action.Ensures.{Returns-any}
use mikrotik_bot.Action.Total.{
  IsOk, Total, Total-give, Total-for_each, Total-try, Total-next, IsOk-weaken, IsOk-self, IsOk-bind,
}
use mikrotik_bot.Client.{Row}
use mikrotik_bot.Scheduler.Runs.{
  Services, Report, key_of, name_of, has_username, full_mark, best_effort, record_outcome,
  run_backup_operation, after_userman, after_full, back_up, if_healthy, backup_single_router,
  backup_routers, unless_named, notify, do_backup,
}
use mikrotik_bot.Scheduler.Outcomes.{
  attempted, failed_lines, successful_lines, Tells, none_left, passed_over, told, extended,
  append_nil, succeeds, outcome_after, outcome_at,
}

module _ {W : Type 0} (services : Services W) where
  attempted_lem :
      (name : String) (userman full : Bool) (report : Report)
      → after_full services name full (after_userman services name userman report)
        ≡ extended name (attempted userman full) report
  attempted_lem name true true report = ground (arith, append_nil report.failed_routers)
  attempted_lem name true false report = ground (arith, append_nil report.failed_routers)
  attempted_lem name false true report = ground (arith, append_nil report.successful_routers)
  attempted_lem name false false report = ground (
    arith,
    append_nil report.successful_routers,
    append_assoc report.failed_routers (name ∷ []) ((name ⧺ full_mark) ∷ []),
  )

  pub best_effort-Total : (m : Action W (Unit {0})) → Total (λ u. Unit {0}) (best_effort services m)
  unfolding best_effort
  best_effort-Total m = Total-try m _ (Returns-any m) λ e. Total-give tt tt

  recorded-Total :
      (done record_duration : Bool) (backup_type : String)
      → Total
          (λ u. Unit {0})
          (if done && record_duration
            then best_effort services (services.record_backup_duration backup_type)
            else give tt)
  recorded-Total true true backup_type = best_effort-Total _
  recorded-Total true false backup_type = Total-give tt tt
  recorded-Total false record_duration backup_type = Total-give tt tt

  record_outcome-Total :
      (k router_name backup_type action_name : String) (record_duration : Bool)
      (answer : Bool × String)
      → Total
          (λ done. done ≡ answer.0)
          (record_outcome services k router_name backup_type action_name record_duration answer)
  unfolding record_outcome
  record_outcome-Total k router_name backup_type action_name record_duration (done, msg) =
      Total-next {R = λ u. Unit {0}} _ _
        (Total-next {R = λ u. Unit {0}} _ _
          (Total-next {R = λ u. Unit {0}} _ _ (best_effort-Total _) (best_effort-Total _))
          (recorded-Total done record_duration backup_type))
        (Total-give done refl)

  -- the answer, or a failure after a fault, is what is returned
  operation_at :
      (k router_name backup_type : String) (service_method : String → Action W (Bool × String))
      (action_name : String) (record_duration : Bool) (w : W)
      → IsOk
          (λ done. done ≡ succeeds (service_method k w).0)
          (run_backup_operation services k router_name backup_type service_method action_name
            record_duration w).0
  unfolding run_backup_operation try ◌>>=◌
  operation_at k router_name backup_type service_method action_name record_duration w =
      answered (service_method k w)
    where
      answered :
          (r : Result Fault (Bool × String) × W)
          → IsOk
              (λ done. done ≡ succeeds r.0)
              (proceed
                (record_outcome services k router_name backup_type action_name record_duration)
                (recover (λ e. give (false, services.text_of e)) r)).0
      answered (ok answer, w') =
          (record_outcome-Total k router_name backup_type action_name record_duration answer).at w'
      answered (err e, w') =
          (record_outcome-Total k router_name backup_type action_name record_duration
              (false, services.text_of e)).at
            w'

  back_up_at :
      (r : Row) (report : Report) (msg : String) (w : W)
      → IsOk
          (λ report'.
            report' ≡ extended (name_of r) (outcome_after services r (true, msg) w) report)
          (back_up services (key_of r) (name_of r) report w).0
  back_up_at r report msg w =
      IsOk-bind _ _ _ _ w (operation_at (key_of r) (name_of r) _ _ _ _ w) λ userman_ok h.
        IsOk-bind _ _ _ _ _ (operation_at (key_of r) (name_of r) _ _ _ _ _) λ full_ok h'.
          attempted_lem (name_of r) userman_ok full_ok report
          ∙ ap (λ b. extended (name_of r) (attempted b full_ok) report) h
          ∙ ap
              (λ b.
                extended (name_of r)
                  (attempted (succeeds (services.userman_backup (key_of r) w).0) b) report)
              h'

  single_at :
      (r : Row) (report : Report) (w : W)
      → IsOk
          (λ report'. report' ≡ extended (name_of r) (outcome_at services r w) report)
          (backup_single_router services r report w).0
  unfolding backup_single_router
  single_at r report w = answered (services.check_connection_health (key_of r) w)
    where
      answered :
          (health : (Bool × String) × W)
          → IsOk
              (λ report'.
                report' ≡ extended (name_of r) (outcome_after services r health.0 health.1) report)
              (if_healthy services r report health.0 health.1).0
      answered ((true, msg), w') = back_up_at r report msg w'
      answered ((false, msg), w') = ground (arith, append_nil report.successful_routers)

  -- the lines that the routers add to the report
  Adds : W → List Row → Report → Report → Type 0
  Adds w rs report report' =
      (failed : List String) × (done : List String) × Tells services w rs failed done
      × (report' ≡ record {
        failed_routers = report.failed_routers ++ failed;
        successful_routers = report.successful_routers ++ done;
      })

  grown :
      (w : W) (r : Row) (rs : List Row) (report report1 report2 : Report)
      → has_username r ≡ true
      → report1 ≡ extended (name_of r) (outcome_at services r w) report
      → Adds (backup_single_router services r report w).1 rs report1 report2
      → Adds w (r ∷ rs) report report2
  unfolding Adds
  grown w r rs report report1 report2 named e (failed, done, tells, e') =
      let o = outcome_at services r w in
      (
        failed_lines (name_of r) o ++ failed,
        successful_lines (name_of r) o ++ done,
        told report named tells,
        e'
            ∙ ap
                (λ (x : Report). record {
                  failed_routers = x.failed_routers ++ failed;
                  successful_routers = x.successful_routers ++ done;
                })
                e
            ∙ ground (
              arith,
              append_assoc report.failed_routers (failed_lines (name_of r) o) failed,
              append_assoc report.successful_routers (successful_lines (name_of r) o) done,
            ),
      )

  kept :
      (w : W) (r : Row) (rs : List Row) (report report1 report2 : Report)
      → has_username r ≡ false
      → report1 ≡ report
      → Adds w rs report1 report2
      → Adds w (r ∷ rs) report report2
  unfolding Adds
  kept w r rs report report1 report2 skipped e (failed, done, tells, e') =
      (failed, done, passed_over skipped tells, ground arith)

  backup_routers_at :
      (rs : List Row) (report : Report) (w : W)
      → IsOk (Adds w rs report) (backup_routers services rs report w).0
  unfolding backup_routers Adds
  backup_routers_at [] report w = (
    [],
    [],
    none_left,
    ground (arith, append_nil report.failed_routers, append_nil report.successful_routers),
  )
  backup_routers_at (r ∷ rs) report w = elim (Bool-cases (has_username r)) [
    | inl named ↦ rw named (
        IsOk-bind _ _ _ _ w (single_at r report w) λ report1 e.
          IsOk-weaken _ _ (λ report2 h. grown w r rs report report1 report2 named e h) _
            (backup_routers_at rs report1 _))
    | inr skipped ↦ rw skipped (
        IsOk-bind _ (λ report1. report1 ≡ report) _ _ w refl
          λ report1 e.
            IsOk-weaken _ _ (λ report2 h. kept w r rs report report1 report2 skipped e h) _
              (backup_routers_at rs report1 _))
  ]

  module _
      (sends : (admin_id : ℕ) (lines : List String) (w : W)
        → (services.send_failures admin_id lines w).0 ≢ err unforeseen) where
    caught-Total :
        (m : Action W (Unit {0}))
        → ((w : W) → (m w).0 ≢ err unforeseen)
        → Total (λ u. Unit {0}) (try m (unless_named services))
    unfolding try
    caught-Total m named = record { at = λ w. caught_at (m w) (named w) }
      where
        caught_at :
            (r : Result Fault (Unit {0}) × W)
            → r.0 ≢ err unforeseen
            → IsOk (λ u. Unit {0}) (recover (unless_named services) r).0
        caught_at (ok u, w) h = tt
        caught_at (err expected, w) h = tt
        caught_at (err unforeseen, w) h = absurd (h refl)

    notify-Total : (lines : List String) → Total (λ u. Unit {0}) (notify services lines)
    unfolding notify
    notify-Total [] = Total-give tt tt
    notify-Total (line ∷ lines) =
        Total-for_each services.admin_ids _
          λ admin_id. caught-Total _ (sends admin_id (line ∷ lines))

    -- Let the list of routers be read, and let a message to an administrator fail with no other
    -- exception than OSError. Then the scheduled backup returns, whatever the checks, the backups and
    -- the rest of the database do, and its report tells of each router of the list that has a
    -- username once, in order, by what the check and the backups answered in its turn: of one that
    -- does not answer as failed, of another as successful if its backup of the user manager
    -- succeeded, else as failed, and also as failed if its full backup failed.
    pub do_backup_reports :
        (w : W)
        → IsOk (λ routers. Unit {0}) (services.get_saved_routers w).0
        → IsOk
            (λ report.
              (routers : List Row) × ((services.get_saved_routers w).0 ≡ ok routers)
              × Tells services
                  (services.get_saved_routers w).1
                  routers
                  report.failed_routers
                  report.successful_routers)
            (do_backup services w).0
    unfolding do_backup Adds
    do_backup_reports w listed = IsOk-bind _ _ _ _ w (IsOk-self _ listed) λ routers read.
        IsOk-bind _ _ _ _ _ (backup_routers_at routers _ _) λ report tells.
          (Total-next {R = λ u. Unit {0}} _ _ (notify-Total report.failed_routers)
              (Total-give report (routers, read, reported report tells.2 tells.3))).at
            _
      where
        reported :
            {w' : W} {routers : List Row} {failed done : List String} (report : Report)
            → Tells services w' routers failed done
            → report ≡ record { failed_routers = failed; successful_routers = done }
            → Tells services w' routers report.failed_routers report.successful_routers
        reported {w'} {routers} report tells e =
            subst (λ x. Tells services w' routers x.failed_routers x.successful_routers) (sym e)
              tells
