-- ===== src/Scheduler/Daily.antt =====
-- core/backup_scheduler.py: the check of expiring users and the snapshot go on to the last router.
use mikrotik_bot.Prelude.{
  ℤ, ◌≡◌, subst, inl, inr, String, Bool, true, false, Option, none, some, List, [], ◌∷◌, All, ok,
  err, Result, Bool-cases,
}
use mikrotik_bot.Action.{Fault, unforeseen, Action, ◌>>=◌, for_each, proceed}
use mikrotik_bot.Action.Ensures.{Keeps}
use mikrotik_bot.Action.Triples.{
  Ends, Meets, Meets-give, Meets-throw, Meets-from, Meets-raising, Meets-le, Meets-try, Meets-bind,
  Meets-next,
}
use mikrotik_bot.Client.{Row}
use mikrotik_bot.Scheduler.Runs.{
  Services, key_of, name_of, has_username, has_fields, check_expiry, alert_if_checked, expiry_of,
  do_expiry_check, number_or_raise, save_stats, snapshot_of, do_stats_snapshot,
}
use mikrotik_bot.Scheduler.Keeping.{
  Never, Meets-keeping, Meets-kept, Keeps-both, AreKeeping, best_effort-keeps, alert-keeps,
}

ok_same :
    {rs routers : List Row} → ◌≡◌ {A = Result Fault (List Row)} (ok rs) (ok routers) → rs ≡ routers
ok_same e = cc e

module _ {W : Type 0} (services : Services W) where
  -- what is asked of a router is `A`, and what is then recorded `R`
  module _ (A R : String → W → Type 0) (A_keeps : (k : String) → AreKeeping services (A k))
      (R_keeps : (k : String) → AreKeeping services (R k))
      (asks : (k : String)
        → Meets
            (λ w. Unit {0})
            (λ users w. A k w × All (λ u. has_fields u ≡ true) users)
            (A k)
            (services.get_expiring_users k 3))
      (counts : (k : String)
        → Meets (λ w. Unit {0}) (λ raw. A k) (A k) (services.get_hotspot_stats k))
      (records : (k action : String) (done : Bool)
        → Meets (A k) (λ u. R k) (λ w. ⊥) (services.record_action k action done)) where
    abbrev pub IfNamed : Bool → Type 0 → Type 0
    IfNamed true T = T
    IfNamed false T = Unit

    -- every router that has a username was recorded
    abbrev pub Done : List Row → W → Type 0
    Done rs w = All (λ r. IfNamed (has_username r) (R (key_of r) w)) rs

    IfNamed-le : (b : Bool) (T U : Type 0) → (T → U) → IfNamed b T → IfNamed b U
    IfNamed-le true T U le h = le h
    IfNamed-le false T U le h = tt

    Done-Keeps :
        {X : Type 0} (m : Action W X) (rs : List Row)
        → ((k : String) → Keeps (R k) m)
        → Keeps (Done rs) m
    Done-Keeps m rs h = record { at = λ w d. all_kept rs w d }
      where
        all_kept : (rs : List Row) (w : W) → Done rs w → Done rs (m w).1
        all_kept [] w d = tt
        all_kept (r ∷ rs) w (d, ds) = (
          IfNamed-le (has_username r) (R (key_of r) w) (R (key_of r) (m w).1) ((h (key_of r)).at w)
              d,
          all_kept rs w ds,
        )

    Done-keeps : (rs : List Row) → AreKeeping services (Done rs)
    Done-keeps rs = record {
      asked = λ k. Done-Keeps _ rs λ k'. (R_keeps k').asked k;
      counted = λ k. Done-Keeps _ rs λ k'. (R_keeps k').counted k;
      recorded = λ k a d. Done-Keeps _ rs λ k'. (R_keeps k').recorded k a d;
      saved = λ k a t. Done-Keeps _ rs λ k'. (R_keeps k').saved k a t;
      logged = λ a n. Done-Keeps _ rs λ k'. (R_keeps k').logged a n;
      sent = λ i n us. Done-Keeps _ rs λ k'. (R_keeps k').sent i n us;
    }

    -- one more router is recorded
    reached :
        (r : Row) (rs : List Row) (w : W)
        → has_username r ≡ true
        → R (key_of r) w
        → Done rs w
        → Done (r ∷ rs) w
    reached r rs w named h d = (rw named h, d)

    recorded_at :
        (k action : String) (done : Bool) (rs : List Row)
        → Meets
            (λ w. A k w × Done rs w)
            (λ u w. R k w × Done rs w)
            Never
            (services.record_action k action done)
    recorded_at k action done rs =
        Meets-raising _ (λ w h. h.0)
          (Meets-keeping _ (records k action done) ((Done-keeps rs).recorded k action done))

    -- the rows that are there have their fields
    abbrev Fields : Option (List Row) → Type 0
    Fields none = Unit
    Fields (some users) = All (λ u. has_fields u ≡ true) users

    check_expiry-Meets :
        (k : String) (rs : List Row)
        → Meets
            (Done rs)
            (λ expiring w. (R k w × Done rs w) × Fields expiring)
            Never
            (check_expiry services k)
    unfolding check_expiry
    check_expiry-Meets k rs =
        Meets-try (λ w. A k w × Done rs w) _ _
          (Meets-bind (λ users w. (A k w × Fields (some users)) × Done rs w) _ _
            (Meets-from _ (λ w d. (tt, d)) (Meets-keeping _ (asks k) ((Done-keeps rs).asked k)))
            λ users. record {
              at = λ w ((a, f), d).
                  (Meets-next (λ w. R k w × Done rs w) _ _
                      (Meets-raising _ (λ w h. absurd h) (recorded_at k "expiry_check" true rs))
                      (Meets-give (some users) λ w h. (h, f))).at
                    w (a, d);
            })
          λ e.
            Meets-next (λ w. R k w × Done rs w) _ _ (recorded_at k "expiry_check" false rs)
              (Meets-give none λ w h. (h, tt))

    expiry_of-Meets :
        (r : Row) (rs : List Row)
        → Meets (Done rs) (λ u. Done (r ∷ rs)) Never (expiry_of services r)
    unfolding expiry_of
    expiry_of-Meets r rs = elim (Bool-cases (has_username r)) [
      | inl named ↦ rw named (
          Meets-bind _ _ _ (check_expiry-Meets (key_of r) rs) λ expiring. record {
            at = λ w ((h, d), f). (alerted expiring f).at w (reached r rs w named h d);
          })
      | inr skipped ↦ rw skipped (Meets-give tt λ w d. (rw skipped tt, d))
    ]
      where
        alerted :
            (expiring : Option (List Row))
            → Fields expiring
            → Meets
                (Done (r ∷ rs))
                (λ u. Done (r ∷ rs))
                Never
                (alert_if_checked services r expiring)
        alerted none f = Meets-give tt λ w d. d
        alerted (some users) f = alert-keeps services (name_of r) users (Done-keeps (r ∷ rs)) f

    -- the loop over the routers
    each_done :
        (body : Row → Action W (Unit {0}))
        → ((r : Row) (rs : List Row) → Meets (Done rs) (λ u. Done (r ∷ rs)) Never (body r))
        → (rs seen : List Row)
        → Meets (Done seen) (λ u w. Done rs w × Done seen w) Never (for_each rs body)
    unfolding for_each
    each_done body h [] seen = Meets-give tt λ w d. (tt, d)
    each_done body h (r ∷ rs) seen =
        Meets-next (Done (r ∷ seen)) _ _ (h r seen)
          (Meets-le _ (λ u w (ds, (d, others)). ((d, ds), others)) (each_done body h rs (r ∷ seen)))

    number_or_raise-keeps :
        {I : W → Type 0} (n : Option ℤ) → Meets I (λ m. I) I (number_or_raise services n)
    number_or_raise-keeps none = Meets-throw unforeseen λ w i. i
    number_or_raise-keeps (some n) = Meets-give n λ w i. i

    save_stats-Meets :
        (r : Row) (rs : List Row) (raw : Row)
        → Meets
            (λ w. A (key_of r) w × Done rs w)
            (λ u w. R (key_of r) w × Done rs w)
            (λ w. A (key_of r) w × Done rs w)
            (save_stats services r raw)
    unfolding save_stats
    save_stats-Meets r rs [] =
        Meets-raising _ (λ w h. absurd h) (recorded_at (key_of r) "stats_snapshot" true rs)
    save_stats-Meets r rs (field ∷ raw) =
        Meets-bind (λ n w. A (key_of r) w × Done rs w) _ _ (number_or_raise-keeps _)
          λ active_users.
            Meets-bind (λ n w. A (key_of r) w × Done rs w) _ _ (number_or_raise-keeps _)
              λ total_users.
                Meets-next (λ w. A (key_of r) w × Done rs w) _ _
                  (Meets-kept _ (
                    Keeps-both _ ((A_keeps (key_of r)).saved (key_of r) active_users total_users)
                      ((Done-keeps rs).saved (key_of r) active_users total_users)))
                  (Meets-next (λ w. R (key_of r) w × Done rs w) _ _
                    (Meets-raising _ (λ w h. absurd h)
                      (recorded_at (key_of r) "stats_snapshot" true rs))
                    (Meets-raising _ (λ w h. absurd h)
                      (best_effort-keeps services _ (
                        Keeps-both _ ((R_keeps (key_of r)).logged _ _)
                          ((Done-keeps rs).logged _ _)))))

    snapshot_of-Meets :
        (r : Row) (rs : List Row)
        → Meets (Done rs) (λ u. Done (r ∷ rs)) Never (snapshot_of services r)
    unfolding snapshot_of
    snapshot_of-Meets r rs = elim (Bool-cases (has_username r)) [
      | inl named ↦ rw named (
          Meets-le _ (λ u w (h, d). reached r rs w named h d)
            (Meets-try (λ w. A (key_of r) w × Done rs w) _ _
              (Meets-bind (λ raw w. A (key_of r) w × Done rs w) _ _
                (Meets-from _ (λ w d. (tt, d))
                  (Meets-keeping _ (counts (key_of r)) ((Done-keeps rs).counted (key_of r))))
                (save_stats-Meets r rs))
              λ e. recorded_at (key_of r) "stats_snapshot" false rs))
      | inr skipped ↦ rw skipped (Meets-give tt λ w d. (rw skipped tt, d))
    ]

    listed :
        (body : Row → Action W (Unit {0})) (routers : List Row)
        → ((r : Row) (rs : List Row) → Meets (Done rs) (λ u. Done (r ∷ rs)) Never (body r))
        → Meets
            (λ w. (services.get_saved_routers w).0 ≡ ok routers)
            (λ u. Done routers)
            Never
            (services.get_saved_routers >>= λ rs. for_each rs body)
    unfolding ◌>>=◌
    listed body routers h = record { at = λ w e. from_answer (services.get_saved_routers w) e }
      where
        from_answer :
            (a : Result Fault (List Row) × W)
            → a.0 ≡ ok routers
            → Ends (λ u. Done routers) Never (proceed (λ rs. for_each rs body) a)
        from_answer (ok rs, w) e =
            subst (λ x. Ends (λ u. Done x) Never (for_each rs body w)) (ok_same e)
              ((Meets-le _ (λ u w d. d.0) (each_done body h rs [])).at w tt)
        from_answer (err e, w) e' = absurd (cc e')

    -- Let the two jobs' calls keep a property `A` of routers, that the router was asked, which a call
    -- of the router makes true even if it fails, and a property `R`, that the outcome for it was
    -- recorded, which recording it makes true without raising once it was asked; and let the rows of
    -- expiring users have their fields. Then, from a world in which the list of routers can be read,
    -- the check of expiring users and the snapshot return, whatever the routers, the messages and
    -- the rest of the database do, and every router of the list that has a username was asked and
    -- then recorded.
    pub daily_jobs_reach_all :
        (routers : List Row)
        → Meets
            (λ w. (services.get_saved_routers w).0 ≡ ok routers)
            (λ u. Done routers)
            (λ w. ⊥)
            (do_expiry_check services)
          × Meets
              (λ w. (services.get_saved_routers w).0 ≡ ok routers)
              (λ u. Done routers)
              (λ w. ⊥)
              (do_stats_snapshot services)
    unfolding do_expiry_check do_stats_snapshot
    daily_jobs_reach_all routers = (
      listed (expiry_of services) routers expiry_of-Meets,
      listed (snapshot_of services) routers snapshot_of-Meets,
    )
