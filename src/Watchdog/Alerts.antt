-- ===== src/Watchdog/Alerts.antt =====
-- core/watchdog.py: the alerts of one router over histories of all routers' checks.
use mikrotik_bot.Prelude.{
  ℕ, ◌≡◌, ◌≢◌, refl, ap, subst, inl, inr, Bool, true, false, String, List, [], ◌∷◌, arith,
  if◌then◌else◌, get_or, ◌==◌, string_eq, Bool-cases, eq_of_beq, ne_of_beq, Option-cases,
}
use mikrotik_bot.Dict.{get, self_laws, other_laws}
use mikrotik_bot.Watchdog.{
  Alert, alert_none, alert_went_offline, alert_recovered, Watchdog, init, status_of,
  clear_alert_sent, clear_status, record_check_result, note_online, note_offline,
}

-- `observes k true now`: the check of router `k` found it online, and the result is recorded
pub data Event : Type 0 where
  observes : String → Bool → ℕ → Event
  clears_alert forgets : String → Event

abbrev pub router : Event → String
router (observes k online now) = k
router (clears_alert k) = k
router (forgets k) = k

-- a health check and the record of its result
unfoldable pub observe : Watchdog → String → Bool → ℕ → Alert × Watchdog
unfolding note_online note_offline record_check_result
observe w k true now = record_check_result (note_online w k now) k true
observe w k false now = record_check_result (note_offline w k now) k false

unfoldable pub step : Watchdog → Event → Alert × Watchdog
unfolding observe clear_alert_sent clear_status
step w (observes k online now) = observe w k online now
step w (clears_alert k) = (alert_none, clear_alert_sent w k)
step w (forgets k) = (alert_none, clear_status w k)

-- the alerts that the events of router `k` raise
unfoldable pub alerts : String → Watchdog → List Event → List Alert
alerts k w [] = []
alerts k w (e ∷ es) =
    let (alert, w') = step w e in
    let rest = alerts k w' es in if router e == k then alert ∷ rest else rest

-- The specification knows only whether the router is up: an alert is a change.
unfoldable pub transition : Bool → Event → Alert × Bool
transition true (observes k true now) = (alert_none, true)
transition true (observes k false now) = (alert_went_offline, false)
transition false (observes k true now) = (alert_recovered, true)
transition false (observes k false now) = (alert_none, false)
transition up (clears_alert k) = (alert_none, up)
transition up (forgets k) = (alert_none, true)

unfoldable pub changes : String → Bool → List Event → List Alert
changes k up [] = []
changes k up (e ∷ es) =
    let rest = changes k (transition up e).1 es in
    let skipped = changes k up es in if router e == k then (transition up e).0 ∷ rest else skipped

-- What is stored shows whether router `k` is up, and no alert is pending for a router that is up.
abbrev pub Shows : Watchdog → String → Bool → Type 0
Shows w k up =
    (get_or (get w.last_known_status k) true ≡ up)
    × (up ≡ true → (status_of w k).alert_sent ≡ false)

own-Shows :
    (w : Watchdog) (e : Event) (up : Bool)
    → Shows w (router e) up
    → ((step w e).0 ≡ (transition up e).0) × Shows (step w e).1 (router e) (transition up e).1
unfolding step transition
own-Shows w (observes k true now) true h = grind (arith, self_laws)
own-Shows w (observes k true now) false h = grind (arith, self_laws)
own-Shows w (observes k false now) true h = grind (arith, self_laws)
own-Shows w (observes k false now) false h = grind (arith, self_laws)
own-Shows w (clears_alert k) up h = elim (Option-cases (get w.router_status k)) [
  | inl unknown ↦ grind (arith, self_laws)
  | inr (status, known) ↦ grind (arith, self_laws)
]
own-Shows w (forgets k) up h = grind (arith, self_laws)

other-Shows :
    (w : Watchdog) (e : Event) (k : String) (up : Bool)
    → router e ≢ k
    → Shows w k up
    → Shows (step w e).1 k up
unfolding step
other-Shows w (observes j true now) k up other h =
    elim (Bool-cases (get_or (get w.last_known_status j) true)) [
      | inl was ↦ grind (arith, other_laws)
      | inr was ↦ grind (arith, other_laws)
    ]
other-Shows w (observes j false now) k up other h = grind (arith, other_laws)
other-Shows w (clears_alert j) k up other h = elim (Option-cases (get w.router_status j)) [
  | inl unknown ↦ grind (arith, other_laws)
  | inr (status, known) ↦ grind (arith, other_laws)
]
other-Shows w (forgets j) k up other h = grind (arith, other_laws)

alerts_from :
    (k : String) (w : Watchdog) (up : Bool) (es : List Event)
    → Shows w k up
    → alerts k w es ≡ changes k up es
unfolding alerts changes
alerts_from k w up [] h = refl
alerts_from k w up (e ∷ es) h = elim (Bool-cases (router e == k)) [
  | inl same ↦
      let (alert, after) =
        subst
          (λ j.
            Shows w j up
            → ((step w e).0 ≡ (transition up e).0) × Shows (step w e).1 j (transition up e).1)
          (eq_of_beq same) (own-Shows w e up) h in
      rw (same, alert)
        (ap (λ rest. (transition up e).0 ∷ rest)
          (alerts_from k (step w e).1 (transition up e).1 es after))
  | inr other ↦
      rw other (alerts_from k (step w e).1 up es (other-Shows w e k up (ne_of_beq other) h))
]

-- From the start, and whatever happens to other routers in between: a router's recorded checks raise
-- the offline alert exactly if the router was up and is down, the recovery alert exactly if it was
-- down and is up, and no alert otherwise, where a router that was never checked, or forgotten since,
-- counts as up.
pub alerts_are_changes : (k : String) (es : List Event) → alerts k init es ≡ changes k true es
alerts_are_changes k es = alerts_from k init true es (unfold get in (refl, λ up. refl))
