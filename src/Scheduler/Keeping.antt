-- ===== src/Scheduler/Keeping.antt =====
-- core/backup_scheduler.py: what the calls of the two daily jobs keep, the jobs' messages keep.
use mikrotik_bot.Prelude.{ℕ, ℤ, ◌≡◌, String, Bool, true, List, [], ◌∷◌, All, ok, err, Result}
use mikrotik_bot.Action.{Fault, Action, for_each}
use mikrotik_bot.Action.Ensures.{Keeps}
use mikrotik_bot.Action.Triples.{Ends, Meets, Meets-give, Meets-try, Meets-next}
use mikrotik_bot.Client.{Row}
use mikrotik_bot.Scheduler.Runs.{Services, has_fields, best_effort, render, alert}

abbrev pub Never : {W : Type 0} → W → Type 0
Never w = ⊥

module _ {W A : Type 0} where
  keeping :
      (I : W → Type 0) (Q : A → W → Type 0) (E : W → Type 0) (r : Result Fault A × W)
      → Ends Q E r
      → I r.1
      → Ends (λ a w. Q a w × I w) (λ w. E w × I w) r
  keeping I Q E (ok a, w) h i = (h, i)
  keeping I Q E (err e, w) h i = (h, i)

  -- a call that keeps a property, besides what it does
  pub Meets-keeping :
      {I P : W → Type 0} {Q : A → W → Type 0} {E : W → Type 0} (m : Action W A)
      → Meets P Q E m
      → Keeps I m
      → Meets (λ w. P w × I w) (λ a w. Q a w × I w) (λ w. E w × I w) m
  Meets-keeping {I} {P} {Q} {E} m h hk = record {
    at = λ w (p, i). keeping I Q E (m w) (h.at w p) (hk.at w i);
  }

  kept : (I : W → Type 0) (r : Result Fault A × W) → I r.1 → Ends (λ a. I) I r
  kept I (ok a, w) i = i
  kept I (err e, w) i = i

  pub Meets-kept : {I : W → Type 0} (m : Action W A) → Keeps I m → Meets I (λ a. I) I m
  Meets-kept {I} m h = record { at = λ w i. kept I (m w) (h.at w i) }

pub Keeps-both :
    {W X : Type 0} {I J : W → Type 0} (m : Action W X)
    → Keeps I m
    → Keeps J m
    → Keeps (λ w. I w × J w) m
Keeps-both m h h' = record { at = λ w (i, j). (h.at w i, h'.at w j) }

module _ {W : Type 0} (services : Services W) where
  -- the calls of the two jobs keep a property
  pub record AreKeeping (I : W → Type 0) : Type 0 where
    pub asked : (k : String) → Keeps I (services.get_expiring_users k 3)
    pub counted : (k : String) → Keeps I (services.get_hotspot_stats k)
    pub recorded :
        (k action : String) (done : Bool) → Keeps I (services.record_action k action done)
    pub saved : (k : String) (active total : ℤ) → Keeps I (services.save_snapshot k active total)
    pub logged : (action name : String) → Keeps I (services.log_action action name)
    pub sent :
        (admin_id : ℕ) (name : String) (users : List Row)
        → Keeps I (services.send_expiring admin_id name users)

  module _ {I : W → Type 0} where
    pub best_effort-keeps :
        (m : Action W (Unit {0})) → Keeps I m → Meets I (λ u. I) Never (best_effort services m)
    unfolding best_effort
    best_effort-keeps m h = Meets-try I _ _ (Meets-kept m h) λ e. Meets-give tt λ w i. i

    for_each-keeps :
        {X : Type 0} (xs : List X) (body : X → Action W (Unit {0}))
        → ((x : X) → Meets I (λ u. I) Never (body x))
        → Meets I (λ u. I) Never (for_each xs body)
    unfolding for_each
    for_each-keeps [] body h = Meets-give tt λ w i. i
    for_each-keeps (x ∷ xs) body h = Meets-next I _ _ (h x) (for_each-keeps xs body h)

    render-keeps :
        (users : List Row)
        → All (λ u. has_fields u ≡ true) users
        → Meets I (λ u. I) Never (render services users)
    unfolding render
    render-keeps [] h = Meets-give tt λ w i. i
    render-keeps (u ∷ users) (h, hs) = rw h (render-keeps users hs)

    pub alert-keeps :
        (name : String) (users : List Row)
        → AreKeeping I
        → All (λ u. has_fields u ≡ true) users
        → Meets I (λ u. I) Never (alert services name users)
    unfolding alert
    alert-keeps name [] keeps h = Meets-give tt λ w i. i
    alert-keeps name (user ∷ users) keeps h =
        Meets-next I _ _
          (Meets-next I _ _ (render-keeps (user ∷ users) h) (
            for_each-keeps services.admin_ids _
              λ admin_id. best_effort-keeps _ (keeps.sent admin_id name _)))
          (best_effort-keeps _ (keeps.logged _ name))
