-- ===== src/Locks/Exclusion.antt =====
-- core/mikrotik_api.py: which threads may run a command together, and which a thread waits for.
use mikrotik_bot.Prelude.{
  ℕ, ◌≡◌, ◌≢◌, refl, ◌⊎◌, inl, inr, subst, sym, ◌∙◌, String, true, Option, none, some, string_eq,
  arith, Bool-cases, Option-cases,
}
use mikrotik_bot.Dict.{get}
use mikrotik_bot.Client.{Texts}
use mikrotik_bot.Locks.{
  is_write_command, Shared, Pc, idle, called, looking, missing, present, waiting, running, Move,
  read, enter, absent, known, create, leave, acquire, finish, release, System, Reach,
}
use mikrotik_bot.Locks.Invariant.{Fits, is_inside, lock_of, Inv, Reach-Inv}

-- thread `i` can take a step from `p`
abbrev pub CanMove : Texts → ℕ → Shared → Pc → Type 0
CanMove text i m p = (m' : Shared) × (p' : Pc) × Move text i m p m' p'

-- thread `j` is in `_get_cmd_lock`, or it runs a write command for the router whose lock `i` wants
abbrev pub Blocks : Texts → Pc → Pc → Type 0
Blocks text p q =
    (is_inside q ≡ true)
    ⊎ ((k : String) × (c : String) × (d : String) × (l : ℕ) × (p ≡ waiting k c l)
        × (q ≡ running k d (some l))
        × (is_write_command text d ≡ true))

holds_lock :
    (text : Texts) (m : Shared) (i : ℕ) (k c : String) (a : Option ℕ)
    → is_write_command text c ≡ true
    → Fits text m i (running k c a)
    → (l : ℕ) × (get m.cmd_locks k ≡ some l) × (m.owner l ≡ some i)
holds_lock text m i k c none write h = absurd (cc)
holds_lock text m i k c (some l) write h = (l, h.1, h.2)

module _ (text : Texts) (s : System) where
  -- In every interleaving of the threads' calls, two threads that run write commands for one router
  -- are the same thread.
  pub writes_exclude :
      Reach text s
      → (i j : ℕ) (k c d : String) (a b : Option ℕ) → s.pc i ≡ running k c a
      → s.pc j ≡ running k d b
      → is_write_command text c ≡ true
      → is_write_command text d ≡ true
      → i ≡ j
  writes_exclude r i j k c d a b at_i at_j write_i write_j =
      let inv = Reach-Inv r in
      let here =
        holds_lock text s.mem i k c a write_i (subst (Fits text s.mem i) at_i (inv.fits i)) in
      let there =
        holds_lock text s.mem j k d b write_j (subst (Fits text s.mem j) at_j (inv.fits j)) in
      ground (arith, here, there)

inside_moves :
    (text : Texts) (m : Shared) (j : ℕ) (q : Pc)
    → Fits text m j q
    → is_inside q ≡ true
    → CanMove text j m q
inside_moves text m j idle f h = absurd (cc)
inside_moves text m j (called k c) f h = absurd (cc)
inside_moves text m j (looking k c) f h = elim (Option-cases (get m.cmd_locks k)) [
  | inl none_yet ↦ (_, _, absent none_yet)
  | inr (l, found) ↦ (_, _, known l found)
]
inside_moves text m j (missing k c) f h = (_, _, create)
inside_moves text m j (present k c) f h = (_, _, leave f.3)
inside_moves text m j (waiting k c l) f h = absurd (cc)
inside_moves text m j (running k c a) f h = absurd (cc)

-- a thread that holds a lock runs a write command for the lock's router
holder_runs :
    (text : Texts) (m : Shared) (j : ℕ) (q : Pc) (l : ℕ)
    → Fits text m j q
    → lock_of q ≡ some l
    → (k : String) × (d : String) × (q ≡ running k d (some l))
      × (is_write_command text d ≡ true)
      × (get m.cmd_locks k ≡ some l)
holder_runs text m j (running k d (some x)) l f h =
    let e : x ≡ l = cc in
    (k, d, subst (λ y. running k d (some x) ≡ running k d (some y)) e refl, f.0, f.1 ∙ h)
holder_runs text m j (running k d none) l f h = absurd (cc)
holder_runs text m j idle l f h = absurd (cc)
holder_runs text m j (called k c) l f h = absurd (cc)
holder_runs text m j (looking k c) l f h = absurd (cc)
holder_runs text m j (missing k c) l f h = absurd (cc)
holder_runs text m j (present k c) l f h = absurd (cc)
holder_runs text m j (waiting k c x) l f h = absurd (cc)

module _ {text : Texts} {m : Shared} {pc : ℕ → Pc} (inv : Inv text m pc) (i : ℕ) where
  progress_at :
      (p : Pc)
      → p ≢ idle
      → Fits text m i p
      → CanMove text i m p ⊎ ((j : ℕ) × Blocks text p (pc j) × CanMove text j m (pc j))
  progress_at idle busy f = absurd (busy refl)
  progress_at (called k c) busy f = elim (Bool-cases (is_write_command text c)) [
    | inr reading ↦ inl (_, _, read reading)
    | inl writing ↦ elim (Option-cases m.guard) [
      | inl free ↦ inl (_, _, enter writing free)
      | inr (j, taken) ↦
          let h = inv.inside j taken in inr (j, inl h, inside_moves text m j (pc j) (inv.fits j) h)
    ]
  ]
  progress_at (looking k c) busy f = inl (inside_moves text m i (looking k c) f refl)
  progress_at (missing k c) busy f = inl (inside_moves text m i (missing k c) f refl)
  progress_at (present k c) busy f = inl (inside_moves text m i (present k c) f refl)
  progress_at (waiting k c l) busy f = elim (Option-cases (m.owner l)) [
    | inl free ↦ inl (_, _, acquire free)
    | inr (j, taken) ↦
        let (k', d, at_j, writing, found) =
          holder_runs text m j (pc j) l (inv.fits j) (inv.owned l j taken) in
        inr (
          j,
          inr (k, c, d, l, refl, rw (inv.apart k k' l f.1 found) at_j, writing),
          subst (CanMove text j m) (sym at_j) (_, _, release),
        )
  ]
  progress_at (running k c none) busy f = inl (_, _, finish)
  progress_at (running k c (some l)) busy f = inl (_, _, release)

module _ (text : Texts) (s : System) where
  -- No deadlock, and no router waits for another: in every interleaving, a thread that is in a call
  -- can take a step, or another thread can, which is in `_get_cmd_lock` or runs a write command for
  -- the router whose lock the first one wants.
  pub waits_only_for_its_router :
      Reach text s
      → (i : ℕ) → s.pc i ≢ idle
      → CanMove text i s.mem (s.pc i)
        ⊎ ((j : ℕ) × Blocks text (s.pc i) (s.pc j) × CanMove text j s.mem (s.pc j))
  waits_only_for_its_router r i busy =
      let inv = Reach-Inv r in progress_at inv i (s.pc i) busy (inv.fits i)
