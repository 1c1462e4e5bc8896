-- ===== src/Locks/Invariant.antt =====
-- core/mikrotik_api.py: what holds between the threads and the write locks in every state.
use mikrotik_bot.Prelude.{
  ℕ, ◌<◌, ◌≡◌, ◌≢◌, refl, String, Bool, true, false, Option, none, some, nat_eqb, string_eq, arith,
  Bool-cases, inl, inr, ◌==◌, eq_of_beq, ne_of_beq, ◌∙◌, nat_eqb_iff, subst,
}
use mikrotik_bot.Dict.{Dict, get, set, get-set_self, get-set_ne, get-set}
use mikrotik_bot.Client.{Texts}
use mikrotik_bot.Locks.{
  is_write_command, Shared, Pc, idle, called, looking, missing, present, waiting, running, put,
  created, Move, call, read, enter, absent, known, create, leave, acquire, finish, release, System,
  Step, pick, init, Reach, start, later,
}

-- what the place of thread `i` says of the shared state
abbrev pub Fits : Texts → Shared → ℕ → Pc → Type 0
Fits text m i idle = Unit
Fits text m i (called k c) = Unit
Fits text m i (looking k c) = (m.guard ≡ some i) × (is_write_command text c ≡ true)
Fits text m i (missing k c) =
    (m.guard ≡ some i) × (is_write_command text c ≡ true) × (get m.cmd_locks k ≡ none)
Fits text m i (present k c) =
    (m.guard ≡ some i) × (is_write_command text c ≡ true) × (l : ℕ) × (get m.cmd_locks k ≡ some l)
Fits text m i (waiting k c l) = (is_write_command text c ≡ true) × (get m.cmd_locks k ≡ some l)
Fits text m i (running k c none) = is_write_command text c ≡ false
Fits text m i (running k c (some l)) =
    (is_write_command text c ≡ true) × (get m.cmd_locks k ≡ some l) × (m.owner l ≡ some i)

abbrev pub is_inside : Pc → Bool
is_inside (looking k c) = true
is_inside (missing k c) = true
is_inside (present k c) = true
is_inside _ = false

abbrev pub lock_of : Pc → Option ℕ
lock_of (running k c lock) = lock
lock_of _ = none

-- the locks of two routers differ, and every lock is older than the next one
pub record Inv (text : Texts) (m : Shared) (pc : ℕ → Pc) : Type 0 where
  pub fits : (i : ℕ) → Fits text m i (pc i)
  pub apart :
      (k j : String) (l : ℕ) → get m.cmd_locks k ≡ some l → get m.cmd_locks j ≡ some l → k ≡ j
  pub older : (k : String) (l : ℕ) → get m.cmd_locks k ≡ some l → l < m.next_lock
  pub owned : (l i : ℕ) → m.owner l ≡ some i → lock_of (pc i) ≡ some l
  pub inside : (i : ℕ) → m.guard ≡ some i → is_inside (pc i) ≡ true

-- a new lock changes no router's lock
get-created :
    (d : Dict String ℕ) (k j : String) (new l : ℕ)
    → get d k ≡ none
    → get d j ≡ some l
    → get (set d k new) j ≡ some l
get-created d k j new l missing_k found = elim (Bool-cases (k == j)) [
  | inl same ↦ let e : k ≡ j = eq_of_beq same in absurd (cc)
  | inr other ↦ get-set_ne d k j new (ne_of_beq other) ∙ found
]

module _ {text : Texts} {m : Shared} {pc : ℕ → Pc} (inv : Inv text m pc) (i : ℕ) where
  open inv use {apart, older, owned, inside}

  Move-Fits :
      {p p' : Pc} {m' : Shared} → Move text i m p m' p' → Fits text m i p → Fits text m' i p'
  Move-Fits (call k c) f = tt
  Move-Fits (read h) f = h
  Move-Fits (enter h free) f = (refl, h)
  Move-Fits (absent h) f = (f.0, f.1, h)
  Move-Fits (known l h) f = (f.0, f.1, l, h)
  Move-Fits (create {k}) f = (f.0, f.1, m.next_lock, get-set_self m.cmd_locks k m.next_lock)
  Move-Fits (leave h) (_, write, _, _) = (write, h)
  Move-Fits (acquire h) f = (f.0, f.1, ground arith)
  Move-Fits finish f = tt
  Move-Fits release f = tt

  create-others :
      (k c : String)
      → Fits text m i (missing k c)
      → (j : ℕ) → i ≢ j
      → (q : Pc) → Fits text m j q
      → Fits text (created m k) j q
  create-others x y f j ne idle h = tt
  create-others x y f j ne (called k c) h = tt
  create-others x y f j ne (looking k c) h = ground arith
  create-others x y f j ne (missing k c) h = ground arith
  create-others x y f j ne (present k c) h = ground arith
  create-others x y f j ne (waiting k c l) h =
      (h.0, get-created m.cmd_locks x k m.next_lock l f.2 h.1)
  create-others x y f j ne (running k c none) h = h
  create-others x y f j ne (running k c (some l)) h =
      (h.0, get-created m.cmd_locks x k m.next_lock l f.2 h.1, ground (arith, older k l))

  move_others :
      {p p' : Pc} {m' : Shared}
      → Move text i m p m' p'
      → Fits text m i p
      → (j : ℕ) → i ≢ j
      → (q : Pc) → Fits text m j q
      → Fits text m' j q
  move_others (call k c) f j ne q h = h
  move_others (read g) f j ne q h = h
  move_others (enter g free) f j ne q h = ground arith
  move_others (absent g) f j ne q h = h
  move_others (known l g) f j ne q h = h
  move_others (create {k} {c}) f j ne q h = create-others k c f j ne q h
  move_others (leave g) f j ne q h = ground arith
  move_others (acquire g) f j ne q h = ground arith
  move_others finish f j ne q h = h
  move_others release f j ne q h = ground arith

  move_apart :
      {p p' : Pc} {m' : Shared}
      → Move text i m p m' p'
      → Fits text m i p
      → (k j : String) (l : ℕ) → get m'.cmd_locks k ≡ some l
      → get m'.cmd_locks j ≡ some l
      → k ≡ j
  move_apart (create {k = x}) f k j l a b = ground (
    arith,
    get-set m.cmd_locks x k m.next_lock,
    get-set m.cmd_locks x j m.next_lock,
    string_eq.equals_iff x k,
    string_eq.equals_iff x j,
    apart k j l,
    older k l,
    older j l,
  )
  move_apart (call _ _) f k j l a b = apart k j l a b
  move_apart (read _) f k j l a b = apart k j l a b
  move_apart (enter _ _) f k j l a b = apart k j l a b
  move_apart (absent _) f k j l a b = apart k j l a b
  move_apart (known _ _) f k j l a b = apart k j l a b
  move_apart (leave _) f k j l a b = apart k j l a b
  move_apart (acquire _) f k j l a b = apart k j l a b
  move_apart finish f k j l a b = apart k j l a b
  move_apart release f k j l a b = apart k j l a b

  move_older :
      {p p' : Pc} {m' : Shared}
      → Move text i m p m' p'
      → (k : String) (l : ℕ) → get m'.cmd_locks k ≡ some l
      → l < m'.next_lock
  move_older (create {k = x}) k l h = ground (arith, get-set m.cmd_locks x k m.next_lock, older k l)
  move_older (call _ _) k l h = older k l h
  move_older (read _) k l h = older k l h
  move_older (enter _ _) k l h = older k l h
  move_older (absent _) k l h = older k l h
  move_older (known _ _) k l h = older k l h
  move_older (leave _) k l h = older k l h
  move_older (acquire _) k l h = older k l h
  move_older finish k l h = older k l h
  move_older release k l h = older k l h

  move_owned :
      {p p' : Pc} {m' : Shared}
      → Move text i m p m' p'
      → pc i ≡ p
      → Fits text m i p
      → (l j : ℕ) → m'.owner l ≡ some j
      → lock_of (put pc i p' j) ≡ some l
  move_owned (call _ _) here f l j h = ground (arith, owned l j)
  move_owned (read _) here f l j h = ground (arith, owned l j)
  move_owned (enter _ _) here f l j h = ground (arith, owned l j)
  move_owned (absent _) here f l j h = ground (arith, owned l j)
  move_owned (known _ _) here f l j h = ground (arith, owned l j)
  move_owned create here f l j h = ground (arith, owned l j)
  move_owned (leave _) here f l j h = ground (arith, owned l j)
  move_owned (acquire _) here f l j h = ground (arith, owned l j)
  move_owned finish here f l j h = ground (arith, owned l j)
  move_owned release here f l j h = ground (arith, owned l j)

  move_guarded :
      {p p' : Pc} {m' : Shared}
      → Move text i m p m' p'
      → pc i ≡ p
      → Fits text m i p
      → (j : ℕ) → m'.guard ≡ some j
      → is_inside (put pc i p' j) ≡ true
  move_guarded (call _ _) here f j h = ground (arith, inside j)
  move_guarded (read _) here f j h = ground (arith, inside j)
  move_guarded (enter _ _) here f j h = ground (arith, inside j)
  move_guarded (absent _) here f j h = ground (arith, inside j)
  move_guarded (known _ _) here f j h = ground (arith, inside j)
  move_guarded create here f j h = ground (arith, inside j)
  move_guarded (leave _) here f j h = ground (arith, inside j)
  move_guarded (acquire _) here f j h = ground (arith, inside j)
  move_guarded finish here f j h = ground (arith, inside j)
  move_guarded release here f j h = ground (arith, inside j)

  Move-Inv : {p' : Pc} {m' : Shared} → Move text i m (pc i) m' p' → Inv text m' (put pc i p')
  Move-Inv {p'} {m'} mv = record {
    fits = λ j. elim (Bool-cases (nat_eqb i j)) [
      | inl same ↦
          rw same
            (subst (λ a. Fits text m' a p') ((nat_eqb_iff i j).0 same) (Move-Fits mv (inv.fits i)))
      | inr other ↦ rw other (move_others mv (inv.fits i) j (ground arith) (pc j) (inv.fits j))
    ];
    apart = move_apart mv (inv.fits i);
    older = move_older mv;
    owned = move_owned mv refl (inv.fits i);
    inside = move_guarded mv refl (inv.fits i);
  }

Step-Inv : {text : Texts} {s t : System} → Step text s t → Inv text s.mem s.pc → Inv text t.mem t.pc
Step-Inv (pick i mv) inv = Move-Inv inv i mv

init-Inv : {text : Texts} → Inv text init.mem init.pc
unfolding get
init-Inv = record {
  fits = λ i. tt;
  apart = λ k j l a b. absurd (ground arith);
  older = λ k l a. absurd (ground arith);
  owned = λ l i a. absurd (ground arith);
  inside = λ i a. absurd (ground arith);
}

pub Reach-Inv : {text : Texts} {s : System} → Reach text s → Inv text s.mem s.pc
Reach-Inv start = init-Inv
Reach-Inv (later r st) = Step-Inv st (Reach-Inv r)
