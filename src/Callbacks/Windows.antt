-- ===== src/Callbacks/Windows.antt =====
-- utils/callback_utils.py: which presses of a button count.
use mikrotik_bot.Prelude.{
  ℕ, ◌+◌, ◌≤◌, ◌<◌, ◌≡◌, ◌≢◌, refl, sym, ap, subst, ◌⊎◌, inl, inr, Bool, true, false, String, none,
  List, [], ◌∷◌, map, filter, contains, arith, ltb, if◌then◌else◌, get_or, ◌==◌, string_eq,
  Bool-cases, eq_of_beq, ne_of_beq,
}
use mikrotik_bot.Dict.{Dict, get, set, pop, get-pop, get-set_self, get-set_ne}
use mikrotik_bot.Callbacks.{
  Callbacks, init, forget_all, is_old, forget_old, is_duplicate_callback, dedup_window,
  dedup_max_age,
}

unfoldable pub verdicts : String → Callbacks → List (String × ℕ) → List Bool
verdicts key c [] = []
verdicts key c ((k, now) ∷ presses) =
    let (duplicate, c') = is_duplicate_callback c k now in
    let rest = verdicts key c' presses in if k == key then duplicate ∷ rest else rest

-- The specification: a press is a duplicate within a second of the last one that was not.
unfoldable pub repeats : ℕ → List ℕ → List Bool
repeats last [] = []
repeats last (now ∷ times) =
    let duplicate = ltb now (last + dedup_window) in
    duplicate ∷ repeats (if duplicate then last else now) times

unfoldable pub presses_of : String → List (String × ℕ) → List ℕ
presses_of key [] = []
presses_of key ((k, now) ∷ presses) =
    let rest = presses_of key presses in if k == key then now ∷ rest else rest

-- readings of a clock that never goes back
unfoldable pub IsMonotonic : ℕ → List (String × ℕ) → Type 0
IsMonotonic t [] = Unit
IsMonotonic t ((k, now) ∷ presses) = (t ≤ now) × IsMonotonic now presses

contains-filter :
    (p : String → Bool) (keys : List String) (key : String)
    → contains (filter p keys) key ≡ true
    → p key ≡ true
contains-filter p [] key h = absurd (ground arith)
contains-filter p (k ∷ keys) key h = elim (Bool-cases (p k)) [
  | inl kept ↦ elim (Bool-cases (k == key)) [
    | inl same ↦ subst (λ j. p j ≡ true) (eq_of_beq same) kept
    | inr other ↦ contains-filter p keys key (ground arith)
  ]
  | inr dropped ↦ contains-filter p keys key (ground arith)
]

get-forget_all :
    (d : Dict String ℕ) (keys : List String) (key : String)
    → get (forget_all d keys) key ≡ (if contains keys key then none else get d key)
unfolding forget_all
get-forget_all d [] key = refl
get-forget_all d (k ∷ keys) key = ground (arith, get-forget_all (pop d k) keys key, get-pop d k key)

-- The stored time is the last one that counted, or both are too old to matter from `now` on.
abbrev pub Remembers : Dict String ℕ → String → ℕ → ℕ → Type 0
Remembers d key last now =
    (get_or (get d key) 0 ≡ last) ⊎ ((get_or (get d key) 0 ≡ 0) × (last + dedup_max_age < now))

forget_old-Remembers :
    (c : Callbacks) (key : String) (last now : ℕ)
    → Remembers c.seen key last now
    → Remembers (forget_old c now).seen key last now
unfolding forget_old
forget_old-Remembers c key last now r = elim (Bool-cases (ltb (c.last_cleanup + 30000) now)) [
  | inl due ↦
      let keys = map (λ entry. entry.0) c.seen in
      elim (Bool-cases (contains (filter (is_old c.seen now) keys) key)) [
        | inl gone ↦
            let old = contains-filter (is_old c.seen now) keys key gone in
            rw (due, get-forget_all, gone) (inr (refl, ground arith))
        | inr kept ↦ rw (due, get-forget_all, kept) r
      ]
  | inr early ↦ rw early r
]

later-Remembers :
    (d : Dict String ℕ) (key : String) (last t now : ℕ)
    → t ≤ now
    → Remembers d key last t
    → Remembers d key last now
later-Remembers d key last t now h r = ground arith

too_late : (last now : ℕ) → last + dedup_max_age < now → ltb now (last + dedup_window) ≡ false
too_late last now old = ground arith

own-verdict :
    (c : Callbacks) (key : String) (last now : ℕ)
    → Remembers c.seen key last now
    → ((is_duplicate_callback c key now).0 ≡ ltb now (last + dedup_window))
      × Remembers
          (is_duplicate_callback c key now).1.seen
          key
          (if ltb now (last + dedup_window) then last else now)
          now
unfolding is_duplicate_callback
own-verdict c key last now (inl same) = rw same (elim (Bool-cases (ltb now (last + dedup_window))) [
  | inl duplicate ↦ rw duplicate (refl, inl same)
  | inr counts ↦ rw counts (
    refl,
    forget_old-Remembers (record c { seen = set c.seen key now }) key now now
        (inl (rw get-set_self refl)),
  )
])
own-verdict c key last now (inr (gone, old)) =
    rw (gone, too_late last now old, too_late 0 now (omega arith))
      (
        refl,
        forget_old-Remembers (record c { seen = set c.seen key now }) key now now
            (inl (rw get-set_self refl)),
      )

other-verdict :
    (c : Callbacks) (k key : String) (last now : ℕ)
    → k ≢ key
    → Remembers c.seen key last now
    → Remembers (is_duplicate_callback c k now).1.seen key last now
unfolding is_duplicate_callback
other-verdict c k key last now other r =
    elim (Bool-cases (ltb now (get_or (get c.seen k) 0 + dedup_window))) [
      | inl duplicate ↦ rw duplicate r
      | inr counts ↦ rw counts (
          forget_old-Remembers (record c { seen = set c.seen k now }) key last now
            (subst (λ o. (get_or o 0 ≡ last) ⊎ ((get_or o 0 ≡ 0) × (last + dedup_max_age < now)))
              (sym (get-set_ne c.seen k key now other)) r))
    ]

verdicts_from :
    (key : String) (c : Callbacks) (last t : ℕ) (presses : List (String × ℕ))
    → IsMonotonic t presses
    → Remembers c.seen key last t
    → verdicts key c presses ≡ repeats last (presses_of key presses)
unfolding IsMonotonic verdicts presses_of repeats
verdicts_from key c last t [] h r = refl
verdicts_from key c last t ((k, now) ∷ presses) (h, hs) r =
    let here = later-Remembers c.seen key last t now h r in
    elim (Bool-cases (k == key)) [
      | inl same ↦
          let own =
            subst
              (λ j.
                Remembers c.seen j last now
                → ((is_duplicate_callback c k now).0 ≡ ltb now (last + dedup_window))
                  × Remembers (is_duplicate_callback c k now).1.seen j
                      (if ltb now (last + dedup_window) then last else now) now)
              (eq_of_beq same) (own-verdict c k last now) here in
          rw (same, own.0)
            (ap (λ rest. ltb now (last + dedup_window) ∷ rest)
              (verdicts_from key (is_duplicate_callback c k now).1
                (if ltb now (last + dedup_window) then last else now) now presses hs own.1))
      | inr other ↦ rw other (
          verdicts_from key (is_duplicate_callback c k now).1 last now presses hs
            (other-verdict c k key last now (ne_of_beq other) here))
    ]

-- Let the clock never go back. Then each press of a button is judged by the presses of that button
-- alone: it is a duplicate exactly if it comes less than a second after the last one that was not,
-- and the clean-up never changes a verdict.
pub duplicates_refine :
    (key : String) (presses : List (String × ℕ))
    → IsMonotonic 0 presses
    → verdicts key init presses ≡ repeats 0 (presses_of key presses)
duplicates_refine key presses h = verdicts_from key init 0 0 presses h (unfold get in inl refl)
