-- ===== src/Profiles/Laws.antt =====
-- core/profile_cache.py: what every call keeps, and what can be read back.
use mikrotik_bot.Prelude.{
  ℕ, ◌+◌, ◌≤◌, ◌<◌, ◌≡◌, refl, ◌∙◌, String, none, some, List, [], ◌∷◌, arith, ltb, leb,
  if◌then◌else◌, length, length-append, filter, Result, ok, err, string_eq, Option-cases,
  Bool-cases, inl, inr, Bool, not,
}
use mikrotik_bot.Dict
use mikrotik_bot.Dict.{Dict, get-pop_self, ==_refl}
use mikrotik_bot.Dict.Recency.{
  IsDistinct, append, make_room_lem, get-none-make_room, pop-IsDistinct, append-IsDistinct,
  length-pop-le, touch-IsDistinct, length-touch, set_absent, set-append, move_to_end-touch,
  get-append,
}
use mikrotik_bot.Cache.{KeyError}
use mikrotik_bot.Profiles.{ProfileCache, init, get, place_for, set, invalidate, clear, stats}

pub record IsValid (c : ProfileCache) : Type 0 where
  pub distinct : IsDistinct c.store
  pub bounded : length c.store ≤ c.max_size

get-IsValid : (c : ProfileCache) (k : String) (now : ℕ) → IsValid c → IsValid (get c k now).1
unfolding get
get-IsValid c k now h = elim (Option-cases (Dict.get c.store k)) [
  | inl missing ↦ rw (missing, get) h
  | inr ((t, v), found) ↦ elim (Bool-cases (ltb (t + c.ttl) now)) [
    | inl stale ↦
        rw (found, stale, get)
          (record {
            distinct = pop-IsDistinct c.store k h.distinct;
            bounded = omega (arith, length-pop-le c.store k, h.bounded);
          })
    | inr fresh ↦
        rw (found, fresh, move_to_end-touch c.store k (t, v) found, get)
          (record {
            distinct = touch-IsDistinct c.store k (t, v) h.distinct;
            bounded = omega (arith, length-touch c.store k (t, v) (t, v) found, h.bounded);
          })
  ]
]

-- `set` never raises on a valid cache of positive size; it puts the entry at the end.
set_lem :
    (c : ProfileCache) (k : String) (names : List String) (now : ℕ)
    → 0 < c.max_size
    → IsValid c
    → (d : Dict String (ℕ × List String)) × (Dict.get d k ≡ none)
      × (set c k names now ≡ ok (record c { store = append d k (now, names) }))
      × IsValid (record c { store = append d k (now, names) })
unfolding set place_for
set_lem c k names now pos h = elim (Option-cases (Dict.get c.store k)) [
  | inl missing ↦
      let (d, made, small, distinct) = make_room_lem c.max_size c.store pos h.bounded h.distinct in
      let absent = get-none-make_room c.max_size c.store d k made missing in
      (
        d,
        absent,
        rw (missing, made, set_absent d k (now, names) absent, place_for, set),
        record {
          distinct = append-IsDistinct d k (now, names) absent distinct;
          bounded = omega (arith, length-append d ((k, (now, names)) ∷ []), small);
        },
      )
  | inr (x, found) ↦
      let absent = get-pop_self c.store k in
      (
        Dict.pop c.store k,
        absent,
        rw (
          found,
          move_to_end-touch c.store k x found,
          set-append (Dict.pop c.store k) k x (now, names) absent,
          place_for,
          set,
        ),
        record {
          distinct = touch-IsDistinct c.store k (now, names) h.distinct;
          bounded = omega (arith, length-touch c.store k (now, names) x found, h.bounded);
        },
      )
]

pub data Call : Type 0 where
  gets : String → ℕ → Call
  sets : String → List String → ℕ → Call
  invalidates : String → Call
  clears : Call

unfoldable pub step : ProfileCache → Call → Result KeyError ProfileCache
step c (gets k now) = ok (get c k now).1
step c (sets k names now) = set c k names now
step c (invalidates k) = ok (invalidate c k)
step c clears = ok (clear c)

unfoldable pub run : ProfileCache → List Call → Result KeyError ProfileCache
run c [] = ok c
run c (x ∷ xs) = elim (step c x) [ ok c' ↦ run c' xs | err e ↦ err e ]

abbrev pub SameSettings : ProfileCache → ProfileCache → Type 0
SameSettings c c' = (c'.max_size ≡ c.max_size) × (c'.ttl ≡ c.ttl)

step_lem :
    (c : ProfileCache) (x : Call)
    → 0 < c.max_size
    → IsValid c
    → (c' : ProfileCache) × (step c x ≡ ok c') × IsValid c' × SameSettings c c'
unfolding step invalidate clear
step_lem c (gets k now) pos h =
    ((get c k now).1, refl, get-IsValid c k now h, unfold get in ground arith)
step_lem c (sets k names now) pos h =
    let (d, absent, done, valid) = set_lem c k names now pos h in
    (record c { store = append d k (now, names) }, done, valid, (refl, refl))
step_lem c (invalidates k) pos h = (
  invalidate c k,
  refl,
  record {
    distinct = pop-IsDistinct c.store k h.distinct;
    bounded = omega (arith, length-pop-le c.store k, h.bounded);
  },
  (refl, refl),
)
step_lem c clears pos h =
    (clear c, refl, record { distinct = tt; bounded = omega arith }, (refl, refl))

run_lem :
    (c : ProfileCache) (xs : List Call)
    → 0 < c.max_size
    → IsValid c
    → (c' : ProfileCache) × (run c xs ≡ ok c') × IsValid c' × SameSettings c c'
unfolding run
run_lem c [] pos h = (c, refl, h, (refl, refl))
run_lem c (x ∷ xs) pos h =
    let (c', stepped, valid, same) = step_lem c x pos h in
    let (c'', ran, valid', same') = run_lem c' xs (rw same.0 pos) valid in
    (c'', rw (stepped, run) ran, valid', (same'.0 ∙ same.0, same'.1 ∙ same.1))

-- A new profile cache of positive size goes through every history of calls without an exception.
-- At its end it holds no router twice and at most `max_size` routers, a further `set` is accepted,
-- and a `get` of that router then returns the names exactly while `now ≤ t + ttl`.
pub profiles_total :
    (ttl max_size : ℕ) (xs : List Call) (k : String) (names : List String) (t now : ℕ)
    → 0 < max_size
    → (c c' : ProfileCache) × (run (init ttl max_size) xs ≡ ok c)
      × IsDistinct c.store
      × (length c.store ≤ max_size)
      × (set c k names t ≡ ok c')
      × ((get c' k now).0 ≡ (if leb now (t + ttl) then some names else none))
unfolding get
profiles_total ttl max_size xs k names t now pos =
    let (c, ran, valid, same) =
      run_lem (init ttl max_size) xs pos (record { distinct = tt; bounded = omega arith }) in
    let (d, absent, done, valid') = set_lem c k names t (omega (arith, same.0)) valid in
    (
      c,
      record c { store = append d k (t, names) },
      ran,
      valid.distinct,
      omega (arith, valid.bounded, same.0),
      done,
      ground (arith, get-append d k k (t, names) absent, ==_refl {K = String} k, same.1),
    )

length-filter-not {ℓ} :
    {A : Type ℓ} (p q : A → Bool) (xs : List A)
    → ((a : A) → q a ≡ not (p a))
    → length xs ≡ length (filter p xs) + length (filter q xs)
length-filter-not p q [] h = omega arith
length-filter-not p q (x ∷ xs) h = ground (arith, h x, length-filter-not p q xs h)

-- The monitoring numbers: `size` is `fresh` plus `stale`, and `stale` counts the entries that a
-- `get` at that time would throw out.
pub stats_exact :
    (c : ProfileCache) (now : ℕ)
    → ((stats c now).size ≡ (stats c now).fresh + (stats c now).stale)
      × ((stats c now).stale ≡ length (filter (λ entry. ltb (entry.1.0 + c.ttl) now) c.store))
unfolding stats
stats_exact c now =
    let split =
      length-filter-not (λ (entry : String × (ℕ × List String)). leb now (entry.1.0 + c.ttl))
        (λ entry. ltb (entry.1.0 + c.ttl) now) c.store (λ a. ground arith) in
    (omega (arith, split), omega (arith, split))
