-- ===== src/Cache/Invariant.antt =====
-- core/cache.py: the calls on a cache as a history, and what every call keeps.
use mikrotik_bot.Prelude.{
  ℕ, ◌+◌, ◌≤◌, ◌<◌, ◌≡◌, refl, ◌∙◌, String, none, some, List, [], ◌∷◌, arith, ltb, length,
  length-append, Result, ok, err, string_eq, Option-cases, Bool-cases, inl, inr, true,
}
use mikrotik_bot.Dict
use mikrotik_bot.Dict.{Dict, get-pop_self}
use mikrotik_bot.Dict.Recency.{
  IsDistinct, append, touch, make_room_lem, get-none-make_room, pop-IsDistinct, append-IsDistinct,
  length-pop, length-pop-le, touch-IsDistinct, length-touch, set_absent, move_to_end-touch,
}
use mikrotik_bot.Cache.{TtlCache, KeyError, init, get, place_for, set, invalidate, clear}

module _ {ℓ} {V : Type ℓ} where
  -- No key stands twice, and the bound is kept.
  pub record IsValid (c : TtlCache V) : Type ℓ where
    pub distinct : IsDistinct c.cache
    pub bounded : length c.cache ≤ c.max_size

  pub get_hit :
      (c : TtlCache V) (k : String) (v : V) (t now : ℕ)
      → Dict.get c.cache k ≡ some (v, t)
      → ltb now (t + c.ttl) ≡ true
      → get c k now ≡ (some v, record c { cache = touch c.cache k (v, t) })
  unfolding get
  get_hit c k v t now h fresh = ground (arith, move_to_end-touch c.cache k (v, t))

  pub get-IsValid : (c : TtlCache V) (k : String) (now : ℕ) → IsValid c → IsValid (get c k now).1
  unfolding get
  get-IsValid c k now h = elim (Option-cases (Dict.get c.cache k)) [
    | inl missing ↦ rw (missing, get) h
    | inr ((v, t), found) ↦ elim (Bool-cases (ltb now (t + c.ttl))) [
      | inl fresh ↦ rw (get_hit c k v t now found fresh) (record {
        distinct = touch-IsDistinct c.cache k (v, t) h.distinct;
        bounded = omega (arith, length-touch c.cache k (v, t) (v, t) found, h.bounded);
      })
      | inr stale ↦
          rw (found, stale, get)
            (record {
              distinct = pop-IsDistinct c.cache k h.distinct;
              bounded = omega (arith, length-pop-le c.cache k, h.bounded);
            })
    ]
  ]

  pub place_for_lem :
      (c : TtlCache V) (k : String)
      → 0 < c.max_size
      → IsValid c
      → (d : Dict String (V × ℕ)) × (place_for c k ≡ some d)
        × (Dict.get d k ≡ none)
        × (length d < c.max_size)
        × IsDistinct d
  unfolding place_for
  place_for_lem c k pos h = elim (Option-cases (Dict.get c.cache k)) [
    | inl missing ↦
        let (d, made, small, distinct) =
          make_room_lem c.max_size c.cache pos h.bounded h.distinct in
        (
          d,
          rw (missing, place_for) made,
          get-none-make_room c.max_size c.cache d k made missing,
          small,
          distinct,
        )
    | inr (x, found) ↦ (
      Dict.pop c.cache k,
      rw (found, place_for),
      get-pop_self c.cache k,
      omega (arith, length-pop c.cache k x found, h.bounded),
      pop-IsDistinct c.cache k h.distinct,
    )
  ]

  -- `set` never raises on a valid cache of positive size, and appends the entry.
  pub set_lem :
      (c : TtlCache V) (k : String) (v : V) (now : ℕ)
      → 0 < c.max_size
      → IsValid c
      → (d : Dict String (V × ℕ)) × (place_for c k ≡ some d)
        × (Dict.get d k ≡ none)
        × (set c k v now ≡ ok (record c { cache = append d k (v, now) }))
        × IsValid (record c { cache = append d k (v, now) })
  unfolding set
  set_lem c k v now pos h =
      let (d, place, absent, small, distinct) = place_for_lem c k pos h in
      (
        d,
        place,
        absent,
        rw (place, set, set_absent d k (v, now) absent),
        record {
          distinct = append-IsDistinct d k (v, now) absent distinct;
          bounded = omega (arith, length-append d ((k, (v, now)) ∷ []), small);
        },
      )

  pub invalidate-IsValid : (c : TtlCache V) (k : String) → IsValid c → IsValid (invalidate c k)
  unfolding invalidate
  invalidate-IsValid c k h = record {
    distinct = pop-IsDistinct c.cache k h.distinct;
    bounded = omega (arith, length-pop-le c.cache k, h.bounded);
  }

  pub clear-IsValid : (c : TtlCache V) → IsValid (clear c)
  unfolding clear
  clear-IsValid c = record { distinct = tt; bounded = omega arith }

pub data Call {ℓ} (V : Type ℓ) : Type ℓ where
  gets : String → ℕ → Call V
  sets : String → V → ℕ → Call V
  invalidates : String → Call V
  clears : Call V

module _ {ℓ} {V : Type ℓ} where
  unfoldable pub step : TtlCache V → Call V → Result KeyError (TtlCache V)
  step c (gets k now) = ok (get c k now).1
  step c (sets k v now) = set c k v now
  step c (invalidates k) = ok (invalidate c k)
  step c clears = ok (clear c)

  unfoldable pub run : TtlCache V → List (Call V) → Result KeyError (TtlCache V)
  run c [] = ok c
  run c (x ∷ xs) = elim (step c x) [ ok c' ↦ run c' xs | err e ↦ err e ]

  abbrev pub SameSettings : TtlCache V → TtlCache V → Type 0
  SameSettings c c' = (c'.max_size ≡ c.max_size) × (c'.ttl ≡ c.ttl)

  pub step_lem :
      (c : TtlCache V) (x : Call V)
      → 0 < c.max_size
      → IsValid c
      → (c' : TtlCache V) × (step c x ≡ ok c') × IsValid c' × SameSettings c c'
  unfolding step
  step_lem c (gets k now) pos h =
      ((get c k now).1, refl, get-IsValid c k now h, unfold get in ground arith)
  step_lem c (sets k v now) pos h =
      let (d, _, _, done, valid) = set_lem c k v now pos h in
      (record c { cache = append d k (v, now) }, done, valid, (refl, refl))
  step_lem c (invalidates k) pos h =
      (invalidate c k, refl, invalidate-IsValid c k h, unfold invalidate in (refl, refl))
  step_lem c clears pos h = (clear c, refl, clear-IsValid c, unfold clear in (refl, refl))

  pub run_lem :
      (c : TtlCache V) (xs : List (Call V))
      → 0 < c.max_size
      → IsValid c
      → (c' : TtlCache V) × (run c xs ≡ ok c') × IsValid c' × SameSettings c c'
  unfolding run
  run_lem c [] pos h = (c, refl, h, (refl, refl))
  run_lem c (x ∷ xs) pos h =
      let (c', stepped, valid, same) = step_lem c x pos h in
      let (c'', ran, valid', same') = run_lem c' xs (rw same.0 pos) valid in
      (c'', rw (stepped, run) ran, valid', (same'.0 ∙ same.0, same'.1 ∙ same.1))

  -- A new cache of positive size goes through every history of calls without an exception, holds
  -- no key twice at its end, and never more entries than `max_size`.
  pub cache_total :
      (max_size ttl : ℕ) (xs : List (Call V))
      → 0 < max_size
      → (c : TtlCache V) × (run (init max_size ttl) xs ≡ ok c)
        × IsDistinct c.cache
        × (length c.cache ≤ max_size)
  cache_total max_size ttl xs pos =
      let (c, ran, valid, same) =
        run_lem (init max_size ttl) xs pos (record { distinct = tt; bounded = omega arith }) in
      (c, ran, valid.distinct, omega (arith, valid.bounded, same.0))
