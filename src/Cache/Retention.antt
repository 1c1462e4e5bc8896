-- ===== src/Cache/Retention.antt =====
-- core/cache.py: what a cache still holds after other calls, and what it reports as held.
use mikrotik_bot.Prelude.{
  ℕ, ◌+◌, ◌≤◌, ◌<◌, ◌≡◌, ◌≢◌, refl, ◌∙◌, sym, ap, String, Option, some, List, [], ◌∷◌, arith, ltb,
  length, ok, string_eq, Option-cases, Bool-cases, inl, ◌==◌, beq_of_ne, inr, All, lt→ltb,
  eq_of_beq, ne_of_beq, subst,
}
use mikrotik_bot.Dict
use mikrotik_bot.Dict.{Dict, get-pop_ne, ==_refl}
use mikrotik_bot.Dict.Recency.{
  rank, append, touch, get-touch, rank-touch, rank-touch_self, get-append, rank-append,
  rank-append_self, rank-pop-le, get-make_room,
}
use mikrotik_bot.Cache.{TtlCache, get, place_for, invalidate}
use mikrotik_bot.Cache.Invariant.{
  IsValid, get_hit, set_lem, step_lem, Call, gets, sets, invalidates, clears, step, run,
}

module _ {ℓ} {V : Type ℓ} where
  -- The entry of `k`, with at most `n` entries used after it.
  pub record Holds (c : TtlCache V) (k : String) (v : V) (t n : ℕ) : Type ℓ where
    pub found : Dict.get c.cache k ≡ some (v, t)
    pub near : rank c.cache k ≤ n

  -- calls that neither replace the entry of `k` nor remove it, nor look it up when it is stale
  abbrev pub Spares : String → ℕ → Call V → Type 0
  Spares k limit (gets j now) = j ≡ k → now < limit
  Spares k limit (sets j v now) = j ≢ k
  Spares k limit (invalidates j) = j ≢ k
  Spares k limit clears = ⊥

  place_for-near :
      (c : TtlCache V) (d : Dict String (V × ℕ)) (j k : String)
      → j ≢ k
      → place_for c j ≡ some d
      → rank c.cache k + 1 < c.max_size
      → (Dict.get d k ≡ Dict.get c.cache k) × (rank d k ≤ rank c.cache k)
  unfolding place_for
  place_for-near c d j k other place far = elim (Option-cases (Dict.get c.cache j)) [
    | inl missing ↦
        let (same, rank_same) =
          get-make_room c.max_size c.cache d k (rw (missing, place_for) at place) far in
        (same, omega arith)
    | inr (x, found) ↦
        let popped : Dict.pop c.cache j ≡ d = ground arith in
        rw (← popped) (get-pop_ne c.cache j k other, rank-pop-le c.cache j k other)
  ]

  touch-Holds :
      (c : TtlCache V) (j k : String) (v : V) (x : V × ℕ) (t n : ℕ)
      → j ≢ k
      → Holds c k v t n
      → Holds (record c { cache = touch c.cache j x }) k v t (n + 1)
  touch-Holds c j k v x t n other h = record {
    found = get-touch c.cache j x k ∙ rw (beq_of_ne other) h.found;
    near = omega (arith, rank-touch c.cache j x k (v, t) other h.found, h.near);
  }

  pop-Holds :
      (c : TtlCache V) (j k : String) (v : V) (t n : ℕ)
      → j ≢ k
      → Holds c k v t n
      → Holds (record c { cache = Dict.pop c.cache j }) k v t (n + 1)
  pop-Holds c j k v t n other h = record {
    found = get-pop_ne c.cache j k other ∙ h.found;
    near = omega (arith, rank-pop-le c.cache j k other, h.near);
  }

  get-Holds_self :
      (c : TtlCache V) (k : String) (v : V) (t n now : ℕ)
      → now < t + c.ttl
      → Holds c k v t n
      → Holds (get c k now).1 k v t (n + 1)
  get-Holds_self c k v t n now fresh h =
      rw (get_hit c k v t now h.found (lt→ltb _ _ fresh)) (record {
        found = get-touch c.cache k (v, t) k ∙ rw (==_refl {K = String} k);
        near = omega (arith, rank-touch_self c.cache k (v, t));
      })

  get-Holds_other :
      (c : TtlCache V) (j k : String) (v : V) (t n now : ℕ)
      → j ≢ k
      → Holds c k v t n
      → Holds (get c j now).1 k v t (n + 1)
  unfolding get
  get-Holds_other c j k v t n now other h = elim (Option-cases (Dict.get c.cache j)) [
    | inl missing ↦ rw (missing, get) (record { found = h.found; near = omega (arith, h.near) })
    | inr ((u, s), found) ↦ elim (Bool-cases (ltb now (s + c.ttl))) [
      | inl hit ↦ rw (get_hit c j u s now found hit) (touch-Holds c j k v (u, s) t n other h)
      | inr stale ↦ rw (found, stale, get) (pop-Holds c j k v t n other h)
    ]
  ]

  get-Holds :
      (c : TtlCache V) (j k : String) (v : V) (t n now : ℕ)
      → (j ≡ k → now < t + c.ttl)
      → Holds c k v t n
      → Holds (get c j now).1 k v t (n + 1)
  get-Holds c j k v t n now fresh h = elim (Bool-cases (j == k)) [
    | inl same ↦
        let at_k = eq_of_beq same in
        subst (λ i. Holds (get c i now).1 k v t (n + 1)) (sym at_k)
          (get-Holds_self c k v t n now (fresh at_k) h)
    | inr differs ↦ get-Holds_other c j k v t n now (ne_of_beq differs) h
  ]

  step-Holds :
      (c c' : TtlCache V) (x : Call V) (k : String) (v : V) (t n : ℕ)
      → 0 < c.max_size
      → IsValid c
      → step c x ≡ ok c'
      → Spares k (t + c.ttl) x
      → n + 1 < c.max_size
      → Holds c k v t n
      → Holds c' k v t (n + 1)
  unfolding step
  step-Holds c c' (gets j now) k v t n pos valid stepped spared room h =
      let same : (get c j now).1 ≡ c' = cc in rw (← same) (get-Holds c j k v t n now spared h)
  step-Holds c c' (sets j u now) k v t n pos valid stepped spared room h =
      let (d, place, absent, done, _) = set_lem c j u now pos valid in
      let (kept, nearer) = place_for-near c d j k spared place (omega (arith, h.near)) in
      let same : record c { cache = append d j (u, now) } ≡ c' = cc in
      rw (← same) (record {
        found = get-append d j k (u, now) absent ∙ rw (beq_of_ne spared) (kept ∙ h.found);
        near = omega (arith, rank-append d j k (u, now) (v, t) (kept ∙ h.found), h.near);
      })
  step-Holds c c' (invalidates j) k v t n pos valid stepped spared room h =
      let same : invalidate c j ≡ c' = cc in
      rw (← same) (unfold invalidate in pop-Holds c j k v t n spared h)
  step-Holds c c' clears k v t n pos valid stepped spared room h = absurd spared

  run-Holds :
      (c : TtlCache V) (xs : List (Call V)) (k : String) (v : V) (t n : ℕ)
      → 0 < c.max_size
      → IsValid c
      → All (Spares k (t + c.ttl)) xs
      → n + length xs < c.max_size
      → Holds c k v t n
      → (c' : TtlCache V) × (run c xs ≡ ok c') × (c'.ttl ≡ c.ttl) × Holds c' k v t (n + length xs)
  unfolding run
  run-Holds c [] k v t n pos valid spared room h =
      (c, refl, refl, record { found = h.found; near = omega (arith, h.near) })
  run-Holds c (x ∷ xs) k v t n pos valid spared room h =
      let (c', stepped, valid', same) = step_lem c x pos valid in
      let h' = step-Holds c c' x k v t n pos valid stepped spared.0 (omega arith) h in
      let (c'', ran, ttl, h'') =
        run-Holds c' xs k v t (n + 1) (omega (arith, same.0)) valid'
          (subst (λ o. All (Spares k (t + o)) xs) (sym same.1) spared.1) (omega (arith, same.0))
          h' in
      (
        c'',
        rw (stepped, run) ran,
        ttl ∙ same.1,
        record { found = h''.found; near = omega (arith, h''.near) },
      )

  -- On a valid cache of positive size: a value that was set under `k` at time `t` is still returned
  -- by a `get` before `t + ttl`, after any fewer than `max_size` further calls that do not
  -- themselves set or invalidate `k`, clear the cache, or look `k` up when it is stale.
  pub set_is_kept :
      (c : TtlCache V) (k : String) (v : V) (t : ℕ) (xs : List (Call V)) (now : ℕ)
      → 0 < c.max_size
      → IsValid c
      → All (Spares k (t + c.ttl)) xs
      → length xs < c.max_size
      → now < t + c.ttl
      → (c' : TtlCache V) × (run c (sets k v t ∷ xs) ≡ ok c') × ((get c' k now).0 ≡ some v)
  unfolding run step
  set_is_kept c k v t xs now pos valid spared few fresh =
      let (d, place, absent, done, valid') = set_lem c k v t pos valid in
      let held : Holds (record c { cache = append d k (v, t) }) k v t 0 = record {
        found = get-append d k k (v, t) absent ∙ rw (==_refl {K = String} k);
        near = omega (arith, rank-append_self d k (v, t) absent);
      } in
      let (c', ran, ttl, h) =
        run-Holds (record c { cache = append d k (v, t) }) xs k v t 0 pos valid' spared
          (omega arith) held in
      (
        c',
        rw (done, run, step) ran,
        ap (λ (r : Option V × TtlCache V). r.0)
            (get_hit c' k v t now h.found (lt→ltb _ _ (omega (arith, ttl)))),
      )
