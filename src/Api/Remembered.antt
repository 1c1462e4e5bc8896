-- ===== src/Api/Remembered.antt =====
-- core/mikrotik_api.py: what `get_version` answers and remembers.
use Prim.Native.String.{[], ◌∷◌}
use mikrotik_bot.Prelude.{
  ℕ, ◌+◌, ◌≡◌, ◌≢◌, refl, sym, subst, String, string_eq, true, some, List, [], ◌∷◌, Result, ok, err,
  ltb, get_or, Bool-cases, Option-cases, Result-cases, inl, inr, arith, ◌⊎◌,
}
use mikrotik_bot.Dict
use mikrotik_bot.Dict.{get-set_self}
use mikrotik_bot.Dict.Recency.{get-touch}
use mikrotik_bot.Cache
use mikrotik_bot.Cache.{TtlCache, place_for}
use mikrotik_bot.Cache.Invariant.{get_hit}
use mikrotik_bot.Action.{Fault, Action, give, recover, try, proceed, ◌>>=◌, ◌>>◌}
use mikrotik_bot.Client.{Row, is_text}
use mikrotik_bot.Pool.{ConnectionPool}
use mikrotik_bot.Pool.Closing
use mikrotik_bot.Api.{
  Gateway, State, set_pool, asks_pool, stored, execute_long, version_of, note_version,
  version_or_fetched, get_version, invalidate_version,
}

set-found :
    (c c' : TtlCache String) (k version : String) (now : ℕ)
    → Cache.set c k version now ≡ ok c'
    → Dict.get c'.cache k ≡ some (version, now)
unfolding Cache.set
set-found c c' k version now h = elim (Option-cases (place_for c k)) [
  | inl full ↦ absurd (ground arith)
  | inr (d, made) ↦ ground (arith, get-set_self d k (version, now))
]

not_text : (v : String) → v ≡ "" → ¬ (is_text v ≡ true)
unfolding string_eq
not_text v blank h =
    let e : is_text "" ≡ true = subst (λ w. is_text w ≡ true) blank h in absurd (cc)

-- a text that a cache gives is in it, before and after
get-found :
    (c : TtlCache String) (k : String) (now : ℕ)
    → is_text (get_or (Cache.get c k now).0 "") ≡ true
    → (t : ℕ) × (Dict.get c.cache k ≡ some (get_or (Cache.get c k now).0 "", t))
      × (Dict.get (Cache.get c k now).1.cache k ≡ some (get_or (Cache.get c k now).0 "", t))
unfolding Cache.get
get-found c k now h = elim (Option-cases (Dict.get c.cache k)) [
  | inl missing ↦
      let blank : get_or (Cache.get c k now).0 "" ≡ "" = rw (missing, Cache.get) refl in
      absurd (not_text _ blank h)
  | inr ((v, t), found) ↦ elim (Bool-cases (ltb now (t + c.ttl))) [
    | inl fresh ↦
        rw (get_hit c k v t now found fresh)
          (t, found, ground (arith, get-touch c.cache k (v, t) k, string_eq.equals_iff k k))
    | inr stale ↦
        let blank : get_or (Cache.get c k now).0 "" ≡ "" = rw (found, stale, Cache.get) refl in
        absurd (not_text _ blank h)
  ]
]

module _ {Api Info W : Type 0} (gateway : Gateway Api Info W) (k : String) where
  -- the pool's cache has the version
  abbrev pub Remembers : State Api W → String → ℕ → Type 0
  Remembers s version t = Dict.get s.mikrotik.pool.router_versions.cache k ≡ some (version, t)

  set_version-Remembers :
      (s : State Api W) (p : ConnectionPool Api) (version : String) (now : ℕ)
      → Closing.set_version s.mikrotik.pool k version now ≡ ok p
      → Remembers (set_pool gateway s p) version now
  unfolding Closing.set_version
  set_version-Remembers s p version now h =
      elim (Result-cases (Cache.set s.mikrotik.pool.router_versions k version now)) [
        | inl (c, kept) ↦ ground (arith, set-found _ c k version now kept)
        | inr (e, failed) ↦ absurd (ground arith)
      ]

  -- what a version that is not unknown comes from
  abbrev pub FromRouter : String → State Api W → Type 0
  FromRouter version s =
      (row : Row) × (rows : List Row) × ((execute_long gateway k "system/resource/print" [] s).0
        ≡ ok (row ∷ rows))
      × (version ≡ version_of gateway k row)

  IsAnswer : String → Result Fault (List Row) → Result Fault String × State Api W → Type 0
  IsAnswer version asked (r, s) =
      r ≡ ok version
      → version ≢ "unknown"
      → ((t : ℕ) × Remembers s version t)
        × (row : Row) × (rows : List Row) × (asked ≡ ok (row ∷ rows))
        × (version ≡ version_of gateway k row)

  handler : Fault → Action (State Api W) String
  handler e = invalidate_version gateway k >> give "unknown"

  noted :
      (version : String) (row : Row) (rows : List Row) (s : State Api W) (now : ℕ)
      (r : Result Cache.KeyError (ConnectionPool Api))
      → r ≡ Closing.set_version s.mikrotik.pool k (version_of gateway k row) now
      → IsAnswer version
          (ok (row ∷ rows))
          (recover handler (proceed (λ _. give (version_of gateway k row)) (stored gateway s r)))
  unfolding handler IsAnswer ◌>>◌
  noted version row rows s now (ok p) made h known =
      let same : version ≡ version_of gateway k row = ground arith in
      (
        (
          now,
          subst (λ v. Remembers (set_pool gateway s p) v now) (sym same)
              (set_version-Remembers s p (version_of gateway k row) now (sym made)),
        ),
        row,
        rows,
        refl,
        same,
      )
  noted version row rows s now (err e) made h known = absurd (known (cc))

  answered :
      (version : String) (r : Result Fault (List Row) × State Api W)
      → IsAnswer version r.0 (recover handler (proceed (note_version gateway k) r))
  unfolding handler IsAnswer note_version ◌>>◌
  answered version (err e, s) = λ h known. absurd (known (cc))
  answered version (ok [], s) = λ h known. absurd (known (cc))
  answered version (ok (row ∷ rows), s) =
      noted version row rows (record s { world = (gateway.time s.world).1 })
        (gateway.time s.world).0
        (Closing.set_version s.mikrotik.pool k (version_of gateway k row) (gateway.time s.world).0)
        refl

  Answers : String → String → State Api W → State Api W → Result Fault String × State Api W → Type 0
  Answers cached version s asked (r, after) =
      r ≡ ok version
      → version ≢ "unknown"
      → ((t : ℕ) × Remembers after version t)
        × (((t : ℕ) × Remembers s version t) ⊎ FromRouter version asked)

  Answers-given :
      (s : State Api W) (version : String)
      → let asked = asks_pool gateway (λ p. Closing.get_version p k) s in
        let cached = (Closing.get_version s.mikrotik.pool k (gateway.time s.world).0).0 in
        Answers cached version s asked.1 (version_or_fetched gateway k cached asked.1)
  unfolding Answers version_or_fetched Closing.get_version IsAnswer try handler ◌>>=◌
  Answers-given s version =
      let now = (gateway.time s.world).0 in
      let versions = s.mikrotik.pool.router_versions in
      let cached = get_or (Cache.get versions k now).0 "" in
      let asked = (asks_pool gateway (λ p. Closing.get_version p k) s).1 in
      elim (Bool-cases (is_text cached)) [
        | inl there ↦
            let (t, before, after) = get-found versions k now there in
            rw there (λ h known.
              let same : cached ≡ version = ground arith in
              (
                (t, subst (λ v. Remembers asked v t) same after),
                inl (t, subst (λ v. Remembers s v t) same before),
              ))
        | inr absent ↦ rw absent (λ h known.
            let (kept, row, rows, read, same) =
              answered version (execute_long gateway k "system/resource/print" [] asked) h known in
            (kept, inr (row, rows, read, same)))
      ]

  -- A version that `get_version` answers, other than `unknown`, is in the pool's cache afterwards;
  -- and it was in the cache, or it is that of the first row which the router answered.
  pub get_version_answers :
      (s : State Api W) (version : String)
      → (get_version gateway k s).0 ≡ ok version
      → version ≢ "unknown"
      → ((t : ℕ) × Remembers (get_version gateway k s).1 version t)
        × (((t : ℕ) × Remembers s version t)
            ⊎ FromRouter version (asks_pool gateway (λ p. Closing.get_version p k) s).1)
  unfolding get_version Answers ◌>>=◌
  get_version_answers s version h known = Answers-given s version h known
