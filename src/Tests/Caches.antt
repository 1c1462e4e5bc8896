-- ===== src/Tests/Caches.antt =====
-- core/cache.py and core/profile_cache.py on concrete histories.
use mathlib.Core.Bool.{false≢true}
use mikrotik_bot.Prelude.{
  ℕ, ◌≤◌, ◌≡◌, ◌≢◌, refl, List, [], ◌∷◌, String, some, arith, string_eq, ok, eq_iff, contains,
  is_some, length,
}
use mikrotik_bot.Cache
use mikrotik_bot.Cache.{TtlCache}
use mikrotik_bot.Cache.Invariant
use mikrotik_bot.Cache.Retention.{set_is_kept}
use mikrotik_bot.Cache.Keys.{get_keys-iff-get}
use mikrotik_bot.Dict
use mikrotik_bot.Dict.Recency.{IsDistinct}
use mikrotik_bot.Profiles.Laws

abbrev calls : List (Invariant.Call ℕ)
calls =
    Invariant.sets "a" 1 0
    ∷ Invariant.sets "b" 2 1
    ∷ Invariant.gets "a" 2
    ∷ Invariant.sets "c" 3 3
    ∷ Invariant.invalidates "b"
    ∷ []

cache_total_example :
    (c : TtlCache ℕ) × (Invariant.run (Cache.init 2 10) calls ≡ ok c)
    × IsDistinct c.cache
    × (length c.cache ≤ 2)
cache_total_example = Invariant.cache_total 2 10 calls (omega arith)

abbrev empty : TtlCache ℕ
empty = Cache.init 3 10

distinct_names : (◌≢◌ {A = String} "b" "a") × (◌≢◌ {A = String} "c" "a")
distinct_names =
    ((λ e. false≢true ((eq_iff "b" "a").1 e)), (λ e. false≢true ((eq_iff "c" "a").1 e)))

set_is_kept_example :
    (c : TtlCache ℕ) × (Invariant.run empty
        (Invariant.sets "a" 1 0 ∷ Invariant.sets "b" 2 1 ∷ Invariant.sets "c" 3 2 ∷ [])
      ≡ ok c)
    × ((Cache.get c "a" 9).0 ≡ some 1)
set_is_kept_example =
    set_is_kept empty "a" 1 0 (Invariant.sets "b" 2 1 ∷ Invariant.sets "c" 3 2 ∷ []) 9 (omega arith)
      (record { distinct = tt; bounded = omega arith }) (distinct_names.0, (distinct_names.1, tt))
      (omega arith) (omega arith)

abbrev two_entries : TtlCache ℕ
two_entries = record empty { cache = ("a", (1, 0)) ∷ ("b", (2, 5)) ∷ [] }

two_are-IsDistinct : IsDistinct two_entries.cache
unfolding Dict.get string_eq
two_are-IsDistinct = (refl, (refl, tt))

get_keys-iff-get_example :
    (contains (Cache.get_keys two_entries 12) "b" ≡ is_some (Cache.get two_entries "b" 12).0)
    × (Cache.size two_entries 12 ≡ length (Cache.get_keys two_entries 12))
get_keys-iff-get_example = get_keys-iff-get two_entries "b" 12 two_are-IsDistinct

abbrev profile_calls : List Laws.Call
profile_calls = Laws.sets "r1" ("default" ∷ []) 0 ∷ Laws.sets "r2" [] 1 ∷ Laws.gets "r1" 2 ∷ []
