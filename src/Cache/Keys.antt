-- ===== src/Cache/Keys.antt =====
-- core/cache.py: the monitoring view of a cache against its `get`.
use mikrotik_bot.Prelude.{
  ℕ, ◌+◌, ◌≡◌, refl, ◌∙◌, String, Option, none, some, [], ◌∷◌, arith, ltb, length, string_eq, Bool,
  false, map, filter, contains, is_some,
}
use mikrotik_bot.Dict
use mikrotik_bot.Dict.{Dict}
use mikrotik_bot.Dict.Recency.{IsDistinct}
use mikrotik_bot.Cache.{TtlCache, get, get_keys, size}

module _ {ℓ} {V : Type ℓ} (ttl now : ℕ) where
  abbrev fresh : String × (V × ℕ) → Bool
  fresh entry = ltb now (entry.1.1 + ttl)

  abbrev fresh_at : Option (V × ℕ) → Bool
  fresh_at none = false
  fresh_at (some (v, t)) = ltb now (t + ttl)

  contains-fresh :
      (d : Dict String (V × ℕ)) (k : String)
      → IsDistinct d
      → contains (map (λ entry. entry.0) (filter fresh d)) k ≡ fresh_at (Dict.get d k)
  unfolding Dict.get
  contains-fresh [] k h = refl
  contains-fresh ((j, (v, t)) ∷ d) k h =
      ground (arith, contains-fresh d k h.1, string_eq.equals_iff j k)

-- On a cache without duplicate keys: `get_keys` lists exactly the keys for which `get` at the same
-- time returns a value, and `__len__` is their number.
pub get_keys-iff-get {ℓ} :
    {V : Type ℓ} (c : TtlCache V) (k : String) (now : ℕ)
    → IsDistinct c.cache
    → (contains (get_keys c now) k ≡ is_some (get c k now).0)
      × (size c now ≡ length (get_keys c now))
unfolding get_keys size get
get_keys-iff-get c k now h = (contains-fresh c.ttl now c.cache k h ∙ ground arith, refl)
