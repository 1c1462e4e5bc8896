-- ===== src/Cache.antt =====
-- `TTLCache` of core/cache.py. Times are ticks of `time.time()`, passed to each call; the test
-- `now - timestamp < ttl` is written `now < timestamp + ttl`.
pub mod Invariant
pub mod Retention
pub mod Keys
use mikrotik_bot.Prelude.{
  ℕ, ◌+◌, String, Option, none, some, List, [], map, ltb, if◌then◌else◌, filter, length, Result, ok,
  err, string_eq,
}
use mikrotik_bot.Dict
use mikrotik_bot.Dict.{Dict}
use mikrotik_bot.Dict.Recency.{move_to_end, make_room}

pub record TtlCache {ℓ} (V : Type ℓ) : Type ℓ where
  pub cache : Dict String (V × ℕ)
  pub max_size : ℕ
  pub ttl : ℕ

-- raised by `popitem` on an empty dictionary
pub data KeyError : Type 0 where
  key_error : KeyError

module _ {ℓ} {V : Type ℓ} where
  abbrev pub init : ℕ → ℕ → TtlCache V
  init max_size ttl = record { cache = []; max_size = max_size; ttl = ttl }

  unfoldable pub get : TtlCache V → String → ℕ → Option V × TtlCache V
  get c key now = elim (Dict.get c.cache key) [
    | none ↦ (none, c)
    | some (value, timestamp) ↦
        if ltb now (timestamp + c.ttl)
        then (some value, record c { cache = move_to_end c.cache key })
        else (none, record c { cache = Dict.pop c.cache key })
  ]

  -- the dictionary after the first `if` of `set`
  pub place_for : TtlCache V → String → Option (Dict String (V × ℕ))
  place_for c key = elim (Dict.get c.cache key) [
    | none ↦ make_room c.max_size c.cache
    | some entry ↦ some (Dict.pop c.cache key)
  ]

  unfoldable pub set : TtlCache V → String → V → ℕ → Result KeyError (TtlCache V)
  unfolding place_for
  set c key value now = elim (place_for c key) [
    | none ↦ err key_error
    | some d ↦ ok (record c { cache = Dict.set d key (value, now) })
  ]

  unfoldable pub invalidate : TtlCache V → String → TtlCache V
  invalidate c key = record c { cache = Dict.pop c.cache key }

  unfoldable pub clear : TtlCache V → TtlCache V
  clear c = record c { cache = [] }

  unfoldable pub get_keys : TtlCache V → ℕ → List String
  get_keys c now = map (λ entry. entry.0) (filter (λ entry. ltb now (entry.1.1 + c.ttl)) c.cache)

  -- __len__
  unfoldable pub size : TtlCache V → ℕ → ℕ
  size c now = length (
      map (λ (entry : String × (V × ℕ)). entry.0)
        (filter (λ entry. ltb now (entry.1.1 + c.ttl)) c.cache))
