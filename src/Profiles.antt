-- ===== src/Profiles.antt =====
-- `ProfileCache` of core/profile_cache.py, over the lists of profile names of the routers. Times
-- are ticks of `time.time()`; `now - ts > ttl` is written `ts + ttl < now`.
pub mod Laws
use mikrotik_bot.Prelude.{
  ℕ, ◌+◌, ◌-◌, String, Option, none, some, List, [], ltb, leb, if◌then◌else◌, filter, length,
  Result, ok, err, string_eq,
}
use mikrotik_bot.Dict
use mikrotik_bot.Dict.{Dict}
use mikrotik_bot.Dict.Recency.{move_to_end, make_room}
use mikrotik_bot.Cache.{KeyError, key_error}

pub record ProfileCache : Type 0 where
  pub store : Dict String (ℕ × List String)
  pub max_size : ℕ
  pub ttl : ℕ

abbrev pub init : ℕ → ℕ → ProfileCache
init ttl max_size = record { store = []; max_size = max_size; ttl = ttl }

unfoldable pub get : ProfileCache → String → ℕ → Option (List String) × ProfileCache
get c k now = elim (Dict.get c.store k) [
  | none ↦ (none, c)
  | some (ts, names) ↦
      if ltb (ts + c.ttl) now
      then (none, record c { store = Dict.pop c.store k })
      else (some names, record c { store = move_to_end c.store k })
]

-- the dictionary before the assignment of `set`
pub place_for : ProfileCache → String → Option (Dict String (ℕ × List String))
place_for c k = elim (Dict.get c.store k) [
  | none ↦ make_room c.max_size c.store
  | some entry ↦ some (move_to_end c.store k)
]

unfoldable pub set : ProfileCache → String → List String → ℕ → Result KeyError ProfileCache
unfolding place_for
set c k names now = elim (place_for c k) [
  | none ↦ err key_error
  | some d ↦ ok (record c { store = Dict.set d k (now, names) })
]

unfoldable pub invalidate : ProfileCache → String → ProfileCache
invalidate c k = record c { store = Dict.pop c.store k }

unfoldable pub clear : ProfileCache → ProfileCache
clear c = record c { store = [] }

pub record Stats : Type 0 where
  pub size : ℕ
  pub fresh : ℕ
  pub stale : ℕ
  pub ttl_seconds : ℕ

unfoldable pub stats : ProfileCache → ℕ → Stats
stats c now =
    let fresh = length (filter (λ entry. leb now (entry.1.0 + c.ttl)) c.store) in
    record {
      size = length c.store;
      fresh = fresh;
      stale = length c.store - fresh;
      ttl_seconds = c.ttl;
    }
