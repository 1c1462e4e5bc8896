-- ===== src/Action/Cached.antt =====
-- A TTL cache in the state of an action: what the managers read through, keep and forget.
use mikrotik_bot.Prelude.{ℕ, ◌≡◌, refl, ap, String, string_eq, Option, none, some, ok, err}
use mikrotik_bot.Cache
use mikrotik_bot.Cache.{TtlCache}
use mikrotik_bot.Dict
use mikrotik_bot.Dict.{get-pop_self}
use mikrotik_bot.Action.{unforeseen, Action, give, ◌>>=◌}

get-none :
    {V : Type 0} (c : TtlCache V) (k : String) (now : ℕ)
    → Dict.get c.cache k ≡ none
    → (Cache.get c k now).0 ≡ none
unfolding Cache.get
get-none c k now h = rw (h, Cache.get) refl

module _ {S V : Type 0} (cache : S → TtlCache V) (put : S → TtlCache V → S)
    (clock : S → ℕ × S) where
  -- cache.get(k)
  unfoldable pub look : String → Action S (Option V)
  look k s =
      let now = clock s in
      let found = Cache.get (cache now.1) k now.0 in (ok found.0, put now.1 found.1)

  -- cache.set(k, v)
  unfoldable pub keep : String → V → Action S (Unit {0})
  keep k v s =
      let now = clock s in
      elim (Cache.set (cache now.1) k v now.0) [
        | ok c ↦ (ok tt, put now.1 c)
        | err e ↦ (err unforeseen, now.1)
      ]

  -- cache.invalidate(k)
  unfoldable pub forget : String → S → S
  forget k s = put s (Cache.invalidate (cache s) k)

  abbrev pub or_fetch : Action S V → Option V → Action S V
  or_fetch fetch (some v) = give v
  or_fetch fetch none = fetch

  -- the cached value, or the one that is fetched
  unfoldable pub read_through : String → Action S V → Action S V
  read_through k fetch = look k >>= or_fetch fetch

  -- a key that is not in the cache is not found, at whatever time
  pub look-none :
      (k : String) (s : S) → Dict.get (cache (clock s).1).cache k ≡ none → (look k s).0 ≡ ok none
  unfolding look
  look-none k s h = ap ok (get-none _ k _ h)
