-- ===== src/Callbacks.antt =====
-- utils/callback_utils.py, `is_duplicate_callback`. Times are milliseconds. The key stands for
-- `f"{user_id}:{callback_data}"`; a call without callback data changes nothing and is left out.
pub mod Windows
use mikrotik_bot.Prelude.{
  ℕ, ◌+◌, String, Bool, true, false, List, [], ◌∷◌, map, filter, ltb, if◌then◌else◌, get_or,
  string_eq,
}
use mikrotik_bot.Dict.{Dict, get, set, pop}

abbrev pub dedup_window : ℕ
dedup_window = 1000

abbrev pub dedup_max_age : ℕ
dedup_max_age = 60000

abbrev pub dedup_cleanup_interval : ℕ
dedup_cleanup_interval = 30000

-- `_CALLBACK_DEDUP` and `_last_cleanup`
pub record Callbacks : Type 0 where
  pub seen : Dict String ℕ
  pub last_cleanup : ℕ

abbrev pub init : Callbacks
init = record { seen = []; last_cleanup = 0 }

-- for k in keys: d.pop(k, None)
unfoldable pub forget_all : Dict String ℕ → List String → Dict String ℕ
forget_all d [] = d
forget_all d (k ∷ ks) = forget_all (pop d k) ks

-- now - t > dedup_max_age
abbrev pub is_old : Dict String ℕ → ℕ → String → Bool
is_old d now k = ltb (get_or (get d k) 0 + dedup_max_age) now

unfoldable pub forget_old : Callbacks → ℕ → Callbacks
unfolding forget_all
forget_old c now =
    if ltb (c.last_cleanup + dedup_cleanup_interval) now
    then record {
      seen = forget_all c.seen (filter (is_old c.seen now) (map (λ entry. entry.0) c.seen));
      last_cleanup = now;
    }
    else c

unfoldable pub is_duplicate_callback : Callbacks → String → ℕ → Bool × Callbacks
unfolding forget_old
is_duplicate_callback c key now =
    if ltb now (get_or (get c.seen key) 0 + dedup_window)
    then (true, c)
    else (false, forget_old (record c { seen = set c.seen key now }) now)
