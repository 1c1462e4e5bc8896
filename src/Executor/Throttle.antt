-- ===== src/Executor/Throttle.antt =====
-- `_throttle` of core/mikrotik_api.py over any sequence of calls, in the order in which they take
-- its lock.
use mikrotik_bot.Prelude.{
  ℕ, ◌+◌, ◌≡◌, ◌≢◌, sym, max, String, List, [], ◌∷◌, arith, if◌then◌else◌, ◌==◌, get_or, string_eq,
  Bool-cases, eq_of_beq, ne_of_beq, inl, inr, subst, ap,
}
use mikrotik_bot.Dict.{Dict, get, get-set_self, get-set_ne}
use mikrotik_bot.Executor.{throttle, min_interval}

-- The calls for router `k`: when each was made, and when it goes on after its sleep.
unfoldable pub passes : String → Dict String ℕ → List (String × ℕ) → List (ℕ × ℕ)
passes k last [] = []
passes k last ((j, now) ∷ calls) =
    let rest = passes k (throttle last j now).1 calls in
    if j == k then (now, now + (throttle last j now).0) ∷ rest else rest

-- Each call goes on at once, or `min_interval` after the one before, whichever is later.
unfoldable pub Spaced : ℕ → List (ℕ × ℕ) → Type 0
Spaced before [] = Unit
Spaced before ((now, passed) ∷ rest) =
    (passed ≡ max now (before + min_interval)) × Spaced passed rest

passed_at :
    (last : Dict String ℕ) (k : String) (now : ℕ)
    → now + (throttle last k now).0 ≡ max now (get_or (get last k) 0 + min_interval)
unfolding throttle
passed_at last k now = omega arith

throttle_keeps :
    (last : Dict String ℕ) (j k : String) (now : ℕ)
    → j ≢ k
    → get (throttle last j now).1 k ≡ get last k
unfolding throttle
throttle_keeps last j k now other = get-set_ne last j k _ other

throttle_sets :
    (last : Dict String ℕ) (k : String) (now : ℕ)
    → get_or (get (throttle last k now).1 k) 0 ≡ now + (throttle last k now).0
unfolding throttle
throttle_sets last k now = ap (λ o. get_or o 0) (get-set_self last k _)

-- Whatever calls other routers make in between and whatever the clock reads: each call for a router
-- goes on at the later of its own time and 100 ms after the previous call for that router went on.
pub throttle-Spaced :
    (last : Dict String ℕ) (k : String) (calls : List (String × ℕ))
    → Spaced (get_or (get last k) 0) (passes k last calls)
unfolding Spaced passes
throttle-Spaced last k [] = tt
throttle-Spaced last k ((j, now) ∷ calls) = elim (Bool-cases (j == k)) [
  | inl same ↦
      let at_k = eq_of_beq same in
      rw same (
        subst (λ i. now + (throttle last i now).0 ≡ max now (get_or (get last k) 0 + min_interval))
            (sym at_k) (passed_at last k now),
        subst (λ t. Spaced t (passes k (throttle last j now).1 calls))
            (subst (λ i. get_or (get (throttle last i now).1 k) 0 ≡ now + (throttle last i now).0)
              (sym at_k) (throttle_sets last k now))
            (throttle-Spaced (throttle last j now).1 k calls),
      )
  | inr other ↦ rw other (
      subst (λ o. Spaced (get_or o 0) (passes k (throttle last j now).1 calls))
        (throttle_keeps last j k now (ne_of_beq other))
        (throttle-Spaced (throttle last j now).1 k calls))
]
