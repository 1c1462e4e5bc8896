-- ===== src/Pool/Bounds.antt =====
-- core/connection_pool.py: the bound on each router's connections.
use mikrotik_bot.Prelude.{
  ℕ, zero, suc, ◌≤◌, ◌<◌, ◌≡◌, refl, String, true, false, List, [], if◌then◌else◌, length,
  string_eq, ℤ, pos, negsuc, increment, decrement, is_positive, lt_ℕ, AtMost, arith, Option-cases,
  Bool-cases, inl, inr, ◌==◌,
}
use mikrotik_bot.Dict
use mikrotik_bot.Dict.{get-set}
use mikrotik_bot.Pool.{ConnectionPool, queue, count, set_queue, set_count, drop_count, ensure}

pub AtMost-increment : (n : ℤ) (m : ℕ) → lt_ℕ n m ≡ true → AtMost (increment n) m
unfolding increment
AtMost-increment (pos n) m h = ground arith
AtMost-increment (negsuc zero) m h = omega arith
AtMost-increment (negsuc (suc n)) m h = tt

pub AtMost-decrement : (n : ℤ) (m : ℕ) → AtMost n m → AtMost (decrement n) m
unfolding decrement
AtMost-decrement (pos zero) m h = tt
AtMost-decrement (pos (suc n)) m h = omega arith
AtMost-decrement (negsuc n) m h = tt

module _ {Api : Type 0} where
  -- at most three connections counted, and at most three idle, for each router
  pub record IsBounded (p : ConnectionPool Api) : Type 0 where
    pub counted : (k : String) → AtMost (count p k) 3
    pub idle : (k : String) → length (queue p k) ≤ 3

  pub count-set_count :
      (p : ConnectionPool Api) (k j : String) (n : ℤ)
      → count (set_count p k n) j ≡ (if k == j then n else count p j)
  unfolding count set_count
  count-set_count p k j n = ground (arith, get-set p.active_counts k j n)

  pub queue-set_queue :
      (p : ConnectionPool Api) (k j : String) (q : List Api)
      → queue (set_queue p k q) j ≡ (if k == j then q else queue p j)
  unfolding queue set_queue
  queue-set_queue p k j q = ground (arith, get-set p.pools k j q)

  pub set_count-IsBounded :
      (p : ConnectionPool Api) (k : String) (n : ℤ)
      → AtMost n 3
      → IsBounded p
      → IsBounded (set_count p k n)
  set_count-IsBounded p k n small h = record {
    counted = λ j. elim (Bool-cases (k == j)) [
      | inl same ↦ rw (count-set_count, same) small
      | inr other ↦ rw (count-set_count, other) (h.counted j)
    ];
    idle = unfold set_count queue in h.idle;
  }

  pub set_queue-IsBounded :
      (p : ConnectionPool Api) (k : String) (q : List Api)
      → length q ≤ 3
      → IsBounded p
      → IsBounded (set_queue p k q)
  set_queue-IsBounded p k q small h = record {
    counted = unfold set_queue count in h.counted;
    idle = λ j. elim (Bool-cases (k == j)) [
      | inl same ↦ rw (queue-set_queue, same) small
      | inr other ↦ rw (queue-set_queue, other) (h.idle j)
    ];
  }

  -- what the calls change beside the queues and the counts does not matter
  pub SamePools-IsBounded :
      (p p' : ConnectionPool Api)
      → p'.pools ≡ p.pools
      → p'.active_counts ≡ p.active_counts
      → IsBounded p
      → IsBounded p'
  unfolding count queue
  SamePools-IsBounded p p' same_queues same_counts h = record {
    counted = λ k. rw same_counts (h.counted k);
    idle = λ k. rw same_queues (h.idle k);
  }

  pub drop_count-IsBounded :
      (p : ConnectionPool Api) (k : String) → IsBounded p → IsBounded (drop_count p k)
  unfolding drop_count
  drop_count-IsBounded p k h = elim (Bool-cases (is_positive (count p k))) [
    | inl some_left ↦ rw some_left (
        set_count-IsBounded p k (decrement (count p k))
          (AtMost-decrement (count p k) 3 (h.counted k)) h)
    | inr none_left ↦ rw none_left h
  ]

  pub ensure-IsBounded :
      (p : ConnectionPool Api) (k : String) → IsBounded p → IsBounded (ensure p k)
  unfolding ensure
  ensure-IsBounded p k h = elim (Option-cases (Dict.get p.pools k)) [
    | inl missing ↦
        rw (missing, ensure)
          (unfold set_queue set_count in
            set_queue-IsBounded (set_count p k (pos 0)) k [] (omega arith)
              (set_count-IsBounded p k (pos 0) (omega arith) h))
    | inr (q, found) ↦ rw (found, ensure) h
  ]

pub lt_ℕ-decrement :
    (n : ℤ) (m : ℕ) → AtMost n m → is_positive n ≡ true → lt_ℕ (decrement n) m ≡ true
unfolding decrement
lt_ℕ-decrement (pos zero) m h some_left = absurd (ground arith)
lt_ℕ-decrement (pos (suc n)) m h some_left = ground arith
lt_ℕ-decrement (negsuc n) m h some_left = refl

pub lt_ℕ_of_not_positive : (n : ℤ) (m : ℕ) → 0 < m → is_positive n ≡ false → lt_ℕ n m ≡ true
lt_ℕ_of_not_positive (pos n) m h none_left = ground arith
lt_ℕ_of_not_positive (negsuc n) m h none_left = refl
