-- ===== src/Pool/Leases.antt =====
-- core/connection_pool.py: the count of a router against the connections that are out.
use mikrotik_bot.Prelude.{
  ℕ, suc, ◌+◌, ◌≤◌, ◌<◌, ◌≡◌, ◌≢◌, refl, ◌∙◌, ap, String, Bool, true, false, List, [], ◌∷◌, ◌++◌,
  length, length-append, ok, ℤ, pos, increment, lt_ℕ, AtMost, arith, string_eq, Bool-cases, inl,
  inr, ltb, if◌then◌else◌, lt→ltb,
}
use mikrotik_bot.Pool.{
  Link, ConnectionPool, crashes, count, set_queue, set_count, close, drop_count, forget,
}
use mikrotik_bot.Pool.Calls.{
  get_connection, put_back, release_connection, at_the_cap, open_again, reconnect,
}
use mikrotik_bot.Pool.Retry.{successes}
use mikrotik_bot.Pool.Accounts.{
  Account, incremented, queue-Account, count-Account, ensure-Account, set_count-Account,
  set_queue-Account, close-Account, open_counted-Account, drop_count-Account, take_or_open-Account,
  successes-or_give_back,
}
use mikrotik_bot.Pool.Bounds.{IsBounded}

at_most : (z : ℤ) (m b : ℕ) → z ≡ pos m → AtMost z b → m ≤ b
at_most z m b e h = ground arith

below_of : (z : ℤ) (m b : ℕ) → z ≡ pos m → lt_ℕ z b ≡ true → m < b
below_of z m b e h = ground arith

not_below : (z : ℤ) (m b : ℕ) → z ≡ pos m → lt_ℕ z b ≡ false → ltb m b ≡ false
not_below z m b e h = ground arith

module _ {Api Info : Type 0} (link : Link Api Info) where
  -- While the count of router `k` is its idle connections and the `n` that are out, and no health
  -- check fails in a way that the pool does not handle: `get_connection` leaves a count of the idle
  -- connections and `n + 1` if it returns a connection, and of the idle ones and `n` if it raises.
  pub get_connection_accounts :
      (k : String) (q : List Api) (n : ℕ) (p : ConnectionPool Api)
      → ((api : Api) → link.probe api ≢ crashes)
      → Account p k q n
      → (q' : List Api) × Account
          (get_connection link k p).1
          k
          q'
          (successes (get_connection link k p).0 + n)
  unfolding get_connection
  get_connection_accounts k q n p sound h =
      rw (ensure-Account p k q n h, queue-Account h) (take_or_open-Account link k q n p sound h)

  -- With a connection out and the count within the cap, `release_connection` returns, and leaves
  -- one connection fewer out: a sound one goes to the end of the queue, a broken one is closed.
  pub release_connection_accounts :
      (k : String) (api : Api) (broken : Bool) (q : List Api) (n : ℕ) (p : ConnectionPool Api)
      → IsBounded p
      → Account p k q (suc n)
      → let r = release_connection link k api broken p in
        (r.0 ≡ ok tt)
        × Account r.1 k (if broken then q else q ++ api ∷ []) n
        × (r.1.closed ≡ (if broken then p.closed ++ api ∷ [] else p.closed))
  unfolding release_connection put_back
  release_connection_accounts k api true q n p bounded h = (
    refl,
    close-Account _ api k q n (drop_count-Account link p k q n h),
    unfold drop_count set_count close in ground arith,
  )
  release_connection_accounts k api false q n p bounded h =
      let room : ltb (length q) 3 ≡ true =
        lt→ltb _ _ (omega (arith, at_most _ _ 3 (count-Account h) (bounded.counted k))) in
      rw (h.found, put_back, room)
        (
          refl,
          set_queue-Account p k q (q ++ api ∷ []) (suc n) n
              (omega (arith, length-append q (api ∷ []))) h,
          unfold set_queue in refl,
        )

  forget-Account :
      (p : ConnectionPool Api) (k : String) (q : List Api) (n : ℕ)
      → Account p k q n
      → Account (forget k p) k q n
  unfolding forget
  forget-Account p k q n h = record { found = h.found; counted = h.counted }

  open_again-Account :
      (k : String) (n : ℕ) (p : ConnectionPool Api)
      → n ≤ 3
      → Account p k [] n
      → Account
          (open_again link k [] p).1
          k
          []
          (successes (open_again link k [] p).0 + (if ltb n 3 then n else 2))
  unfolding open_again at_the_cap
  open_again-Account k n p within h = elim (Bool-cases (lt_ℕ (count p k) 3)) [
    | inl room ↦
        let below : ltb n 3 ≡ true =
          lt→ltb _ _ (omega (arith, below_of (count p k) n 3 counted room)) in
        rw (room, open_again, below, successes-or_give_back)
          (open_counted-Account link k [] n (set_count p k (increment (count p k))) (
            set_count-Account p k [] n (suc n) (increment (count p k))
              (incremented (count p k) n _ counted (omega arith)) h))
    | inr full ↦
        let above : ltb n 3 ≡ false = not_below (count p k) n 3 counted full in
        rw (full, open_again, above, successes-or_give_back)
          (open_counted-Account link k [] 2 (set_count p k (pos 3))
            (set_count-Account p k [] n 3 (pos 3) refl h))
  ]
    where
      counted : count p k ≡ pos n
      counted = count-Account h ∙ ap pos (omega arith)

  -- `reconnect` with `n` connections out and none idle. Below the cap it counts the connection that
  -- it opens, and takes the count back if that fails. At the cap the count after it is one too low
  -- either way: 2 and the connection opened, although all `n = 3` are still out.
  pub reconnect_accounts :
      (k : String) (n : ℕ) (p : ConnectionPool Api)
      → n ≤ 3
      → Account p k [] n
      → Account
          (reconnect link k p).1
          k
          []
          (successes (reconnect link k p).0 + (if ltb n 3 then n else 2))
  unfolding reconnect
  reconnect_accounts k n p within h =
      let h' = forget-Account p k [] n h in
      rw (ensure-Account (forget k p) k [] n h', queue-Account h')
        (open_again-Account k n (forget k p) within h')
