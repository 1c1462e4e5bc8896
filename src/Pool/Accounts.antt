-- ===== src/Pool/Accounts.antt =====
-- core/connection_pool.py: what the count of a router says of the connections that are out.
use mikrotik_bot.Prelude.{
  ℕ, suc, ◌+◌, ◌<◌, ◌≡◌, ◌≢◌, refl, ◌∙◌, ap, subst, String, true, List, [], ◌∷◌, length, Result, ok,
  err, ℤ, pos, increment, decrement, is_positive, lt_ℕ, arith, some, string_eq, Bool-cases, inl,
  inr,
}
use mikrotik_bot.Dict
use mikrotik_bot.Dict.{==_refl, self_laws, get-set_self}
use mikrotik_bot.Pool.{
  Link, ConnectionPool, PoolError, Probe, answers, fails, crashes, queue, count, set_queue,
  set_count, close, drop_count, ensure, open_connection,
}
use mikrotik_bot.Pool.Calls.{or_give_back, replace_stale, checked, take_or_open}
use mikrotik_bot.Pool.Retry.{SameBut, successes, open_connection-SameBut}

pub decremented : (z : ℤ) (m n : ℕ) → z ≡ pos m → m ≡ suc n → decrement z ≡ pos n
unfolding decrement
decremented z m n e f = rw (e, f)

pub incremented : (z : ℤ) (m n : ℕ) → z ≡ pos m → m + 1 ≡ n → increment z ≡ pos n
unfolding increment
incremented z m n e f = rw (e, f)

pub positive : (z : ℤ) (m : ℕ) → z ≡ pos m → 0 < m → is_positive z ≡ true
positive z m e h = ground arith

module _ {Api : Type 0} where
  -- Router `k` has the idle connections `q`, and its count is these and `n` more.
  pub record Account (p : ConnectionPool Api) (k : String) (q : List Api) (n : ℕ) : Type 0 where
    pub found : Dict.get p.pools k ≡ some q
    pub counted : Dict.get p.active_counts k ≡ some (pos (n + length q))

  pub queue-Account :
      {p : ConnectionPool Api} {k : String} {q : List Api} {n : ℕ} → Account p k q n → queue p k ≡ q
  unfolding queue
  queue-Account h = rw (h.found)

  pub count-Account :
      {p : ConnectionPool Api} {k : String} {q : List Api} {n : ℕ}
      → Account p k q n
      → count p k ≡ pos (n + length q)
  unfolding count
  count-Account h = rw (h.counted)

  pub ensure-Account :
      (p : ConnectionPool Api) (k : String) (q : List Api) (n : ℕ)
      → Account p k q n
      → ensure p k ≡ p
  unfolding ensure
  ensure-Account p k q n h = rw (h.found, ensure)

  pub SameBut-Account :
      {p p' : ConnectionPool Api} (k : String) (q : List Api) (n : ℕ)
      → SameBut p p'
      → Account p k q n
      → Account p' k q n
  SameBut-Account k q n s h = record {
    found = rw (s.pools) h.found;
    counted = rw (s.active_counts) h.counted;
  }

  pub set_count-Account :
      (p : ConnectionPool Api) (k : String) (q : List Api) (n m : ℕ) (z : ℤ)
      → z ≡ pos (m + length q)
      → Account p k q n
      → Account (set_count p k z) k q m
  unfolding set_count
  set_count-Account p k q n m z e h = record {
    found = h.found;
    counted = get-set_self p.active_counts k z ∙ ap some e;
  }

  pub set_queue-Account :
      (p : ConnectionPool Api) (k : String) (q q' : List Api) (n m : ℕ)
      → n + length q ≡ m + length q'
      → Account p k q n
      → Account (set_queue p k q') k q' m
  unfolding set_queue
  set_queue-Account p k q q' n m e h = record {
    found = get-set_self p.pools k q';
    counted = h.counted ∙ ap (λ c. some (pos c)) e;
  }

  pub close-Account :
      (p : ConnectionPool Api) (api : Api) (k : String) (q : List Api) (n : ℕ)
      → Account p k q n
      → Account (close p api) k q n
  unfolding close
  close-Account p api k q n h = record { found = h.found; counted = h.counted }

module _ {Api Info : Type 0} (link : Link Api Info) where
  -- a place was taken in the count, and it is given back where no connection came
  or_give_back-Account :
      (k : String) (q : List Api) (n : ℕ) (r : Result PoolError Api) (p : ConnectionPool Api)
      → Account p k q (suc n)
      → Account (or_give_back link k (r, p)).1 k q (successes r + n)
  unfolding or_give_back
  or_give_back-Account k q n (ok api) p h = subst (Account p k q) (omega arith) h
  or_give_back-Account k q n (err e) p h =
      set_count-Account p k q (suc n) (0 + n) (decrement (count p k))
        (decremented (count p k) _ _ (count-Account h) (omega arith)) h

  pub open_counted-Account :
      (k : String) (q : List Api) (n : ℕ) (p : ConnectionPool Api)
      → Account p k q (suc n)
      → let r = open_connection link k p in
        Account (or_give_back link k r).1 k q (successes r.0 + n)
  open_counted-Account k q n p h =
      let r = open_connection link k p in
      or_give_back-Account k q n r.0 r.1
        (SameBut-Account k q (suc n) (open_connection-SameBut link k p) h)

  pub successes-or_give_back :
      (k : String) (r : Result PoolError Api × ConnectionPool Api)
      → successes (or_give_back link k r).0 ≡ successes r.0
  unfolding or_give_back
  successes-or_give_back k (ok api, p) = refl
  successes-or_give_back k (err e, p) = refl

  replace_stale-Account :
      (k : String) (q : List Api) (n : ℕ) (r : Result PoolError Api) (p : ConnectionPool Api)
      → Account p k q n
      → Account (replace_stale link k (r, p)).1 k q (successes (replace_stale link k (r, p)).0 + n)
  unfolding replace_stale
  replace_stale-Account k q n (ok api) p h =
      set_count-Account p k q n (1 + n) (increment (count p k))
        (incremented (count p k) _ _ (count-Account h) (omega arith)) h
  replace_stale-Account k q n (err e) p h = subst (Account p k q) (omega arith) h

  pub drop_count-Account :
      (p : ConnectionPool Api) (k : String) (q : List Api) (n : ℕ)
      → Account p k q (suc n)
      → Account (drop_count p k) k q n
  unfolding drop_count
  drop_count-Account p k q n h = rw (positive (count p k) _ (count-Account h) (omega arith)) (
      set_count-Account p k q (suc n) n (decrement (count p k))
        (decremented (count p k) _ _ (count-Account h) (omega arith)) h)

  checked-Account :
      (k : String) (api : Api) (probe : Probe) (q : List Api) (n : ℕ) (p : ConnectionPool Api)
      → probe ≢ crashes
      → Account p k q (suc n)
      → Account (checked link k api probe p).1 k q (successes (checked link k api probe p).0 + n)
  unfolding checked
  checked-Account k api answers q n p sound h = record {
    found = h.found;
    counted = h.counted ∙ ap (λ m. some (pos m)) (omega arith);
  }
  checked-Account k api crashes q n p sound h = absurd (sound refl)
  checked-Account k api fails q n p sound h =
      let r = open_connection link k (close (drop_count p k) api) in
      replace_stale-Account k q n r.0 r.1 (
        SameBut-Account k q n (open_connection-SameBut link k _)
          (close-Account _ api k q n (drop_count-Account p k q n h)))

  pub take_or_open-Account :
      (k : String) (q : List Api) (n : ℕ) (p : ConnectionPool Api)
      → ((api : Api) → link.probe api ≢ crashes)
      → Account p k q n
      → let r = take_or_open link k q p in (q' : List Api) × Account r.1 k q' (successes r.0 + n)
  unfolding take_or_open
  take_or_open-Account k [] n p sound h = elim (Bool-cases (lt_ℕ (count p k) 3)) [
    | inl room ↦ (
      [],
      rw (room, take_or_open, successes-or_give_back)
          (open_counted-Account k [] n (set_count p k (increment (count p k))) (
            set_count-Account p k [] n (suc n) (increment (count p k))
              (incremented (count p k) _ _ (count-Account h) (omega arith)) h)),
    )
    | inr full ↦ ([], rw full (subst (Account p k []) (omega arith) h))
  ]
  take_or_open-Account k (api ∷ rest) n p sound h = (
    rest,
    checked-Account k api (link.probe api) rest n (set_queue p k rest) (sound api)
        (set_queue-Account p k (api ∷ rest) rest n (suc n) (omega arith) h),
  )
