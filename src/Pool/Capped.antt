-- ===== src/Pool/Capped.antt =====
-- core/connection_pool.py: no call lets a router's count or its queue grow past the cap.
use mikrotik_bot.Prelude.{
  ◌≤◌, ◌≡◌, refl, String, Bool, true, false, Option, none, some, List, [], ◌∷◌, ◌++◌, ltb, length,
  length-append, string_eq, Result, ok, err, ℤ, pos, increment, decrement, is_positive, lt_ℕ,
  AtMost, arith, Bool-cases, inl, inr, ltb→lt,
}
use mikrotik_bot.Dict
use mikrotik_bot.Dict.{==_refl}
use mikrotik_bot.Pool.{
  Link, ConnectionPool, PoolError, queue, count, set_queue, set_count, close, drop_count, ensure,
  forget, open_connection, Probe, answers, fails, crashes,
}
use mikrotik_bot.Pool.Calls.{
  or_give_back, replace_stale, checked, take_or_open, get_connection, put_back, release_connection,
  at_the_cap, open_again, reconnect,
}
use mikrotik_bot.Pool.Retry.{SameBut, open_connection-SameBut}
use mikrotik_bot.Pool.Bounds.{
  AtMost-increment, AtMost-decrement, IsBounded, count-set_count, set_count-IsBounded,
  set_queue-IsBounded, SamePools-IsBounded, drop_count-IsBounded, ensure-IsBounded, lt_ℕ-decrement,
  lt_ℕ_of_not_positive,
}

module _ {Api : Type 0} where
  SameBut-IsBounded : {p p' : ConnectionPool Api} → SameBut p p' → IsBounded p → IsBounded p'
  SameBut-IsBounded {p} {p'} s h = SamePools-IsBounded p p' s.pools s.active_counts h

  count-SameBut : {p p' : ConnectionPool Api} (k : String) → SameBut p p' → count p' k ≡ count p k
  unfolding count
  count-SameBut k s = rw (s.active_counts)

  close-IsBounded : (p : ConnectionPool Api) (api : Api) → IsBounded p → IsBounded (close p api)
  unfolding close
  close-IsBounded p api h = SamePools-IsBounded p _ refl refl h

  -- a count that was dropped leaves room for one more
  room_after_drop :
      (p : ConnectionPool Api) (k : String)
      → AtMost (count p k) 3
      → lt_ℕ (count (drop_count p k) k) 3 ≡ true
  unfolding drop_count
  room_after_drop p k h = elim (Bool-cases (is_positive (count p k))) [
    | inl some_left ↦
        rw (some_left, count-set_count, ==_refl {K = String} k)
          (lt_ℕ-decrement (count p k) 3 h some_left)
    | inr none_left ↦ rw none_left (lt_ℕ_of_not_positive (count p k) 3 (omega arith) none_left)
  ]

  forget-IsBounded : (k : String) (p : ConnectionPool Api) → IsBounded p → IsBounded (forget k p)
  unfolding forget
  forget-IsBounded k p h = SamePools-IsBounded p _ refl refl h

module _ {Api Info : Type 0} (link : Link Api Info) where
  or_give_back-IsBounded :
      (k : String) (r : Result PoolError Api) (p : ConnectionPool Api)
      → IsBounded p
      → IsBounded (or_give_back link k (r, p)).1
  unfolding or_give_back
  or_give_back-IsBounded k (ok api) p h = h
  or_give_back-IsBounded k (err e) p h =
      set_count-IsBounded p k (decrement (count p k)) (AtMost-decrement (count p k) 3 (h.counted k))
        h

  replace_stale-IsBounded :
      (k : String) (r : Result PoolError Api) (p : ConnectionPool Api)
      → lt_ℕ (count p k) 3 ≡ true
      → IsBounded p
      → IsBounded (replace_stale link k (r, p)).1
  unfolding replace_stale
  replace_stale-IsBounded k (ok api) p room h =
      set_count-IsBounded p k (increment (count p k)) (AtMost-increment (count p k) 3 room) h
  replace_stale-IsBounded k (err e) p room h = h

  -- a new connection whose place has been counted
  open_counted-IsBounded :
      (k : String) (n : ℤ) (p : ConnectionPool Api)
      → AtMost n 3
      → IsBounded p
      → IsBounded (or_give_back link k (open_connection link k (set_count p k n))).1
  open_counted-IsBounded k n p small h =
      let r = open_connection link k (set_count p k n) in
      or_give_back-IsBounded k r.0 r.1 (
        SameBut-IsBounded (open_connection-SameBut link k (set_count p k n))
          (set_count-IsBounded p k n small h))

  checked-IsBounded :
      (k : String) (api : Api) (probe : Probe) (p : ConnectionPool Api)
      → IsBounded p
      → IsBounded (checked link k api probe p).1
  unfolding checked
  checked-IsBounded k api answers p h = SamePools-IsBounded p _ refl refl h
  checked-IsBounded k api crashes p h = h
  checked-IsBounded k api fails p h =
      let dropped = close (drop_count p k) api in
      let r = open_connection link k dropped in
      let same = open_connection-SameBut link k dropped in
      replace_stale-IsBounded k r.0 r.1
        (rw (count-SameBut k same) (unfold close count in room_after_drop p k (h.counted k)))
        (SameBut-IsBounded same (close-IsBounded (drop_count p k) api (drop_count-IsBounded p k h)))

  take_or_open-IsBounded :
      (k : String) (q : List Api) (p : ConnectionPool Api)
      → length q ≤ 3
      → IsBounded p
      → IsBounded (take_or_open link k q p).1
  unfolding take_or_open
  take_or_open-IsBounded k [] p few h = elim (Bool-cases (lt_ℕ (count p k) 3)) [
    | inl room ↦
        rw room (
          open_counted-IsBounded k (increment (count p k)) p (AtMost-increment (count p k) 3 room)
            h)
    | inr full ↦ rw full h
  ]
  take_or_open-IsBounded k (api ∷ rest) p few h =
      checked-IsBounded k api (link.probe api) (set_queue p k rest)
        (set_queue-IsBounded p k rest (omega arith) h)

  pub get_connection-IsBounded :
      (k : String) (p : ConnectionPool Api) → IsBounded p → IsBounded (get_connection link k p).1
  unfolding get_connection
  get_connection-IsBounded k p h =
      let ready = ensure-IsBounded p k h in
      take_or_open-IsBounded k (queue (ensure p k) k) (ensure p k) (ready.idle k) ready

  put_back-IsBounded :
      (k : String) (api : Api) (q : Option (List Api)) (p : ConnectionPool Api)
      → IsBounded p
      → IsBounded (put_back link k api q p).1
  unfolding put_back
  put_back-IsBounded k api none p h = h
  put_back-IsBounded k api (some q) p h = elim (Bool-cases (ltb (length q) 3)) [
    | inl room ↦ rw room (
        set_queue-IsBounded p k (q ++ api ∷ [])
          (omega (arith, length-append q (api ∷ []), ltb→lt (length q) 3 room)) h)
    | inr full ↦ elim (Bool-cases (link.closes api)) [
      | inl returns ↦
          rw (full, returns, put_back)
            (set_count-IsBounded (close p api) k (decrement (count p k))
              (AtMost-decrement (count p k) 3 (h.counted k)) (close-IsBounded p api h))
      | inr raises ↦ rw (full, raises, put_back) (close-IsBounded p api h)
    ]
  ]

  pub release_connection-IsBounded :
      (k : String) (api : Api) (broken : Bool) (p : ConnectionPool Api)
      → IsBounded p
      → IsBounded (release_connection link k api broken p).1
  unfolding release_connection
  release_connection-IsBounded k api true p h =
      close-IsBounded (drop_count p k) api (drop_count-IsBounded p k h)
  release_connection-IsBounded k api false p h = put_back-IsBounded k api (Dict.get p.pools k) p h

  open_again-IsBounded :
      (k : String) (q : List Api) (p : ConnectionPool Api)
      → length q ≤ 3
      → IsBounded p
      → IsBounded (open_again link k q p).1
  unfolding open_again
  open_again-IsBounded k q p few h = elim (Bool-cases (lt_ℕ (count p k) 3)) [
    | inl room ↦
        rw room (
          open_counted-IsBounded k (increment (count p k)) p (AtMost-increment (count p k) 3 room)
            h)
    | inr full ↦ rw full (at_cap k q p few h)
  ]
    where
      at_cap :
          (k : String) (q : List Api) (p : ConnectionPool Api)
          → length q ≤ 3
          → IsBounded p
          → IsBounded (at_the_cap link k q p).1
      at_cap k [] p few h = open_counted-IsBounded k (pos 3) p (omega arith) h
      at_cap k (api ∷ rest) p few h = set_queue-IsBounded p k rest (omega arith) h

  pub reconnect-IsBounded :
      (k : String) (p : ConnectionPool Api) → IsBounded p → IsBounded (reconnect link k p).1
  unfolding reconnect
  reconnect-IsBounded k p h =
      let ready = ensure-IsBounded (forget k p) k (forget-IsBounded k p h) in
      open_again-IsBounded k (queue (ensure (forget k p) k) k) (ensure (forget k p) k)
        (ready.idle k) ready
