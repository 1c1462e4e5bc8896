-- ===== src/Access/Limiter.antt =====
-- utils/admin_decorator.py: the rate limiter against a limiter for one user and one handler, which
-- knows no other calls and never cleans up.
use mikrotik_bot.Prelude.{
  ℕ, ◌+◌, ◌≤◌, ◌<◌, ◌≡◌, ◌≢◌, refl, sym, ap, subst, ◌⊎◌, inl, inr, Bool, true, false, String, none,
  List, [], ◌∷◌, filter, contains, arith, ltb, if◌then◌else◌, get_or, ◌==◌, All, Bool-cases,
  eq_of_beq, ne_of_beq, pair_eq, nat_eq, string_eq,
}
use mikrotik_bot.Dict.{Dict, get, pop, get-pop, get-set_self, get-set_ne}
use mikrotik_bot.Access.{
  Key, RateLimits, check_rate_limit, clean, remove, is_stale, keys_of, is_too_soon, get_rate_limit,
  rate_limits, rate_limit_in, max_age,
}

-- a call: the user, the handler's name and the reading of the clock
abbrev pub Call : Type 0
Call = Key × ℕ

unfoldable pub answers : Key → RateLimits → List Call → List Bool
answers key limits [] = []
answers key limits (((user_id, func_name), now) ∷ calls) =
    let (allowed, limits') = check_rate_limit limits user_id func_name now in
    let rest = answers key limits' calls in
    if (user_id, func_name) == key then allowed ∷ rest else rest

-- The specification: a call is refused from 50 ms after the last one that was allowed until `limit`.
unfoldable pub allowances : ℕ → ℕ → List ℕ → List Bool
allowances limit last [] = []
allowances limit last (now ∷ times) =
    let refused = is_too_soon limit last now in
    (if refused then false else true) ∷ allowances limit (if refused then last else now) times

-- the times at which one key is called
unfoldable pub times_of : Key → List Call → List ℕ
times_of key [] = []
times_of key ((k, now) ∷ calls) =
    let rest = times_of key calls in if k == key then now ∷ rest else rest

-- readings of a clock that never goes back
unfoldable pub IsMonotonic : ℕ → List Call → Type 0
IsMonotonic t [] = Unit
IsMonotonic t ((k, now) ∷ calls) = (t ≤ now) × IsMonotonic now calls

contains-filter :
    (p : Key → Bool) (keys : List Key) (key : Key)
    → contains (filter p keys) key ≡ true
    → p key ≡ true
contains-filter p [] key h = absurd (ground arith)
contains-filter p (k ∷ keys) key h = elim (Bool-cases (p k)) [
  | inl kept ↦ elim (Bool-cases (k == key)) [
    | inl same ↦ subst (λ j. p j ≡ true) (eq_of_beq same) kept
    | inr other ↦ contains-filter p keys key (ground arith)
  ]
  | inr dropped ↦ contains-filter p keys key (ground arith)
]

get-remove :
    (d : Dict Key ℕ) (keys : List Key) (key : Key)
    → get (remove d keys) key ≡ (if contains keys key then none else get d key)
unfolding remove
get-remove d [] key = refl
get-remove d (k ∷ keys) key = ground (arith, get-remove (pop d k) keys key, get-pop d k key)

rate_limit_in-le :
    (limits : List (String × ℕ)) (func_name : String)
    → All (λ entry. entry.1 ≤ max_age) limits
    → rate_limit_in limits func_name ≤ max_age
rate_limit_in-le [] func_name h = omega arith
rate_limit_in-le ((key, limit) ∷ limits) func_name h =
    ground (arith, rate_limit_in-le limits func_name h.1)

get_rate_limit-le : (func_name : String) → get_rate_limit func_name ≤ max_age
unfolding get_rate_limit
get_rate_limit-le func_name = rate_limit_in-le rate_limits func_name (ground arith)

-- The stored time is the last one allowed, or it is gone and the last one is old enough at time `now`.
abbrev pub Remembers : Dict Key ℕ → Key → ℕ → ℕ → Type 0
Remembers d key last now =
    (get_or (get d key) 0 ≡ last) ⊎ ((get_or (get d key) 0 ≡ 0) × (last + max_age < now))

remove-Remembers :
    (d : Dict Key ℕ) (key : Key) (last t now : ℕ)
    → t ≤ now
    → Remembers d key last t
    → Remembers (remove d (filter (is_stale d now) (keys_of d))) key last now
remove-Remembers d key last t now h r =
    elim (Bool-cases (contains (filter (is_stale d now) (keys_of d)) key)) [
      | inl gone ↦
          let old = contains-filter (is_stale d now) (keys_of d) key gone in
          rw (get-remove, gone) (inr (refl, ground arith))
      | inr kept ↦ rw (get-remove, kept) (ground arith)
    ]

clean-Remembers :
    (limits : RateLimits) (key : Key) (last t now : ℕ)
    → t ≤ now
    → Remembers limits.data_of key last t
    → Remembers (clean limits now).data_of key last now
unfolding clean
clean-Remembers limits key last t now h r =
    elim (Bool-cases (ltb (limits.last_cleanup + 300000) now)) [
      | inl due ↦ rw due (remove-Remembers limits.data_of key last t now h r)
      | inr early ↦ rw early (ground arith)
    ]

decides_alike :
    (d : Dict Key ℕ) (key : Key) (limit last now : ℕ)
    → limit ≤ max_age
    → Remembers d key last now
    → is_too_soon limit (get_or (get d key) 0) now ≡ is_too_soon limit last now
decides_alike d key limit last now h (inl same) = rw same refl
decides_alike d key limit last now h (inr (zero_there, old)) = rw zero_there (ground arith)

-- what a call with answer `refused` leaves to be remembered of its own key
abbrev pub Follows : RateLimits → Key → ℕ → ℕ → Bool × RateLimits → Type 0
Follows limits key last now after =
    let refused = is_too_soon (get_rate_limit key.1) last now in
    (after.0 ≡ (if refused then false else true))
    × Remembers after.1.data_of key (if refused then last else now) now

own-Follows :
    (limits : RateLimits) (user_id : ℕ) (func_name : String) (last t now : ℕ)
    → t ≤ now
    → Remembers limits.data_of (user_id, func_name) last t
    → Follows limits (user_id, func_name) last now (check_rate_limit limits user_id func_name now)
unfolding check_rate_limit
own-Follows limits user_id func_name last t now h r =
    let cleaned = clean-Remembers limits (user_id, func_name) last t now h r in
    let alike =
      decides_alike (clean limits now).data_of (user_id, func_name) (get_rate_limit func_name) last
        now (get_rate_limit-le func_name) cleaned in
    elim (Bool-cases (is_too_soon (get_rate_limit func_name) last now)) [
      | inl refused ↦ rw (alike, refused) (refl, cleaned)
      | inr allowed ↦ rw (alike, allowed) (refl, inl (rw get-set_self refl))
    ]

other-Remembers :
    (limits : RateLimits) (user_id : ℕ) (func_name : String) (key : Key) (last t now : ℕ)
    → (user_id, func_name) ≢ key
    → t ≤ now
    → Remembers limits.data_of key last t
    → Remembers (check_rate_limit limits user_id func_name now).1.data_of key last now
unfolding check_rate_limit
other-Remembers limits user_id func_name key last t now other h r =
    let cleaned = clean-Remembers limits key last t now h r in
    let d = (clean limits now).data_of in
    elim (Bool-cases
      (is_too_soon (get_rate_limit func_name) (get_or (get d (user_id, func_name)) 0) now)) [
        | inl refused ↦ rw refused cleaned
        | inr allowed ↦ rw allowed (
            subst (λ o. (get_or o 0 ≡ last) ⊎ ((get_or o 0 ≡ 0) × (last + max_age < now)))
              (sym (get-set_ne d (user_id, func_name) key now other)) cleaned)
      ]

answers_from :
    (key : Key) (limits : RateLimits) (last t : ℕ) (calls : List Call)
    → IsMonotonic t calls
    → Remembers limits.data_of key last t
    → answers key limits calls ≡ allowances (get_rate_limit key.1) last (times_of key calls)
unfolding IsMonotonic answers times_of allowances
answers_from key limits last t [] h r = refl
answers_from key limits last t (((user_id, func_name), now) ∷ calls) (h, hs) r =
    elim (Bool-cases ((user_id, func_name) == key)) [
      | inl same ↦
          let (answer, after) =
            subst
              (λ k.
                Remembers limits.data_of k last t
                → Follows limits k last now (check_rate_limit limits user_id func_name now))
              (eq_of_beq same) (own-Follows limits user_id func_name last t now h) r in
          let refused = is_too_soon (get_rate_limit key.1) last now in
          rw (same, answer)
            (ap (λ rest. (if refused then false else true) ∷ rest)
              (answers_from key (check_rate_limit limits user_id func_name now).1
                (if refused then last else now) now calls hs after))
      | inr other ↦ rw other (
          answers_from key (check_rate_limit limits user_id func_name now).1 last now calls hs
            (other-Remembers limits user_id func_name key last t now (ne_of_beq other) h r))
    ]

-- Let the limiter start empty and the clock never go back. Then for every user and handler, the
-- answers given to that user's calls of that handler are those of a limiter for these calls alone:
-- neither other calls nor the clean-up, which forgets old times, ever change an answer.
pub rate_limit_refines :
    (key : Key) (started : ℕ) (calls : List Call)
    → IsMonotonic started calls
    → answers key (record { data_of = []; last_cleanup = started }) calls
      ≡ allowances (get_rate_limit key.1) 0 (times_of key calls)
rate_limit_refines key started calls h =
    answers_from key (record { data_of = []; last_cleanup = started }) 0 started calls h
      (unfold get in inl refl)
