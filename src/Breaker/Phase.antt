-- ===== src/Breaker/Phase.antt =====
-- What core/circuit_breaker.py promises for one router: a machine with three phases, which knows
-- nothing of dictionaries or of other routers.
use mikrotik_bot.Prelude.{
  ℕ, ◌+◌, ◌≡◌, ◌≢◌, Bool, true, false, none, some, arith, leb, if◌then◌else◌, get_or, string_eq,
  String,
}
use mikrotik_bot.Dict.{get, self_laws, other_laws}
use mikrotik_bot.Breaker.{
  CircuitBreaker, closed, opened, half_open, can_attempt, on_success, on_failure, reset,
}

-- Each phase carries the failures counted; an open one the time of the failure that opened it,
-- a probing one the time at which the trial request was claimed.
pub data Phase : Type 0 where
  closed_after : ℕ → Phase
  open_since : ℕ → ℕ → Phase
  probing_since : ℕ → ℕ → Phase

module _ (timeout : ℕ) where
  unfoldable pub attempt : Phase → ℕ → ℕ → Bool × Phase
  attempt (closed_after n) now later = (true, closed_after n)
  attempt (open_since n t) now later =
      if leb (t + timeout) now then (true, probing_since n later) else (false, open_since n t)
  attempt (probing_since n t) now later =
      if leb (t + timeout) now then (false, open_since n later) else (false, probing_since n t)

unfoldable pub failure : ℕ → Phase → ℕ → Phase
failure threshold (closed_after n) now =
    if leb threshold (n + 1) then open_since (n + 1) now else closed_after (n + 1)
failure threshold (open_since n t) now = open_since (n + 1) t
failure threshold (probing_since n t) now = open_since 0 now

-- The dictionaries of the breaker, read at one router, show a phase.
abbrev pub Shows : CircuitBreaker → String → Phase → Type 0
Shows cb k (closed_after n) =
    (get_or (get cb.state k) closed ≡ closed)
    × (get_or (get cb.failure_count k) 0 ≡ n)
    × (get cb.in_trial k ≡ none)
    × (get cb.trial_started_at k ≡ none)
Shows cb k (open_since n t) =
    (get cb.state k ≡ some opened)
    × (get_or (get cb.failure_count k) 0 ≡ n)
    × (get cb.in_trial k ≡ none)
    × (get cb.trial_started_at k ≡ none)
    × (get cb.last_failure_time k ≡ some t)
Shows cb k (probing_since n t) =
    (get cb.state k ≡ some half_open)
    × (get_or (get cb.failure_count k) 0 ≡ n)
    × (get cb.in_trial k ≡ some true)
    × (get cb.trial_started_at k ≡ some t)

pub attempt-Shows :
    (cb : CircuitBreaker) (k : String) (p : Phase) (now later : ℕ)
    → Shows cb k p
    → ((can_attempt cb k now later).0 ≡ (attempt cb.reset_timeout p now later).0)
      × Shows (can_attempt cb k now later).1 k (attempt cb.reset_timeout p now later).1
unfolding can_attempt attempt
attempt-Shows cb k (closed_after n) now later h = grind (arith, self_laws)
attempt-Shows cb k (open_since n t) now later h = grind (arith, self_laws)
attempt-Shows cb k (probing_since n t) now later h = grind (arith, self_laws)

pub success-Shows :
    (cb : CircuitBreaker) (k : String) (p : Phase)
    → Shows cb k p
    → Shows (on_success cb k) k (closed_after 0)
unfolding on_success
success-Shows cb k (closed_after n) h = grind (arith, self_laws)
success-Shows cb k (open_since n t) h = grind (arith, self_laws)
success-Shows cb k (probing_since n t) h = grind (arith, self_laws)

pub failure-Shows :
    (cb : CircuitBreaker) (k : String) (p : Phase) (now : ℕ)
    → Shows cb k p
    → Shows (on_failure cb k now) k (failure cb.failure_threshold p now)
unfolding on_failure failure
failure-Shows cb k (closed_after n) now h = grind (arith, self_laws)
failure-Shows cb k (open_since n t) now h = grind (arith, self_laws)
failure-Shows cb k (probing_since n t) now h = grind (arith, self_laws)

pub reset-Shows : (cb : CircuitBreaker) (k : String) → Shows (reset cb k) k (closed_after 0)
unfolding reset
reset-Shows cb k = grind (arith, self_laws)

-- Two breakers hold the same data of a router.
pub record Agrees (cb cb' : CircuitBreaker) (j : String) : Type 0 where
  pub state : get cb'.state j ≡ get cb.state j
  pub failure_count : get cb'.failure_count j ≡ get cb.failure_count j
  pub last_failure_time : get cb'.last_failure_time j ≡ get cb.last_failure_time j
  pub in_trial : get cb'.in_trial j ≡ get cb.in_trial j
  pub trial_started_at : get cb'.trial_started_at j ≡ get cb.trial_started_at j

pub Shows-Agrees :
    (cb cb' : CircuitBreaker) (j : String) (p : Phase)
    → Agrees cb cb' j
    → Shows cb j p
    → Shows cb' j p
Shows-Agrees cb cb' j (closed_after n) a h = ground arith
Shows-Agrees cb cb' j (open_since n t) a h = ground arith
Shows-Agrees cb cb' j (probing_since n t) a h = ground arith

module _ (cb : CircuitBreaker) (k j : String) (other : k ≢ j) where
  pub attempt-Agrees : (now later : ℕ) → Agrees cb (can_attempt cb k now later).1 j
  unfolding can_attempt
  attempt-Agrees now later = grind (arith, other_laws)

  pub success-Agrees : Agrees cb (on_success cb k) j
  unfolding on_success
  success-Agrees = grind (arith, other_laws)

  pub failure-Agrees : (now : ℕ) → Agrees cb (on_failure cb k now) j
  unfolding on_failure
  failure-Agrees now = grind (arith, other_laws)

  pub reset-Agrees : Agrees cb (reset cb k) j
  unfolding reset
  reset-Agrees = grind (arith, other_laws)
