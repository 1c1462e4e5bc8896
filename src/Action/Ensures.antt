-- ===== src/Action/Ensures.antt =====
-- What actions guarantee, with a rule for each way to build an action.
use mikrotik_bot.Prelude.{◌≡◌, refl, Result, ok, err}
use mikrotik_bot.Action.{Fault, Action, give, throw, recover, try, proceed, ◌>>=◌, ◌>>◌}

abbrev pub OnOk : {A : Type 0} → (A → Type 0) → Result Fault A → Type 0
OnOk Q (ok a) = Q a
OnOk Q (err e) = Unit

pub OnOk-le :
    {A : Type 0} (Q R : A → Type 0)
    → ((a : A) → Q a → R a)
    → (r : Result Fault A) → OnOk Q r
    → OnOk R r
OnOk-le Q R le (ok a) h = le a h
OnOk-le Q R le (err e) h = tt

-- every value that the action returns, from whatever state, satisfies `Q`
pub record Returns {S A : Type 0} (Q : A → Type 0) (m : Action S A) : Type 0 where
  pub at : (s : S) → OnOk Q (m s).0

-- the action leads from states with `P` to states with `P`, whether it returns or raises
pub record Keeps {S A : Type 0} (P : S → Type 0) (m : Action S A) : Type 0 where
  pub at : (s : S) → P s → P (m s).1

module _ {S A : Type 0} {Q : A → Type 0} where
  pub Returns-give : (a : A) → Q a → Returns {S = S} Q (give a)
  Returns-give a h = record { at = λ s. h }

  pub Returns-throw : (e : Fault) → Returns {S = S} {A = A} Q (throw e)
  Returns-throw e = record { at = λ s. tt }

  recover-OnOk :
      (handler : Fault → Action S A) (r : Result Fault A × S)
      → OnOk Q r.0
      → ((e : Fault) → Returns Q (handler e))
      → OnOk Q (recover handler r).0
  recover-OnOk handler (ok a, s) h hs = h
  recover-OnOk handler (err e, s) h hs = (hs e).at s

  pub Returns-try :
      (m : Action S A) (handler : Fault → Action S A)
      → Returns Q m
      → ((e : Fault) → Returns Q (handler e))
      → Returns Q (try m handler)
  unfolding try
  Returns-try m handler h hs = record { at = λ s. recover-OnOk handler (m s) (h.at s) hs }

anything : {A : Type 0} (r : Result Fault A) → OnOk (λ a. Unit {0}) r
anything (ok a) = tt
anything (err e) = tt

itself :
    {S A : Type 0} (m : Action S A) (s : S) (r : Result Fault A)
    → (m s).0 ≡ r
    → OnOk (λ a. (t : S) × ((m t).0 ≡ ok a)) r
itself m s (ok a) h = (s, h)
itself m s (err e) h = tt

module _ {S A : Type 0} where
  pub Returns-any : (m : Action S A) → Returns (λ a. Unit) m
  Returns-any m = record { at = λ s. anything (m s).0 }

  -- a value that is returned is returned from some state
  pub Returns-self : (m : Action S A) → Returns (λ a. (t : S) × ((m t).0 ≡ ok a)) m
  Returns-self m = record { at = λ s. itself m s (m s).0 refl }

  pub Returns-le :
      {Q R : A → Type 0} (m : Action S A) → Returns Q m → ((a : A) → Q a → R a) → Returns R m
  Returns-le {Q} {R} m h le = record { at = λ s. OnOk-le Q R le (m s).0 (h.at s) }

module _ {S A B : Type 0} {Q : B → Type 0} where
  proceed-OnOk :
      (R : A → Type 0) (f : A → Action S B)
      → ((a : A) → R a → Returns Q (f a))
      → (r : Result Fault A × S) → OnOk R r.0
      → OnOk Q (proceed f r).0
  proceed-OnOk R f h (ok a, s) ha = (h a ha).at s
  proceed-OnOk R f h (err e, s) ha = tt

  -- the rest may use what the first action guarantees
  pub Returns-bind :
      (R : A → Type 0) (m : Action S A) (f : A → Action S B)
      → Returns R m
      → ((a : A) → R a → Returns Q (f a))
      → Returns Q (m >>= f)
  unfolding ◌>>=◌
  Returns-bind R m f hm hf = record { at = λ s. proceed-OnOk R f hf (m s) (hm.at s) }

  pub Returns-then :
      (m : Action S A) (f : A → Action S B) → ((a : A) → Returns Q (f a)) → Returns Q (m >>= f)
  Returns-then m f hf = Returns-bind (λ a. Unit) m f (Returns-any m) (λ a _. hf a)

  pub Returns-next : (m : Action S A) (n : Action S B) → Returns Q n → Returns Q (m >> n)
  unfolding ◌>>◌
  Returns-next m n h = record {
    at = λ s. proceed-OnOk (λ _. Unit) (λ _. n) (λ _ _. h) (m s) ((Returns-any m).at s);
  }

module _ {S A B : Type 0} where
  after-OnOk :
      (Q : B → Type 0) (R : A → Type 0) (f : A → Action S B) (r : Result Fault A × S)
      → OnOk R r.0
      → ((a : A) → R a → OnOk Q (f a r.1).0)
      → OnOk Q (proceed f r).0
  after-OnOk Q R f (ok a, s) ha h = h a ha
  after-OnOk Q R f (err e, s) ha h = tt

  -- from one state, for a second action from the state after the first
  pub OnOk-bind :
      (Q : B → Type 0) (R : A → Type 0) (m : Action S A) (f : A → Action S B) (s : S)
      → OnOk R (m s).0
      → ((a : A) → R a → OnOk Q (f a (m s).1).0)
      → OnOk Q ((m >>= f) s).0
  unfolding ◌>>=◌
  OnOk-bind Q R m f s ha h = after-OnOk Q R f (m s) ha h

pub OnOk-self : {A : Type 0} (r : Result Fault A) → OnOk (λ a. r ≡ ok a) r
OnOk-self (ok a) = refl
OnOk-self (err e) = tt

-- a value of two actions in a row comes from one of the first
pub from_bind :
    {S A B : Type 0} (m : Action S A) (f : A → Action S B) (s : S) (b : B) (t : S)
    → (m >>= f) s ≡ (ok b, t)
    → (a : A) × (s' : S) × (m s ≡ (ok a, s')) × (f a s' ≡ (ok b, t))
unfolding ◌>>=◌
from_bind {S} {A} m f s b t h = split (m s) refl h
  where
    split :
        (r : Result Fault A × S)
        → m s ≡ r
        → proceed f r ≡ (ok b, t)
        → (a : A) × (s' : S) × (m s ≡ (ok a, s')) × (f a s' ≡ (ok b, t))
    split (ok a, s') e h = (a, s', e, h)
    split (err e, s') same h = absurd (cc h)
