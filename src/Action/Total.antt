-- ===== src/Action/Total.antt =====
-- Actions that never raise: from every state they return a value, and it satisfies `Q`.
use mikrotik_bot.Prelude.{
  ◌≡◌, refl, Bool, true, false, if◌then◌else◌, List, [], ◌∷◌, Result, ok, err,
}
use mikrotik_bot.Action.{Fault, Action, give, recover, try, proceed, ◌>>=◌, ◌>>◌, for_each}
use mikrotik_bot.Action.Ensures.{OnOk, Returns}

abbrev pub IsOk : {A : Type 0} → (A → Type 0) → Result Fault A → Type 0
IsOk Q (ok a) = Q a
IsOk Q (err e) = ⊥

pub record Total {S A : Type 0} (Q : A → Type 0) (m : Action S A) : Type 0 where
  pub at : (s : S) → IsOk Q (m s).0

IsOk-le :
    {A : Type 0} (Q R : A → Type 0) (r : Result Fault A)
    → IsOk Q r
    → OnOk R r
    → IsOk (λ a. Q a × R a) r
IsOk-le Q R (ok a) h h' = (h, h')
IsOk-le Q R (err e) h h' = elim h [ ]

IsOk-OnOk : {A : Type 0} (Q : A → Type 0) (r : Result Fault A) → IsOk Q r → OnOk Q r
IsOk-OnOk Q (ok a) h = h
IsOk-OnOk Q (err e) h = elim h [ ]

pub IsOk-weaken :
    {A : Type 0} (Q R : A → Type 0)
    → ((a : A) → Q a → R a)
    → (r : Result Fault A) → IsOk Q r
    → IsOk R r
IsOk-weaken Q R le (ok a) h = le a h
IsOk-weaken Q R le (err e) h = elim h [ ]

module _ {S A : Type 0} {Q : A → Type 0} where
  pub Total-give : (a : A) → Q a → Total {S = S} Q (give a)
  Total-give a h = record { at = λ s. h }

  pub Total-if :
      (b : Bool) (m n : Action S A) → Total Q m → Total Q n → Total Q (if b then m else n)
  Total-if true m n h h' = h
  Total-if false m n h h' = h'

  pub Total-Returns : (m : Action S A) → Total Q m → Returns Q m
  Total-Returns m h = record { at = λ s. IsOk-OnOk Q (m s).0 (h.at s) }

  -- what is guaranteed of the values that are returned holds of the one that is
  pub Total-with :
      {R : A → Type 0} (m : Action S A) → Total Q m → Returns R m → Total (λ a. Q a × R a) m
  Total-with {R} m h hr = record { at = λ s. IsOk-le Q R (m s).0 (h.at s) (hr.at s) }

  pub Total-le : {R : A → Type 0} (m : Action S A) → Total Q m → ((a : A) → Q a → R a) → Total R m
  Total-le {R} m h le = record { at = λ s. IsOk-weaken Q R le (m s).0 (h.at s) }

  recover-IsOk :
      (handler : Fault → Action S A) (r : Result Fault A × S)
      → OnOk Q r.0
      → ((e : Fault) → Total Q (handler e))
      → IsOk Q (recover handler r).0
  recover-IsOk handler (ok a, s) h hs = h
  recover-IsOk handler (err e, s) h hs = (hs e).at s

  pub Total-try :
      (m : Action S A) (handler : Fault → Action S A)
      → Returns Q m
      → ((e : Fault) → Total Q (handler e))
      → Total Q (try m handler)
  unfolding try
  Total-try m handler h hs = record { at = λ s. recover-IsOk handler (m s) (h.at s) hs }

-- the value that is returned
pub IsOk-self : {A : Type 0} (r : Result Fault A) → IsOk (λ a. Unit {0}) r → IsOk (λ a. r ≡ ok a) r
IsOk-self (ok a) h = refl
IsOk-self (err e) h = elim h [ ]

module _ {S A B : Type 0} where
  proceed_at :
      (Q : B → Type 0) (R : A → Type 0) (f : A → Action S B) (r : Result Fault A × S)
      → IsOk R r.0
      → ((a : A) → R a → IsOk Q (f a r.1).0)
      → IsOk Q (proceed f r).0
  proceed_at Q R f (ok a, s) ha h = h a ha
  proceed_at Q R f (err e, s) ha h = elim ha [ ]

  -- from one state, for a second action from the state after the first
  pub IsOk-bind :
      (Q : B → Type 0) (R : A → Type 0) (m : Action S A) (f : A → Action S B) (s : S)
      → IsOk R (m s).0
      → ((a : A) → R a → IsOk Q (f a (m s).1).0)
      → IsOk Q ((m >>= f) s).0
  unfolding ◌>>=◌
  IsOk-bind Q R m f s ha h = proceed_at Q R f (m s) ha h

module _ {S A B : Type 0} {Q : B → Type 0} where
  proceed-IsOk :
      (R : A → Type 0) (f : A → Action S B)
      → ((a : A) → R a → Total Q (f a))
      → (r : Result Fault A × S) → IsOk R r.0
      → IsOk Q (proceed f r).0
  proceed-IsOk R f h (ok a, s) ha = (h a ha).at s
  proceed-IsOk R f h (err e, s) ha = elim ha [ ]

  pub Total-bind :
      {R : A → Type 0} (m : Action S A) (f : A → Action S B)
      → Total R m
      → ((a : A) → R a → Total Q (f a))
      → Total Q (m >>= f)
  unfolding ◌>>=◌
  Total-bind {R} m f hm hf = record { at = λ s. proceed-IsOk R f hf (m s) (hm.at s) }

  pub Total-next :
      {R : A → Type 0} (m : Action S A) (n : Action S B) → Total R m → Total Q n → Total Q (m >> n)
  unfolding ◌>>◌
  Total-next {R} m n hm hn = record {
    at = λ s. proceed-IsOk R (λ _. n) (λ _ _. hn) (m s) (hm.at s);
  }

pub Total-for_each :
    {S A : Type 0} (xs : List A) (body : A → Action S (Unit {0}))
    → ((x : A) → Total (λ u. Unit {0}) (body x))
    → Total (λ u. Unit {0}) (for_each xs body)
unfolding for_each
Total-for_each [] body h = Total-give tt tt
Total-for_each (x ∷ xs) body h = Total-next {R = λ u. Unit {0}} _ _ (h x) (Total-for_each xs body h)
