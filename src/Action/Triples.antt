-- ===== src/Action/Triples.antt =====
-- Actions from states with `P`: a value that is returned and the state then satisfy `Q`, and the
-- state after an exception satisfies `E`.
use mikrotik_bot.Prelude.{Result, ok, err, Bool, true, false, if◌then◌else◌}
use mikrotik_bot.Action.{Fault, Action, give, throw, writes, recover, try, proceed, ◌>>=◌, ◌>>◌}

abbrev pub Ends : {S A : Type 0} → (A → S → Type 0) → (S → Type 0) → Result Fault A × S → Type 0
Ends Q E (ok a, s) = Q a s
Ends Q E (err e, s) = E s

pub record Meets {S A : Type 0} (P : S → Type 0) (Q : A → S → Type 0) (E : S → Type 0)
    (m : Action S A) : Type 0 where
  pub at : (s : S) → P s → Ends Q E (m s)

Ends-le :
    {S A : Type 0} {E E' : S → Type 0} (Q : A → S → Type 0)
    → ((s : S) → E s → E' s)
    → (r : Result Fault A × S) → Ends Q E r
    → Ends Q E' r
Ends-le Q le (ok a, s) h = h
Ends-le Q le (err e, s) h = le s h

Ends-weaken :
    {S A : Type 0} (E : S → Type 0) (Q Q' : A → S → Type 0)
    → ((a : A) (s : S) → Q a s → Q' a s)
    → (r : Result Fault A × S) → Ends Q E r
    → Ends Q' E r
Ends-weaken E Q Q' le (ok a, s) h = le a s h
Ends-weaken E Q Q' le (err e, s) h = h

module _ {S A : Type 0} {Q : A → S → Type 0} {E : S → Type 0} where
  recover-Ends :
      (F : S → Type 0) (handler : Fault → Action S A) (r : Result Fault A × S)
      → Ends Q F r
      → ((e : Fault) → Meets F Q E (handler e))
      → Ends Q E (recover handler r)
  recover-Ends F handler (ok a, s) h hs = h
  recover-Ends F handler (err e, s) h hs = (hs e).at s h

module _ {S A B : Type 0} {Q : B → S → Type 0} {E : S → Type 0} where
  proceed-Ends :
      (R : A → S → Type 0) (f : A → Action S B) (r : Result Fault A × S)
      → Ends R E r
      → ((a : A) → Meets (R a) Q E (f a))
      → Ends Q E (proceed f r)
  proceed-Ends R f (ok a, s) h hf = (hf a).at s h
  proceed-Ends R f (err e, s) h hf = h

module _ {S A : Type 0} {P : S → Type 0} {Q : A → S → Type 0} {E : S → Type 0} where
  pub Meets-give : (a : A) → ((s : S) → P s → Q a s) → Meets P Q E (give a)
  Meets-give a h = record { at = h }

  pub Meets-throw : (e : Fault) → ((s : S) → P s → E s) → Meets P Q E (throw e)
  Meets-throw e h = record { at = h }

  -- from fewer states
  pub Meets-from :
      {P' : S → Type 0} (m : Action S A) → ((s : S) → P' s → P s) → Meets P Q E m → Meets P' Q E m
  Meets-from m le h = record { at = λ s p. h.at s (le s p) }

  -- the states after an exception are more
  pub Meets-raising :
      {E' : S → Type 0} (m : Action S A) → ((s : S) → E s → E' s) → Meets P Q E m → Meets P Q E' m
  Meets-raising {E'} m le h = record { at = λ s p. Ends-le Q le (m s) (h.at s p) }

  -- less of what is returned
  pub Meets-le :
      {Q' : A → S → Type 0} (m : Action S A)
      → ((a : A) (s : S) → Q a s → Q' a s)
      → Meets P Q E m
      → Meets P Q' E m
  Meets-le {Q'} m le h = record { at = λ s p. Ends-weaken E Q Q' le (m s) (h.at s p) }

  pub Meets-if :
      (b : Bool) (m n : Action S A)
      → Meets P Q E m
      → Meets P Q E n
      → Meets P Q E (if b then m else n)
  Meets-if true m n h h' = h
  Meets-if false m n h h' = h'

  pub Meets-try :
      (F : S → Type 0) (m : Action S A) (handler : Fault → Action S A)
      → Meets P Q F m
      → ((e : Fault) → Meets F Q E (handler e))
      → Meets P Q E (try m handler)
  unfolding try
  Meets-try F m handler h hs = record { at = λ s p. recover-Ends F handler (m s) (h.at s p) hs }

module _ {S A B : Type 0} {P : S → Type 0} {Q : B → S → Type 0} {E : S → Type 0} where
  pub Meets-bind :
      (R : A → S → Type 0) (m : Action S A) (f : A → Action S B)
      → Meets P R E m
      → ((a : A) → Meets (R a) Q E (f a))
      → Meets P Q E (m >>= f)
  unfolding ◌>>=◌
  Meets-bind R m f hm hf = record { at = λ s p. proceed-Ends R f (m s) (hm.at s p) hf }

  pub Meets-next :
      (R : S → Type 0) (m : Action S A) (n : Action S B)
      → Meets P (λ a. R) E m
      → Meets R Q E n
      → Meets P Q E (m >> n)
  unfolding ◌>>◌
  Meets-next R m n hm hn = record {
    at = λ s p. proceed-Ends (λ a. R) (λ a. n) (m s) (hm.at s p) (λ a. hn);
  }

pub Meets-writes :
    {S : Type 0} {P Q E : S → Type 0} (f : S → S)
    → ((s : S) → P s → Q (f s))
    → Meets P (λ u. Q) E (writes f)
Meets-writes f h = record { at = h }
