-- ===== src/Action/Keeping.antt =====
-- Actions that keep a property of the state, with a rule for each way to build an action.
use mikrotik_bot.Prelude.{Bool, true, false, if◌then◌else◌, ◌≡◌, subst, sym, Result, ok, err}
use mikrotik_bot.Action.{
  Fault, Action, give, throw, writes, recover, try, proceed, ◌>>=◌, ◌>>◌, within,
}
use mikrotik_bot.Action.Ensures.{OnOk, Returns, Returns-any, Keeps}

module _ {S A : Type 0} {P : S → Type 0} where
  pub Keeps-give : (a : A) → Keeps P (give a)
  Keeps-give a = record { at = λ s h. h }

  pub Keeps-throw : (e : Fault) → Keeps {A = A} P (throw e)
  Keeps-throw e = record { at = λ s h. h }

  pub Keeps-if :
      (b : Bool) (m n : Action S A) → Keeps P m → Keeps P n → Keeps P (if b then m else n)
  Keeps-if true m n h h' = h
  Keeps-if false m n h h' = h'

  recover-keeps :
      (handler : Fault → Action S A) (r : Result Fault A × S)
      → P r.1
      → ((e : Fault) → Keeps P (handler e))
      → P (recover handler r).1
  recover-keeps handler (ok a, s) h hs = h
  recover-keeps handler (err e, s) h hs = (hs e).at s h

  pub Keeps-try :
      (m : Action S A) (handler : Fault → Action S A)
      → Keeps P m
      → ((e : Fault) → Keeps P (handler e))
      → Keeps P (try m handler)
  unfolding try
  Keeps-try m handler h hs = record { at = λ s p. recover-keeps handler (m s) (h.at s p) hs }

pub Keeps-writes :
    {S : Type 0} {P : S → Type 0} (f : S → S) → ((s : S) → P s → P (f s)) → Keeps P (writes f)
Keeps-writes f h = record { at = h }

-- an action on a part of the state, for a property of that part
pub Keeps-within :
    {S T A : Type 0} {P : T → Type 0} (part : S → T) (set : S → T → S) (m : Action T A)
    → ((s : S) (t : T) → part (set s t) ≡ t)
    → Keeps P m
    → Keeps (λ s. P (part s)) (within part set m)
unfolding within
Keeps-within {P = P} part set m same h = record {
  at = λ s p. subst P (sym (same s (m (part s)).1)) (h.at (part s) p);
}

module _ {S A B : Type 0} {P : S → Type 0} where
  proceed-keeps :
      (R : A → Type 0) (f : A → Action S B)
      → ((a : A) → R a → Keeps P (f a))
      → (r : Result Fault A × S) → OnOk R r.0
      → P r.1
      → P (proceed f r).1
  proceed-keeps R f h (ok a, s) ha p = (h a ha).at s p
  proceed-keeps R f h (err e, s) ha p = p

  -- the rest may use what the first action guarantees
  pub Keeps-bind :
      (R : A → Type 0) (m : Action S A) (f : A → Action S B)
      → Keeps P m
      → Returns R m
      → ((a : A) → R a → Keeps P (f a))
      → Keeps P (m >>= f)
  unfolding ◌>>=◌
  Keeps-bind R m f hm hr hf = record {
    at = λ s p. proceed-keeps R f hf (m s) (hr.at s) (hm.at s p);
  }

  pub Keeps-then :
      (m : Action S A) (f : A → Action S B)
      → Keeps P m
      → ((a : A) → Keeps P (f a))
      → Keeps P (m >>= f)
  Keeps-then m f hm hf = Keeps-bind (λ a. Unit) m f hm (Returns-any m) (λ a _. hf a)

  pub Keeps-next : (m : Action S A) (n : Action S B) → Keeps P m → Keeps P n → Keeps P (m >> n)
  unfolding ◌>>◌
  Keeps-next m n hm hn = record {
    at = λ s p.
        proceed-keeps (λ _. Unit) (λ _. n) (λ _ _. hn) (m s) ((Returns-any m).at s) (hm.at s p);
  }
