-- ===== src/Action.antt =====
-- Python functions that change a state and may raise: what was written before an exception stays
-- written. `expected` faults are those that the source names in its first `except` clause (TrapError,
-- ConnectionError, OSError), `unforeseen` any other Exception.
pub mod Ensures
pub mod Total
pub mod Cached
pub mod Keeping
pub mod Triples
use mikrotik_bot.Prelude.{
  Bool, true, false, List, [], ◌∷◌, ◌++◌, Option, none, some, Result, ok, err,
}

pub data Fault : Type 0 where
  expected unforeseen : Fault

abbrev pub Action : Type 0 → Type 0 → Type 0
Action S A = S → Result Fault A × S

module _ {S A : Type 0} where
  -- `return a`
  abbrev pub give : A → Action S A
  give a s = (ok a, s)

  abbrev pub throw : Fault → Action S A
  throw e s = (err e, s)

  abbrev pub reads : (S → A) → Action S A
  reads f s = (ok (f s), s)

  abbrev pub recover : (Fault → Action S A) → Result Fault A × S → Result Fault A × S
  recover handler (ok a, s) = (ok a, s)
  recover handler (err e, s) = handler e s

  -- try: m; except: handler
  unfoldable pub try : Action S A → (Fault → Action S A) → Action S A
  try m handler s = recover handler (m s)

module _ {S : Type 0} where
  abbrev pub writes : (S → S) → Action S (Unit {0})
  writes f s = (ok tt, f s)

module _ {S A B : Type 0} where
  abbrev pub proceed : (A → Action S B) → Result Fault A × S → Result Fault B × S
  proceed f (ok a, s) = f a s
  proceed f (err e, s) = (err e, s)

  infixl 10 ◌>>=◌ ◌>>◌
  unfoldable pub ◌>>=◌ : Action S A → (A → Action S B) → Action S B
  ◌>>=◌ m f s = proceed f (m s)

  unfoldable pub ◌>>◌ : Action S A → Action S B → Action S B
  ◌>>◌ m n s = proceed (λ _. n) (m s)

-- an action on a part of the state
unfoldable pub within : {S T A : Type 0} → (S → T) → (S → T → S) → Action T A → Action S A
within part set m s = let (r, t) = m (part s) in (r, set s t)

-- for x in xs: body
unfoldable pub for_each : {S A : Type 0} → List A → (A → Action S (Unit {0})) → Action S (Unit {0})
for_each [] body = give tt
for_each (x ∷ xs) body = body x >> for_each xs body

-- [f(x) for x in xs], with the effects of `f`
unfoldable pub collect : {S A B : Type 0} → List A → (A → Action S (List B)) → Action S (List B)
collect [] f = give []
collect (x ∷ xs) f = f x >>= λ here. collect xs f >>= λ rest. give (here ++ rest)
