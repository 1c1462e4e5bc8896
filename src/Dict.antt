-- ===== src/Dict.antt =====
-- Python's `dict` and `OrderedDict`: the entries in the order of insertion.
pub mod Recency
use mikrotik_bot.Prelude.{
  ◌≡◌, refl, ◌≢◌, Option, none, some, List, [], ◌∷◌, true, arith, Eq, ◌==◌, if◌then◌else◌,
}

-- `abbrev`, since the program iterates over its dictionaries.
abbrev pub Dict {ℓ κ} : Type ℓ → Type κ → Type (ℓ ⊔ κ)
Dict K V = List (K × V)

module _ {ℓ κ} {K : Type ℓ} {V : Type κ} ⦃e : Eq K⦄ where
  -- d.get(k)
  unfoldable pub get : Dict K V → K → Option V
  get [] k = none
  get ((j, v) ∷ d) k = if j == k then some v else get d k

  -- d[k] = v: a key that is there keeps its place
  unfoldable pub set : Dict K V → K → V → Dict K V
  set [] k v = (k, v) ∷ []
  set ((j, w) ∷ d) k v = if j == k then (k, v) ∷ d else (j, w) ∷ set d k v

  -- d.pop(k, None)
  unfoldable pub pop : Dict K V → K → Dict K V
  pop [] k = []
  pop ((j, w) ∷ d) k = let rest = pop d k in if j == k then rest else (j, w) ∷ rest

  pub get-set :
      (d : Dict K V) (k j : K) (v : V) → get (set d k v) j ≡ (if k == j then some v else get d j)
  unfolding get set
  get-set [] k j v = refl
  get-set ((i, w) ∷ d) k j v =
      ground (arith, e.equals_iff k j, e.equals_iff i k, e.equals_iff i j, get-set d k j v)

  pub get-pop : (d : Dict K V) (k j : K) → get (pop d k) j ≡ (if k == j then none else get d j)
  unfolding get pop
  get-pop [] k j = ground arith
  get-pop ((i, w) ∷ d) k j =
      ground (arith, get-pop d k j, e.equals_iff i k, e.equals_iff i j, e.equals_iff k j)

pub ==_refl {ℓ} : {K : Type ℓ} ⦃e : Eq K⦄ (k : K) → (k == k) ≡ true
==_refl ⦃e⦄ k = (e.equals_iff k k).1 refl

module _ {ℓ κ} {K : Type ℓ} {V : Type κ} ⦃e : Eq K⦄ where
  pub get-set_self : (d : Dict K V) (k : K) (v : V) → get (set d k v) k ≡ some v
  get-set_self d k v = rw (get-set, ==_refl)

  pub get-pop_self : (d : Dict K V) (k : K) → get (pop d k) k ≡ none
  get-pop_self d k = rw (get-pop, ==_refl)

  pub get-set_ne : (d : Dict K V) (k j : K) (v : V) → k ≢ j → get (set d k v) j ≡ get d j
  get-set_ne d k j v h = ground (arith, get-set d k j v, e.equals_iff k j)

  pub get-pop_ne : (d : Dict K V) (k j : K) → k ≢ j → get (pop d k) j ≡ get d j
  get-pop_ne d k j h = ground (arith, get-pop d k j, e.equals_iff k j)

pub ruleset dict_laws = (get-set, get-pop)

pub ruleset self_laws = (get-set_self, get-pop_self)

pub ruleset other_laws = (get-set_ne, get-pop_ne)
