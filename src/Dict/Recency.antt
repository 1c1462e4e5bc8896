-- ===== src/Dict/Recency.antt =====
-- `OrderedDict` kept in the order of use: `move_to_end`, `popitem(last=False)`, how many entries
-- were used after a key, and that no key stands twice.
use mikrotik_bot.Prelude.{
  ℕ, ◌+◌, ◌≤◌, ◌<◌, ◌≡◌, ◌≢◌, refl, Option, none, some, [], ◌∷◌, ◌++◌, arith, Eq, ◌==◌,
  if◌then◌else◌, length, length-append, leb, Bool-cases, inl, inr, ◌∙◌,
}
use mikrotik_bot.Dict.{Dict, get, set, pop, get-set, get-pop, get-pop_self, get-pop_ne}

module _ {ℓ κ} {K : Type ℓ} {V : Type κ} ⦃e : Eq K⦄ where
  -- a new key goes to the end
  abbrev pub append : Dict K V → K → V → Dict K V
  append d k v = d ++ (k, v) ∷ []

  -- d.move_to_end(k)
  unfoldable pub move_to_end : Dict K V → K → Dict K V
  move_to_end d k = elim (get d k) [ none ↦ d | some v ↦ append (pop d k) k v ]

  -- d.popitem(last=False), which raises on an empty dictionary
  abbrev pub popitem_first : Dict K V → Option (Dict K V)
  popitem_first [] = none
  popitem_first (x ∷ d) = some d

  unfoldable pub rank : Dict K V → K → ℕ
  rank [] k = 0
  rank ((j, v) ∷ d) k = if j == k then length d else rank d k

  abbrev pub IsDistinct : Dict K V → Type κ
  IsDistinct [] = Unit
  IsDistinct ((j, v) ∷ d) = (get d j ≡ none) × IsDistinct d

  pub get-append :
      (d : Dict K V) (k j : K) (v : V)
      → get d k ≡ none
      → get (append d k v) j ≡ (if k == j then some v else get d j)
  unfolding get
  get-append [] k j v h = refl
  get-append ((i, w) ∷ d) k j v h =
      ground (arith, e.equals_iff i j, e.equals_iff i k, e.equals_iff k j, get-append d k j v)

  pub rank-append_self : (d : Dict K V) (k : K) (v : V) → get d k ≡ none → rank (append d k v) k ≡ 0
  unfolding get rank
  rank-append_self [] k v h = ground arith
  rank-append_self ((i, w) ∷ d) k v h = ground (arith, rank-append_self d k v)

  pub rank-append :
      (d : Dict K V) (k j : K) (v u : V) → get d j ≡ some u → rank (append d k v) j ≤ rank d j + 1
  unfolding get rank
  rank-append [] k j v u h = ground arith
  rank-append ((i, w) ∷ d) k j v u h =
      ground (arith, rank-append d k j v u, length-append d ((k, v) ∷ []))

  pub length-pop-le : (d : Dict K V) (k : K) → length (pop d k) ≤ length d
  unfolding pop
  length-pop-le [] k = omega arith
  length-pop-le ((i, w) ∷ d) k = ground (arith, length-pop-le d k)

  pub rank-pop-le : (d : Dict K V) (k j : K) → k ≢ j → rank (pop d k) j ≤ rank d j
  unfolding pop rank
  rank-pop-le [] k j h = omega arith
  rank-pop-le ((i, w) ∷ d) k j h =
      ground (arith, rank-pop-le d k j h, length-pop-le d k, e.equals_iff i k, e.equals_iff i j)

  pub length-pop : (d : Dict K V) (k : K) (v : V) → get d k ≡ some v → length (pop d k) < length d
  unfolding get pop
  length-pop [] k v h = absurd (ground arith)
  length-pop ((i, w) ∷ d) k v h = ground (arith, length-pop d k v, length-pop-le d k)

  pub pop-IsDistinct : (d : Dict K V) (k : K) → IsDistinct d → IsDistinct (pop d k)
  unfolding pop
  pop-IsDistinct [] k h = tt
  pop-IsDistinct ((i, w) ∷ d) k h =
      ground (arith, pop-IsDistinct d k h.1, get-pop d k i, e.equals_iff i k, e.equals_iff k i)

  pub append-IsDistinct :
      (d : Dict K V) (k : K) (v : V) → get d k ≡ none → IsDistinct d → IsDistinct (append d k v)
  unfolding get
  append-IsDistinct [] k v h distinct = (refl, tt)
  append-IsDistinct ((i, w) ∷ d) k v h distinct =
      ground
        (arith, append-IsDistinct d k v, get-append d k i v, e.equals_iff i k, e.equals_iff k i)

  pub set-IsDistinct : (d : Dict K V) (k : K) (v : V) → IsDistinct d → IsDistinct (set d k v)
  unfolding set get
  set-IsDistinct [] k v h = (refl, tt)
  set-IsDistinct ((i, w) ∷ d) k v h =
      ground (arith, set-IsDistinct d k v h.1, get-set d k i v, e.equals_iff i k, e.equals_iff k i)

  -- what is not first survives the removal of the first
  pub get-popitem_first :
      (d rest : Dict K V) (k : K)
      → popitem_first d ≡ some rest
      → rank d k + 1 < length d
      → (get rest k ≡ get d k) × (rank rest k ≡ rank d k)
  unfolding get rank
  get-popitem_first [] rest k h far = absurd (ground arith)
  get-popitem_first ((i, w) ∷ d) rest k h far = ground arith

  pub set_absent : (d : Dict K V) (k : K) (v : V) → get d k ≡ none → set d k v ≡ append d k v
  unfolding get set
  set_absent [] k v h = refl
  set_absent ((i, w) ∷ d) k v h = ground (arith, set_absent d k v)

  -- a used key: taken out and put at the end
  abbrev pub touch : Dict K V → K → V → Dict K V
  touch d k v = append (pop d k) k v

  -- `elif len(d) >= max_size: d.popitem(last=False)`
  unfoldable pub make_room : ℕ → Dict K V → Option (Dict K V)
  make_room max_size d = if leb max_size (length d) then popitem_first d else some d

module _ {ℓ κ} {K : Type ℓ} {V : Type κ} ⦃e : Eq K⦄ (d : Dict K V) (k : K) (v : V) where
  pub get-touch : (j : K) → get (touch d k v) j ≡ (if k == j then some v else get d j)
  get-touch j = ground (arith, get-append (pop d k) k j v (get-pop_self d k), get-pop d k j)

  pub rank-touch_self : rank (touch d k v) k ≡ 0
  rank-touch_self = rank-append_self (pop d k) k v (get-pop_self d k)

  pub rank-touch : (j : K) (u : V) → k ≢ j → get d j ≡ some u → rank (touch d k v) j ≤ rank d j + 1
  rank-touch j u other h =
      omega
        (arith, rank-append (pop d k) k j v u (get-pop_ne d k j other ∙ h), rank-pop-le d k j other)

  pub touch-IsDistinct : IsDistinct d → IsDistinct (touch d k v)
  touch-IsDistinct h = append-IsDistinct (pop d k) k v (get-pop_self d k) (pop-IsDistinct d k h)

  pub length-touch : (u : V) → get d k ≡ some u → length (touch d k v) ≤ length d
  length-touch u h = omega (arith, length-append (pop d k) ((k, v) ∷ []), length-pop d k u h)

module _ {ℓ κ} {K : Type ℓ} {V : Type κ} ⦃e : Eq K⦄ (max_size : ℕ) where
  -- Room is made for one more entry, and no key comes twice.
  pub make_room_lem :
      (d : Dict K V)
      → 0 < max_size
      → length d ≤ max_size
      → IsDistinct d
      → (d' : Dict K V) × (make_room max_size d ≡ some d') × (length d' < max_size) × IsDistinct d'
  unfolding make_room
  make_room_lem [] pos fits distinct = ([], ground arith, omega arith, tt)
  make_room_lem (x ∷ d) pos fits distinct = elim (Bool-cases (leb max_size (length (x ∷ d)))) [
    | inl full ↦ (d, rw full, omega arith, distinct.1)
    | inr some_left ↦ (x ∷ d, rw some_left, ground arith, distinct)
  ]

  pub get-make_room :
      (d d' : Dict K V) (j : K)
      → make_room max_size d ≡ some d'
      → rank d j + 1 < max_size
      → (get d' j ≡ get d j) × (rank d' j ≡ rank d j)
  unfolding make_room
  get-make_room d d' j h far = elim (Bool-cases (leb max_size (length d))) [
    | inl full ↦ get-popitem_first d d' j (ground arith) (ground arith)
    | inr some_left ↦ ground arith
  ]

  pub get-none-make_room :
      (d d' : Dict K V) (j : K) → make_room max_size d ≡ some d' → get d j ≡ none → get d' j ≡ none
  unfolding make_room get
  get-none-make_room [] d' j h absent = ground arith
  get-none-make_room (x ∷ d) d' j h absent = ground arith

pub move_to_end-touch {ℓ κ} :
    {K : Type ℓ} {V : Type κ} ⦃e : Eq K⦄ (d : Dict K V) (k : K) (v : V)
    → get d k ≡ some v
    → move_to_end d k ≡ touch d k v
unfolding move_to_end
move_to_end-touch d k v h = rw (h, move_to_end)

pub set-append {ℓ κ} :
    {K : Type ℓ} {V : Type κ} ⦃e : Eq K⦄ (d : Dict K V) (k : K) (v w : V)
    → get d k ≡ none
    → set (append d k v) k w ≡ append d k w
unfolding get set
set-append ⦃e⦄ [] k v w h = ground (arith, e.equals_iff k k)
set-append ((i, u) ∷ d) k v w h = ground (arith, set-append d k v w)
