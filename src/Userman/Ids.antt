-- ===== src/Userman/Ids.antt =====
-- core/userman_manager.py, `_get_user_id`: whose id it finds.
use Prim.Native.String.{◌++◌}
use mikrotik_bot.Prelude.{
  ◌≡◌, ap, String, Bool, true, ◌⊎◌, inl, inr, Option, none, some, List, [], ◌∷◌, ok, Bool-cases,
  Option-cases, Any, Any-le,
}
use mikrotik_bot.Action.{give}
use mikrotik_bot.Action.Ensures.{
  Returns, Returns-self, Returns-give, Returns-le, Returns-try, Returns-bind,
}
use mikrotik_bot.Client.{Row, Outside}
use mikrotik_bot.Userman.{
  UserManager, user_field, first_row, has_name, execute, base_path_of, get_all_users_cached,
}
use mikrotik_bot.Userman.Lookup.{
  id_of, found_id, filtered_id, listed_id, if_missing, look_up, get_user_id,
}

-- the first row that a test accepts is a row that it accepts
pub first_row-Any :
    (p : Row → Bool) (rows : List Row) (row : Row)
    → first_row p rows ≡ some row
    → Any (λ x. (p x ≡ true) × (x ≡ row)) rows
unfolding first_row
first_row-Any p [] row h = cc h
first_row-Any p (x ∷ xs) row h = elim (Bool-cases (p x)) [
  | inl accepts ↦ inl (accepts, cc (accepts, h))
  | inr rejects ↦ inr (first_row-Any p xs row (cc (rejects, h)))
]

-- a row of the name has the id
abbrev pub NamesId : String → String → List Row → String → Type 0
NamesId field username rows uid =
    Any (λ row. (has_name field username row ≡ true) × (id_of row ≡ uid)) rows

abbrev pub HasId : String → String → List Row → Option String → Type 0
HasId field username rows none = Unit
HasId field username rows (some uid) = NamesId field username rows uid

found_id-HasId :
    (field username : String) (rows : List Row)
    → HasId field username rows (found_id field username rows)
unfolding found_id
found_id-HasId field username rows =
    elim (Option-cases (first_row (has_name field username) rows)) [
      | inl missing ↦ rw (missing, HasId) tt
      | inr (row, found) ↦
          rw (found, HasId)
            (Any-le _ _ (λ x h. (h.0, ap id_of h.1)) rows
              (first_row-Any (has_name field username) rows row found))
    ]

module _ {W : Type 0} (out : Outside W) (k : String) where
  -- rows that the router's user list gave, or the cached list
  abbrev pub Listed : String → List Row → Type 0
  Listed base_path rows =
      ((args : Row) × (t : UserManager W) × ((execute out k (base_path ++ "/user/print") args t).0
          ≡ ok rows))
      ⊎ ((t : UserManager W) × ((get_all_users_cached out k base_path t).0 ≡ ok rows))

  -- the id found is that of a listed row of the name
  abbrev pub IsIdOf : String → String → Option String → Type 0
  IsIdOf base_path username none = Unit
  IsIdOf base_path username (some uid) =
      (rows : List Row) × Listed base_path rows × NamesId (user_field base_path) username rows uid

  HasId-IsIdOf :
      (base_path username : String) (rows : List Row) (uid : Option String)
      → Listed base_path rows
      → HasId (user_field base_path) username rows uid
      → IsIdOf base_path username uid
  HasId-IsIdOf base_path username rows none l h = tt
  HasId-IsIdOf base_path username rows (some uid) l h = (rows, l, h)

  found :
      (base_path username : String) (rows : List Row)
      → Listed base_path rows
      → Returns {S = UserManager W}
          (IsIdOf base_path username)
          (give (found_id (user_field base_path) username rows))
  found base_path username rows l = Returns-give _ (
      HasId-IsIdOf base_path username rows _ l
        (found_id-HasId (user_field base_path) username rows))

  filtered_id-IsIdOf :
      (base_path username : String)
      → Returns (IsIdOf base_path username) (filtered_id out k base_path username)
  unfolding filtered_id
  filtered_id-IsIdOf base_path username =
      Returns-try _ _
        (Returns-bind _ _ _ (Returns-self _)
          λ rows asked. found base_path username rows (inl (_, asked.0, asked.1)))
        λ e. Returns-give none tt

  listed_id-IsIdOf :
      (base_path username : String)
      → Returns (IsIdOf base_path username) (listed_id out k base_path username)
  unfolding listed_id
  listed_id-IsIdOf base_path username =
      Returns-try _ _
        (Returns-bind _ _ _ (Returns-self _)
          λ rows asked. found base_path username rows (inr asked))
        λ e. Returns-give none tt

  if_missing-IsIdOf :
      (base_path username : String) (uid : Option String)
      → IsIdOf base_path username uid
      → Returns
          (IsIdOf base_path username)
          (if_missing out k (listed_id out k base_path username) uid)
  if_missing-IsIdOf base_path username none h = listed_id-IsIdOf base_path username
  if_missing-IsIdOf base_path username (some i) h = Returns-give (some i) h

  look_up-IsIdOf :
      (base_path username : String)
      → Returns (IsIdOf base_path username) (look_up out k base_path username)
  unfolding look_up
  look_up-IsIdOf base_path username =
      Returns-bind _ _ _ (filtered_id-IsIdOf base_path username)
        (if_missing-IsIdOf base_path username)

  -- An id that `_get_user_id` returns is the `.id` of a row whose name is the one asked for, under
  -- the field that the router's version has for it, among rows that the router's user list
  -- answered or that the cached list holds.
  pub get_user_id_sound :
      (username : String)
      → Returns
          (λ uid.
            (base_path : String) × (t : UserManager W) × ((base_path_of out k t).0 ≡ ok base_path)
            × IsIdOf base_path username uid)
          (get_user_id out k username)
  unfolding get_user_id
  get_user_id_sound username = Returns-bind _ _ _ (Returns-self _) λ base_path read.
      Returns-le _ (look_up-IsIdOf base_path username) λ uid h. (base_path, read.0, read.1, h)
