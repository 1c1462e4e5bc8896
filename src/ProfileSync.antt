-- ===== src/ProfileSync.antt =====
-- core/profile_sync.py, `ProfileSync`: the names of the user manager's profiles.
use Prim.Native.String.{◌++◌ as ◌⧺◌}
use mikrotik_bot.Prelude.{
  ◌≡◌, String, string_eq, true, List, [], ◌∷◌, get_or, if◌then◌else◌, Bool-cases, inl, inr,
}
use mikrotik_bot.Dict.{get}
use mikrotik_bot.Action.{Action, give, try, ◌>>=◌}
use mikrotik_bot.Action.Ensures.{Returns-any, Returns-bind, Returns-give}
use mikrotik_bot.Action.Total.{Total, Total-give, Total-try}
use mikrotik_bot.Client.{Client, Row, is_text}

-- [str(r.get("name", "")) for r in results if r.get("name")]
unfoldable pub profile_names_of : List Row → List String
profile_names_of [] = []
profile_names_of (r ∷ results) =
    let rest = profile_names_of results in
    let name = get_or (get r "name") "" in if is_text name then name ∷ rest else rest

-- both except clauses
unfoldable pub get_userman_profiles : {W : Type 0} → Client W → String → Action W (List String)
get_userman_profiles client k =
    try
      (do
        base_path ← client.get_userman_base_path k
        results ← client.execute k (base_path ⧺ "/profile/print") []
        give (profile_names_of results))
      (λ e. give [])

abbrev AreNamed : List String → Type 0
AreNamed [] = Unit {0}
AreNamed (name ∷ names) = (is_text name ≡ true) × AreNamed names

profile_names_of-AreNamed : (results : List Row) → AreNamed (profile_names_of results)
unfolding profile_names_of
profile_names_of-AreNamed [] = tt
profile_names_of-AreNamed (r ∷ results) = elim (Bool-cases (is_text (get_or (get r "name") ""))) [
  | inl e ↦ rw e (e, profile_names_of-AreNamed results)
  | inr e ↦ rw e (profile_names_of-AreNamed results)
]

-- Whatever the router and the look-up of its version do, the call returns a list of names, none of
-- which is empty.
get_userman_profiles-Total :
    {W : Type 0} (client : Client W) (k : String) → Total AreNamed (get_userman_profiles client k)
unfolding get_userman_profiles
get_userman_profiles-Total client k =
    Total-try _ _
      (Returns-bind _ _ _ (Returns-any _) λ base_path _.
        Returns-bind _ _ _ (Returns-any _)
          λ results _. Returns-give _ (profile_names_of-AreNamed results))
      λ e. Total-give [] tt
