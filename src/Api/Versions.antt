-- ===== src/Api/Versions.antt =====
-- core/mikrotik_api.py: that `get_version` never raises, and `get_userman_base_path`.
use Prim.Native.Char.{Char, code}
use Prim.Native.String.{[], ◌∷◌, ◌++◌}
use mikrotik_bot.Prelude.{
  ℕ, ◌≡◌, String, string_eq, Bool, false, ◌||◌, Option, none, some, [], ◌∷◌, if◌then◌else◌, ◌==◌,
  leb, nat_eqb, ℤ, pos, negsuc,
}
use mikrotik_bot.Action.{Action, give, ◌>>=◌}
use mikrotik_bot.Action.Total.{Total}
use mikrotik_bot.Client.{Texts}
use mikrotik_bot.RouterKey.Digits.{number}
use mikrotik_bot.Api.{Gateway, State, get_version}

-- s.split(".")[0]
unfoldable pub first_part : String → String
first_part [] = ""
first_part (c ∷ s) = let rest = first_part s in if nat_eqb (code c) 46 then "" else c ∷ rest

-- int(…) >= 7, where int does not raise
abbrev pub is_at_least_7 : Option ℤ → Bool
is_at_least_7 none = false
is_at_least_7 (some (pos n)) = leb 7 n
is_at_least_7 (some (negsuc n)) = false

abbrev pub is_unknown : String → Bool
is_unknown version = (version == "") || (version == "unknown")

-- the rest of `get_userman_base_path`
unfoldable pub base_path_of : Texts → String → String
unfolding string_eq
base_path_of text version =
    if is_unknown version
    then "tool/user-manager"
    else if is_at_least_7 (text.int (first_part version))
    then "user-manager"
    else "tool/user-manager"

-- what the text of a version tells: its number before the first point, if it is known
pub data Says : String → Option ℕ → Type 0 where
  blank : Says "" none
  unknown : Says "unknown" none
  whole : (major : String) (n : ℕ) → number major ≡ some n → Says major (some n)
  dotted :
      (major rest : String) (n : ℕ) → number major ≡ some n → Says (major ++ ("." ++ rest)) (some n)

-- the path of the user manager since version 7, and the one before
abbrev pub path_since_7 : Option ℕ → String
path_since_7 none = "tool/user-manager"
path_since_7 (some n) = if leb 7 n then "user-manager" else "tool/user-manager"

module _ {Api Info W : Type 0} (gateway : Gateway Api Info W) (k : String) where
  abbrev pub get_userman_base_path : Action (State Api W) String
  get_userman_base_path =
      get_version gateway k >>= λ version. give (base_path_of gateway.text version)
