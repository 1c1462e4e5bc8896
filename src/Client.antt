-- ===== src/Client.antt =====
-- core/mikrotik_client.py: the protocol through which the managers reach a router, and what else
-- they use of the outside. `W` is the state of the world that these calls read and change.
use mikrotik_bot.Prelude.{
  ℕ, String, Bool, true, not, Option, none, some, List, [], ◌∷◌, ◌==◌, get_or, if◌then◌else◌,
  string_eq, ℤ,
}
use Prim.Native.String.{[], ◌∷◌}
use text.Mathlib.Text.{starts_with}
use mikrotik_bot.Dict.{Dict, get}
use mikrotik_bot.Action.{Action}

-- RouterOSRow: a row of an answer, and the arguments of a command, as their texts
abbrev pub Row : Type 0
Row = Dict String String

pub record Client (W : Type 0) : Type 0 where
  -- router key, command, arguments
  pub execute : String → String → Row → Action W (List Row)
  pub execute_long : String → String → Row → Action W (List Row)
  pub get_userman_base_path : String → Action W String
  pub get_router_name : String → Action W String

-- the database's log of actions, the clock and the random digits of `secrets`
pub record Outside (W : Type 0) : Type 0 where
  pub client : Client W
  pub log_action : String → String → String → ℕ → Action W (Unit {0})
  pub time : W → ℕ × W
  pub timestamp : String → W → String × W
  pub random_digits : ℕ → W → String × W

-- Python's methods on texts, which follow the tables of Unicode: `s.lower()`, `s.strip()` and `int(s)`
pub record Texts : Type 0 where
  pub lower : String → String
  pub strip : String → String
  pub int : String → Option ℤ

-- whether a text, or a field that may be missing, is true in Python
abbrev pub is_text : String → Bool
is_text s = not (s == "")

-- `a or b or … or ""` of fields that may be missing
unfoldable pub first_text : List (Option String) → String
first_text [] = ""
first_text (none ∷ rest) = first_text rest
first_text (some s ∷ rest) = let others = first_text rest in if is_text s then s else others

-- `str(row.get(field))`: a missing field reads `None`
abbrev pub str_get : Row → String → String
str_get row field = get_or (get row field) "None"

-- needle in text
unfoldable pub occurs_in : String → String → Bool
occurs_in needle [] = needle == ""
occurs_in needle (c ∷ text) =
    let later = occurs_in needle text in if starts_with (c ∷ text) needle then true else later
