-- ===== src/Hosts/Kicks.antt =====
-- core/hotspot_search.py: what `kick_host` and `kick_user` report.
use mikrotik_bot.Prelude.{
  ◌≡◌, String, string_eq, Bool, true, false, Option, none, some, List, [], ◌∷◌, All, contains,
}
use mikrotik_bot.Dict.{Dict}
use mikrotik_bot.Action.{Action}
use mikrotik_bot.Client.{Client, Texts}

-- no element twice
unfoldable pub AreDistinct : List String → Type 0
AreDistinct [] = Unit
AreDistinct (name ∷ names) = (contains names name ≡ false) × AreDistinct names

module _ {W : Type 0} (api : Client W) (text : Texts) (k : String) (P : String → W → Type 0) where
  abbrev pub Holds : W → Type 0
  Holds w = Unit {0}

  -- the names have `P`
  abbrev pub AllHave : List String → W → Type 0
  AllHave names w = All (λ name. P name w) names

  -- no name is given without a host, and one that is given has `P`
  abbrev pub IsReport : Bool × Option String → W → Type 0
  IsReport (false, name) w = name ≡ none
  IsReport (true, none) w = ⊥
  IsReport (true, some name) w = P name w
