-- ===== src/RouterKey.antt =====
-- core/router_key.py: the key of a router, and the number that it carries.
pub mod Digits
pub mod RoundTrip
use Prim.Native.String.{◌++◌, [], ◌∷◌}
use text.Mathlib.Text.{starts_with}
use mikrotik_bot.Prelude.{
  ℕ, zero, suc, String, string_eq, Bool, Option, none, some, ℤ, if◌then◌else◌, is_some, ◌==◌,
}
use mikrotik_bot.Client.{Texts}
use mikrotik_bot.RouterKey.Digits.{decimal}

pub record RouterKey : Type 0 where
  pub raw : String
  pub db_id : Option ℤ

abbrev pub router_key_prefix : String
router_key_prefix = "discovered_"

-- raw[n:]
unfoldable pub from_char : ℕ → String → String
from_char zero raw = raw
from_char (suc n) [] = []
from_char (suc n) (c ∷ raw) = from_char n raw

-- RouterKey(raw)
unfoldable pub init : Texts → String → RouterKey
init text raw = record {
  raw = raw;
  db_id = if starts_with raw router_key_prefix then text.int (from_char 11 raw) else none;
}

unfoldable pub discovered : Texts → ℕ → RouterKey
discovered text db_id = init text (router_key_prefix ++ decimal db_id)

abbrev pub parse : Texts → String → RouterKey
parse text raw = init text raw

abbrev pub is_discovered : RouterKey → Bool
is_discovered key = is_some key.db_id

-- __eq__ on keys
abbrev pub equals_key : RouterKey → RouterKey → Bool
equals_key a b = a.raw == b.raw
