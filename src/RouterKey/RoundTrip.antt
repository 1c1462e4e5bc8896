-- ===== src/RouterKey/RoundTrip.antt =====
-- core/router_key.py: the number of a key that was made for it.
use Prim.Native.String.{◌++◌, [], ◌∷◌, count}
use text.Mathlib.Text.{starts_with}
use text.Mathlib.TextLemmas.{length-cons, nil-append, cons-append}
use text.Mathlib.TextEquality.{starts_with_iff}
use mikrotik_bot.Prelude.{ℕ, ◌≡◌, refl, String, string_eq, true, some, pos}
use mikrotik_bot.Client.{Texts}
use mikrotik_bot.RouterKey.{router_key_prefix, from_char, init, discovered, parse, is_discovered}
use mikrotik_bot.RouterKey.Digits.{decimal, number, number-decimal}

has_prefix : (s : String) → starts_with (router_key_prefix ++ s) router_key_prefix ≡ true
has_prefix s = (starts_with_iff (router_key_prefix ++ s) router_key_prefix).1 (s, refl)

pub from_char-append : (p s : String) → from_char (count p) (p ++ s) ≡ s
unfolding from_char
from_char-append [] s = nil-append s
from_char-append (c ∷ p) s = rw (length-cons c p, cons-append c p s) (from_char-append p s)

from_char-prefix : (s : String) → from_char 11 (router_key_prefix ++ s) ≡ s
from_char-prefix s = from_char-append router_key_prefix s

-- Let `int` read a text of ASCII digits as the decimal number. Then the key made for a number of the
-- database carries that number, is a discovered one, and is found again from its text.
pub db_id-discovered :
    (text : Texts) (n : ℕ)
    → ((s : String) (m : ℕ) → number s ≡ some m → text.int s ≡ some (pos m))
    → ((discovered text n).db_id ≡ some (pos n))
      × (is_discovered (discovered text n) ≡ true)
      × (parse text (discovered text n).raw ≡ discovered text n)
unfolding discovered init
db_id-discovered text n reads =
    let found : (discovered text n).db_id ≡ some (pos n) =
      rw (has_prefix (decimal n), from_char-prefix (decimal n))
        (reads (decimal n) n (number-decimal n)) in
    (found, rw found refl, refl)
