-- ===== src/Hotspot/Uptime.antt =====
-- core/hotspot_manager.py, `_parse_uptime_seconds`. Its patterns `(\d+)d` and so on are read on ASCII
-- digits, which the router writes.
use Prim.Native.Char.{Char, code}
use Prim.Native.String.{[], ◌∷◌}
use mikrotik_bot.Prelude.{
  ℕ, ◌+◌, ◌*◌, ◌-◌, String, Bool, ◌&&◌, ◌||◌, Option, none, some, List, [], ◌∷◌, leb, nat_eqb,
  if◌then◌else◌, ℤ, pos, negsuc, ◌+ℤ◌, get_or, is_some, zero, suc,
}
use mikrotik_bot.Client.{Texts, is_text}

abbrev pub is_digit : ℕ → Bool
is_digit n = leb 48 n && leb n 57

-- the digit of code n after the number that was read before it
abbrev pub with_digit : Option ℕ → ℕ → ℕ
with_digit number n = get_or number 0 * 10 + (n - 48)

-- re.search(r"(\d+)u", val), for the character `u`: the first number right before a `u`
unfoldable pub number_before : ℕ → Option ℕ → String → Option ℕ
number_before u number [] = none
number_before u number (c ∷ val) =
    let longer = number_before u (some (with_digit number (code c))) val in
    let other = number_before u none val in
    if is_digit (code c)
    then longer
    else if nat_eqb (code c) u && is_some number
    then number
    else other

-- val.split(":")
unfoldable pub split_colons : String → List String
split_colons [] = [] ∷ []
split_colons (c ∷ val) =
    let rest = split_colons val in if nat_eqb (code c) 58 then [] ∷ rest else on_first c rest
  where
    on_first : Char → List String → List String
    on_first c [] = (c ∷ []) ∷ []
    on_first c (part ∷ parts) = (c ∷ part) ∷ parts

abbrev pub times : ℕ → ℤ → ℤ
times n (pos m) = pos (n * m)
times zero (negsuc m) = pos 0
times (suc n) (negsuc m) = negsuc (n * (m + 1) + m)

-- a·x + y, where both are given
abbrev pub combine : ℕ → Option ℤ → Option ℤ → Option ℤ
combine n (some x) (some y) = some (times n x +ℤ y)
combine n (some x) none = none
combine n none y = none

-- the last part of the function: `HH:MM:SS`, `MM:SS` or a number; any ValueError gives 0
unfoldable pub colon_seconds : Texts → String → ℤ
unfolding split_colons
colon_seconds text val =
    get_or
      (elim (split_colons val) [
        | h ∷ m ∷ s ∷ [] ↦ combine 3600 (text.int h) (combine 60 (text.int m) (text.int s))
        | m ∷ s ∷ [] ↦ combine 60 (text.int m) (text.int s)
        | _ ↦ text.int val
      ])
      (pos 0)

unfoldable pub parse_uptime_seconds : Texts → String → ℤ
unfolding number_before colon_seconds
parse_uptime_seconds text val =
    let days = number_before 100 none val in
    let hours = number_before 104 none val in
    let minutes = number_before 109 none val in
    let seconds = number_before 115 none val in
    if is_some days || is_some hours || is_some minutes || is_some seconds
    then pos
        (get_or days 0 * 86400 + get_or hours 0 * 3600 + get_or minutes 0 * 60 + get_or seconds 0)
    else if is_text val
    then colon_seconds text val
    else pos 0
