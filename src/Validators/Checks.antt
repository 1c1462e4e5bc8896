-- ===== src/Validators/Checks.antt =====
-- utils/validators.py: the checks of names, passwords, ports, positive numbers, byte limits and MAC
-- addresses. A check gives whether the value is valid; its message is left out. `is_alnum` is Python's
-- str.isalnum, which follows the tables of Unicode, and `parse_bytes` reads floats.
use Prim.Native.Char.{code}
use Prim.Native.String.{[], ◌∷◌, count}
use mikrotik_bot.Prelude.{
  String, Bool, false, ◌&&◌, ◌||◌, not, Option, none, some, leb, ltb, nat_eqb, if◌then◌else◌, ℤ,
  pos, negsuc,
}
use mikrotik_bot.Client.{Texts, is_text}

-- s.replace("_", "").replace("-", "").replace(":", "").replace(".", "")
unfoldable pub without_marks : String → String
without_marks [] = []
without_marks (c ∷ s) =
    let rest = without_marks s in
    if nat_eqb (code c) 95 || nat_eqb (code c) 45 || nat_eqb (code c) 58 || nat_eqb (code c) 46
    then rest
    else c ∷ rest

unfoldable pub validate_username : (String → Bool) → String → Bool
validate_username is_alnum username =
    leb 3 (count username) && leb (count username) 64 && is_alnum (without_marks username)

-- any(c in password for c in "\n\r\t")
unfoldable pub has_break : String → Bool
has_break [] = false
has_break (c ∷ s) = nat_eqb (code c) 10 || nat_eqb (code c) 13 || nat_eqb (code c) 9 || has_break s

unfoldable pub validate_password : String → Bool
validate_password password =
    leb 4 (count password) && leb (count password) 64 && not (has_break password)

abbrev pub is_port : Option ℤ → Bool
is_port none = false
is_port (some (pos n)) = leb 1 n && leb n 65535
is_port (some (negsuc n)) = false

unfoldable pub validate_port : Texts → String → Bool
validate_port text port = is_text port && is_port (text.int port)

abbrev pub is_positive_int : Option ℤ → Bool
is_positive_int none = false
is_positive_int (some (pos n)) = ltb 0 n
is_positive_int (some (negsuc n)) = false

unfoldable pub validate_positive_int : Texts → String → Bool
validate_positive_int text value = is_positive_int (text.int value)

-- the byte limit, where none stands for the ValueError
unfoldable pub validate_bytes_input : (String → Option String) → String → Option String
validate_bytes_input parse_bytes raw = if is_text raw then parse_bytes raw else some ""
