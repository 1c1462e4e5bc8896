-- ===== src/Validators.antt =====
-- utils/validators.py: the checks and the cleaning of what users type in. Messages are left out.
pub mod Comments
pub mod Checks
use Prim.Native.Char.{Char, char, code}
use Prim.Native.String.{[], ◌∷◌}
use mikrotik_bot.Prelude.{
  ℕ, zero, suc, String, Bool, true, false, ◌&&◌, ◌||◌, not, leb, ltb, nat_eqb, if◌then◌else◌,
}
use mikrotik_bot.Client.{Texts, is_text}

abbrev pub blank : Char
blank = char 32 tt

-- [\x00-\x08\x0b\x0c\x0e-\x1f\x7f]
abbrev pub is_control : ℕ → Bool
is_control n = leb n 8 || nat_eqb n 11 || nat_eqb n 12 || (leb 14 n && leb n 31) || nat_eqb n 127

-- re.sub(control, "", s)
unfoldable pub drop_controls : String → String
drop_controls [] = []
drop_controls (c ∷ s) = let rest = drop_controls s in if is_control (code c) then rest else c ∷ rest

-- s.replace("\n", " ").replace("\r", "").replace("\t", " ")
unfoldable pub replace_breaks : String → String
replace_breaks [] = []
replace_breaks (c ∷ s) =
    let rest = replace_breaks s in
    if nat_eqb (code c) 10 || nat_eqb (code c) 9
    then blank ∷ rest
    else if nat_eqb (code c) 13
    then rest
    else c ∷ rest

-- re.sub(r" +", " ", s), where `after` tells whether a blank has just been written
unfoldable pub collapse_blanks : Bool → String → String
collapse_blanks after [] = []
collapse_blanks after (c ∷ s) =
    let is_blank = nat_eqb (code c) 32 in
    let rest = collapse_blanks is_blank s in if is_blank && after then rest else c ∷ rest

-- s[:n]
unfoldable pub first_chars : ℕ → String → String
first_chars zero s = []
first_chars (suc n) [] = []
first_chars (suc n) (c ∷ s) = c ∷ first_chars n s

unfoldable pub sanitize_comment : Texts → String → ℕ → String
unfolding drop_controls replace_breaks collapse_blanks first_chars
sanitize_comment text comment max_length =
    if is_text comment
    then first_chars max_length
        (text.strip (collapse_blanks false (replace_breaks (drop_controls comment))))
    else ""
