-- ===== src/Validators/Comments.antt =====
-- utils/validators.py: what a sanitised comment can hold.
use Prim.Native.Char.{code}
use Prim.Native.String.{[], ◌∷◌, count}
use text.Mathlib.TextLemmas.{length-nil, length-cons}
use mikrotik_bot.Prelude.{
  ℕ, zero, suc, ◌≤◌, ◌≡◌, String, Bool, true, false, ◌&&◌, ◌||◌, arith, Bool-cases, ◌==◌, string_eq,
  inl, inr, nat_eqb, not, leb, refl,
}
use mikrotik_bot.Client.{Texts}
use mikrotik_bot.Validators.{
  is_control, drop_controls, replace_breaks, collapse_blanks, first_chars, sanitize_comment,
}

-- every character's number satisfies a test
unfoldable pub Each : (ℕ → Bool) → String → Type 0
Each p [] = Unit
Each p (c ∷ s) = (p (code c) ≡ true) × Each p s

-- no control character of ASCII
abbrev pub is_visible : ℕ → Bool
is_visible n = not (leb n 31 || nat_eqb n 127)

abbrev is_kept : ℕ → Bool
is_kept n = not (is_control n)

drop_controls-Each : (s : String) → Each is_kept (drop_controls s)
unfolding drop_controls Each
drop_controls-Each [] = tt
drop_controls-Each (c ∷ s) = elim (Bool-cases (is_control (code c))) [
  | inl control ↦ rw control (drop_controls-Each s)
  | inr other ↦ rw other (rw other refl, drop_controls-Each s)
]

replace_breaks-Each : (s : String) → Each is_kept s → Each is_visible (replace_breaks s)
unfolding replace_breaks Each
replace_breaks-Each [] h = tt
replace_breaks-Each (c ∷ s) (h, hs) = ground (arith, replace_breaks-Each s hs)

collapse_blanks-Each :
    (p : ℕ → Bool) (after : Bool) (s : String) → Each p s → Each p (collapse_blanks after s)
unfolding collapse_blanks Each
collapse_blanks-Each p after [] h = tt
collapse_blanks-Each p after (c ∷ s) (h, hs) = elim (Bool-cases (nat_eqb (code c) 32 && after)) [
  | inl dropped ↦ rw dropped (collapse_blanks-Each p (nat_eqb (code c) 32) s hs)
  | inr kept ↦ rw kept (h, collapse_blanks-Each p (nat_eqb (code c) 32) s hs)
]

first_chars-Each : (p : ℕ → Bool) (n : ℕ) (s : String) → Each p s → Each p (first_chars n s)
unfolding first_chars Each
first_chars-Each p zero s h = tt
first_chars-Each p (suc n) [] h = tt
first_chars-Each p (suc n) (c ∷ s) (h, hs) = (h, first_chars-Each p n s hs)

count-first_chars : (n : ℕ) (s : String) → count (first_chars n s) ≤ n
unfolding first_chars
count-first_chars zero s = omega (arith, length-nil)
count-first_chars (suc n) [] = omega (arith, length-nil)
count-first_chars (suc n) (c ∷ s) =
    omega (arith, count-first_chars n s, length-cons c (first_chars n s))

-- Let `strip` give only characters of its argument. Then a sanitised comment has at most `max_length`
-- characters, and none is a control character of ASCII, as the tab and the line breaks "\n" and "\r" are.
pub comment_is_clean :
    (text : Texts) (comment : String) (max_length : ℕ)
    → ((p : ℕ → Bool) (s : String) → Each p s → Each p (text.strip s))
    → Each is_visible (sanitize_comment text comment max_length)
      × (count (sanitize_comment text comment max_length) ≤ max_length)
unfolding sanitize_comment Each
comment_is_clean text comment max_length strips = elim (Bool-cases (comment == "")) [
  | inl empty ↦ rw empty (tt, omega (arith, length-nil))
  | inr given ↦ rw given (
    first_chars-Each is_visible max_length _ (
        strips is_visible _ (
          collapse_blanks-Each is_visible false _
            (replace_breaks-Each _ (drop_controls-Each comment)))),
    count-first_chars max_length _,
  )
]
