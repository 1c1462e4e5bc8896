-- ===== src/RouterKey/Digits.antt =====
-- The decimal text of a number, `f"{n}"`, and the number that a text of ASCII digits is.
use Prim.Native.Char.{Char, char, code, IsScalar}
use Prim.Native.String.{[], ◌∷◌}
use mikrotik_bot.Prelude.{
  ℕ, zero, suc, ◌+◌, ◌*◌, ◌-◌, ◌/◌, ◌%◌, ◌<◌, ◌≡◌, refl, ap, ◌∙◌, String, ◌&&◌, Option, none, some,
  ltb, leb, if◌then◌else◌, arith, Bool-cases, inl, inr, ltb→lt,
}

pub small-IsScalar : (n : ℕ) → n < 100 → IsScalar n
small-IsScalar n h = ground arith

-- the character of n's last digit
abbrev digit : ℕ → Char
digit n = char (48 + n % 10) (small-IsScalar (48 + n % 10) (omega arith))

-- the digits of n before a text, with the rounds that are left
digits_of : ℕ → ℕ → String → String
digits_of zero n s = s
digits_of (suc rounds) n s =
    let longer = digits_of rounds (n / 10) (digit n ∷ s) in if ltb n 10 then digit n ∷ s else longer

unfoldable pub decimal : ℕ → String
unfolding digits_of
decimal n = digits_of (suc n) n []

-- the number that the digits go on from `n` to
unfoldable pub digits_value : ℕ → String → Option ℕ
digits_value n [] = some n
digits_value n (c ∷ s) =
    let rest = digits_value (n * 10 + (code c - 48)) s in
    if leb 48 (code c) && leb (code c) 57 then rest else none

-- a text of one ASCII digit or more
unfoldable pub number : String → Option ℕ
unfolding digits_value
number [] = none
number (c ∷ s) = digits_value 0 (c ∷ s)

digits_value-digit :
    (n d : ℕ) (s : String) → digits_value n (digit d ∷ s) ≡ digits_value (n * 10 + d % 10) s
unfolding digits_value
digits_value-digit n d s = ground arith

value_at : (s : String) (m n : ℕ) → m ≡ n → digits_value m s ≡ digits_value n s
value_at s m n e = ap (λ k. digits_value k s) e

digits_value-digits_of :
    (rounds n : ℕ) (s : String)
    → n < rounds
    → digits_value 0 (digits_of rounds n s) ≡ digits_value n s
unfolding digits_of
digits_value-digits_of zero n s h = absurd (omega (arith, h))
digits_value-digits_of (suc rounds) n s h = elim (Bool-cases (ltb n 10)) [
  | inl last ↦
      rw last (
        digits_value-digit 0 n s ∙ value_at s (0 * 10 + n % 10) n (omega (arith, ltb→lt n 10 last)))
  | inr more ↦ rw more (
      digits_value-digits_of rounds (n / 10) (digit n ∷ s) (ground (arith, h, more))
      ∙ digits_value-digit (n / 10) n s
      ∙ value_at s (n / 10 * 10 + n % 10) n (omega arith))
]

-- a text with a digit is read from its first digit on
number-digits_of :
    (rounds n : ℕ) (c : Char) (s : String)
    → number (digits_of rounds n (c ∷ s)) ≡ digits_value 0 (digits_of rounds n (c ∷ s))
unfolding number digits_of
number-digits_of zero n c s = refl
number-digits_of (suc rounds) n c s = elim (Bool-cases (ltb n 10)) [
  | inl last ↦ rw last refl
  | inr more ↦ rw more (number-digits_of rounds (n / 10) (digit n) (c ∷ s))
]

number-digits :
    (rounds n : ℕ)
    → number (digits_of (suc rounds) n []) ≡ digits_value 0 (digits_of (suc rounds) n [])
unfolding number digits_of
number-digits rounds n = elim (Bool-cases (ltb n 10)) [
  | inl last ↦ rw last refl
  | inr more ↦ rw more (number-digits_of rounds (n / 10) (digit n) [])
]

-- the decimal text of a number reads as the number
pub number-decimal : (n : ℕ) → number (decimal n) ≡ some n
unfolding decimal digits_value
number-decimal n = number-digits n n ∙ digits_value-digits_of (suc n) n [] (omega arith)
