-- ===== src/AddUser/Buttons.antt =====
-- bot/keyboards/hotspot.py, get_profile_keyboard: the buttons of the profiles, as pairs of a label and
-- its callback data, and what bot/profile_callbacks.py reads from a press of one.
use Prim.Native.String.{◌++◌ as ◌⧺◌}
use mathlib.Core.Bool.{false≢true}
use text.Mathlib.Text.{starts_with}
use text.Mathlib.TextEquality.{starts_with_iff}
use mikrotik_bot.Prelude.{
  ℕ, suc, ◌+◌, ◌≡◌, refl, String, string_eq, true, some, List, [], ◌∷◌, ◌++◌, ◌==◌, pos, arith, ◌⊎◌,
  inl, inr, ap, sym, ◌∙◌, Bool-cases, eq_iff,
}
use mikrotik_bot.Client.{Texts, is_text}
use mikrotik_bot.RouterKey.Digits.{decimal, number, number-decimal}
use mikrotik_bot.RouterKey.{from_char}
use mikrotik_bot.RouterKey.RoundTrip.{from_char-append}
use mikrotik_bot.AddUser.Fields.{name_at, resolve_profile_from_callback}

-- for index, profile in enumerate(profiles), from an index on
unfoldable pub profile_buttons : String → ℕ → List String → List (String × String)
profile_buttons prefix index [] = []
profile_buttons prefix index (profile ∷ profiles) =
    (profile, (prefix ⧺ "_") ⧺ decimal index) ∷ profile_buttons prefix (suc index) profiles

abbrev pub get_profile_keyboard : List String → String → String → List (String × String)
get_profile_keyboard profiles prefix back_callback =
    profile_buttons prefix 0 profiles
    ++ ("🔙 \u{631}\u{62c}\u{648}\u{639}", back_callback)
      ∷ ("🏠 \u{627}\u{644}\u{631}\u{626}\u{64a}\u{633}\u{64a}\u{629}", "main_menu")
      ∷ []

-- a button of a keyboard
abbrev pub IsIn : {A : Type 0} → A → List A → Type 0
IsIn x [] = ⊥
IsIn x (y ∷ ys) = (x ≡ y) ⊎ IsIn x ys

button_at :
    (b : String × String) (prefix : String) (k : ℕ) (names : List String)
    → IsIn b (profile_buttons prefix k names)
    → (i : ℕ) × (b.1 ≡ (prefix ⧺ "_") ⧺ decimal (k + i)) × (name_at names i ≡ some b.0)
unfolding profile_buttons
button_at b prefix k [] h = absurd h
button_at b prefix k (name ∷ names) (inl e) = (0, ground arith, ground arith)
button_at b prefix k (name ∷ names) (inr h) =
    let (i, e, found) = button_at b prefix (suc k) names h in (suc i, ground arith, found)

from_char-prefix : (s : String) → from_char 12 ("add_profile_" ⧺ s) ≡ s
from_char-prefix s = from_char-append "add_profile_" s

zero_lem : (i : ℕ) → 0 + i ≡ i
zero_lem i = omega arith

has_text : (s : String) → is_text ("add_profile_" ⧺ s) ≡ true
unfolding string_eq
has_text s = elim (Bool-cases ("add_profile_" ⧺ s == "")) [
  | inl e ↦ absurd (
      false≢true (
        ap (λ t. starts_with t "add_profile_") (sym ((eq_iff ("add_profile_" ⧺ s) "").0 e))
        ∙ (starts_with_iff ("add_profile_" ⧺ s) "add_profile_").1 (s, refl)))
  | inr e ↦ rw e refl
]

module _ (text : Texts)
    (reads : (s : String) (m : ℕ) → number s ≡ some m → text.int s ≡ some (pos m)) where
  pressed_lem :
      (names : List String) (i : ℕ)
      → resolve_profile_from_callback text names ("add_profile_" ⧺ decimal i) ≡ name_at names i
  pressed_lem names i =
      rw
        (has_text (decimal i), from_char-prefix (decimal i), reads (decimal i) i (number-decimal i))
        refl

  -- Let `int` read a text of ASCII digits as the decimal number. Then a press of any button of a profile
  -- on the keyboard of the names is resolved to the name that the button shows, if those names are
  -- still the ones that the conversation keeps.
  pub press_names_button :
      (b : String × String) (names : List String)
      → IsIn b (profile_buttons "add_profile" 0 names)
      → resolve_profile_from_callback text names b.1 ≡ some b.0
  press_names_button b names h =
      let (i, e, found) = button_at b "add_profile" 0 names h in
      rw (e, pressed_lem names (0 + i)) (ap (name_at names) (zero_lem i) ∙ found)
