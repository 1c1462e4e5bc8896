-- ===== src/Tests/Presses.antt =====
-- utils/callback_utils.py on four presses of two buttons.
use mikrotik_bot.Prelude.{ℕ, ◌≡◌, refl, true, false, String, List, [], ◌∷◌, arith, string_eq}
use mikrotik_bot.Dict
use mikrotik_bot.Callbacks.{init, is_duplicate_callback}
use mikrotik_bot.Callbacks.Windows.{verdicts, repeats, presses_of, IsMonotonic, duplicates_refine}

abbrev presses : List (String × ℕ)
presses = ("8:ok", 5000) ∷ ("9:ok", 5200) ∷ ("8:ok", 5900) ∷ ("8:ok", 70000) ∷ []

in_order : IsMonotonic 0 presses
unfolding IsMonotonic
in_order = ground arith

duplicates_refine_example : verdicts "8:ok" init presses ≡ repeats 0 (presses_of "8:ok" presses)
duplicates_refine_example = duplicates_refine "8:ok" presses in_order

second_is_duplicate : verdicts "8:ok" init presses ≡ false ∷ true ∷ false ∷ []
unfolding verdicts is_duplicate_callback string_eq Dict.get Dict.set Dict.pop
second_is_duplicate = refl
