-- ===== src/Userman/Cards.antt =====
-- core/userman_manager.py, `create_cards`: accounts with random names, and why no name is used twice.
use Prim.Native.String.{◌++◌}
use mikrotik_bot.Prelude.{
  ℕ, zero, suc, String, true, false, Option, none, some, List, [], ◌∷◌, if◌then◌else◌, string_eq,
  ok, contains,
}
use mikrotik_bot.Dict.{Dict, get}
use mikrotik_bot.Action.{Action, give, try, ◌>>=◌, ◌>>◌}
use mikrotik_bot.Client.{Outside, Texts, is_text}
use mikrotik_bot.Userman.{
  UserManager, Card, CardSystem, different_credentials, same_credentials, empty_password, on_world,
  fetch_existing_usernames,
}
use mikrotik_bot.Userman.Accounts.{create_user, log_um_action}

abbrev pub card_types : Dict String CardSystem
card_types =
    ("type1", different_credentials)
    ∷ ("type2", same_credentials)
    ∷ ("type3", empty_password)
    ∷ ("card_type1", different_credentials)
    ∷ ("card_type2", same_credentials)
    ∷ ("card_type3", empty_password)
    ∷ ("hs_card_type1", different_credentials)
    ∷ ("hs_card_type2", same_credentials)
    ∷ ("hs_card_type3", empty_password)
    ∷ ("1", different_credentials)
    ∷ ("2", same_credentials)
    ∷ ("3", empty_password)
    ∷ []

-- `f"{prefix}{text}" if prefix else text`
abbrev pub prefixed : String → String → String
prefixed prefix text = if is_text prefix then prefix ++ text else text

-- the rest of the loop: a card that fails is left out
unfoldable pub keep_card :
    {W : Type 0}
    → Option Card
    → List String
    → (List String → Action (UserManager W) (List Card))
    → Action (UserManager W) (List Card)
keep_card none existing rest = rest existing
keep_card (some card) existing rest =
    rest (card.username ∷ existing) >>= λ cards. give (card ∷ cards)

module _ {W : Type 0} (out : Outside W) (text : Texts) (k : String) where
  -- datetime.now().strftime(format)
  unfoldable pub base_time : String → Action (UserManager W) String
  base_time format = on_world out λ w. let (now, w') = out.timestamp format w in (ok now, w')

  unfoldable pub generate_digits : ℕ → Action (UserManager W) String
  generate_digits n = on_world out λ w. let (digits, w') = out.random_digits n w in (ok digits, w')

  unfoldable pub password_for : CardSystem → ℕ → String → Action (UserManager W) String
  password_for different_credentials n username = generate_digits n
  password_for same_credentials n username = give username
  password_for empty_password n username = give ""

  module _ (system : CardSystem) (profile prefix comment caller_id timestamp : String)
      (username_length : ℕ) where
    -- the loop of `_generate_unique_card`, with the attempts left
    unfoldable pub generate_from : ℕ → List String → Action (UserManager W) (Option Card)
    generate_from zero existing = give none
    generate_from (suc attempts) existing = generate_digits username_length >>= λ random_num.
        password_for system username_length (prefixed prefix random_num) >>= λ password.
        elim (contains existing (prefixed prefix random_num)) [
          | true ↦ generate_from attempts existing
          | false ↦
              create_user out k text (prefixed prefix random_num) password profile comment caller_id
                timestamp
              >>= λ card. give (some card)
        ]

    unfoldable pub generate_unique_card : List String → Action (UserManager W) (Option Card)
    generate_unique_card existing = generate_from 10 existing

    -- the loop of `create_cards`
    unfoldable pub create_from : ℕ → List String → Action (UserManager W) (List Card)
    create_from zero existing = give []
    create_from (suc count) existing =
        try (generate_unique_card existing) (λ e. give none) >>= λ card.
        keep_card card existing (create_from count)

  -- `create_cards` for a known system
  unfoldable pub create_known :
      CardSystem
      → (profile prefix caller_id timestamp : String) → ℕ
      → ℕ
      → Action (UserManager W) (List Card)
  create_known system profile prefix caller_id timestamp username_length count =
      fetch_existing_usernames out k >>= λ existing. base_time "%Y-%m-%d_%H:%M" >>= λ now.
      create_from system profile prefix (if is_text prefix then prefix ++ ("_" ++ now) else now)
        caller_id timestamp username_length count existing
      >>= λ cards. log_um_action out k "create_userman_cards" "" >> give cards

  unfoldable pub create_cards :
      String
      → (profile prefix caller_id timestamp : String) → ℕ
      → ℕ
      → Action (UserManager W) (List Card)
  create_cards card_system profile prefix caller_id timestamp username_length count =
      elim (get card_types card_system) [
        | none ↦ give []
        | some system ↦ create_known system profile prefix caller_id timestamp username_length count
      ]
