-- ===== src/Userman/Fresh.antt =====
-- core/userman_manager.py: the names of new cards.
use mikrotik_bot.Prelude.{
  ℕ, zero, suc, ◌≤◌, ◌≡◌, refl, String, false, Option, none, some, List, [], ◌∷◌, string_eq, ok,
  contains, length, AreFresh, arith, Bool-cases, Option-cases, inl, inr, ◌⊎◌,
}
use mikrotik_bot.Dict.{get}
use mikrotik_bot.Action.{Action, within}
use mikrotik_bot.Action.Ensures.{
  Returns, Returns-self, Returns-give, Returns-bind, Returns-then, Returns-next, Returns-any,
}
use mikrotik_bot.Action.Total.{
  Total, Total-give, Total-le, Total-with, Total-try, Total-bind, Total-next,
}
use mikrotik_bot.Client.{Outside, Texts}
use mikrotik_bot.Userman.{UserManager, Card, CardSystem, fetch_existing_usernames}
use mikrotik_bot.Userman.Accounts.{create_user, log_um_action}
use mikrotik_bot.Userman.Cards.{
  card_types, prefixed, generate_from, generate_unique_card, create_from, create_known,
  create_cards, keep_card, base_time,
}

abbrev pub name_of : Card → String
name_of card = card.username

-- what `_generate_unique_card` gives
abbrev pub IsNew : List String → Option Card → Type 0
IsNew seen none = Unit
IsNew seen (some card) = contains seen card.username ≡ false

keep_card-AreFresh :
    {W : Type 0} (count : ℕ) (card : Option Card) (seen : List String)
    (rest : List String → Action (UserManager W) (List Card))
    → IsNew seen card
    → ((names : List String)
        → Total (λ cards. AreFresh name_of names cards × (length cards ≤ count)) (rest names))
    → Total
        (λ cards. AreFresh name_of seen cards × (length cards ≤ suc count))
        (keep_card card seen rest)
unfolding keep_card AreFresh
keep_card-AreFresh count none seen rest new h =
    Total-le (rest seen) (h seen) λ cards fresh. (fresh.0, omega arith)
keep_card-AreFresh count (some card) seen rest new h =
    Total-bind _ _ (h (card.username ∷ seen))
      λ cards fresh. Total-give (card ∷ cards) ((new, fresh.0), omega arith)

module _ {W : Type 0} (out : Outside W) (text : Texts) (k : String) where
  base_time-Total : (format : String) → Total (λ t. Unit) (base_time out text k format)
  unfolding base_time
  base_time-Total format = record { at = λ s. unfold within in tt }

  create_user_names :
      (username password profile comment caller_id timestamp : String)
      → Returns
          (λ card. card.username ≡ username)
          (create_user out k text username password profile comment caller_id timestamp)
  unfolding create_user
  create_user_names username password profile comment caller_id timestamp =
      Returns-then _ _ λ base_path. Returns-then _ _ λ owner.
        Returns-next _ _
          (Returns-next _ _ (Returns-next _ _ (Returns-then _ _ λ linked. Returns-give _ refl)))

  module _ (system : CardSystem) (profile prefix comment caller_id timestamp : String)
      (username_length : ℕ) where
    generate_from-IsNew :
        (attempts : ℕ) (seen : List String)
        → Returns (IsNew seen) (
            generate_from out text k system profile prefix comment caller_id timestamp
              username_length attempts seen)
    unfolding generate_from
    generate_from-IsNew zero seen = Returns-give none tt
    generate_from-IsNew (suc attempts) seen = Returns-then _ _ λ random_num.
        Returns-then _ _ λ password.
          elim (Bool-cases (contains seen (prefixed prefix random_num))) [
            | inl taken ↦ rw taken (generate_from-IsNew attempts seen)
            | inr free ↦ rw free (
                Returns-bind (λ card. card.username ≡ prefixed prefix random_num) _ _
                  (create_user_names (prefixed prefix random_num) password profile comment caller_id
                    timestamp)
                  λ card name. Returns-give (some card) (rw name free))
          ]

    generate_unique_card-IsNew :
        (seen : List String)
        → Returns (IsNew seen) (
            generate_unique_card out text k system profile prefix comment caller_id timestamp
              username_length seen)
    unfolding generate_unique_card
    generate_unique_card-IsNew seen = generate_from-IsNew 10 seen

    create_from-AreFresh :
        (count : ℕ) (seen : List String)
        → Total
            (λ cards. AreFresh name_of seen cards × (length cards ≤ count))
            (create_from out text k system profile prefix comment caller_id timestamp
              username_length count seen)
    unfolding create_from AreFresh
    create_from-AreFresh zero seen = Total-give [] (tt, omega arith)
    create_from-AreFresh (suc count) seen =
        Total-bind _ _ (Total-try _ _ (generate_unique_card-IsNew seen) λ e. Total-give none tt)
          λ card new. keep_card-AreFresh count card seen _ new (create_from-AreFresh count)

  -- the cards that `create_cards` may return for `count` cards asked for
  abbrev pub CardsFor : ℕ → List Card → Type 0
  CardsFor count cards =
      (names : List String) × (t : UserManager W) × ((fetch_existing_usernames out k t).0
        ≡ ok names)
      × AreFresh name_of names cards
      × (length cards ≤ count)

  fetch-Total : Total (λ names. Unit) (fetch_existing_usernames out k)
  unfolding fetch_existing_usernames
  fetch-Total = Total-try _ _ (Returns-any _) λ e. Total-give [] tt

  module _ (logged : Total (λ u. Unit) (log_um_action out k "create_userman_cards" "")) where
    create_known-CardsFor :
        (system : CardSystem) (profile prefix caller_id timestamp : String)
        (username_length count : ℕ)
        → Total (CardsFor count) (
            create_known out text k system profile prefix caller_id timestamp username_length count)
    unfolding create_known
    create_known-CardsFor system profile prefix caller_id timestamp username_length count =
        Total-bind _ _ (Total-with _ fetch-Total (Returns-self (fetch_existing_usernames out k)))
          λ names fetched. Total-bind _ _ (base_time-Total "%Y-%m-%d_%H:%M") λ base_time _.
            Total-bind _ _
              (create_from-AreFresh system profile prefix _ caller_id timestamp username_length
                count names)
              λ cards fresh.
                Total-next _ _ logged
                  (Total-give cards (names, fetched.1.0, fetched.1.1, fresh.0, fresh.1))

    -- Let the log of actions accept the entry. Then `create_cards` returns, whatever faults single
    -- cards meet: at most as many cards as were asked for, and each card's name is neither among the
    -- names that the router's list of users gave nor that of an earlier card. For an unknown card type
    -- it returns none.
    pub create_cards_are_fresh :
        (card_system profile prefix caller_id timestamp : String) (username_length count : ℕ)
        → Total
            (λ cards. (CardsFor count cards) ⊎ ((get card_types card_system ≡ none) × (cards ≡ [])))
            (create_cards out text k card_system profile prefix caller_id timestamp username_length
              count)
    unfolding create_cards
    create_cards_are_fresh card_system profile prefix caller_id timestamp username_length count =
        elim (Option-cases (get card_types card_system)) [
          | inl unknown ↦ rw (unknown, create_cards) (Total-give [] (inr (refl, refl)))
          | inr (system, known) ↦
              rw (known, create_cards)
                (Total-le _
                  (create_known-CardsFor system profile prefix caller_id timestamp username_length
                    count)
                  λ cards h. inl h)
        ]
