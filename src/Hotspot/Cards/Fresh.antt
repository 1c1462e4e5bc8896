-- ===== src/Hotspot/Cards/Fresh.antt =====
-- core/hotspot_manager.py, `create_cards`: the names of the cards that are returned.
use mikrotik_bot.Prelude.{
  ℕ, zero, suc, ◌+◌, ◌≤◌, ◌≡◌, subst, All, String, string_eq, Bool, true, false, ◌||◌, Option, none,
  some, List, [], ◌∷◌, ◌==◌, contains, length, AreFresh, chunks, concat-chunks, ok, inl, inr,
  Bool-cases, arith,
}
use mikrotik_bot.Action.{Action, within}
use mikrotik_bot.Action.Ensures.{
  Returns, OnOk, OnOk-bind, OnOk-self, Returns-give, Returns-throw, Returns-try, Returns-bind,
  Returns-then, Returns-next,
}
use mikrotik_bot.Client.{Outside}
use mikrotik_bot.Userman.{CardSystem}
use mikrotik_bot.Userman.Cards.{prefixed}
use mikrotik_bot.Hotspot.{HotspotManager, get_existing_usernames}
use mikrotik_bot.Hotspot.Cards.{
  CardData, Batch, generate_username, generate_unique_username, prepare_card, prepare_card_users,
  create_cards,
}
use mikrotik_bot.Hotspot.Cards.Added.{IsAdded, AreAdded, add_chunks-AreAdded}

abbrev pub name_of : CardData → String
name_of card = card.username

abbrev IsNew : List String → Option String → Type 0
IsNew seen none = Unit
IsNew seen (some username) = contains seen username ≡ false

-- fewer names seen
AreFresh-le :
    (seen fewer : List String)
    → ((name : String) → contains seen name ≡ false → contains fewer name ≡ false)
    → (cards : List CardData) → AreFresh name_of seen cards
    → AreFresh name_of fewer cards
unfolding AreFresh
AreFresh-le seen fewer le [] h = tt
AreFresh-le seen fewer le (card ∷ cards) (h, hs) = (
  le card.username h,
  AreFresh-le (card.username ∷ seen) (card.username ∷ fewer)
      (λ name. skip name (card.username == name) (le name)) cards hs,
)
  where
    skip :
        (name : String) (b : Bool)
        → (contains seen name ≡ false → contains fewer name ≡ false)
        → (b || contains seen name) ≡ false
        → (b || contains fewer name) ≡ false
    skip name true f e = e
    skip name false f e = f e

AreFresh-drop :
    (seen : List String) (name : String) (cards : List CardData)
    → AreFresh name_of (name ∷ seen) cards
    → AreFresh name_of seen cards
AreFresh-drop seen name cards h =
    AreFresh-le (name ∷ seen) seen (λ other. skip (name == other) _) cards h
  where
    skip : (b c : Bool) → (b || c) ≡ false → c ≡ false
    skip true c e = cc e
    skip false c e = e

module _ {W : Type 0} (out : Outside W) (k : String) where
  generate_username-new :
      (attempts : ℕ) (prefix : String) (n : ℕ) (seen : List String)
      → Returns
          (λ username. contains seen username ≡ false)
          (generate_username out k attempts prefix n seen)
  unfolding generate_username
  generate_username-new zero prefix n seen = Returns-throw _
  generate_username-new (suc attempts) prefix n seen = Returns-then _ _ λ random_num.
      elim (Bool-cases (contains seen (prefixed prefix random_num))) [
        | inl taken ↦ rw taken (generate_username-new attempts prefix n seen)
        | inr free ↦ rw free (Returns-give _ free)
      ]

  generate_unique_username-IsNew :
      (prefix : String) (n : ℕ) (seen : List String)
      → Returns (IsNew seen) (generate_unique_username out k prefix n seen)
  unfolding generate_unique_username
  generate_unique_username-IsNew prefix n seen =
      Returns-try _ _
        (Returns-bind _ _ _ (generate_username-new 100 prefix n seen)
          λ name h. Returns-give (some name) h)
        λ e. Returns-give none tt

  prepare_card-AreFresh :
      (batch : Batch) (count i : ℕ) (seen : List String)
      (rest : List String → Action (HotspotManager W) (List CardData)) (name : Option String)
      → IsNew seen name
      → ((names : List String)
          → Returns (λ cards. AreFresh name_of names cards × (length cards ≤ count)) (rest names))
      → Returns
          (λ cards. AreFresh name_of seen cards × (length cards ≤ suc count))
          (prepare_card out k batch i seen rest name)
  unfolding prepare_card AreFresh
  prepare_card-AreFresh batch count i seen rest none new h = Returns-give [] (tt, omega arith)
  prepare_card-AreFresh batch count i seen rest (some username) new h = Returns-then _ _ λ password.
      Returns-bind _ _ _ (h (username ∷ seen))
        λ cards fresh. Returns-give _ ((new, fresh.0), omega (arith, fresh.1))

  prepare-AreFresh :
      (batch : Batch) (count i : ℕ) (seen : List String)
      → Returns
          (λ cards. AreFresh name_of seen cards × (length cards ≤ count))
          (prepare_card_users out k batch count i seen)
  unfolding prepare_card_users AreFresh
  prepare-AreFresh batch zero i seen = Returns-give [] (tt, omega arith)
  prepare-AreFresh batch (suc count) i seen =
      Returns-bind _ _ _ (generate_unique_username-IsNew batch.prefix batch.name_length seen)
        λ name new.
          prepare_card-AreFresh batch count i seen _ name new (prepare-AreFresh batch count (i + 1))

  -- what is guaranteed of the cards for `count` cards asked for
  abbrev pub AreCards : List String → ℕ → List CardData → Type 0
  AreCards names count cards =
      AreFresh name_of names cards × (length cards ≤ count) × All (IsAdded out k) cards

  AreAdded-AreCards :
      (names : List String) (count : ℕ) (cards added : List CardData)
      → AreFresh name_of names cards
      → length cards ≤ count
      → AreAdded out k cards added
      → AreCards names count added
  unfolding AreFresh
  AreAdded-AreCards names count [] added fresh le h = rw h (tt, omega arith, tt)
  AreAdded-AreCards names count (card ∷ cards) added (new, fresh) le (inl h) =
      AreAdded-AreCards names count cards added (AreFresh-drop names card.username cards fresh)
        (omega (arith, le)) h
  AreAdded-AreCards names zero (card ∷ cards) added (new, fresh) le (inr h) =
      absurd (omega (arith, le))
  AreAdded-AreCards names (suc count) (card ∷ cards) added (new, fresh) le
        (inr (rest, e, taken, h)) =
      let ih =
        AreAdded-AreCards (card.username ∷ names) count cards rest fresh (omega (arith, le)) h in
      rw e ((new, ih.0), omega (arith, ih.1), (taken, ih.2))

  -- the state once the time stamp is taken
  abbrev pub stamped : HotspotManager W → HotspotManager W
  stamped s = record s { world = (out.timestamp "%Y-%m-%d_%H%M%S" s.world).1 }

  -- Of the cards that `create_cards` returns, each was added by the router, each name is neither
  -- among those that `get_existing_usernames` gives right after the time stamp is taken, the names
  -- of the cached list while that is fresh, nor that of an earlier card, and there are at most as
  -- many as were asked for.
  pub hotspot_cards_are_fresh :
      (system : CardSystem) (count name_length : ℕ)
      (profile prefix limit_uptime limit_bytes : String) (s : HotspotManager W)
      → OnOk
          (λ cards.
            (names : List String) × ((get_existing_usernames out k (stamped s)).0 ≡ ok names)
            × AreCards names count cards)
          (create_cards out k system count name_length profile prefix limit_uptime limit_bytes s).0
  unfolding create_cards within
  hotspot_cards_are_fresh system count name_length profile prefix limit_uptime limit_bytes s =
      OnOk-bind _ (λ base_time. Unit {0}) _ _ s tt
        λ base_time _.
          OnOk-bind _ _ _ _ (stamped s) (OnOk-self (get_existing_usernames out k (stamped s)).0)
            λ names read.
              (Returns-bind _ _ _ (prepare-AreFresh _ count 1 names) λ prepared fresh.
                  Returns-bind _ _ _
                    (add_chunks-AreAdded out k (chunks (length prepared) 50 prepared))
                    λ cards added. Returns-next _ _ (
                      Returns-give cards (
                        names,
                        read,
                        AreAdded-AreCards names count prepared cards fresh.0 fresh.1 (
                            subst (λ all. AreAdded out k all cards)
                              (concat-chunks (length prepared) 49 prepared (omega arith)) added),
                      ))).at
                _
