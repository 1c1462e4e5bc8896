-- ===== src/Hotspot/Cards/Added.antt =====
-- core/hotspot_manager.py, `create_cards`: the cards that the router added.
use mikrotik_bot.Prelude.{
  ◌≡◌, refl, String, string_eq, List, [], ◌∷◌, ◌++◌, concat, ok, ◌⊎◌, inl, inr,
}
use mikrotik_bot.Action.{collect}
use mikrotik_bot.Action.Ensures.{Returns, Returns-self, Returns-give, Returns-try, Returns-bind}
use mikrotik_bot.Client.{Row, Outside}
use mikrotik_bot.Hotspot.{HotspotManager, execute}
use mikrotik_bot.Hotspot.Cards.{CardData, card_params, add_card, add_chunks}

module _ {W : Type 0} (out : Outside W) (k : String) where
  -- the router took the command that adds the card's user
  abbrev pub IsAdded : CardData → Type 0
  IsAdded card =
      (rows : List Row) × (t : HotspotManager W) × ((execute out k "ip/hotspot/user/add"
          (card_params card) t).0
        ≡ ok rows)

  -- the cards that were added, in the order of those that were prepared
  abbrev pub AreAdded : List CardData → List CardData → Type 0
  AreAdded [] added = added ≡ []
  AreAdded (card ∷ cards) added =
      AreAdded cards added
      ⊎ ((rest : List CardData) × (added ≡ card ∷ rest) × IsAdded card × AreAdded cards rest)

  AreAdded-append :
      (cards more added others : List CardData)
      → AreAdded cards added
      → AreAdded more others
      → AreAdded (cards ++ more) (added ++ others)
  AreAdded-append [] more added others h hs = rw h hs
  AreAdded-append (card ∷ cards) more added others (inl h) hs =
      inl (AreAdded-append cards more added others h hs)
  AreAdded-append (card ∷ cards) more added others (inr (rest, e, taken, h)) hs =
      inr (rest ++ others, rw e refl, taken, AreAdded-append cards more rest others h hs)

  add_card-AreAdded :
      (card : CardData)
      → Returns (λ added. (added ≡ []) ⊎ ((added ≡ card ∷ []) × IsAdded card)) (add_card out k card)
  unfolding add_card
  add_card-AreAdded card =
      Returns-try _ _
        (Returns-bind _ _ _ (Returns-self _)
          λ rows taken. Returns-give _ (inr (refl, (rows, taken.0, taken.1))))
        λ e. Returns-give [] (inl refl)

  with_card :
      (card : CardData) (cards added others : List CardData)
      → ((added ≡ []) ⊎ ((added ≡ card ∷ []) × IsAdded card))
      → AreAdded cards others
      → AreAdded (card ∷ cards) (added ++ others)
  with_card card cards added others (inl e) hs = rw e (inl hs)
  with_card card cards added others (inr (e, taken)) hs = rw e (inr (others, refl, taken, hs))

  add_chunk-AreAdded :
      (cards : List CardData) → Returns (AreAdded cards) (collect cards (add_card out k))
  unfolding collect
  add_chunk-AreAdded [] = Returns-give [] refl
  add_chunk-AreAdded (card ∷ cards) = Returns-bind _ _ _ (add_card-AreAdded card) λ added h.
      Returns-bind _ _ _ (add_chunk-AreAdded cards)
        λ others hs. Returns-give _ (with_card card cards added others h hs)

  pub add_chunks-AreAdded :
      (cs : List (List CardData)) → Returns (AreAdded (concat cs)) (add_chunks out k cs)
  unfolding add_chunks
  add_chunks-AreAdded [] = Returns-give [] refl
  add_chunks-AreAdded (cards ∷ rest) = Returns-bind _ _ _ (add_chunk-AreAdded cards) λ added h.
      Returns-bind _ _ _ (add_chunks-AreAdded rest)
        λ others hs. Returns-give _ (AreAdded-append cards (concat rest) added others h hs)
