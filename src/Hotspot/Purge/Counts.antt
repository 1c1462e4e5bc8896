-- ===== src/Hotspot/Purge/Counts.antt =====
-- core/hotspot_manager.py, `purge_expired_users`: how many users it counts.
use mikrotik_bot.Prelude.{
  ℕ, zero, suc, ◌+◌, ◌≤◌, ◌≡◌, refl, String, Bool, true, false, Option, none, some, List, [], ◌∷◌,
  get_or, string_eq, ◌==◌, drop, length, ok, Bool-cases, inl, inr, ◌⊎◌, arith, length-take,
  length-drop, chunks,
}
use mikrotik_bot.Dict.{get}
use mikrotik_bot.Action.{Action}
use mikrotik_bot.Action.Ensures.{
  Returns, Returns-self, Returns-give, Returns-throw, Returns-then, Returns-try, Returns-bind,
  Returns-le,
}
use mikrotik_bot.Action.Total.{Total, Total-give, Total-try}
use mikrotik_bot.Client.{Row, Outside, Texts}
use mikrotik_bot.Hotspot.{HotspotManager, on_world}
use mikrotik_bot.Hotspot.Purge.{
  purge_proplist, is_expired, purge_user, purge_if, purge_row, purge_chunk, purge_chunks,
  purge_expired_users,
}

-- the number of elements in all lists
abbrev total {ℓ} : {A : Type ℓ} → List (List A) → ℕ
total [] = 0
total (xs ∷ rest) = length xs + total rest

total-chunks {ℓ} :
    {A : Type ℓ} (rounds size : ℕ) (xs : List A) → total (chunks rounds size xs) ≤ length xs
unfolding chunks
total-chunks zero size xs = omega arith
total-chunks (suc rounds) size [] = omega arith
total-chunks (suc rounds) size (x ∷ xs) = omega (
  arith,
  total-chunks rounds size (drop size (x ∷ xs)),
  length-take size (x ∷ xs),
  length-drop size (x ∷ xs),
)

module _ {W : Type 0} (out : Outside W) (text : Texts) (k : String) where
  abbrev pub listing : Action W (List Row)
  listing = out.client.execute_long k "ip/hotspot/user/print" ((".proplist", purge_proplist) ∷ [])

  purge_if-le :
      (expired : Option Bool) (uid : String)
      → Returns (λ n. n ≤ 1) (purge_if out text k expired uid)
  unfolding purge_user
  purge_if-le none uid = Returns-throw _
  purge_if-le (some true) uid =
      Returns-try _ _ (Returns-then _ _ λ result. Returns-give 1 (omega arith))
        λ e. Returns-give 0 (omega arith)
  purge_if-le (some false) uid = Returns-give 0 (omega arith)

  purge_row-le : (row : Row) → Returns (λ n. n ≤ 1) (purge_row out text k row)
  unfolding purge_row
  purge_row-le row = elim (Bool-cases (get_or (get row ".id") "" == "")) [
    | inl empty ↦ rw empty (Returns-give 0 (omega arith))
    | inr given ↦ rw given (purge_if-le (is_expired text row) (get_or (get row ".id") ""))
  ]

  purge_chunk-le : (us : List Row) → Returns (λ n. n ≤ length us) (purge_chunk out text k us)
  unfolding purge_chunk
  purge_chunk-le [] = Returns-give 0 (omega arith)
  purge_chunk-le (u ∷ us) =
      Returns-bind _ _ _ (purge_row-le u)
        λ n h. Returns-bind _ _ _ (purge_chunk-le us) λ m hs. Returns-give (n + m) (omega arith)

  purge_chunks-le :
      (cs : List (List Row)) → Returns (λ n. n ≤ total cs) (purge_chunks out text k cs)
  unfolding purge_chunks
  purge_chunks-le [] = Returns-give 0 (omega arith)
  purge_chunks-le (c ∷ cs) =
      Returns-bind _ _ _ (purge_chunk-le c)
        λ n h. Returns-bind _ _ _ (purge_chunks-le cs) λ m hs. Returns-give (n + m) (omega arith)

  -- at most the users of a listing
  abbrev pub AtMostListed : ℕ → Type 0
  AtMostListed n =
      (n ≡ 0)
      ⊎ ((rows : List Row) × (s : HotspotManager W) × ((on_world out listing s).0 ≡ ok rows)
          × (n ≤ length rows))

  pub purge-AtMostListed :
      (chunk_size : ℕ) → Total AtMostListed (purge_expired_users out text k chunk_size)
  unfolding purge_expired_users
  purge-AtMostListed zero =
      Total-try _ _ (Returns-then _ _ λ rows. Returns-throw _) λ e. Total-give 0 (inl refl)
  purge-AtMostListed (suc n) =
      Total-try _ _
        (Returns-bind _ _ _ (Returns-self _) λ rows asked.
          Returns-le _ (purge_chunks-le (chunks (length rows) (suc n) rows)) λ m h.
            inr (rows, asked.0, asked.1, omega (arith, h, total-chunks (length rows) (suc n) rows)))
        λ e. Total-give 0 (inl refl)
