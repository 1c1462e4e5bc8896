-- ===== src/Hotspot/Purge.antt =====
-- core/hotspot_manager.py, `purge_expired_users`.
pub mod Counts
pub mod Safety
use mikrotik_bot.Prelude.{
  ℕ, zero, suc, ◌+◌, ◌*◌, String, Bool, true, false, ◌&&◌, ◌||◌, not, Option, none, some, List, [],
  ◌∷◌, if◌then◌else◌, ℤ, pos, negsuc, ◌+ℤ◌, is_positive, leb, get_or, string_eq, length, chunks,
}
use mikrotik_bot.Dict.{get}
use mikrotik_bot.Action.{unforeseen, Action, give, throw, try, ◌>>=◌, ◌>>◌}
use mikrotik_bot.Client.{Row, Outside, Texts, is_text}
use mikrotik_bot.Hotspot.{HotspotManager, on_world, delete_user}
use mikrotik_bot.Hotspot.Uptime.{parse_uptime_seconds}

abbrev pub purge_proplist : String
purge_proplist = ".id,bytes-out,bytes-in,limit-bytes-total,uptime,limit-uptime"

-- int(u.get(field, 0) or 0); none is the ValueError
abbrev pub int_field : Texts → Row → String → Option ℤ
int_field text row field =
    let written = get_or (get row field) "" in
    if is_text written then text.int written else some (pos 0)

-- a ≥ b
abbrev pub ge_ℤ : ℤ → ℤ → Bool
ge_ℤ (pos m) (pos n) = leb n m
ge_ℤ (pos m) (negsuc n) = true
ge_ℤ (negsuc m) (pos n) = false
ge_ℤ (negsuc m) (negsuc n) = leb m n

-- the limit is set, and it is reached
abbrev pub reached : ℤ → ℤ → Bool
reached limit used = is_positive limit && ge_ℤ used limit

-- whether a user's limits are reached
unfoldable pub is_expired : Texts → Row → Option Bool
is_expired text u = elim (int_field text u "limit-bytes-total") [
  | none ↦ none
  | some limit_bytes ↦ elim (int_field text u "bytes-out") [
    | none ↦ none
    | some bytes_out ↦ elim (int_field text u "bytes-in") [
      | none ↦ none
      | some bytes_in ↦ some (
          reached limit_bytes (bytes_out +ℤ bytes_in)
          || reached (parse_uptime_seconds text (get_or (get u "limit-uptime") ""))
              (parse_uptime_seconds text (get_or (get u "uptime") "")))
    ]
  ]
]

module _ {W : Type 0} (out : Outside W) (text : Texts) (k : String) where
  -- a deletion that fails is not counted
  unfoldable pub purge_user : String → Action (HotspotManager W) ℕ
  purge_user uid = try (delete_user out k uid >>= λ result. give 1) (λ e. give 0)

  -- what is done about a user, by the test of its limits
  abbrev pub purge_if : Option Bool → String → Action (HotspotManager W) ℕ
  purge_if none uid = throw unforeseen
  purge_if (some true) uid = purge_user uid
  purge_if (some false) uid = give 0

  -- the body of the inner loop; a user without an id is passed over
  unfoldable pub purge_row : Row → Action (HotspotManager W) ℕ
  purge_row u =
      let uid = get_or (get u ".id") "" in
      if is_text uid then purge_if (is_expired text u) uid else give 0

  unfoldable pub purge_chunk : List Row → Action (HotspotManager W) ℕ
  purge_chunk [] = give 0
  purge_chunk (u ∷ us) = purge_row u >>= λ n. purge_chunk us >>= λ m. give (n + m)

  unfoldable pub purge_chunks : List (List Row) → Action (HotspotManager W) ℕ
  purge_chunks [] = give 0
  purge_chunks (c ∷ cs) = purge_chunk c >>= λ n. purge_chunks cs >>= λ m. give (n + m)

  -- `purge_expired_users`; a chunk size of zero is the ValueError of `range`
  unfoldable pub purge_expired_users : ℕ → Action (HotspotManager W) ℕ
  purge_expired_users chunk_size =
      try
        (on_world out
            (out.client.execute_long k "ip/hotspot/user/print" ((".proplist", purge_proplist) ∷ []))
          >>= λ all_users. elim chunk_size [
            | zero ↦ throw unforeseen
            | suc n ↦ purge_chunks (chunks (length all_users) (suc n) all_users)
          ])
        (λ e. give 0)
