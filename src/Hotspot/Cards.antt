-- ===== src/Hotspot/Cards.antt =====
-- core/hotspot_manager.py, `create_cards`; core/card_models.py, `CardData`.
pub mod Added
pub mod Fresh
use Prim.Native.String.{◌++◌}
use mikrotik_bot.Prelude.{
  ℕ, zero, suc, ◌+◌, String, string_eq, Bool, true, false, Option, none, some, List, [], ◌∷◌,
  ◌++◌ as ◌⧺◌, if◌then◌else◌, contains, length, chunks, ok,
}
use mikrotik_bot.Dict.{set}
use mikrotik_bot.Action.{unforeseen, Action, give, throw, writes, try, ◌>>=◌, ◌>>◌, collect}
use mikrotik_bot.Client.{Row, Outside, is_text}
use mikrotik_bot.Userman.{CardSystem, different_credentials, same_credentials, empty_password}
use mikrotik_bot.Userman.Cards.{prefixed}
use mikrotik_bot.Hotspot.{
  HotspotManager, on_world, execute, set_text, get_existing_usernames, invalidate_users_cache,
}

pub record CardData : Type 0 where
  pub username : String
  pub password : String
  pub card_number : ℕ
  pub profile : String
  pub caller_id : String
  pub limit_uptime : String
  pub limit_bytes : String
  pub comment : String
  pub created_at : String
  pub payment : String
  pub timestamp : String

-- the parameters with which a card's user is added
unfoldable pub card_params : CardData → Row
card_params card = set_text "limit-uptime" card.limit_uptime (
    set_text "limit-bytes-total" card.limit_bytes (
      set_text "password" card.password
        (("name", card.username) ∷ ("profile", card.profile) ∷ ("comment", card.comment) ∷ [])))

-- what all cards of a batch share
pub record Batch : Type 0 where
  pub system : CardSystem
  pub name_length : ℕ
  pub profile : String
  pub prefix : String
  pub limit_uptime : String
  pub limit_bytes : String
  pub batch_comment : String

abbrev pub card_of : Batch → String → String → ℕ → CardData
card_of batch username password i = record {
  username = username;
  password = password;
  card_number = i;
  profile = batch.profile;
  caller_id = "";
  limit_uptime = batch.limit_uptime;
  limit_bytes = batch.limit_bytes;
  comment = batch.batch_comment;
  created_at = "";
  payment = "";
  timestamp = "";
}

module _ {W : Type 0} (out : Outside W) (k : String) where
  -- `_generate_random_number`
  unfoldable pub generate_random_number : ℕ → Action (HotspotManager W) String
  generate_random_number n =
      on_world out λ w. let (digits, w') = out.random_digits n w in (ok digits, w')

  -- the loop of `_generate_unique_username`, with the attempts left
  unfoldable pub generate_username : ℕ → String → ℕ → List String → Action (HotspotManager W) String
  generate_username zero prefix n existing_names = throw unforeseen
  generate_username (suc attempts) prefix n existing_names =
      generate_random_number n >>= λ random_num.
      elim (contains existing_names (prefixed prefix random_num)) [
        | true ↦ generate_username attempts prefix n existing_names
        | false ↦ give (prefixed prefix random_num)
      ]

  -- none is the ValueError after 100 attempts
  unfoldable pub generate_unique_username :
      String → ℕ → List String → Action (HotspotManager W) (Option String)
  generate_unique_username prefix n existing_names =
      try (generate_username 100 prefix n existing_names >>= λ name. give (some name))
        (λ e. give none)

  unfoldable pub password_for : CardSystem → ℕ → String → Action (HotspotManager W) String
  password_for different_credentials n username = generate_random_number n
  password_for same_credentials n username = give username
  password_for empty_password n username = give ""

  -- the rest of the loop of `_prepare_card_users`, after the name of card `i`: `break` without one
  unfoldable pub prepare_card :
      Batch
      → ℕ
      → List String
      → (List String → Action (HotspotManager W) (List CardData))
      → Option String
      → Action (HotspotManager W) (List CardData)
  prepare_card batch i existing_names rest none = give []
  prepare_card batch i existing_names rest (some username) =
      password_for batch.system batch.name_length username >>= λ password.
      rest (username ∷ existing_names) >>= λ cards. give (card_of batch username password i ∷ cards)

  -- `_prepare_card_users`, from card `i` on
  unfoldable pub prepare_card_users :
      Batch → ℕ → ℕ → List String → Action (HotspotManager W) (List CardData)
  prepare_card_users batch zero i existing_names = give []
  prepare_card_users batch (suc count) i existing_names =
      generate_unique_username batch.prefix batch.name_length existing_names
      >>= prepare_card batch i existing_names (prepare_card_users batch count (i + 1))

  -- one card of a chunk; a card that the router refuses is left out
  unfoldable pub add_card : CardData → Action (HotspotManager W) (List CardData)
  add_card card =
      try (execute out k "ip/hotspot/user/add" (card_params card) >>= λ rows. give (card ∷ []))
        (λ e. give [])

  unfoldable pub add_chunks : List (List CardData) → Action (HotspotManager W) (List CardData)
  add_chunks [] = give []
  add_chunks (chunk ∷ rest) =
      collect chunk add_card >>= λ cards. add_chunks rest >>= λ others. give (cards ⧺ others)

  unfoldable pub create_cards :
      CardSystem
      → (count name_length : ℕ) → (profile prefix limit_uptime limit_bytes : String)
      → Action (HotspotManager W) (List CardData)
  create_cards system count name_length profile prefix limit_uptime limit_bytes = do
    base_time ← on_world out λ w. let (now, w') = out.timestamp "%Y-%m-%d_%H%M%S" w in (ok now, w')
    existing_names ← get_existing_usernames out k
    let batch : Batch = record {
      system = system;
      name_length = name_length;
      profile = profile;
      prefix = prefix;
      limit_uptime = limit_uptime;
      limit_bytes = limit_bytes;
      batch_comment = if is_text prefix then prefix ++ ("_" ++ base_time) else base_time;
    }
    prepared ← prepare_card_users batch count 1 existing_names
    cards ← add_chunks (chunks (length prepared) 50 prepared)
    writes (invalidate_users_cache out k)
    give cards
