-- ===== src/Hotspot.antt =====
-- core/hotspot_manager.py, `HotspotManager`. An action's state is the manager with its two caches
-- and the world beyond it. The locks of card creation are not modelled: one call runs at a time.
pub mod Cards
pub mod Uptime
pub mod Purge
pub mod Changes
use Prim.Native.Char.{Char, char, code}
use Prim.Native.String.{◌++◌, [], ◌∷◌}
use mikrotik_bot.Prelude.{
  ℕ, String, Bool, true, false, ◌&&◌, ◌||◌, not, Option, none, some, List, [], ◌∷◌, ◌++◌ as ◌⧺◌,
  if◌then◌else◌, string_eq, get_or, take, map, filter, length, ltb, nat_eqb, contains, ◌==◌, ok,
  err,
}
use mikrotik_bot.Dict.{Dict, get, set}
use mikrotik_bot.Cache
use mikrotik_bot.Cache.{TtlCache}
use mikrotik_bot.Action.{Action, give, writes, try, ◌>>=◌, ◌>>◌, within}
use mikrotik_bot.Action.Cached.{keep, forget, read_through}
use mikrotik_bot.Client.{Row, Outside, Texts, is_text, occurs_in}
use mikrotik_bot.Validators.{sanitize_comment}

pub record HotspotManager (W : Type 0) : Type 0 where
  pub world : W
  pub users_cache : TtlCache (List Row)
  pub profiles_cache : TtlCache (List Row)

abbrev pub init : {W : Type 0} → W → HotspotManager W
init w = record { world = w; users_cache = Cache.init 20 5; profiles_cache = Cache.init 20 10 }

abbrev pub user_proplist : String
user_proplist =
    ".id,name,profile,disabled,limit-uptime,limit-bytes-total,comment,bytes-in,bytes-out,uptime,password"

-- params[field] = value, where the value is not empty
abbrev pub set_text : String → String → Row → Row
set_text field value params = if is_text value then set params field value else params

-- the parameters of a new user; `comment` is sanitised
unfoldable pub user_params :
    Texts → (name password profile bytes_total uptime comment : String) → Row
user_params text name password profile bytes_total uptime comment =
    let limited = set_text "limit-uptime" uptime (
      set_text "limit-bytes-total" bytes_total
        (set_text "password" password (("name", name) ∷ ("profile", profile) ∷ []))) in
    if is_text comment then set limited "comment" (sanitize_comment text comment 200) else limited

abbrev pub allowed_fields : List String
allowed_fields =
    "name" ∷ "password" ∷ "profile" ∷ "limit-bytes-total" ∷ "limit-uptime" ∷ "comment" ∷ "disabled"
    ∷ []

abbrev dash : Char
dash = char 45 tt

-- key.replace("_", "-")
unfoldable pub dashed : String → String
dashed [] = []
dashed (c ∷ key) = let rest = dashed key in if nat_eqb (code c) 95 then dash ∷ rest else c ∷ rest

-- the loop over the fields to edit; none is None
unfoldable pub edit_params : Texts → List (String × Option String) → Row → Row
edit_params text [] params = params
edit_params text ((field, none) ∷ rest) params = edit_params text rest params
edit_params text ((field, some value) ∷ rest) params =
    let normalized = dashed field in
    let cleaned = if normalized == "comment" then sanitize_comment text value 200 else value in
    edit_params text rest
      (if contains allowed_fields normalized then set params normalized cleaned else params)

-- the first row with the id
unfoldable pub with_id : String → List Row → Option Row
with_id user_id [] = none
with_id user_id (row ∷ rows) =
    let rest = with_id user_id rows in if is_field (get row ".id") user_id then some row else rest
  where
    is_field : Option String → String → Bool
    is_field none s = false
    is_field (some v) s = v == s

-- the rows with an id that was not seen before, with the ids seen in the end
unfoldable pub unseen : List String → List Row → List Row × List String
unseen seen [] = ([], seen)
unseen seen (row ∷ rows) =
    let uid = get_or (get row ".id") "" in
    let kept = unseen (uid ∷ seen) rows in
    let left = unseen seen rows in
    if is_text uid && not (contains seen uid) then (row ∷ kept.0, kept.1) else left

-- search in name or search in comment
unfoldable pub found_in : Texts → String → Row → Bool
found_in text term row =
    occurs_in term (text.lower (get_or (get row "name") ""))
    || occurs_in term (text.lower (get_or (get row "comment") ""))

module _ {W : Type 0} (out : Outside W) where
  abbrev pub on_world : {A : Type 0} → Action W A → Action (HotspotManager W) A
  on_world m = within (λ s. s.world) (λ s w. record s { world = w }) m

  abbrev pub execute : String → String → Row → Action (HotspotManager W) (List Row)
  execute k command args = on_world (out.client.execute k command args)

  abbrev pub clock : HotspotManager W → ℕ × HotspotManager W
  clock s = let (now, w) = out.time s.world in (now, record s { world = w })

  abbrev pub put_users : HotspotManager W → TtlCache (List Row) → HotspotManager W
  put_users s c = record s { users_cache = c }

  abbrev pub put_profiles : HotspotManager W → TtlCache (List Row) → HotspotManager W
  put_profiles s c = record s { profiles_cache = c }

  module _ (k : String) where
    unfoldable pub fetch_users : Action (HotspotManager W) (List Row)
    fetch_users = do
      users ← execute k "ip/hotspot/user/print" ((".proplist", user_proplist) ∷ [])
      keep (λ s. s.users_cache) put_users clock k users
      give users

    -- `_get_all_users_cached`
    unfoldable pub get_all_users_cached : Action (HotspotManager W) (List Row)
    get_all_users_cached = read_through (λ s. s.users_cache) put_users clock k fetch_users

    unfoldable pub invalidate_users_cache : HotspotManager W → HotspotManager W
    invalidate_users_cache s = forget (λ s. s.users_cache) put_users clock k s

    unfoldable pub get_existing_usernames : Action (HotspotManager W) (List String)
    get_existing_usernames =
        get_all_users_cached >>= λ users. give (map (λ row. get_or (get row "name") "") users)

    -- `user_exists` for a name that is not empty
    unfoldable pub exists_named : String → Action (HotspotManager W) Bool
    exists_named name =
        try
          (execute k "ip/hotspot/user/print" (("?name", name) ∷ (".proplist", ".id") ∷ [])
            >>= λ users. give (ltb 0 (length users)))
          (λ e. give false)

    unfoldable pub user_exists : Texts → String → Action (HotspotManager W) Bool
    user_exists text name =
        let stripped = text.strip name in
        if is_text stripped then exists_named stripped else give false

    -- a command that changes users; the cached list is dropped after it
    unfoldable pub changed : String → Row → Action (HotspotManager W) (List Row)
    changed command args =
        execute k command args >>= λ result. writes invalidate_users_cache >> give result

    unfoldable pub add_user :
        Texts
        → (name password profile bytes_total uptime comment : String)
        → Action (HotspotManager W) (List Row)
    add_user text name password profile bytes_total uptime comment =
        changed "ip/hotspot/user/add"
          (user_params text name password profile bytes_total uptime comment)

    unfoldable pub edit_user :
        Texts → String → List (String × Option String) → Action (HotspotManager W) (List Row)
    edit_user text user_id fields =
        changed "ip/hotspot/user/set" (edit_params text fields ((".id", user_id) ∷ []))

    unfoldable pub reset_user_counters : String → Action (HotspotManager W) (List Row)
    reset_user_counters user_id =
        changed "ip/hotspot/user/reset-counters" (("numbers", user_id) ∷ [])

    unfoldable pub enable_user : String → Action (HotspotManager W) (List Row)
    enable_user user_id = changed "ip/hotspot/user/enable" (("numbers", user_id) ∷ [])

    unfoldable pub disable_user : String → Action (HotspotManager W) (List Row)
    disable_user user_id = changed "ip/hotspot/user/disable" (("numbers", user_id) ∷ [])

    unfoldable pub delete_user : String → Action (HotspotManager W) (List Row)
    delete_user user_id = changed "ip/hotspot/user/remove" ((".id", user_id) ∷ [])

    unfoldable pub list_users : ℕ → Action (HotspotManager W) (List Row)
    list_users limit = get_all_users_cached >>= λ users. give (take limit users)

    unfoldable pub get_user : String → Action (HotspotManager W) (Option Row)
    get_user user_id = get_all_users_cached >>= λ users. give (with_id user_id users)

    -- the query with a filter on one field; a fault leaves what was found so far
    unfoldable pub search_field :
        String
        → String
        → List Row × List String
        → Action (HotspotManager W) (List Row × List String)
    search_field term field (results, seen) =
        try
          (execute k "ip/hotspot/user/print"
              (("?" ++ field, "*" ++ (term ++ "*")) ∷ (".proplist", user_proplist) ∷ [])
            >>= λ batch. let more = unseen seen batch in give (results ⧺ more.0, more.1))
          (λ e. give (results, seen))

    -- the search of the whole list, where the queries found nothing
    unfoldable pub or_whole_list : Texts → String → List Row → Action (HotspotManager W) (List Row)
    or_whole_list text term [] =
        get_all_users_cached >>= λ users. give (filter (found_in text term) users)
    or_whole_list text term (row ∷ rows) = give (row ∷ rows)

    unfoldable pub search_users : Texts → String → Action (HotspotManager W) (List Row)
    search_users text search_term = do
      by_name ← search_field (text.lower search_term) "name" ([], [])
      found ← search_field (text.lower search_term) "comment" by_name
      or_whole_list text (text.lower search_term) found.0

    -- `get_profiles`: a fault of the query, or of keeping its answer, gives no profile
    unfoldable pub fetch_profiles : Action (HotspotManager W) (List Row)
    fetch_profiles =
        try
          (do
            results ← execute k "ip/hotspot/user/profile/print" []
            keep (λ s. s.profiles_cache) put_profiles clock k results
            give results)
          (λ e. give [])

    unfoldable pub get_profiles : Action (HotspotManager W) (List Row)
    get_profiles = read_through (λ s. s.profiles_cache) put_profiles clock k fetch_profiles
