-- ===== src/Hotspot/Changes.antt =====
-- core/hotspot_manager.py: the cached list of users after a change.
use mikrotik_bot.Prelude.{
  ◌≡◌, String, string_eq, Option, none, some, List, [], ◌∷◌, Result, ok, err,
}
use mikrotik_bot.Dict
use mikrotik_bot.Dict.{get-pop_self}
use mikrotik_bot.Cache
use mikrotik_bot.Action.{Fault, Action, give, writes, proceed, ◌>>=◌, ◌>>◌}
use mikrotik_bot.Action.Ensures.{
  OnOk, Returns, Returns-self, Returns-give, Returns-bind, Returns-next,
}
use mikrotik_bot.Action.Cached.{forget, or_fetch, read_through, look-none}
use mikrotik_bot.Client.{Row, Outside, Texts}
use mikrotik_bot.Hotspot.{
  HotspotManager, execute, clock, put_users, fetch_users, get_all_users_cached,
  invalidate_users_cache, changed, add_user, edit_user, reset_user_counters, enable_user,
  disable_user, delete_user, user_proplist,
}

-- the calls that change users
pub data Change : Type 0 where
  add : (name password profile bytes_total uptime comment : String) → Change
  edit : String → List (String × Option String) → Change
  reset enable disable delete : String → Change

module _ {W : Type 0} (out : Outside W) (text : Texts) (k : String) where
  unfoldable pub make : Change → Action (HotspotManager W) (List Row)
  make (add name password profile bytes_total uptime comment) =
      add_user out k text name password profile bytes_total uptime comment
  make (edit user_id fields) = edit_user out k text user_id fields
  make (reset user_id) = reset_user_counters out k user_id
  make (enable user_id) = enable_user out k user_id
  make (disable user_id) = disable_user out k user_id
  make (delete user_id) = delete_user out k user_id

  -- the answer of the router's own list
  abbrev pub Answered : List Row → Type 0
  Answered rows =
      (t : HotspotManager W) × ((execute out k "ip/hotspot/user/print"
          ((".proplist", user_proplist) ∷ []) t).0
        ≡ ok rows)

  fetch_users-Answered : Returns Answered (fetch_users out k)
  unfolding fetch_users
  fetch_users-Answered =
      Returns-bind _ _ _ (Returns-self _) λ users asked. Returns-next _ _ (Returns-give users asked)

  -- with no entry for the router, the list is fetched
  or_fetch-Answered :
      (r : Result Fault (Option (List Row)) × HotspotManager W)
      → r.0 ≡ ok none
      → OnOk Answered
          (proceed
            (or_fetch (λ s. s.users_cache) (put_users out) (clock out) (fetch_users out k))
            r).0
  or_fetch-Answered (ok none, s) h = fetch_users-Answered.at s
  or_fetch-Answered (ok (some rows), s) h = cc h
  or_fetch-Answered (err e, s) h = tt

  read-Answered :
      (s : HotspotManager W)
      → Dict.get s.users_cache.cache k ≡ none
      → OnOk Answered (get_all_users_cached out k s).0
  unfolding get_all_users_cached read_through ◌>>=◌
  read-Answered s h =
      or_fetch-Answered _ (look-none (λ s. s.users_cache) (put_users out) (clock out) k s h)

  forgotten :
      (s : HotspotManager W) → Dict.get (invalidate_users_cache out k s).users_cache.cache k ≡ none
  unfolding invalidate_users_cache forget Cache.invalidate
  forgotten s = get-pop_self s.users_cache.cache k

  -- whatever follows a change sees no entry for the router
  proceed-Answered :
      (r : Result Fault (List Row) × HotspotManager W)
      → OnOk Answered
          (proceed
            (λ _. get_all_users_cached out k)
            (proceed (λ result. writes (invalidate_users_cache out k) >> give result) r)).0
  unfolding ◌>>◌
  proceed-Answered (ok result, s) = read-Answered (invalidate_users_cache out k s) (forgotten s)
  proceed-Answered (err e, s) = tt

  changed-Answered :
      (command : String) (args : Row)
      → Returns Answered (changed out k command args >> get_all_users_cached out k)
  unfolding changed ◌>>=◌ ◌>>◌
  changed-Answered command args = record {
    at = λ s. proceed-Answered (execute out k command args s);
  }

  -- A list of users that is read after a change of any kind that returned is an answer of the
  -- router to the query for its users, and not the list that was cached before the change.
  pub change_then_list : (c : Change) → Returns Answered (make c >> get_all_users_cached out k)
  unfolding make add_user edit_user reset_user_counters enable_user disable_user delete_user
  change_then_list (add name password profile bytes_total uptime comment) = changed-Answered _ _
  change_then_list (edit user_id fields) = changed-Answered _ _
  change_then_list (reset user_id) = changed-Answered _ _
  change_then_list (enable user_id) = changed-Answered _ _
  change_then_list (disable user_id) = changed-Answered _ _
  change_then_list (delete user_id) = changed-Answered _ _
