-- ===== src/Tests/Routers.antt =====
-- The managers on a router that keeps a list of users.
use mikrotik_bot.Prelude.{
  ℕ, zero, suc, ◌+◌, ◌≤◌, ◌≡◌, refl, contains, Result, String, string_eq, Bool, true, false, not,
  Option, none, some, List, [], ◌∷◌, ◌++◌ as ◌⧺◌, map, ◌==◌, filter, if◌then◌else◌, ok, err, get_or,
  pos, ◌⊎◌,
}
use mikrotik_bot.Dict.{Dict, get}
use mikrotik_bot.Action.{Fault, Action, within, give, ◌>>◌, ◌>>=◌}
use mikrotik_bot.Action.Ensures.{Returns, OnOk}
use mikrotik_bot.Action.Total.{Total}
use mikrotik_bot.Client.{Row, Client, Outside, Texts}
use mikrotik_bot.Userman
use mikrotik_bot.Userman.{UserManager, Card}
use mikrotik_bot.Userman.Accounts
use mikrotik_bot.Userman.Cards
use mikrotik_bot.Userman.Fresh.{create_cards_are_fresh, CardsFor}
use mikrotik_bot.Userman.Links.{create_user_is_honest, CardIsHonest}
use Prim.Native.String.{count}
use mikrotik_bot.Validators.{sanitize_comment}
use mikrotik_bot.Validators.Comments.{comment_is_clean, Each, is_visible}
use mikrotik_bot.Usage.{report_of, rows_of, row_of, int_or_zero, limit_of, by_usage, insert}
use mikrotik_bot.Hotspot
use mikrotik_bot.Hotspot.Changes.{change_then_list, make, delete, Answered}
use mikrotik_bot.Hotspot.Cards as HotspotCards
use mikrotik_bot.Hotspot.Cards.Fresh.{hotspot_cards_are_fresh, AreCards, stamped}
use mikrotik_bot.Hotspot.Purge
use mikrotik_bot.Hotspot.Purge.{is_expired}
use mikrotik_bot.Hotspot.Uptime.{parse_uptime_seconds}

-- the ids that were removed, and the links of users to profiles
record Router : Type 0 where
  removed : List String
  links : List Row

-- a user within its limit and one beyond it
abbrev within_limit : Row
within_limit = (".id", "*1") ∷ ("name", "10") ∷ ("bytes-out", "3") ∷ ("limit-bytes-total", "5") ∷ []

abbrev beyond_limit : Row
beyond_limit = (".id", "*2") ∷ ("name", "11") ∷ ("bytes-out", "5") ∷ ("limit-bytes-total", "5") ∷ []

abbrev users : List Row
users = within_limit ∷ beyond_limit ∷ []

abbrev run : String → String → Row → Action Router (List Row)
run k command args r =
    if command == "ip/hotspot/user/remove"
    then (ok [], record r { removed = get_or (get args ".id") "" ∷ r.removed })
    else if command == "user-manager/user-profile/add"
    then (ok [], record r { links = args ∷ r.links })
    else if command == "user-manager/user-profile/print"
    then (ok r.links, r)
    else (ok users, r)

abbrev client : Client Router
client = record {
  execute = run;
  execute_long = λ k command args r. (ok users, r);
  get_userman_base_path = λ k r. (ok "user-manager", r);
  get_router_name = λ k r. (ok "hall", r);
}

-- the digits are those of user 10, then others
abbrev out : Outside Router
out = record {
  client = client;
  log_action = λ action username router admin_id r. (ok tt, r);
  time = λ r. (0, r);
  timestamp = λ format r. ("2026-01-01", r);
  random_digits = λ n r. ("12", r);
}

abbrev text : Texts
text = record {
  lower = λ s. s;
  strip = λ s. s;
  int = λ s. if s == "3" then some (pos 3) else if s == "5" then some (pos 5) else none;
}

logged : Total (λ u. Unit) (Userman.Accounts.log_um_action out "a" "create_userman_cards" "")
unfolding Userman.Accounts.log_um_action within ◌>>=◌
logged = record { at = λ s. tt }

create_cards_are_fresh_example :
    Total
      (λ cards.
        (CardsFor out text "a" 3 cards)
        ⊎ ((get Userman.Cards.card_types "type2" ≡ none) × (cards ≡ [])))
      (Userman.Cards.create_cards out text "a" "type2" "1day" "" "" "" 2 3)
create_cards_are_fresh_example =
    create_cards_are_fresh out text "a" logged "type2" "1day" "" "" "" 2 3

create_user_is_honest_example :
    Returns
      (CardIsHonest out "a" "12" "1day")
      (Userman.Accounts.create_user out "a" text "12" "34" "1day" "" "" "")
create_user_is_honest_example = create_user_is_honest out "a" text "12" "34" "1day" "" "" ""

change_then_list_example :
    Returns
      (Answered out text "a")
      (make out text "a" (delete "*2") >> Hotspot.get_all_users_cached out "a")
change_then_list_example = change_then_list out text "a" (delete "*2")

abbrev fresh_router : Router
fresh_router = record { removed = []; links = [] }

hotspot_cards_are_fresh_example :
    let start = Hotspot.init fresh_router in
    OnOk
      (λ cards.
        (names : List String) × ((Hotspot.get_existing_usernames out "a" (stamped out "a" start)).0
          ≡ ok names)
        × AreCards out "a" names 3 cards)
      (HotspotCards.create_cards out "a" Userman.same_credentials 3 2 "1day" "" "" "" start).0
hotspot_cards_are_fresh_example =
    hotspot_cards_are_fresh out "a" Userman.same_credentials 3 2 "1day" "" "" ""
      (Hotspot.init fresh_router)

abbrev Stays : Router → Type 0
Stays r = contains r.removed "*1" ≡ false

abbrev answer_rows : Result Fault (List Row) → List Row
answer_rows (ok rows) = rows
answer_rows (err e) = []

purged : (Hotspot.Purge.purge_expired_users out text "a" 1 (Hotspot.init fresh_router)).0 ≡ ok 1
unfolding Hotspot.Purge.purge_expired_users mikrotik_bot.Action.try ◌>>=◌ within Purge.purge_chunks
    mikrotik_bot.Prelude.chunks Purge.purge_chunk Purge.purge_row string_eq get is_expired
    parse_uptime_seconds Purge.purge_user Hotspot.delete_user Hotspot.changed ◌>>◌
purged = refl

abbrev cards_of : Result Fault (List Card) → List Card
cards_of (ok cards) = cards
cards_of (err e) = []

-- the digits repeat, so the second card finds no name
one_card :
    map {B = String × Bool}
      (λ card. (card.username, card.profile_linked))
      (cards_of
        (Userman.Cards.create_cards out text "a" "type2" "1day" "" "" "" 2 2
          (Userman.init fresh_router)).0)
    ≡ ("12", true) ∷ []
unfolding Cards.create_cards get string_eq Cards.create_known ◌>>=◌ Userman.fetch_existing_usernames
    mikrotik_bot.Action.try within Cards.base_time Cards.create_from Cards.generate_unique_card
    Cards.generate_from Cards.generate_digits Cards.password_for mikrotik_bot.Client.first_text
    Accounts.create_user Accounts.owner_fields ◌>>◌ mikrotik_bot.Cache.invalidate
    mikrotik_bot.Dict.pop mikrotik_bot.Dict.set Accounts.attach Accounts.attach_profile
    Accounts.attach_v7_profile Accounts.commented Accounts.link_profile Accounts.log_um_action
    Accounts.verify_profile_link Cards.keep_card Userman.first_row Userman.forget_users
    mikrotik_bot.Validators.collapse_blanks mikrotik_bot.Validators.drop_controls
    mikrotik_bot.Validators.first_chars mikrotik_bot.Validators.replace_breaks
    mikrotik_bot.Validators.sanitize_comment
one_card = refl

comment_is_clean_example :
    Each is_visible (sanitize_comment text "guest\troom  7" 10)
    × (count (sanitize_comment text "guest\troom  7" 10) ≤ 10)
comment_is_clean_example = comment_is_clean text "guest\troom  7" 10 λ p s h. h

-- the answer to the removal of a host, whose id is then listed, and to any other call
abbrev answer : Bool → Row → List String → Result Fault (List Row) × List String
answer true args ids = (ok [], get_or (get args ".id") "" ∷ ids)
answer false args ids = (ok (((".id", "*7") ∷ ("user", "ann") ∷ ("address", "10") ∷ []) ∷ []), ids)

-- a router on which every host can be removed
abbrev removing : Client (List String)
removing = record {
  execute = λ k command args ids. answer (command == "ip/hotspot/host/remove") args ids;
  execute_long = λ k command args ids. (ok [], ids);
  get_userman_base_path = λ k ids. (ok "user-manager", ids);
  get_router_name = λ k ids. (ok "hall", ids);
}

abbrev SomeRemoved : String → List String → Type 0
SomeRemoved name [] = ⊥
SomeRemoved name (id ∷ ids) = Unit

-- user *2 used more than user *1, and all that it may
top_consumer :
    (map (λ row. row.name) (report_of text 1 users).top_consumers ≡ "11" ∷ [])
    × (map (λ row. row.name) (report_of text 1 users).expired ≡ "11" ∷ [])
unfolding report_of rows_of row_of int_or_zero limit_of by_usage insert get string_eq
top_consumer = (refl, refl)
