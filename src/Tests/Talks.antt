-- ===== src/Tests/Talks.antt =====
-- The conversation that adds a user, on a router that keeps the rows it was told to add.
use mikrotik_bot.Prelude.{
  ◌≡◌, refl, String, string_eq, true, none, some, List, [], ◌∷◌, All, if◌then◌else◌, ok, pos, ◌==◌,
}
use mikrotik_bot.Dict.{set}
use mikrotik_bot.Action.{Action, try, within, ◌>>=◌, ◌>>◌}
use mikrotik_bot.Action.Cached.{forget}
use mikrotik_bot.Action.Ensures.{Keeps}
use mikrotik_bot.Action.Keeping.{Keeps-if}
use mikrotik_bot.Client.{Row, Outside, Texts, is_text}
use mikrotik_bot.Hotspot
use mikrotik_bot.Hotspot.{
  HotspotManager, user_params, add_user, user_exists, exists_named, changed, invalidate_users_cache,
}
use mikrotik_bot.RouterKey.Digits.{number, decimal}
use mikrotik_bot.AddUser.{
  HotspotAddSession, UserData, Bot, reported, execute_add_user, positive_uptime, two_digits,
}
use mikrotik_bot.AddUser.Steps.{
  Event, starts, says, presses, password_skipped, profile_picked, bytes_skipped, uptime_type_picked,
  converse, handle,
}
use mikrotik_bot.AddUser.Fields.{
  hotspot_add_start, hotspot_add_username, skip_password, add_back_to_profile,
  hotspot_add_profile_selected, skip_bytes, hotspot_add_uptime_type, hotspot_add_uptime_value,
  hotspot_add_comment,
}
use mikrotik_bot.RouterKey.{from_char}
use mikrotik_bot.Validators.{sanitize_comment}
use mikrotik_bot.Validators.Checks.{validate_username, validate_bytes_input}
use mikrotik_bot.AddUser.Entries.{HasUsername, HasPassword, HasBytes, HasUptime}
use mikrotik_bot.AddUser.Sound.{adds_what_was_entered}

abbrev text : Texts
text = record {
  lower = λ s. s;
  strip = λ s. s;
  int = λ s. elim (number s) [ some n ↦ some (pos n) | none ↦ none ];
}

abbrev run : String → String → Row → Action (List Row) (List Row)
run k command args rows =
    if command == "ip/hotspot/user/add" then (ok [], args ∷ rows) else (ok [], rows)

abbrev out : Outside (List Row)
out = record {
  client = record {
    execute = run;
    execute_long = run;
    get_userman_base_path = λ k w. (ok "user-manager", w);
    get_router_name = λ k w. (ok "hall", w);
  };
  log_action = λ action name router admin w. (ok tt, w);
  time = λ w. (0, w);
  timestamp = λ format w. ("2026-01-01", w);
  random_digits = λ n w. ("12", w);
}

abbrev bot : Bot (List Row)
bot = record {
  out = out;
  text = text;
  is_alnum = λ s. true;
  parse_bytes = λ s. some s;
  get_selected_router = λ m. (ok (some "a"), m);
  fetch_profiles = λ k m. (ok ("default" ∷ []), m);
  set_action = λ action m. (ok tt, m);
  log_action = λ name k m. (ok tt, m);
  failure = λ m e. reported;
}

-- the row is that of values that were entered
abbrev IsEntry : Row → Type 0
IsEntry row =
    (d : HotspotAddSession) × (comment : String) × HasUsername bot d
    × HasPassword bot d
    × HasBytes bot d
    × HasUptime bot d
    × (row ≡ user_params text d.username d.password d.profile d.bytes_total d.uptime_value comment)

abbrev AllEntered : HotspotManager (List Row) → Type 0
AllEntered m = All IsEntry m.world

looked : (k name : String) → Keeps AllEntered (user_exists out k text name)
unfolding user_exists exists_named try within ◌>>=◌ string_eq
looked k name = Keeps-if (is_text name) _ _ (record { at = λ m h. h }) (record { at = λ m h. h })

made :
    (k comment : String) (d : HotspotAddSession)
    → HasUsername bot d
    → HasPassword bot d
    → HasBytes bot d
    → HasUptime bot d
    → Keeps AllEntered
        (add_user out k text d.username d.password d.profile d.bytes_total d.uptime_value comment)
unfolding add_user changed within ◌>>=◌ ◌>>◌ invalidate_users_cache forget string_eq
made k comment d name password bytes uptime = record {
  at = λ m h. ((d, comment, name, password, bytes, uptime, refl), h);
}

-- what an earlier conversation left
abbrev left_over : UserData
left_over = record {
  hotspot_add_session = some (record {
    username = "x";
    password = "y";
    profile = "";
    uptime_type = "days";
    uptime_value = "9";
    bytes_total = "-";
  });
  profile_names = [];
}

abbrev talk : List Event
talk =
    starts
    ∷ says "guest_7"
    ∷ presses password_skipped
    ∷ presses (profile_picked "add_profile_0")
    ∷ presses bytes_skipped
    ∷ presses (uptime_type_picked "uptime_hours")
    ∷ says "5"
    ∷ says "hall"
    ∷ []

adds_what_was_entered_example : AllEntered (
    (converse bot talk
      (none, record { user_data = left_over; manager = Hotspot.init [] })).1.manager)
adds_what_was_entered_example =
    adds_what_was_entered bot AllEntered (λ action. record { at = λ m h. h })
      (record { at = λ m h. h }) (λ k. record { at = λ m h. h }) looked
      (λ name k. record { at = λ m h. h }) made talk left_over (Hotspot.init []) tt

guest_is_added :
    (converse bot talk
      (none, record { user_data = left_over; manager = Hotspot.init [] })).1.manager.world
    ≡ ((("name", "guest_7")
          ∷ ("profile", "default")
          ∷ ("limit-uptime", "05:00:00")
          ∷ ("comment", "hall")
          ∷ [])
        ∷ [])
unfolding converse ◌>>◌ within ◌>>=◌ try forget user_exists string_eq exists_named number from_char
    handle set add_user changed invalidate_users_cache user_params decimal execute_add_user
    positive_uptime two_digits validate_username validate_bytes_input sanitize_comment
    hotspot_add_start hotspot_add_username skip_password add_back_to_profile
    hotspot_add_profile_selected skip_bytes hotspot_add_uptime_type hotspot_add_uptime_value
    hotspot_add_comment
guest_is_added = refl
