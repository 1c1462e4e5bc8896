-- ===== src/Hotspot/Purge/Safety.antt =====
-- core/hotspot_manager.py, `purge_expired_users`: whom it can remove.
use mikrotik_bot.Prelude.{◌≡◌, String, true, some, List, [], ◌∷◌, get_or, string_eq, All, ok}
use mikrotik_bot.Dict.{get}
use mikrotik_bot.Action.{Action}
use mikrotik_bot.Action.Ensures.{Keeps}
use mikrotik_bot.Action.Total.{Total}
use mikrotik_bot.Client.{Row, Outside, Texts}
use mikrotik_bot.Hotspot.Purge.{is_expired}
use mikrotik_bot.Hotspot.Purge.Counts.{listing}

module _ {W : Type 0} (out : Outside W) (text : Texts) (k : String) where
  abbrev pub removal : Row → Action W (List Row)
  removal row =
      out.client.execute k "ip/hotspot/user/remove" ((".id", get_or (get row ".id") "") ∷ [])

  module _ (P : W → Type 0) where
    -- the removal of this user keeps the property, where a limit of the user is reached
    abbrev pub IsSpared : Row → Type 0
    IsSpared row = is_expired text row ≡ some true → Keeps P (removal row)

    -- no user who is listed with a limit reached touches the property
    abbrev pub SparesAll : Type 0
    SparesAll = (w : W) (rows : List Row) → (listing out text k w).0 ≡ ok rows → All IsSpared rows
