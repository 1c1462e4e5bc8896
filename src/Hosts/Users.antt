-- ===== src/Hosts/Users.antt =====
-- core/hotspot_search.py, `kick_user`. Python's sets of texts are lists without repetitions, in the
-- order in which their elements were added.
use Prim.Native.Char.{code}
use Prim.Native.String.{[], ◌∷◌}
use mikrotik_bot.Prelude.{
  ℕ, zero, suc, String, string_eq, Bool, true, false, some, ◌&&◌, ◌||◌, List, [], ◌∷◌, ◌++◌ as ◌⧺◌,
  if◌then◌else◌, contains, filter, map, leb, nat_eqb, ◌==◌,
}
use mikrotik_bot.Dict.{Dict, get, set}
use mikrotik_bot.Action.{expected, unforeseen, Action, give, throw, try, ◌>>=◌, collect}
use mikrotik_bot.Client.{Row, Client, Texts, is_text, first_text}
use mikrotik_bot.Hosts.{
  lowered, macs_of, host_id, lease_of, get_leases_by_mac, print_hosts, host_proplist, remove_host,
}

abbrev pub is_hex : ℕ → Bool
is_hex n = leb 48 n && leb n 57 || leb 65 n && leb n 70 || leb 97 n && leb n 102

-- `n` pairs of hexadecimal digits with a colon, then one pair
unfoldable pub is_mac_from : ℕ → String → Bool
is_mac_from zero (a ∷ b ∷ []) = is_hex (code a) && is_hex (code b)
is_mac_from (suc n) (a ∷ b ∷ c ∷ rest) =
    is_hex (code a) && is_hex (code b) && nat_eqb (code c) 58 && is_mac_from n rest
is_mac_from _ _ = false

abbrev pub is_mac : String → Bool
is_mac target = is_mac_from 5 target

-- list(set(names))
unfoldable pub distinct : List String → List String
distinct [] = []
distinct (name ∷ names) =
    let rest = distinct names in if contains rest name then rest else name ∷ rest

-- {h.get(".id"): h for h in hosts if h.get(".id")}
unfoldable pub by_id : List Row → Dict String Row → Dict String Row
by_id [] found = found
by_id (host ∷ hosts) found =
    by_id hosts (if is_text (host_id host) then set found (host_id host) host else found)

-- the name under which `kick_user` reports a host: unlike `host_name`, with the address as it is
abbrev pub kicked_name : Texts → Dict String Row → Row → String
kicked_name text leases host = first_text (
    get (lease_of leases (lowered text "mac-address" host)) "host-name"
    ∷ get host "user"
    ∷ some (lowered text "mac-address" host)
    ∷ get host "address"
    ∷ [])

module _ {W : Type 0} (api : Client W) (text : Texts) (k : String) where
  abbrev pub active_proplist : String
  active_proplist = ".id,user,mac-address"

  -- the answer of a filtered query or, after a fault, that of the whole list; where the fault was
  -- none that the source names, one that it names leaves nothing
  unfoldable pub or_unfiltered : Action W (List Row) → Action W (List Row) → Action W (List Row)
  or_unfiltered filtered whole = try filtered λ e. elim e [
    | expected ↦ whole
    | unforeseen ↦ try whole λ e'. elim e' [ expected ↦ give [] | unforeseen ↦ throw unforeseen ]
  ]

  unfoldable pub sessions_of : String → Action W (List Row)
  sessions_of target =
      or_unfiltered
        (api.execute k "ip/hotspot/active/print"
          (("?user", target) ∷ (".proplist", active_proplist) ∷ []))
        (api.execute k "ip/hotspot/active/print" ((".proplist", active_proplist) ∷ []) >>= λ active.
          give (filter (λ s. lowered text "user" s == target) active))

  -- the loop over the sessions, each of which is removed
  unfoldable pub remove_sessions : List Row → Action W (List String)
  remove_sessions sessions = collect sessions λ s.
      api.execute k "ip/hotspot/active/remove" ((".id", host_id s) ∷ []) >>= λ rows.
      give (macs_of text (s ∷ []))

  -- `_find_active_sessions`, which gives the addresses to kick
  unfoldable pub find_active_sessions : String → Action W (List String)
  find_active_sessions target =
      sessions_of target >>= λ sessions. remove_sessions sessions >>= λ macs. give (distinct macs)

  abbrev pub by_field : String → String → Action W (List Row)
  by_field field value =
      print_hosts api text k ((field, value) ∷ (".proplist", host_proplist api text k) ∷ [])

  unfoldable pub filtered_hosts : String → Bool → List String → Action W (List Row)
  filtered_hosts target true macs_to_kick = by_field "?mac-address" target
  filtered_hosts target false macs_to_kick = by_field "?user" target >>= λ hosts.
      collect macs_to_kick (by_field "?mac-address") >>= λ more. give (hosts ⧺ more)

  abbrev pub is_matched : String → Bool → List String → Row → Bool
  is_matched target is_mac_target macs_to_kick host =
      lowered text "user" host == target
      || contains macs_to_kick (lowered text "mac-address" host)
      || is_mac_target && lowered text "mac-address" host == target
      || lowered text "address" host == target

  unfoldable pub find_matched_hosts : String → Bool → List String → Action W (List Row)
  find_matched_hosts target is_mac_target macs_to_kick =
      or_unfiltered (filtered_hosts target is_mac_target macs_to_kick) (
        print_hosts api text k ((".proplist", host_proplist api text k) ∷ []) >>= λ hosts.
        give (filter (is_matched target is_mac_target macs_to_kick) hosts))

  -- the loop over the hosts to remove, which gives their names
  unfoldable pub kick_each : Dict String Row → List Row → Action W (List String)
  kick_each leases hosts =
      collect hosts
        λ host. remove_host api text k host >>= λ rows. give (kicked_name text leases host ∷ [])

  unfoldable pub kick_hosts : List Row → Action W (List String)
  kick_hosts [] = give []
  kick_hosts (host ∷ hosts) =
      get_leases_by_mac api text k (macs_of text (host ∷ hosts)) >>= λ leases.
      kick_each leases (host ∷ hosts) >>= λ kicked. give (distinct kicked)

  unfoldable pub kick_user : String → Action W (List String)
  kick_user username = do
    let target = text.strip (text.lower username)
    macs_to_kick ← find_active_sessions target
    matched_hosts ← find_matched_hosts target (is_mac target) macs_to_kick
    kick_hosts (map (λ entry. entry.1) (by_id matched_hosts []))
