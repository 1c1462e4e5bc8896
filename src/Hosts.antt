-- ===== src/Hosts.antt =====
-- core/hotspot_search.py and core/hotspot_blocking.py: the hosts and sessions of the hotspot, and
-- blocked addresses. The functions call the router only, so an action's state is the world.
pub mod Users
pub mod Kicks
use Prim.Native.Char.{code}
use Prim.Native.String.{[], ◌∷◌}
use mikrotik_bot.Prelude.{
  ℕ, zero, suc, String, string_eq, Bool, true, false, ◌&&◌, ◌||◌, not, Option, none, some, List, [],
  ◌∷◌, ◌++◌ as ◌⧺◌, if◌then◌else◌, contains, filter, map, get_or, leb, nat_eqb, ◌==◌,
}
use mikrotik_bot.Dict.{Dict, get, set}
use mikrotik_bot.Action.{
  Fault, expected, unforeseen, Action, give, throw, try, ◌>>=◌, ◌>>◌, collect,
}
use mikrotik_bot.Client.{Row, Client, Texts, is_text, first_text, occurs_in}

-- str(row.get(field, "")).lower()
abbrev pub lowered : Texts → String → Row → String
lowered text field row = text.lower (get_or (get row field) "")

-- the leases of some MAC addresses by their addresses; a later lease replaces an earlier one
unfoldable pub leases_from : Texts → List String → List Row → Dict String Row → Dict String Row
leases_from text macs [] found = found
leases_from text macs (lease ∷ leases) found =
    let mac = lowered text "mac-address" lease in
    leases_from text macs leases (if contains macs mac then set found mac lease else found)

abbrev pub lease_of : Dict String Row → String → Row
lease_of leases mac = get_or (get leases mac) []

-- search in ip or in mac or in user
unfoldable pub is_found : Texts → String → Row → Bool
is_found text term host =
    occurs_in term (lowered text "address" host)
    || occurs_in term (lowered text "mac-address" host)
    || occurs_in term (lowered text "user" host)

-- the host with the name that its lease has
unfoldable pub enriched : Texts → Dict String Row → Row → Row
enriched text leases host =
    set host "host-name"
      (get_or (get (lease_of leases (lowered text "mac-address" host)) "host-name") "")

-- {str(h.get("mac-address", "")).lower() for h in hosts if h.get("mac-address")}
unfoldable pub macs_of : Texts → List Row → List String
macs_of text [] = []
macs_of text (host ∷ hosts) =
    let rest = macs_of text hosts in
    if is_text (get_or (get host "mac-address") "")
    then lowered text "mac-address" host ∷ rest
    else rest

unfoldable pub first_host : Texts → String → List Row → List Row
first_host text target [] = []
first_host text target (host ∷ hosts) =
    let rest = first_host text target hosts in
    if lowered text "mac-address" host == target || lowered text "address" host == target
    then host ∷ []
    else rest

abbrev pub host_id : Row → String
host_id host = get_or (get host ".id") ""

-- the name under which a kicked host is reported
abbrev pub host_name : Texts → Dict String Row → Row → String
host_name text leases host = first_text (
    get (lease_of leases (lowered text "mac-address" host)) "host-name"
    ∷ get host "user"
    ∷ some (lowered text "mac-address" host)
    ∷ some (lowered text "address" host)
    ∷ [])

module _ {W : Type 0} (api : Client W) (text : Texts) (k : String) where
  unfoldable pub get_leases_by_mac : List String → Action W (Dict String Row)
  get_leases_by_mac macs = api.execute k "ip/dhcp-server/lease/print" [] >>= λ leases.
      give (leases_from text macs leases [])

  unfoldable pub query_hosts_by_field : String → String → String → Action W (List Row)
  query_hosts_by_field field value proplist =
      try (api.execute k "ip/hotspot/host/print" ((field, value) ∷ (".proplist", proplist) ∷ []))
        (λ e. give [])

  unfoldable pub search_all_hosts : String → String → Action W (List Row)
  search_all_hosts term proplist =
      try
        (api.execute k "ip/hotspot/host/print" ((".proplist", proplist) ∷ []) >>= λ hosts.
          give (filter (is_found text term) hosts))
        (λ e. give [])

  -- `if not hosts: hosts = …`
  abbrev pub or_else : Action W (List Row) → List Row → Action W (List Row)
  or_else next [] = next
  or_else next (host ∷ hosts) = give (host ∷ hosts)

  unfoldable pub enrich : List Row → Action W (List Row)
  enrich [] = give []
  enrich (host ∷ hosts) = get_leases_by_mac (macs_of text (host ∷ hosts)) >>= λ leases.
      give (map (enriched text leases) (host ∷ hosts))

  unfoldable pub search_hosts : String → Action W (List Row)
  search_hosts search_term = do
    let term = text.strip (text.lower search_term)
    let proplist : String = ".id,mac-address,address,user,bypassed,uptime,bytes-in,bytes-out,server"
    by_mac ← query_hosts_by_field "?mac-address" term proplist
    by_address ← or_else (query_hosts_by_field "?address" term proplist) by_mac
    hosts ← or_else (search_all_hosts term proplist) by_address
    enrich hosts

  abbrev pub host_proplist : String
  host_proplist = ".id,mac-address,address,user"

  abbrev pub print_hosts : Row → Action W (List Row)
  print_hosts query = api.execute k "ip/hotspot/host/print" query

  -- the hosts that the two filtered queries of `kick_host` find; a fault leaves none
  unfoldable pub target_hosts : String → Action W (List Row)
  target_hosts target =
      try
        (print_hosts (("?mac-address", target) ∷ (".proplist", host_proplist) ∷ [])
          >>= or_else (print_hosts (("?address", target) ∷ (".proplist", host_proplist) ∷ [])))
        (λ e. give [])

  -- the host among all hosts
  unfoldable pub listed_host : String → Action W (List Row)
  listed_host target = print_hosts ((".proplist", host_proplist) ∷ []) >>= λ hosts.
      give (first_host text target hosts)

  unfoldable pub leases_for : String → Action W (Dict String Row)
  leases_for mac = if is_text mac then get_leases_by_mac (mac ∷ []) else give []

  unfoldable pub remove_host : Row → Action W (List Row)
  remove_host host = api.execute k "ip/hotspot/host/remove" ((".id", host_id host) ∷ [])

  -- the rest of `kick_host`, with the hosts that were found
  unfoldable pub kick_first : List Row → Action W (Bool × Option String)
  kick_first [] = give (false, none)
  kick_first (host ∷ hosts) = leases_for (lowered text "mac-address" host) >>= λ leases.
      remove_host host >>= λ rows. give (true, some (host_name text leases host))

  unfoldable pub kick_host : String → Action W (Bool × Option String)
  kick_host mac_or_ip = do
    let target = text.strip (text.lower mac_or_ip)
    filtered ← target_hosts target
    hosts ← or_else (listed_host target) filtered
    kick_first hosts

  -- `unblock_mac`: the first entry of the address list
  abbrev pub remove_entry : List Row → Action W Bool
  remove_entry [] = give false
  remove_entry (entry ∷ entries) =
      let uid = host_id entry in
      let removed =
        api.execute k "ip/firewall/address-list/remove" ((".id", uid) ∷ []) >>= λ rows. give true in
      if is_text uid then removed else give false

  unfoldable pub unblock_mac : String → Action W Bool
  unblock_mac mac =
      try
        (api.execute k "ip/firewall/address-list/print"
            (("?list", "hotspot_blocked") ∷ ("?address", mac) ∷ [])
          >>= remove_entry)
        (λ e. give false)

  abbrev pub entry_fields : Row → Row
  entry_fields e =
      ("address", get_or (get e "address") "")
      ∷ ("comment", get_or (get e "comment") "")
      ∷ ("creation-time", get_or (get e "creation-time") "")
      ∷ []

  unfoldable pub get_blocked_macs : Action W (List Row)
  get_blocked_macs =
      try
        (api.execute k "ip/firewall/address-list/print" (("?list", "hotspot_blocked") ∷ [])
          >>= λ entries. give (map entry_fields entries))
        (λ e. give [])
