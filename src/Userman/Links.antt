-- ===== src/Userman/Links.antt =====
-- core/userman_manager.py: what it means that a profile is reported as linked.
use Prim.Native.String.{◌++◌}
use mikrotik_bot.Prelude.{
  ◌≡◌, refl, ap, Result, err, ◌∷◌, if◌then◌else◌, [], String, ◌⊎◌, ◌==◌, eq_iff, string_eq, Bool,
  true, false, inl, inr, none, some, List, ok, Bool-cases, Option-cases, is_some, Any, Any-le,
}
use mikrotik_bot.Action.{Action, Fault, give, recover, try, proceed, ◌>>=◌}
use mikrotik_bot.Action.Ensures.{
  OnOk, OnOk-le, Returns, Returns-give, Returns-le, Returns-bind, Returns-then, Returns-next,
  from_bind,
}
use mikrotik_bot.Client.{Row, Outside, Texts}
use mikrotik_bot.Userman.{
  UserManager, Card, verify_failed, link_not_found, is_v7, first_row, is_link, execute,
}
use mikrotik_bot.Userman.Accounts.{
  Linked, failed, settle, verify_profile_link, attach, attach_v7_profile, attach_v6_profile,
  attach_profile, link_profile, add_profile_to_user, create_user,
}
use mikrotik_bot.Userman.Ids.{first_row-Any}

first_row-is_some :
    (p : Row → Bool) (rows : List Row)
    → is_some (first_row p rows) ≡ true
    → Any (λ row. p row ≡ true) rows
first_row-is_some p rows h = elim (Option-cases (first_row p rows)) [
  | inl missing ↦ cc (missing, h)
  | inr (row, found) ↦ Any-le _ _ (λ x accepted. accepted.0) rows (first_row-Any p rows row found)
]

module _ {W : Type 0} (out : Outside W) (k : String) where
  -- the command that attaches the profile, by the version that the base path tells
  abbrev pub attaching : String → String → String → String → Action (UserManager W) (List Row)
  attaching base_path username profile customer =
      if is_v7 base_path
      then execute out k (base_path ++ "/user-profile/add")
          (("user", username) ∷ ("profile", profile) ∷ [])
      else execute out k (base_path ++ "/user/create-and-activate-profile")
          (("profile", profile) ∷ ("numbers", username) ∷ ("customer", customer) ∷ [])

  -- the link table, read in this state, held the link
  abbrev pub HoldsLink : String → String → String → UserManager W → Type 0
  HoldsLink base_path username profile t =
      (rows : List Row) × ((execute out k (base_path ++ "/user-profile/print") [] t).0 ≡ ok rows)
      × Any (λ row. is_link username profile row ≡ true) rows

  -- the router accepted the command that attaches the profile, and its link table, read right
  -- after that, held the link
  abbrev pub ReadBack : String → String → Type 0
  ReadBack username profile =
      (base_path : String) × (customer : String) × (s : UserManager W) × (t : UserManager W)
      × (answer : List Row) × (attaching base_path username profile customer s ≡ (ok answer, t))
      × HoldsLink base_path username profile t

  -- a link that is reported has this evidence, and one that is not has a reason
  abbrev Reported : Type 0 → Linked → Type 0
  Reported Evidence (true, reason) = Evidence × (reason ≡ none)
  Reported Evidence (false, reason) = is_some reason ≡ true

  Reported-le :
      {Evidence More : Type 0}
      → (Evidence → More)
      → (linked : Linked) → Reported Evidence linked
      → Reported More linked
  Reported-le le (true, reason) (h, e) = (le h, e)
  Reported-le le (false, reason) h = h

  -- a link that is reported was read back, and one that is not has a reason
  unfoldable pub IsHonest : String → String → Linked → Type 0
  IsHonest username profile linked = Reported (ReadBack username profile) linked

  -- `_verify_profile_link` from one state
  verify_at :
      (base_path username profile : String) (t : UserManager W)
      → OnOk
          (Reported (HoldsLink base_path username profile t))
          (verify_profile_link out k base_path username profile t).0
  unfolding verify_profile_link try ◌>>=◌
  verify_at base_path username profile t =
      answered (execute out k (base_path ++ "/user-profile/print") [] t) refl
    where
      read_link :
          (rows : List Row)
          → (execute out k (base_path ++ "/user-profile/print") [] t).0 ≡ ok rows
          → Reported (HoldsLink base_path username profile t) (
              if is_some (first_row (is_link username profile) rows)
              then (true, none)
              else failed link_not_found)
      read_link rows asked =
          elim (Bool-cases (is_some (first_row (is_link username profile) rows))) [
            | inl linked ↦ rw linked ((rows, asked, first_row-is_some _ rows linked), refl)
            | inr missing ↦ rw missing refl
          ]

      answered :
          (r : Result Fault (List Row) × UserManager W)
          → execute out k (base_path ++ "/user-profile/print") [] t ≡ r
          → OnOk
              (Reported (HoldsLink base_path username profile t))
              (recover
                (λ e. give (failed (verify_failed e)))
                (proceed
                  (λ rows. give (
                    if is_some (first_row (is_link username profile) rows)
                    then (true, none)
                    else failed link_not_found))
                  r)).0
      answered (ok rows, t') asked = read_link rows (ap (λ r. r.0) asked)
      answered (err e, t') asked = refl

  -- the command, then the read-back from the state that the command left
  attach_at :
      (command : Action (UserManager W) (List Row)) (base_path username profile : String)
      (s : UserManager W)
      → ((answer : List Row) (t : UserManager W)
          → command s ≡ (ok answer, t)
          → HoldsLink base_path username profile t
          → ReadBack username profile)
      → OnOk
          (IsHonest username profile)
          (attach out k command (verify_profile_link out k base_path username profile) s).0
  unfolding attach try ◌>>=◌ IsHonest
  attach_at command base_path username profile s evidence = answered (command s) refl
    where
      answered :
          (r : Result Fault (List Row) × UserManager W)
          → command s ≡ r
          → OnOk
              (Reported (ReadBack username profile))
              (proceed
                (settle out k (verify_profile_link out k base_path username profile))
                (recover (λ e. give (some e)) (proceed (λ rows. give none) r))).0
      answered (ok rows, t) accepted =
          OnOk-le _ _ (λ linked h. Reported-le (evidence rows t accepted) linked h) _
            (verify_at base_path username profile t)
      answered (err e, t) accepted = refl

  attach_profile-IsHonest :
      (base_path username profile : String)
      → Returns (IsHonest username profile) (attach_profile out k base_path username profile)
  unfolding attach_profile attach_v7_profile attach_v6_profile
  attach_profile-IsHonest base_path username profile = elim (Bool-cases (is_v7 base_path)) [
    | inl v7 ↦ rw v7 (record {
      at = λ s.
          attach_at _ base_path username profile s
            λ answer t accepted held. (base_path, "", s, t, answer, rw v7 accepted, held);
    })
    | inr v6 ↦ rw v6 (record {
      at = λ s. attach_at _ base_path username profile s λ answer t accepted held.
          let (customer, s', asked, done) = from_bind _ _ s answer t accepted in
          (base_path, customer, s', t, answer, rw v6 done, held);
    })
  ]

  -- `add_profile_to_user` reports a link only if the router accepted the command that attaches the
  -- profile and its link table, read right after that, held a row of this user and this profile; a
  -- link that it does not report has a reason.
  pub linked_is_read_back :
      (username profile : String)
      → Returns (IsHonest username profile) (add_profile_to_user out k username profile)
  unfolding add_profile_to_user
  linked_is_read_back username profile =
      Returns-then _ _ λ base_path. attach_profile-IsHonest base_path username profile

  -- no profile was asked for and none is reported, or the report is honest
  abbrev pub CardIsHonest : String → String → Card → Type 0
  CardIsHonest username profile card =
      (card.username ≡ username)
      × (((profile ≡ "") × (card.profile_linked ≡ false) × (card.link_error ≡ none))
          ⊎ IsHonest username profile (card.profile_linked, card.link_error))

  link_profile-IsHonest :
      (base_path username profile : String)
      → Returns
          (λ linked.
            ((profile ≡ "") × (linked.0 ≡ false) × (linked.1 ≡ none))
            ⊎ IsHonest username profile linked)
          (link_profile out k base_path username profile)
  unfolding link_profile string_eq
  link_profile-IsHonest base_path username profile = elim (Bool-cases (profile == "")) [
    | inl empty ↦ rw empty (Returns-give _ (inl ((eq_iff profile "").0 empty, refl, refl)))
    | inr given ↦
        rw given
          (Returns-le _ (attach_profile-IsHonest base_path username profile) λ linked h. inr h)
  ]

  -- A card that `_create_user` returns has the name asked for, and says that its profile is linked
  -- only if the router accepted the command that attaches the profile and its link table, read right
  -- after that, held the link. Without a link it has a reason, except where no profile was asked
  -- for.
  pub create_user_is_honest :
      (text : Texts) (username password profile comment caller_id timestamp : String)
      → Returns
          (CardIsHonest username profile)
          (create_user out k text username password profile comment caller_id timestamp)
  unfolding create_user
  create_user_is_honest text username password profile comment caller_id timestamp =
      Returns-then _ _ λ base_path. Returns-then _ _ λ owner. Returns-next _ _ (
        Returns-next _ _ (
          Returns-next _ _ (
            Returns-bind _ _ _ (link_profile-IsHonest base_path username profile)
              λ linked h. Returns-give _ (refl, h))))
