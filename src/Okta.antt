-- ===== src/Okta.antt =====
-- The `Sync` of pkg/syncer/okta.go. What the client of Okta answers, the parsed host of the URL, the
-- texts of times and the test for a qualified name are parameters. `Init` is in Syncer.
pub mod Fetched
pub mod Connection
pub mod Accepted
pub mod Users
pub mod Listing
pub mod Synced
use group_sync_operator.Prelude.{
  ℕ, eqb, String, ◌==◌, Bool, true, false, not, Option, none, some, List, [], ◌∷◌, ◌++◌, length,
  join, Result, ok, err, panic, Error, failure, if◌then◌else◌,
}
use group_sync_operator.Prelude.Dict.{Dict, lookup, insert, contains}
use group_sync_operator.Prelude.Text.{before_at}
use group_sync_operator.Constants.{sync_source_host, sync_source_uid}
use group_sync_operator.Api.{OktaProvider}
use group_sync_operator.Cluster.{Group}
use group_sync_operator.Syncer.{is_group_allowed}

-- `okta.Group` and `okta.User`; the profile holds the fields that are texts.
pub record OktaGroup : Type 0 where
  pub id : String
  pub name : String
  pub description : String
  pub created : String
  pub last_updated : String
  pub last_membership_updated : String
  pub object_class : List String
  pub type : String

pub record OktaUser : Type 0 where
  pub status : String
  pub profile : Dict String

-- What the goroutines of `fetchGroupsAsync` send: the groups that were retrieved. An error is only
-- logged.
unfoldable pub retrieved : (String → Option OktaGroup) → List String → List OktaGroup
retrieved get_group [] = []
retrieved get_group (app ∷ apps) =
    let rest = retrieved get_group apps in elim (get_group app) [ some g ↦ g ∷ rest | none ↦ rest ]

abbrev pub not_all : Error
not_all = failure "failed to retrieve all groups" []

-- `fetchGroupsAsync`; `order` is the order in which the groups arrive on the channel.
unfoldable pub fetch_groups_async :
    (List OktaGroup → List OktaGroup)
    → (String → Option OktaGroup)
    → List String
    → Result (List OktaGroup)
fetch_groups_async order get_group apps =
    let groups : List OktaGroup = order (retrieved get_group apps) in
    if eqb (length groups) (length apps) then ok groups else err not_all

-- The caches.
pub record OktaCache : Type 0 where
  pub groups : Dict OktaGroup
  pub members : Dict (List OktaUser)

module _ (p : OktaProvider) (list_users : String → Option (List OktaUser)) where
  -- `processGroupsAndMembers`; `list_users` has nothing where the request answers an error. That
  -- leaves the group in the cache; the caller only logs the error.
  abbrev pub with_users : String → Option (List OktaUser) → OktaCache → OktaCache
  with_users id (some us) s = record s { members = insert id us s.members }
  with_users id none s = s

  unfoldable pub process_okta_group : OktaGroup → OktaCache → OktaCache
  process_okta_group g s =
      if is_group_allowed g.name p.groups
      then with_users g.id (list_users g.id) (record s { groups = insert g.id g s.groups })
      else s

  unfoldable pub process_okta_groups : List OktaGroup → OktaCache → OktaCache
  process_okta_groups [] s = s
  process_okta_groups (g ∷ gs) s =
      let processed = process_okta_group g s in
      process_okta_groups gs (if contains g.id s.groups then s else processed)

-- The name of a user that is active and has the field, cut at the @ where it is to be extracted.
abbrev pub name_in : OktaProvider → Option String → List String
name_in p none = []
name_in p (some name) = (if p.extract_login_username then before_at name else name) ∷ []

-- The users of a group.
unfoldable pub okta_usernames : OktaProvider → List OktaUser → List String
okta_usernames p [] = []
okta_usernames p (u ∷ us) =
    let rest = okta_usernames p us in
    if u.status == "ACTIVE" then name_in p (lookup p.profile_key u.profile) ++ rest else rest

-- `mapAttributes`
unfoldable pub map_attributes : OktaGroup → Dict String
map_attributes g =
    ("created", g.created)
    ∷ ("description", g.description)
    ∷ ("id", g.id)
    ∷ ("lastUpdated", g.last_updated)
    ∷ ("lastMembershipUpdated", g.last_membership_updated)
    ∷ ("name", g.name)
    ∷ ("objectClass", join "," g.object_class)
    ∷ ("type", g.type)
    ∷ []

unfoldable pub validated : (String → Bool) → Dict String → Dict String
validated is_qualified [] = []
validated is_qualified ((key, value) ∷ rest) =
    let others = validated is_qualified rest in
    if is_qualified key then (key, value) ∷ others else others

abbrev pub or_no_users : Option (List OktaUser) → List OktaUser
or_no_users none = []
or_no_users (some us) = us

-- The group of one cached group.
unfoldable pub okta_group : (String → Bool) → OktaProvider → OktaCache → String → OktaGroup → Group
okta_group is_qualified p s host g = record {
  name = g.name;
  uid = "";
  labels = some [];
  annotations = some (
      insert sync_source_uid g.id
        (insert sync_source_host host (validated is_qualified (map_attributes g))));
  users = okta_usernames p (or_no_users (lookup g.id s.members));
}

-- The loop of `Sync` over the cached groups.
unfoldable pub okta_groups :
    (String → Bool) → OktaProvider → OktaCache → String → Dict OktaGroup → List Group
okta_groups is_qualified p s host [] = []
okta_groups is_qualified p s host ((id, g) ∷ rest) =
    okta_group is_qualified p s host g ∷ okta_groups is_qualified p s host rest
