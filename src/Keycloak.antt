-- ===== src/Keycloak.antt =====
-- The `Sync` of pkg/syncer/keycloak.go. What the client of Keycloak answers, the parsed host of the
-- URL and the test for a qualified name are parameters. `Init` is in Syncer.
pub mod Members
pub mod Scope
pub mod Connection
pub mod Accepted
pub mod Groups
use group_sync_operator.Prelude.{
  ℕ, String, ◌==◌, Bool, true, false, not, ◌||◌, ◌&&◌, Option, none, some, List, [], ◌∷◌, ◌++◌,
  Result, ok, err, panic, Error, is_some, if◌then◌else◌,
}
use group_sync_operator.Prelude.Dict.{Dict, lookup, insert, contains}
use group_sync_operator.Constants.{
  sync_source_host, sync_source_uid, hierarchy_children, hierarchy_parent, hierarchy_parents,
}
use group_sync_operator.Api.{KeycloakProvider, sub_sync_scope}
use group_sync_operator.Cluster.{Group}
use group_sync_operator.Syncer.{is_group_allowed}
use group_sync_operator.Paging.{fetch_all}

-- `gocloak.User` and `gocloak.Group`, as far as they are read.
pub record User : Type 0 where
  pub id : String
  pub username : String

mutual
  pub data KeycloakGroup : Type 0 where
    group : String → String → Dict (List String) → KeycloakGroups → KeycloakGroup

  pub data KeycloakGroups : Type 0 where
    no_groups : KeycloakGroups
    add_group : KeycloakGroup → KeycloakGroups → KeycloakGroups

abbrev pub group_id : KeycloakGroup → String
group_id (group id name attributes subs) = id

abbrev pub group_name : KeycloakGroup → String
group_name (group id name attributes subs) = name

abbrev pub sub_groups : KeycloakGroup → KeycloakGroups
sub_groups (group id name attributes subs) = subs

abbrev pub group_names : KeycloakGroups → List String
group_names no_groups = []
group_names (add_group g gs) = group_name g ∷ group_names gs

-- The attributes that a second request answers replace those of the group, if there are any.
abbrev pub or_old : Dict (List String) → Dict (List String) → Dict (List String)
or_old [] old = old
or_old (a ∷ rest) old = a ∷ rest

-- `setGroupsAttributes`; `get` has nothing where the request answers an error, and then the subgroups
-- are not visited.
mutual
  pub set_group_attributes : (String → Option (Dict (List String))) → KeycloakGroup → KeycloakGroup
  set_group_attributes get (group id name attributes subs) =
      let below = set_groups_attributes get subs in
      elim (get id) [
        | some new ↦ group id name (or_old new attributes) below
        | none ↦ group id name attributes subs
      ]

  pub set_groups_attributes :
      (String → Option (Dict (List String))) → KeycloakGroups → KeycloakGroups
  set_groups_attributes get no_groups = no_groups
  set_groups_attributes get (add_group g gs) =
      add_group (set_group_attributes get g) (set_groups_attributes get gs)

pub set_all_attributes :
    (String → Option (Dict (List String)))
    → Result (List KeycloakGroup)
    → Result (List KeycloakGroup)
set_all_attributes get (ok []) = ok []
set_all_attributes get (ok (g ∷ gs)) = elim (set_all_attributes get (ok gs)) [
  | ok hs ↦ ok (set_group_attributes get g ∷ hs)
  | err e ↦ err e
  | panic ↦ panic
]
set_all_attributes get rest = rest

-- `getGroups` and `getGroupMembers`, on fuel.
pub get_groups :
    (String → Option (Dict (List String)))
    → (ℕ → Result (List KeycloakGroup))
    → ℕ
    → Option (Result (List KeycloakGroup))
unfolding set_all_attributes
get_groups get page fuel = fetch_all (λ first. set_all_attributes get (page first)) fuel 0

pub get_group_members : (String → ℕ → Result (List User)) → ℕ → String → Option (Result (List User))
get_group_members page fuel id = fetch_all (page id) fuel 0

-- `CachedGroups` and `CachedGroupMembers`
pub record KeycloakCache : Type 0 where
  pub groups : Dict KeycloakGroup
  pub members : Dict (List User)

abbrev pub has_id : String → List User → Bool
has_id id [] = false
has_id id (u ∷ us) = u.id == id || has_id id us

-- `singleDiff`
unfoldable pub single_diff : List User → List User → List User
single_diff [] rhs = []
single_diff (u ∷ us) rhs =
    let rest = single_diff us rhs in if has_id u.id rhs then rest else u ∷ rest

abbrev pub or_no_users : Option (List User) → List User
or_no_users none = []
or_no_users (some us) = us

abbrev pub members_of : String → KeycloakCache → List User
members_of id s = or_no_users (lookup id s.members)

-- The members of a subgroup are added to those of its parent.
unfoldable pub add_to_parent : Option String → List User → KeycloakCache → KeycloakCache
add_to_parent none us s = s
add_to_parent (some parent) us s = record s {
  members = insert parent (members_of parent s ++ single_diff us (members_of parent s)) s.members;
}

-- The members of a group are cached, and added to its parent.
abbrev pub cache_members : String → Option String → List User → KeycloakCache → KeycloakCache
cache_members id parent us s =
    add_to_parent parent us (record s { members = insert id us s.members })

abbrev pub cache_group : KeycloakGroup → KeycloakCache → KeycloakCache
cache_group g s = record s { groups = insert (group_id g) g s.groups }

module _ (p : KeycloakProvider) (get_members : String → Option (List User)) where
  abbrev pub is_skipped : Option String → String → Bool
  is_skipped none name = not (is_group_allowed name p.groups)
  is_skipped (some parent) name = false

  -- `get_members` has nothing where `getGroupMembers` answers an error. The group then stays in the
  -- cache: the callers drop the error.
  abbrev pub on_members :
      Option (List User) → KeycloakCache → (List User → KeycloakCache) → KeycloakCache
  on_members (some us) s next = next us
  on_members none s next = s

  -- `processGroupsAndMembers`
  unfoldable mutual
    pub process_group : KeycloakGroup → Option String → KeycloakCache → KeycloakCache
    process_group (group id name attributes subs) parent s =
        let cached = cache_group (group id name attributes subs) s in
        let processed = on_members (get_members id) cached (λ us.
          let read = cache_members id parent us cached in
          if p.scope == sub_sync_scope then process_groups subs id read else read) in
        if is_skipped parent name then s else processed

    pub process_groups : KeycloakGroups → String → KeycloakCache → KeycloakCache
    process_groups no_groups parent s = s
    process_groups (add_group g gs) parent s =
        let processed = process_group g (some parent) s in
        process_groups gs parent (if contains (group_id g) s.groups then s else processed)

  -- The first loop of `Sync`.
  unfoldable pub process_all : List KeycloakGroup → KeycloakCache → KeycloakCache
  process_all [] s = s
  process_all (g ∷ gs) s =
      let processed = process_group g none s in
      process_all gs (if contains (group_id g) s.groups then s else processed)
