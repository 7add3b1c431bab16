-- ===== src/Ldap/Ad.antt =====
-- pkg/provider/ldap/helpers/ad: the interfaces for Active Directory, where the membership is on the
-- user entries, and its augmented form with entries for groups. Each has a cache as its state.
pub mod Members
pub mod Population
use group_sync_operator.Prelude.{
  String, ◌==◌, Bool, true, false, Option, none, some, List, [], ◌∷◌, ◌++◌, Exec, Result, ok, err,
  panic, Error, if◌then◌else◌, pure, raise, lift, ◌>>=◌,
}
use group_sync_operator.Prelude.Dict.{Dict, lookup, insert}
use group_sync_operator.Ldap.Directory.{Directory, QueryOnAttribute}
use group_sync_operator.Ldap.Detectors.{
  Detector, group_based_detector, member_based_detector, compound_detector,
}

-- `ADLDAPInterface`: what it is made with, and its cache.
pub record AdConfig (Q : Type 0) : Type 0 where
  pub user_query : Q
  pub group_membership_attributes : List String
  pub user_name_attributes : List String

pub record AdCache (E : Type 0) : Type 0 where
  pub cache_fully_populated : Bool
  pub ldap_group_to_ldap_members : Dict (List E)

-- `NewADLDAPInterface` begins with an empty cache.
abbrev pub new_ad_cache : {E : Type 0} → AdCache E
new_ad_cache = record { cache_fully_populated = false; ldap_group_to_ldap_members = [] }

abbrev pub keys {ℓ} : {A : Type ℓ} → Dict A → List String
keys [] = []
keys ((k, _) ∷ m) = k ∷ keys m

-- A missing key of the map reads as the nil slice.
abbrev pub or_no_members : {E : Type 0} → Option (List E) → List E
or_no_members none = []
or_no_members (some es) = es

module _ {E Q R : Type 0} (d : Directory E Q R) where
  -- `isEntryPresent`
  unfoldable pub is_entry_present : List E → E → Bool
  is_entry_present [] needle = false
  is_entry_present (e ∷ es) needle =
      let rest = is_entry_present es needle in if d.dn e == d.dn needle then true else rest

  -- `users` with `e` at the end, if no entry of that DN is there.
  unfoldable pub add_entry : List E → E → List E
  add_entry users e = if is_entry_present users e then users else users ++ e ∷ []

  unfoldable pub add_entries : List E → List E → List E
  add_entries users [] = users
  add_entries users (e ∷ es) = add_entries (add_entry users e) es

  -- The innermost step of the loops of `populateCache`.
  unfoldable pub add_member : E → String → Dict (List E) → Dict (List E)
  add_member user uid members =
      insert uid (add_entry (or_no_members (lookup uid members)) user) members

  unfoldable pub add_memberships : E → List String → Dict (List E) → Dict (List E)
  add_memberships user [] members = members
  add_memberships user (uid ∷ uids) members =
      add_memberships user uids (add_member user uid members)

  module _ (a : AdConfig Q) where
    abbrev pub required_user_attributes : List String
    required_user_attributes = d.set_list (a.user_name_attributes ++ a.group_membership_attributes)

    -- The loop of `ExtractMembers` over the membership attributes.
    unfoldable pub gather : List String → String → List E → Result (List E)
    gather [] uid users = ok users
    gather (attribute ∷ rest) uid users =
        elim (d.new_attribute_request a.user_query attribute uid required_user_attributes) [
          | err e ↦ err e
          | panic ↦ panic
          | ok request ↦ elim (d.query_for_entries request) [
            | err e ↦ err e
            | panic ↦ panic
            | ok entries ↦ gather rest uid (add_entries users entries)
          ]
        ]

    abbrev pub remember : String → List E → Exec (AdCache E) (List E)
    remember uid users s = (
      ok users,
      record s { ldap_group_to_ldap_members = insert uid users s.ldap_group_to_ldap_members },
    )

    -- `ADLDAPInterface.ExtractMembers`
    unfoldable pub extract_members : String → Exec (AdCache E) (List E)
    extract_members uid s = elim (lookup uid s.ldap_group_to_ldap_members) [
      | some members ↦ (ok members, s)
      | none ↦ (lift (gather a.group_membership_attributes uid []) >>= remember uid) s
    ]

    -- The group UIDs of a user, attribute by attribute.
    unfoldable pub memberships : List String → E → List String
    memberships [] user = []
    memberships (attribute ∷ rest) user =
        d.get_attribute_values user attribute ++ memberships rest user

    unfoldable pub add_users : List E → Dict (List E) → Dict (List E)
    add_users [] members = members
    add_users (user ∷ users) members =
        add_users users
          (add_memberships user (memberships a.group_membership_attributes user) members)

    -- `populateCache`
    abbrev pub filled : List E → Exec (AdCache E) (Unit {0})
    filled users s = (
      ok tt,
      record {
        cache_fully_populated = true;
        ldap_group_to_ldap_members = add_users users s.ldap_group_to_ldap_members;
      },
    )

    unfoldable pub populate_cache : Exec (AdCache E) (Unit {0})
    populate_cache s =
        if s.cache_fully_populated
        then (ok tt, s)
        else (lift
                (d.query_for_entries (d.new_search_request a.user_query required_user_attributes))
              >>= filled)
            s

    -- `ADLDAPInterface.ListGroups`
    unfoldable pub ad_list_groups : Exec (AdCache E) (List String)
    ad_list_groups s =
        (populate_cache >>= λ _ t. (ok (d.set_list (keys t.ldap_group_to_ldap_members)), t)) s

    -- `ADLDAPInterface.Exists`
    unfoldable pub ad_exists : Detector (AdCache E)
    ad_exists = member_based_detector extract_members
