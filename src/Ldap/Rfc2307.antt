-- ===== src/Ldap/Rfc2307.antt =====
-- pkg/provider/ldap/helpers/rfc2307/ldapinterface.go: the interface for entries of groups that name
-- their members, with its two caches as its state.
pub mod Members
pub mod Listing
pub mod Tolerance
use group_sync_operator.Prelude.{
  String, ◌==◌, Bool, true, false, Option, none, some, List, [], ◌∷◌, ◌++◌, Exec, Result, ok, err,
  panic, Error, failure, is_query_out_of_bounds, if◌then◌else◌, pure, raise, lift, ◌>>=◌,
}
use group_sync_operator.Prelude.Dict.{Dict, lookup, insert}
use group_sync_operator.Ldap.Directory.{Directory, QueryOnAttribute}
use group_sync_operator.Ldap.Handlers.{Handler, new_member_lookup_error}
use group_sync_operator.Ldap.Detectors.{Detector, group_based_detector}

-- `LDAPInterface`: what it is made with, and its caches.
pub record Rfc2307 (Q : Type 0) : Type 0 where
  pub group_query : QueryOnAttribute Q
  pub group_name_attributes : List String
  pub group_membership_attributes : List String
  pub user_query : QueryOnAttribute Q
  pub user_name_attributes : List String
  pub error_handler : Handler

pub record Caches (E : Type 0) : Type 0 where
  pub cached_groups : Dict E
  pub cached_users : Dict E

-- `NewLDAPInterface` begins with empty caches.
abbrev pub new_caches : {E : Type 0} → Caches E
new_caches = record { cached_groups = []; cached_users = [] }

module _ {E Q R : Type 0} (d : Directory E Q R) where
  abbrev pub unique_entry_on : Result R → Result E
  unique_entry_on (ok request) = d.query_for_unique_entry request
  unique_entry_on (err e) = err e
  unique_entry_on panic = panic

  -- The entry whose query attribute has that value, with the given attributes.
  abbrev pub unique_entry : QueryOnAttribute Q → List String → String → Result E
  unique_entry q attributes uid =
      unique_entry_on (d.new_attribute_request q.query q.query_attribute uid attributes)

  module _ (a : Rfc2307 Q) where
    abbrev pub group_attributes : List String
    group_attributes = d.set_list (
        a.group_name_attributes
        ++ (a.group_membership_attributes ++ (a.group_query.query_attribute ∷ [])))

    abbrev pub user_attributes : List String
    user_attributes = d.set_list (a.user_name_attributes ++ (a.user_query.query_attribute ∷ []))

    abbrev pub remember_group : String → E → Exec (Caches E) E
    remember_group uid g s = (ok g, record s { cached_groups = insert uid g s.cached_groups })

    abbrev pub remember_user : String → E → Exec (Caches E) E
    remember_user uid u s = (ok u, record s { cached_users = insert uid u s.cached_users })

    -- `LDAPInterface.GroupEntryFor`
    unfoldable pub group_entry_for : String → Exec (Caches E) E
    group_entry_for uid s = elim (lookup uid s.cached_groups) [
      | some g ↦ (ok g, s)
      | none ↦ (lift (unique_entry a.group_query group_attributes uid) >>= remember_group uid) s
    ]

    -- `userEntryFor`
    unfoldable pub user_entry_for : String → Exec (Caches E) E
    user_entry_for uid s = elim (lookup uid s.cached_users) [
      | some u ↦ (ok u, s)
      | none ↦ (lift (unique_entry a.user_query user_attributes uid) >>= remember_user uid) s
    ]

    -- The values of the membership attributes of a group entry.
    unfoldable pub member_uids : List String → E → List String
    member_uids [] group = []
    member_uids (attribute ∷ rest) group =
        d.get_attribute_values group attribute ++ member_uids rest group

    -- What the error handler makes of a failed lookup: a fatal error, the error itself, or the
    -- next members.
    abbrev pub judged :
        Bool × Option Error → Error → Exec (Caches E) (List E) → Exec (Caches E) (List E)
    judged (handled, some fatal) e rest = raise fatal
    judged (handled, none) e rest = if handled then rest else raise e

    abbrev pub on_member :
        String → String → Result E → Exec (Caches E) (List E) → Exec (Caches E) (List E)
    on_member group uid (ok member) rest = rest >>= λ members. pure (member ∷ members)
    on_member group uid (err e) rest =
        if is_query_out_of_bounds e
        then rest
        else judged (a.error_handler (new_member_lookup_error group uid e))
            (new_member_lookup_error group uid e) rest
    on_member group uid panic rest = lift panic

    -- The loop of `ExtractMembers` over the UIDs of the members.
    unfoldable pub find_members : String → List String → Exec (Caches E) (List E)
    find_members group [] s = (ok [], s)
    find_members group (uid ∷ uids) s =
        on_member group uid (user_entry_for uid s).0 (find_members group uids)
          (user_entry_for uid s).1

    -- `LDAPInterface.ExtractMembers`
    unfoldable pub extract_members : String → Exec (Caches E) (List E)
    extract_members uid = do
      group ← group_entry_for uid
      find_members uid (member_uids a.group_membership_attributes group)

    abbrev pub group_uid : E → String
    group_uid g = d.get_attribute_value g (a.group_query.query_attribute ∷ [])

    -- The loop of `ListGroups`: each group is cached under its UID.
    unfoldable pub list_entries : List E → Exec (Caches E) (List String)
    list_entries [] = pure []
    list_entries (g ∷ gs) =
        if group_uid g == ""
        then raise (failure "unable to find LDAP group UID for %s" (d.dn g ∷ []))
        else (remember_group (group_uid g) g >>= λ _.
            list_entries gs >>= λ uids. pure (group_uid g ∷ uids))

    -- `LDAPInterface.ListGroups`
    unfoldable pub list_groups : Exec (Caches E) (List String)
    list_groups = do
      groups ←
          lift (d.query_for_entries (d.new_search_request a.group_query.query group_attributes))
      list_entries groups

    abbrev pub some_entry : E → Option E
    some_entry g = some g

    -- `LDAPInterface.Exists`
    unfoldable pub rfc2307_exists : Detector (Caches E)
    rfc2307_exists = group_based_detector (λ uid. group_entry_for uid >>= λ g. pure (some_entry g))
