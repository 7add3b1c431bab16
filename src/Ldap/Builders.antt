-- ===== src/Ldap/Builders.antt =====
-- pkg/provider/ldap/builders: the parts of a group syncer for each schema. The interface to the
-- directory is made at the first call that needs it and kept, so that all parts share its caches. The
-- state of a builder is the interface that it keeps.
use group_sync_operator.Prelude.{
  String, Option, none, some, List, [], Exec, Result, ok, err, panic, pure, ◌>>=◌,
}
use group_sync_operator.Api.{
  LdapQuery, Rfc2307Config, ActiveDirectoryConfig, AugmentedActiveDirectoryConfig,
}
use group_sync_operator.Ldap.Directory.{Directory, QueryOnAttribute}
use group_sync_operator.Ldap.Detectors.{Detector}
use group_sync_operator.Ldap.Handlers.{Handler}
use group_sync_operator.Ldap.Listers.{Lister}
use group_sync_operator.Ldap.Mappers.{
  GroupNameMapper, dn_mapper, entry_attribute_mapper, user_name_for,
}
use group_sync_operator.Ldap.Ad as Directories
use group_sync_operator.Ldap.Ad.{AdConfig, AdCache, ad_list_groups, ad_exists}
use group_sync_operator.Ldap.AugmentedAd.{
  AugmentedConfig, AugmentedCache, augmented_entry_for, augmented_members, augmented_list_groups,
  augmented_exists,
}
use group_sync_operator.Ldap.Rfc2307 as Entries
use group_sync_operator.Ldap.Rfc2307.{Rfc2307, Caches, group_entry_for, list_groups, rfc2307_exists}

-- `ldapquery.NewLDAPQuery` and `ldapquery.NewLDAPQueryOnAttribute`
pub record Queries (Q : Type 0) : Type 0 where
  pub new_ldap_query : LdapQuery → Result Q
  pub new_ldap_query_on_attribute : LdapQuery → String → Result (QueryOnAttribute Q)

-- `ToLDAPQuery`
abbrev pub to_ldap_query : LdapQuery → LdapQuery
to_ldap_query q = record {
  base_dn = q.base_dn;
  scope = q.scope;
  deref_aliases = q.deref_aliases;
  time_limit = q.time_limit;
  filter = q.filter;
  page_size = q.page_size;
}

abbrev pub with_result {ℓ κ} : {A : Type ℓ} {B : Type κ} → Result A → (A → Result B) → Result B
with_result (ok a) f = f a
with_result (err e) f = err e
with_result panic f = panic

-- A nil slice is read as an empty one.
abbrev pub or_no_names : Option (List String) → List String
or_no_names none = []
or_no_names (some names) = names

abbrev pub keep_made {ℓ} : {I : Type ℓ} → Result I → Result I × Option I
keep_made (ok i) = (ok i, some i)
keep_made (err e) = (err e, none)
keep_made panic = (panic, none)

-- The interface that is kept, or the one that is made.
abbrev pub memoised : {I : Type 0} → Result I → Exec (Option I) I
memoised made (some i) = (ok i, some i)
memoised made none = keep_made made

-- `SyncBuilder` and `PruneBuilder`: their methods, where `M` is the state of the builder and `S` that of the
-- interface. A mapper can be nil.
pub record Builder (M S E : Type 0) : Type 0 where
  pub get_group_lister : Exec M (Lister S)
  pub get_group_name_mapper : Exec M (Option (GroupNameMapper S))
  pub get_user_name_mapper : E → Result String
  pub get_group_member_extractor : Exec M (String → Exec S (List E))
  pub get_group_detector : Exec M (Detector S)

module _ {E Q R : Type 0} (d : Directory E Q R) (queries : Queries Q) where
  -- The mapper by attributes of the group's entry, if attributes are given.
  abbrev pub mapper_if :
      {S : Type 0} → Option (List String) → (String → Exec S E) → Option (GroupNameMapper S)
  mapper_if none group_entry = none
  mapper_if (some names) group_entry = some (entry_attribute_mapper d names group_entry)

  -- `getRFC2307LDAPInterface`
  unfoldable pub make_rfc2307 : Rfc2307Config → Handler → Result (Rfc2307 Q)
  make_rfc2307 g handler =
      with_result
        (queries.new_ldap_query_on_attribute (to_ldap_query g.all_groups_query)
          g.group_uid_attribute)
        (λ group_query.
          with_result
            (queries.new_ldap_query_on_attribute (to_ldap_query g.all_users_query)
              g.user_uid_attribute)
            (λ user_query. ok (record {
              group_query = group_query;
              group_name_attributes = or_no_names g.group_name_attributes;
              group_membership_attributes = g.group_membership_attributes;
              user_query = user_query;
              user_name_attributes = g.user_name_attributes;
              error_handler = handler;
            })))

  unfoldable pub get_rfc2307 : Rfc2307Config → Handler → Exec (Option (Rfc2307 Q)) (Rfc2307 Q)
  get_rfc2307 g handler = memoised (make_rfc2307 g handler)

  -- `RFC2307Builder`
  abbrev pub rfc2307_builder : Rfc2307Config → Handler → Builder (Option (Rfc2307 Q)) (Caches E) E
  rfc2307_builder g handler = record {
    get_group_lister = get_rfc2307 g handler >>= λ i. pure (list_groups d i);
    get_group_name_mapper = get_rfc2307 g handler >>= λ i.
        pure (mapper_if g.group_name_attributes (group_entry_for d i));
    get_user_name_mapper = user_name_for d g.user_name_attributes;
    get_group_member_extractor = get_rfc2307 g handler >>= λ i. pure (Entries.extract_members d i);
    get_group_detector = get_rfc2307 g handler >>= λ i. pure (rfc2307_exists d i);
  }

  -- `getADLDAPInterface`
  unfoldable pub make_ad : ActiveDirectoryConfig → Result (AdConfig Q)
  make_ad g = with_result (queries.new_ldap_query (to_ldap_query g.all_users_query)) (λ user_query.
      ok (record {
        user_query = user_query;
        group_membership_attributes = g.group_membership_attributes;
        user_name_attributes = g.user_name_attributes;
      }))

  unfoldable pub get_ad : ActiveDirectoryConfig → Exec (Option (AdConfig Q)) (AdConfig Q)
  get_ad g = memoised (make_ad g)

  -- `ADBuilder`: groups are named by their DN.
  abbrev pub ad_builder : ActiveDirectoryConfig → Builder (Option (AdConfig Q)) (AdCache E) E
  ad_builder g = record {
    get_group_lister = get_ad g >>= λ i. pure (ad_list_groups d i);
    get_group_name_mapper = pure (some dn_mapper);
    get_user_name_mapper = user_name_for d g.user_name_attributes;
    get_group_member_extractor = get_ad g >>= λ i. pure (Directories.extract_members d i);
    get_group_detector = get_ad g >>= λ i. pure (ad_exists d i);
  }

  -- `getAugmentedADLDAPInterface`
  unfoldable pub make_augmented : AugmentedActiveDirectoryConfig → Result (AugmentedConfig Q)
  make_augmented g =
      with_result (queries.new_ldap_query (to_ldap_query g.all_users_query)) (λ user_query.
        with_result
          (queries.new_ldap_query_on_attribute (to_ldap_query g.all_groups_query)
            g.group_uid_attribute)
          (λ group_query. ok (record {
            ad = record {
              user_query = user_query;
              group_membership_attributes = g.group_membership_attributes;
              user_name_attributes = g.user_name_attributes;
            };
            group_query = group_query;
            group_name_attributes = or_no_names g.group_name_attributes;
          })))

  unfoldable pub get_augmented :
      AugmentedActiveDirectoryConfig → Exec (Option (AugmentedConfig Q)) (AugmentedConfig Q)
  get_augmented g = memoised (make_augmented g)

  -- `AugmentedADBuilder`
  abbrev pub augmented_builder :
      AugmentedActiveDirectoryConfig → Builder (Option (AugmentedConfig Q)) (AugmentedCache E) E
  augmented_builder g = record {
    get_group_lister = get_augmented g >>= λ i. pure (augmented_list_groups d i);
    get_group_name_mapper =
        get_augmented g >>= λ i. pure (mapper_if g.group_name_attributes (augmented_entry_for d i));
    get_user_name_mapper = user_name_for d g.user_name_attributes;
    get_group_member_extractor = get_augmented g >>= λ i. pure (augmented_members d i);
    get_group_detector = get_augmented g >>= λ i. pure (augmented_exists d i);
  }
