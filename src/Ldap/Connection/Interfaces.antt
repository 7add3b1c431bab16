-- ===== src/Ldap/Connection/Interfaces.antt =====
-- The interface to the directory over which `Bind` of pkg/syncer/ldap.go puts the parts together.
use group_sync_operator.Prelude.{
  String, ◌≡◌, refl, ap, subst, some, List, Result, ok, err, panic, ok-injective,
}
use group_sync_operator.Api.{
  LdapProvider, Rfc2307Config, ActiveDirectoryConfig, AugmentedActiveDirectoryConfig,
}
use group_sync_operator.Ldap.Directory.{Directory}
use group_sync_operator.Ldap.Handlers.{Handler, create_error_handler}
use group_sync_operator.Ldap.Mappers.{dn_mapper, entry_attribute_mapper}
use group_sync_operator.Ldap.Ad as Directories
use group_sync_operator.Ldap.Ad.{AdConfig, ad_list_groups}
use group_sync_operator.Ldap.AugmentedAd.{
  AugmentedConfig, augmented_entry_for, augmented_members, augmented_list_groups,
}
use group_sync_operator.Ldap.Rfc2307 as Entries
use group_sync_operator.Ldap.Rfc2307.{Rfc2307, group_entry_for, list_groups}
use group_sync_operator.Ldap.Builders.{
  Queries, with_result, make_rfc2307, make_ad, make_augmented, or_no_names,
}
use group_sync_operator.Ldap.Connection.{
  Bound, rfc2307_bound, ad_bound, augmented_bound, tolerations,
}
use group_sync_operator.Ldap.Connection.Complete.{Complete}
use group_sync_operator.Ldap.Connection.Works.{WorksBy, PartsOf-WorksBy}

with_result-eq_ok :
    {A B : Type 0} (r : Result A) (f : A → Result B) (b : B)
    → with_result r f ≡ ok b
    → (a : A) × (r ≡ ok a) × (f a ≡ ok b)
with_result-eq_ok (ok a) f b h = (a, refl, h)
with_result-eq_ok (err e) f b h = absurd (cc)
with_result-eq_ok panic f b h = absurd (cc)

module _ {E Q R : Type 0} (d : Directory E Q R) (queries : Queries Q) where
  -- The interface has the queries, the attributes and the handler of the schema.
  pub record IsRfc2307 (g : Rfc2307Config) (handler : Handler) (names : List String) (i : Rfc2307 Q)
      : Type 0 where
    pub groups :
        queries.new_ldap_query_on_attribute g.all_groups_query g.group_uid_attribute
        ≡ ok i.group_query
    pub users :
        queries.new_ldap_query_on_attribute g.all_users_query g.user_uid_attribute ≡ ok i.user_query
    pub group_names : i.group_name_attributes ≡ names
    pub memberships : i.group_membership_attributes ≡ g.group_membership_attributes
    pub user_names : i.user_name_attributes ≡ g.user_name_attributes
    pub handled : i.error_handler ≡ handler

  pub record IsAd (g : ActiveDirectoryConfig) (i : AdConfig Q) : Type 0 where
    pub users : queries.new_ldap_query g.all_users_query ≡ ok i.user_query
    pub memberships : i.group_membership_attributes ≡ g.group_membership_attributes
    pub user_names : i.user_name_attributes ≡ g.user_name_attributes

  pub record IsAugmented (g : AugmentedActiveDirectoryConfig) (names : List String)
      (i : AugmentedConfig Q) : Type 0 where
    pub users : queries.new_ldap_query g.all_users_query ≡ ok i.ad.user_query
    pub groups :
        queries.new_ldap_query_on_attribute g.all_groups_query g.group_uid_attribute
        ≡ ok i.group_query
    pub memberships : i.ad.group_membership_attributes ≡ g.group_membership_attributes
    pub user_names : i.ad.user_name_attributes ≡ g.user_name_attributes
    pub group_names : i.group_name_attributes ≡ names

  make_rfc2307-IsRfc2307 :
      (g : Rfc2307Config) (handler : Handler) (names : List String) (i : Rfc2307 Q)
      → g.group_name_attributes ≡ some names
      → make_rfc2307 d queries g handler ≡ ok i
      → IsRfc2307 g handler names i
  unfolding make_rfc2307
  make_rfc2307-IsRfc2307 g handler names i given h =
      let (groups, gq, h1) =
        with_result-eq_ok
          (queries.new_ldap_query_on_attribute g.all_groups_query g.group_uid_attribute) _ i h in
      let (users, uq, h2) =
        with_result-eq_ok
          (queries.new_ldap_query_on_attribute g.all_users_query g.user_uid_attribute) _ i h1 in
      subst (IsRfc2307 g handler names) (ok-injective h2) (record {
        groups = gq;
        users = uq;
        group_names = ap or_no_names given;
        memberships = refl;
        user_names = refl;
        handled = refl;
      })

  make_ad-IsAd :
      (g : ActiveDirectoryConfig) (i : AdConfig Q) → make_ad d queries g ≡ ok i → IsAd g i
  unfolding make_ad
  make_ad-IsAd g i h =
      let (users, uq, h1) = with_result-eq_ok (queries.new_ldap_query g.all_users_query) _ i h in
      subst (IsAd g) (ok-injective h1)
        (record { users = uq; memberships = refl; user_names = refl })

  make_augmented-IsAugmented :
      (g : AugmentedActiveDirectoryConfig) (names : List String) (i : AugmentedConfig Q)
      → g.group_name_attributes ≡ some names
      → make_augmented d queries g ≡ ok i
      → IsAugmented g names i
  unfolding make_augmented
  make_augmented-IsAugmented g names i given h =
      let (users, uq, h1) = with_result-eq_ok (queries.new_ldap_query g.all_users_query) _ i h in
      let (groups, gq, h2) =
        with_result-eq_ok
          (queries.new_ldap_query_on_attribute g.all_groups_query g.group_uid_attribute) _ i h1 in
      subst (IsAugmented g names) (ok-injective h2) (record {
        users = uq;
        groups = gq;
        memberships = refl;
        user_names = refl;
        group_names = ap or_no_names given;
      })

module _ {E Q R : Type 0} (d : Directory E Q R) (queries : Queries Q) (p : LdapProvider) where
  -- The parts are those of the schema of the provider.
  abbrev pub BoundFor : Bound E → Type 0
  BoundFor (rfc2307_bound parts) =
      (g : Rfc2307Config) × (names : List String) × (i : Rfc2307 Q) × (p.rfc2307_config ≡ some g)
      × (g.group_name_attributes ≡ some names)
      × IsRfc2307 d queries g (create_error_handler (tolerations p.rfc2307_config)) names i
      × WorksBy d p (list_groups d i) (entry_attribute_mapper d names (group_entry_for d i))
          (Entries.extract_members d i) g.user_name_attributes parts
  BoundFor (ad_bound parts) =
      (g : ActiveDirectoryConfig) × (i : AdConfig Q) × (p.active_directory_config ≡ some g)
      × IsAd d queries g i
      × WorksBy d p (ad_list_groups d i) dn_mapper (Directories.extract_members d i)
          g.user_name_attributes parts
  BoundFor (augmented_bound parts) =
      (g : AugmentedActiveDirectoryConfig) × (names : List String) × (i : AugmentedConfig Q)
      × (p.augmented_active_directory_config ≡ some g)
      × (g.group_name_attributes ≡ some names)
      × IsAugmented d queries g names i
      × WorksBy d p (augmented_list_groups d i)
          (entry_attribute_mapper d names (augmented_entry_for d i)) (augmented_members d i)
          g.user_name_attributes parts

  pub Complete-BoundFor : (b : Bound E) → Complete d queries p b → BoundFor b
  Complete-BoundFor (rfc2307_bound parts) (g, i, names, e, made, given, works) = (
    g,
    names,
    i,
    e,
    given,
    make_rfc2307-IsRfc2307 d queries g _ names i given made,
    PartsOf-WorksBy d p queries _ _ _ _ parts works,
  )
  Complete-BoundFor (ad_bound parts) (g, i, e, made, works) =
      (g, i, e, make_ad-IsAd d queries g i made, PartsOf-WorksBy d p queries _ _ _ _ parts works)
  Complete-BoundFor (augmented_bound parts) (g, i, names, e, made, given, works) = (
    g,
    names,
    i,
    e,
    given,
    make_augmented-IsAugmented d queries g names i given made,
    PartsOf-WorksBy d p queries _ _ _ _ parts works,
  )
