-- ===== src/Ldap/Connection/Complete.antt =====
-- What `Bind` of pkg/syncer/ldap.go puts together after a validation that passes.
use group_sync_operator.Prelude.{
  String, ◌≡◌, refl, Bool, true, false, Option, none, some, List, Exec, ok, is_some, arith, inr,
}
use group_sync_operator.Api.{
  LdapQuery, LdapProvider, Rfc2307Config, ActiveDirectoryConfig, AugmentedActiveDirectoryConfig,
}
use group_sync_operator.Ldap.Directory.{Directory, QueryOnAttribute}
use group_sync_operator.Ldap.Handlers.{Handler, create_error_handler}
use group_sync_operator.Ldap.Listers.{Lister}
use group_sync_operator.Ldap.Mappers.{
  GroupNameMapper, dn_mapper, entry_attribute_mapper, user_name_for,
}
use group_sync_operator.Ldap.Ad as Directories
use group_sync_operator.Ldap.Ad.{AdConfig, AdCache, ad_list_groups}
use group_sync_operator.Ldap.AugmentedAd.{
  AugmentedConfig, augmented_entry_for, augmented_members, augmented_list_groups,
}
use group_sync_operator.Ldap.Rfc2307 as Entries
use group_sync_operator.Ldap.Rfc2307.{Rfc2307, group_entry_for, list_groups}
use group_sync_operator.Ldap.Validation.{Checks, is_dn, names_given, ldap_validate}
use group_sync_operator.Ldap.Validation.Accepted.{
  query_is_valid, active_directory_is_valid, schema_is_valid, rfc2307_is_valid, augmented_is_valid,
}
use group_sync_operator.Ldap.Provider.{
  Schema, rfc2307, active_directory, augmented_active_directory, init_list, build_sync_builder,
  get_ldap_group_lister, get_group_name_mapper,
}
use group_sync_operator.Ldap.Provider.Chosen.{
  IsOnlySchema, ldap_validate-schema_is_valid, ldap_validate-build_sync_builder,
}
use group_sync_operator.Ldap.Builders.{
  Queries, make_rfc2307, get_rfc2307, rfc2307_builder, make_ad, get_ad, ad_builder, make_augmented,
  get_augmented, augmented_builder, or_no_names,
}
use group_sync_operator.Ldap.Connection.{
  Parts, Bound, rfc2307_bound, ad_bound, augmented_bound, tolerations, bind_schema,
}
use group_sync_operator.Ldap.Connection.Shared.{memoised-Ready, Uses, build_parts_result}

names_are_given :
    (c : Checks) (o : Option (List String))
    → names_given c o ≡ true
    → (names : List String) × (o ≡ some names)
names_are_given c none h = absurd (cc)
names_are_given c (some names) h = (names, refl)

module _ {E Q R : Type 0} (d : Directory E Q R) (queries : Queries Q) where
  rfc2307-Uses :
      (g : Rfc2307Config) (handler : Handler) (i : Rfc2307 Q) (names : List String)
      → make_rfc2307 d queries g handler ≡ ok i
      → g.group_name_attributes ≡ some names
      → Uses
          (rfc2307_builder d queries g handler)
          i
          (list_groups d i)
          (entry_attribute_mapper d names (group_entry_for d i))
          (Entries.extract_members d i)
  unfolding get_rfc2307
  rfc2307-Uses g handler i names made given = record {
    lists = λ m r. rw (memoised-Ready _ i m made r) refl;
    names = λ m r. rw (memoised-Ready _ i m made r, given) refl;
    stays = λ m r. rw (memoised-Ready _ i m made r) (inr refl);
    extracts = λ m r. rw (memoised-Ready _ i m made r) refl;
  }

  ad-Uses :
      (g : ActiveDirectoryConfig) (i : AdConfig Q)
      → make_ad d queries g ≡ ok i
      → Uses
          (ad_builder d queries g)
          i
          (ad_list_groups d i)
          dn_mapper
          (Directories.extract_members d i)
  unfolding get_ad
  ad-Uses g i made = record {
    lists = λ m r. rw (memoised-Ready _ i m made r) refl;
    names = λ m r. refl;
    stays = λ m r. r;
    extracts = λ m r. rw (memoised-Ready _ i m made r) refl;
  }

  augmented-Uses :
      (g : AugmentedActiveDirectoryConfig) (i : AugmentedConfig Q) (names : List String)
      → make_augmented d queries g ≡ ok i
      → g.group_name_attributes ≡ some names
      → Uses
          (augmented_builder d queries g)
          i
          (augmented_list_groups d i)
          (entry_attribute_mapper d names (augmented_entry_for d i))
          (augmented_members d i)
  unfolding get_augmented
  augmented-Uses g i names made given = record {
    lists = λ m r. rw (memoised-Ready _ i m made r) refl;
    names = λ m r. rw (memoised-Ready _ i m made r, given) refl;
    stays = λ m r. rw (memoised-Ready _ i m made r) (inr refl);
    extracts = λ m r. rw (memoised-Ready _ i m made r) refl;
  }

-- The query library makes a query of what passes the checks of the validation.
pub record Accepts {Q : Type 0} (c : Checks) (queries : Queries Q) : Type 0 where
  pub query :
      (q : LdapQuery)
      → query_is_valid c q false ≡ true
      → (x : Q) × (queries.new_ldap_query q ≡ ok x)
  pub on_attribute :
      (q : LdapQuery) (attribute : String) (is_dn_only : Bool)
      → query_is_valid c q is_dn_only ≡ true
      → (x : QueryOnAttribute Q) × (queries.new_ldap_query_on_attribute q attribute ≡ ok x)

module _ {E Q R : Type 0} (d : Directory E Q R) (queries : Queries Q) (c : Checks)
    (accepts : Accepts c queries) where
  rfc2307_made :
      (g : Rfc2307Config) (handler : Handler)
      → rfc2307_is_valid c g ≡ true
      → (i : Rfc2307 Q) × (make_rfc2307 d queries g handler ≡ ok i)
  unfolding make_rfc2307
  rfc2307_made g handler valid =
      let groups : _ =
        accepts.on_attribute g.all_groups_query g.group_uid_attribute false (ground arith) in
      let users : _ =
        accepts.on_attribute g.all_users_query g.user_uid_attribute (is_dn c g.user_uid_attribute)
          (ground arith) in
      (
        record {
          group_query = groups.0;
          group_name_attributes = or_no_names g.group_name_attributes;
          group_membership_attributes = g.group_membership_attributes;
          user_query = users.0;
          user_name_attributes = g.user_name_attributes;
          error_handler = handler;
        },
        rw (groups.1, users.1) refl,
      )

  ad_made :
      (g : ActiveDirectoryConfig)
      → active_directory_is_valid c g ≡ true
      → (i : AdConfig Q) × (make_ad d queries g ≡ ok i)
  unfolding make_ad
  ad_made g valid =
      let users : _ = accepts.query g.all_users_query (ground arith) in
      (
        record {
          user_query = users.0;
          group_membership_attributes = g.group_membership_attributes;
          user_name_attributes = g.user_name_attributes;
        },
        rw users.1 refl,
      )

  augmented_made :
      (g : AugmentedActiveDirectoryConfig)
      → augmented_is_valid c g ≡ true
      → (i : AugmentedConfig Q) × (make_augmented d queries g ≡ ok i)
  unfolding make_augmented
  augmented_made g valid =
      let users : _ = accepts.query g.all_users_query (ground arith) in
      let groups : _ =
        accepts.on_attribute g.all_groups_query g.group_uid_attribute
          (is_dn c g.group_uid_attribute) (ground arith) in
      (
        record {
          ad = record {
            user_query = users.0;
            group_membership_attributes = g.group_membership_attributes;
            user_name_attributes = g.user_name_attributes;
          };
          group_query = groups.0;
          group_name_attributes = or_no_names g.group_name_attributes;
        },
        rw (users.1, groups.1) refl,
      )

module _ {E Q R : Type 0} (d : Directory E Q R) (queries : Queries Q) (p : LdapProvider) where
  abbrev pub handler : Handler
  handler = create_error_handler (tolerations p.rfc2307_config)

  -- The parts are those of one interface: its listing, by the lists of the provider, its mapper
  -- of groups, behind the mapping of the provider, and its extraction; users are named by the
  -- attributes of the schema.
  abbrev pub PartsOf :
      {S : Type 0}
      → Lister S
      → GroupNameMapper S
      → (String → Exec S (List E))
      → List String
      → Parts S E
      → Type 0
  PartsOf lister mapper extractor attributes parts =
      (get_ldap_group_lister (ok lister) (init_list p.whitelist) (init_list p.blacklist)
        ≡ ok parts.lister)
      × (parts.extractor ≡ extractor)
      × (parts.user_name_for ≡ user_name_for d attributes)
      × (is_some parts.mapper ≡ true)
      × (get_group_name_mapper (ok (some mapper)) p.group_uid_name_mapping ≡ ok parts.mapper)

  abbrev pub Complete : Bound E → Type 0
  Complete (rfc2307_bound parts) =
      (g : Rfc2307Config) × (i : Rfc2307 Q) × (names : List String) × (p.rfc2307_config ≡ some g)
      × (make_rfc2307 d queries g handler ≡ ok i)
      × (g.group_name_attributes ≡ some names)
      × PartsOf (list_groups d i) (entry_attribute_mapper d names (group_entry_for d i))
          (Entries.extract_members d i) g.user_name_attributes parts
  Complete (ad_bound parts) =
      (g : ActiveDirectoryConfig) × (i : AdConfig Q) × (p.active_directory_config ≡ some g)
      × (make_ad d queries g ≡ ok i)
      × PartsOf (ad_list_groups d i) dn_mapper (Directories.extract_members d i)
          g.user_name_attributes parts
  Complete (augmented_bound parts) =
      (g : AugmentedActiveDirectoryConfig) × (i : AugmentedConfig Q) × (names : List String)
      × (p.augmented_active_directory_config ≡ some g)
      × (make_augmented d queries g ≡ ok i)
      × (g.group_name_attributes ≡ some names)
      × PartsOf (augmented_list_groups d i)
          (entry_attribute_mapper d names (augmented_entry_for d i)) (augmented_members d i)
          g.user_name_attributes parts

  abbrev Binds : Type 0
  Binds = (b : Bound E) × (bind_schema d queries p ≡ ok b) × Complete b

  rfc2307_binds :
      (g : Rfc2307Config) (i : Rfc2307 Q) (names : List String)
      → build_sync_builder p ≡ ok (rfc2307 g)
      → p.rfc2307_config ≡ some g
      → make_rfc2307 d queries g handler ≡ ok i
      → g.group_name_attributes ≡ some names
      → Binds
  unfolding bind_schema
  rfc2307_binds g i names built e made given =
      let r : _ =
        build_parts_result (rfc2307_builder d queries g handler) p i (list_groups d i)
          (entry_attribute_mapper d names (group_entry_for d i)) (Entries.extract_members d i)
          (rfc2307-Uses d queries g handler i names made given) in
      (
        rfc2307_bound (record {
          lister = r.0;
          mapper = some (r.1);
          extractor = Entries.extract_members d i;
          user_name_for = user_name_for d g.user_name_attributes;
        }),
        rw (built, r.4) refl,
        (g, i, names, e, made, given, (r.2, refl, refl, refl, r.3)),
      )

  ad_binds :
      (g : ActiveDirectoryConfig) (i : AdConfig Q)
      → build_sync_builder p ≡ ok (active_directory g)
      → p.active_directory_config ≡ some g
      → make_ad d queries g ≡ ok i
      → Binds
  unfolding bind_schema
  ad_binds g i built e made =
      let r : _ =
        build_parts_result (ad_builder d queries g) p i (ad_list_groups d i) (dn_mapper)
          (Directories.extract_members d i) (ad-Uses d queries g i made) in
      (
        ad_bound (record {
          lister = r.0;
          mapper = some (r.1);
          extractor = Directories.extract_members d i;
          user_name_for = user_name_for d g.user_name_attributes;
        }),
        rw (built, r.4) refl,
        (g, i, e, made, (r.2, refl, refl, refl, r.3)),
      )

  augmented_binds :
      (g : AugmentedActiveDirectoryConfig) (i : AugmentedConfig Q) (names : List String)
      → build_sync_builder p ≡ ok (augmented_active_directory g)
      → p.augmented_active_directory_config ≡ some g
      → make_augmented d queries g ≡ ok i
      → g.group_name_attributes ≡ some names
      → Binds
  unfolding bind_schema
  augmented_binds g i names built e made given =
      let r : _ =
        build_parts_result (augmented_builder d queries g) p i (augmented_list_groups d i)
          (entry_attribute_mapper d names (augmented_entry_for d i)) (augmented_members d i)
          (augmented-Uses d queries g i names made given) in
      (
        augmented_bound (record {
          lister = r.0;
          mapper = some (r.1);
          extractor = augmented_members d i;
          user_name_for = user_name_for d g.user_name_attributes;
        }),
        rw (built, r.4) refl,
        (g, i, names, e, made, given, (r.2, refl, refl, refl, r.3)),
      )

  module _ (c : Checks) (accepts : Accepts c queries) where
    schema_binds :
        (k : Schema)
        → build_sync_builder p ≡ ok k
        → IsOnlySchema k p
        → schema_is_valid c p.rfc2307_config p.active_directory_config
            p.augmented_active_directory_config
          ≡ true
        → Binds
    schema_binds (rfc2307 g) built only valid =
        let h : rfc2307_is_valid c g ≡ true = rw (only.0, only.1, only.2) at valid in
        let names : _ = names_are_given c g.group_name_attributes (ground arith) in
        let i : _ = rfc2307_made d queries c accepts g handler h in
        rfc2307_binds g i.0 names.0 built only.0 i.1 names.1
    schema_binds (active_directory g) built only valid =
        let h : active_directory_is_valid c g ≡ true = rw (only.0, only.1, only.2) at valid in
        let i : _ = ad_made d queries c accepts g h in ad_binds g i.0 built only.1 i.1
    schema_binds (augmented_active_directory g) built only valid =
        let h : augmented_is_valid c g ≡ true = rw (only.0, only.1, only.2) at valid in
        let names : _ = names_are_given c g.group_name_attributes (ground arith) in
        let i : _ = augmented_made d queries c accepts g h in
        augmented_binds g i.0 names.0 built only.2 i.1 names.1

    -- After a validation that passes, where the query library makes a query of what passed its
    -- checks, `Bind` puts the parts of the syncer together, by the schema of the provider: the lister
    -- and the extractor use one interface to the directory, the lister is the one chosen by the
    -- lists of the provider, users are named by the attributes of the schema, and there is a mapper
    -- of groups: the one of the schema, behind the mapping of the provider if that is not empty.
    pub ldap_validate-bind_schema :
        ldap_validate c p ≡ ok tt → (b : Bound E) × (bind_schema d queries p ≡ ok b) × Complete b
    ldap_validate-bind_schema h =
        let k : _ = ldap_validate-build_sync_builder c p h in
        schema_binds k.0 k.1 k.2 (ldap_validate-schema_is_valid c p h)
