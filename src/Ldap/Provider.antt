-- ===== src/Ldap/Provider.antt =====
-- pkg/syncer/ldap.go around the group syncer: the lists, the builder of the schema, the lister and
-- the mapper that `Bind` puts together, and `Sync`.
pub mod Chosen
pub mod Synced
use group_sync_operator.Prelude.{
  String, Bool, true, false, Option, none, some, List, [], ◌∷◌, Exec, Result, ok, err, panic, Error,
  failure, new_aggregate, is_empty, pure, lift, ◌>>=◌, if◌then◌else◌,
}
use group_sync_operator.Prelude.Dict.{Dict, GoMap, get}
use group_sync_operator.Api.{
  ObjectRef, LdapProvider, Rfc2307Config, ActiveDirectoryConfig, AugmentedActiveDirectoryConfig,
}
use group_sync_operator.Cluster.{Group}
use group_sync_operator.Syncer.{GroupSyncer}
use group_sync_operator.Ldap.Validation.{Checks, ldap_validate}
use group_sync_operator.Ldap.Listers.{Lister, whitelist_lister, blacklist_lister}
use group_sync_operator.Ldap.Mappers.{GroupNameMapper, user_defined_mapper, union_mapper}
use group_sync_operator.Ldap.GroupSyncer.{LdapGroupSyncer, sync}

-- `LdapSyncer.Init` sets each of the two lists from its pointer.
unfoldable pub init_list : Option (List String) → List String
init_list none = []
init_list (some names) = names

-- The builders, each with its configuration.
pub data Schema : Type 0 where
  rfc2307 : Rfc2307Config → Schema
  active_directory : ActiveDirectoryConfig → Schema
  augmented_active_directory : AugmentedActiveDirectoryConfig → Schema

abbrev pub invalid_type : Error
invalid_type = failure "invalid sync config type" []

-- `buildSyncBuilder`
unfoldable pub build_sync_builder : LdapProvider → Result Schema
build_sync_builder p = elim p.rfc2307_config [
  | some g ↦ ok (rfc2307 g)
  | none ↦ elim p.active_directory_config [
    | some g ↦ ok (active_directory g)
    | none ↦ elim p.augmented_active_directory_config [
      | some g ↦ ok (augmented_active_directory g)
      | none ↦ err invalid_type
    ]
  ]
]

-- `getLdapCredentialValue`, given the provider's reference and the data of the secret that was kept;
-- it panics where the provider has a reference and no secret was kept.
unfoldable pub get_ldap_credential_value : Option ObjectRef → Option GoMap → String → Result String
get_ldap_credential_value none kept key = ok ""
get_ldap_credential_value (some r) none key = panic
get_ldap_credential_value (some r) (some m) key = ok (elim (get key m) [ some v ↦ v | none ↦ "" ])

module _ {S : Type 0} where
  abbrev pub unless_empty : List String → Lister S → Lister S
  unless_empty blacklist base = if is_empty blacklist then base else blacklist_lister blacklist base

  abbrev pub with_lister : List String → Result (Lister S) → Result (Lister S)
  with_lister blacklist (ok base) = ok (unless_empty blacklist base)
  with_lister blacklist (err e) = err e
  with_lister blacklist panic = panic

  -- `getLDAPGroupLister`, given what the builder's `GetGroupLister` answers.
  unfoldable pub get_ldap_group_lister :
      Result (Lister S) → List String → List String → Result (Lister S)
  get_ldap_group_lister built [] blacklist = with_lister blacklist built
  get_ldap_group_lister built (uid ∷ uids) blacklist =
      ok (unless_empty blacklist (whitelist_lister (uid ∷ uids)))

  -- The specified mapping is asked before the default one, which can be left out.
  abbrev pub with_mappings : Dict String → Option (GroupNameMapper S) → Option (GroupNameMapper S)
  with_mappings [] default = default
  with_mappings (m ∷ ms) none = some (user_defined_mapper (m ∷ ms))
  with_mappings (m ∷ ms) (some default) =
      some (union_mapper (user_defined_mapper (m ∷ ms) ∷ default ∷ []))

  -- `getGroupNameMapper`, given what the builder's `GetGroupNameMapper` answers.
  unfoldable pub get_group_name_mapper :
      Result (Option (GroupNameMapper S)) → Dict String → Result (Option (GroupNameMapper S))
  get_group_name_mapper (ok default) mappings = ok (with_mappings mappings default)
  get_group_name_mapper (err e) mappings = err e
  get_group_name_mapper panic mappings = panic

module _ {W : Type 0} where
  abbrev pub all_or_error : List Group × List Error → Exec W (List Group)
  all_or_error (gs, es) = lift (new_aggregate es) >>= λ _. pure gs

module _ {W E : Type 0} where
  -- `LdapSyncer.Sync`: the groups are returned if there is no error, and its caller reads them
  -- only then.
  unfoldable pub ldap_sync : LdapGroupSyncer W E → Exec W (List Group)
  ldap_sync s = sync s >>= all_or_error

  -- The provider behind the interface of the reconciler, after `Bind` made its group syncer:
  -- `GetProviderName`, `Bind`, `Sync`, `Validate` and `GetPrune`.
  unfoldable pub ldap_group_syncer :
      String → LdapProvider → Checks → Exec W (Unit {0}) → LdapGroupSyncer W E → GroupSyncer W
  unfolding ldap_sync
  ldap_group_syncer name p c bind s = record {
    provider_name = name;
    bind = bind;
    sync = ldap_sync s;
    validate = lift (ldap_validate c p);
    prune = p.prune;
  }
