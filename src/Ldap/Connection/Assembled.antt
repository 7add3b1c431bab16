-- ===== src/Ldap/Connection/Assembled.antt =====
-- The `LDAPGroupSyncer` that `Bind` of pkg/syncer/ldap.go makes of its parts, and its `Sync`. Its
-- state is that of the interface to the directory, beside the world.
use group_sync_operator.Prelude.{
  String, true, Option, none, some, List, Exec, Result, panic, Error, lift,
}
use group_sync_operator.Timestamp.{Time}
use group_sync_operator.Cluster.{Group}
use group_sync_operator.Ldap.Mappers.{GroupNameMapper}
use group_sync_operator.Ldap.Ad.{new_ad_cache}
use group_sync_operator.Ldap.AugmentedAd.{new_augmented_cache}
use group_sync_operator.Ldap.Rfc2307.{new_caches}
use group_sync_operator.Ldap.GroupSyncer.{LdapGroupSyncer, sync}
use group_sync_operator.Ldap.Connection.{Parts, Bound, rfc2307_bound, ad_bound, augmented_bound}

-- What the group syncer uses of its client, of the clock and of `net`.
pub record WorldCalls (W : Type 0) : Type 0 where
  pub get_group : String → Exec W Group
  pub create_group : Group → Exec W (Unit {0})
  pub update_group : Group → Exec W (Unit {0})
  pub now : Exec W Time
  pub split_host_port : String → Result (String × String)

module _ {ℓ} {S W : Type 0} {A : Type ℓ} where
  abbrev pub on_caches : Exec S A → Exec (S × W) A
  on_caches m z = ((m z.0).0, ((m z.0).1, z.1))

  abbrev pub on_world : Exec W A → Exec (S × W) A
  on_world m z = ((m z.1).0, (z.0, (m z.1).1))

  -- The run from this state of the interface, of which nothing is kept.
  abbrev pub from_caches : S → Exec (S × W) A → Exec W A
  from_caches s m w = ((m (s, w)).0, (m (s, w)).1.1)

-- A nil mapper panics when it is called.
abbrev pub named_by : {S : Type 0} → Option (GroupNameMapper S) → GroupNameMapper S
named_by none uid = lift panic
named_by (some mapper) uid = mapper uid

module _ {W E : Type 0} (calls : WorldCalls W) (host : String) where
  -- The syncer is always run dry.
  unfoldable pub group_syncer : {S : Type 0} → Parts S E → LdapGroupSyncer (S × W) E
  group_syncer parts = record {
    list_groups = on_caches parts.lister;
    extract_members = λ uid. on_caches (parts.extractor uid);
    user_name_for = parts.user_name_for;
    group_name_for = λ uid. on_caches (named_by parts.mapper uid);
    get_group = λ name. on_world (calls.get_group name);
    create_group = λ g. on_world (calls.create_group g);
    update_group = λ g. on_world (calls.update_group g);
    now = on_world calls.now;
    split_host_port = calls.split_host_port;
    host = host;
    dry_run = true;
  }

  -- `Sync` of the group syncer, on new caches.
  unfoldable pub sync_bound : Bound E → Exec W (List Group × List Error)
  sync_bound (rfc2307_bound parts) = from_caches new_caches (sync (group_syncer parts))
  sync_bound (ad_bound parts) = from_caches new_ad_cache (sync (group_syncer parts))
  sync_bound (augmented_bound parts) = from_caches new_augmented_cache (sync (group_syncer parts))
