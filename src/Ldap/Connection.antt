-- ===== src/Ldap/Connection.antt =====
-- `Bind` of pkg/syncer/ldap.go: it puts the parts of the group syncer together. The file system and
-- the client configuration of `ldapclient` are parameters, on an abstract state of the world.
pub mod Shared
pub mod Complete
pub mod Files
pub mod Works
pub mod Interfaces
pub mod Opened
pub mod Assembled
pub mod Restricted
use group_sync_operator.Prelude.{
  String, ◌==◌, Bool, true, false, Option, none, some, List, [], Exec, Result, ok, err, panic,
  Error, failure, is_empty, if◌then◌else◌, pure, lift, raise, handle, ◌>>=◌, ◌>>◌,
}
use group_sync_operator.Prelude.Dict.{Dict, GoMap}
use group_sync_operator.Api.{LdapProvider, Rfc2307Config}
use group_sync_operator.Credentials.{Url, username_key, password_key}
use group_sync_operator.Ldap.Directory.{Directory}
use group_sync_operator.Ldap.Handlers.{Handler, create_error_handler}
use group_sync_operator.Ldap.Listers.{Lister}
use group_sync_operator.Ldap.Mappers.{GroupNameMapper}
use group_sync_operator.Ldap.Ad.{AdCache}
use group_sync_operator.Ldap.AugmentedAd.{AugmentedCache}
use group_sync_operator.Ldap.Rfc2307.{Caches}
use group_sync_operator.Ldap.Provider.{
  Schema, rfc2307, active_directory, augmented_active_directory, init_list, build_sync_builder,
  get_ldap_credential_value, get_ldap_group_lister, get_group_name_mapper,
}
use group_sync_operator.Ldap.Builders.{
  Queries, Builder, with_result, rfc2307_builder, ad_builder, augmented_builder,
}

-- The parts of the `LDAPGroupSyncer` that depend on the schema; `S` is the state of its interface,
-- which begins with empty caches. The syncer is always run dry.
pub record Parts (S E : Type 0) : Type 0 where
  pub lister : Lister S
  pub mapper : Option (GroupNameMapper S)
  pub extractor : String → Exec S (List E)
  pub user_name_for : E → Result String

module _ {M S E : Type 0} (b : Builder M S E) (p : LdapProvider) where
  -- `getLDAPGroupLister`: with a whitelist the builder is not asked.
  abbrev pub lister_of : Exec M (Lister S)
  lister_of m = (
    get_ldap_group_lister (b.get_group_lister m).0 (init_list p.whitelist) (init_list p.blacklist),
    if is_empty (init_list p.whitelist) then (b.get_group_lister m).1 else m,
  )

  -- `getGroupNameMapper`
  abbrev pub mapper_of : Exec M (Option (GroupNameMapper S))
  mapper_of m = (
    get_group_name_mapper (b.get_group_name_mapper m).0 p.group_uid_name_mapping,
    (b.get_group_name_mapper m).1,
  )

  -- The end of `Bind`.
  unfoldable pub build_parts : Exec M (Parts S E)
  build_parts = do
    lister ← lister_of
    mapper ← mapper_of
    extractor ← b.get_group_member_extractor
    pure (record {
      lister = lister;
      mapper = mapper;
      extractor = extractor;
      user_name_for = b.get_user_name_mapper;
    })

-- The parts, by the schema.
pub data Bound (E : Type 0) : Type 0 where
  rfc2307_bound : Parts (Caches E) E → Bound E
  ad_bound : Parts (AdCache E) E → Bound E
  augmented_bound : Parts (AugmentedCache E) E → Bound E

-- The two settings of `CreateErrorHandler`.
abbrev pub tolerations : Option Rfc2307Config → Option (Bool × Bool)
tolerations none = none
tolerations (some g) =
    some (g.tolerate_member_out_of_scope_errors, g.tolerate_member_not_found_errors)

module _ {E Q R : Type 0} (d : Directory E Q R) (queries : Queries Q) (p : LdapProvider) where
  abbrev pub parts_of : Schema → Result (Bound E)
  parts_of (rfc2307 g) =
      with_result
        (build_parts
          (rfc2307_builder d queries g (create_error_handler (tolerations p.rfc2307_config))) p
          none).0
        (λ parts. ok (rfc2307_bound parts))
  parts_of (active_directory g) =
      with_result (build_parts (ad_builder d queries g) p none).0 (λ parts. ok (ad_bound parts))
  parts_of (augmented_active_directory g) =
      with_result (build_parts (augmented_builder d queries g) p none).0
        (λ parts. ok (augmented_bound parts))

  unfoldable pub bind_schema : Result (Bound E)
  bind_schema = with_result (build_sync_builder p) parts_of

pub record LdapCalls (W : Type 0) : Type 0 where
  pub temp_file : String → Exec W String
  pub write_file : String → String → Exec W (Unit {0})
  pub remove : String → Exec W (Unit {0})
  -- `ldapclient.NewLDAPClientConfig`, from the URL, the user name, the password, the file of the
  -- certificate and the insecure flag; and the host of what it makes.
  pub new_client_config : String → String → String → String → Bool → Exec W String

-- A deferred call is made whatever the outcome, and its error is dropped.
abbrev pub deferred {ℓ κ} : {W : Type 0} {A : Type ℓ} {B : Type κ} → Exec W B → Exec W A → Exec W A
deferred cleanup m w = ((m w).0, (cleanup (m w).1).1)

-- What `Bind` leaves: the host and the parts of the syncer.
pub record LdapBound (E : Type 0) : Type 0 where
  pub host : String
  pub bound : Bound E

module _ {W E Q R : Type 0} (calls : LdapCalls W) (d : Directory E Q R) (queries : Queries Q)
    (name : String) (p : LdapProvider) where
  abbrev pub config_error : Error → Error
  config_error e = failure "could not determine LDAP client configuration: %v" []

  -- The configuration of the client, and the parts.
  abbrev pub configure : Url → String → String → String → Exec W (LdapBound E)
  configure url user password file =
      handle (calls.new_client_config url.text user password file p.insecure)
        (λ e. raise (config_error e))
        (λ host. lift (
          with_result (bind_schema d queries p)
            (λ bound. ok (record { host = host; bound = bound }))))

  -- The client, and the parts; a nil URL panics.
  abbrev pub connect : Option GoMap → Option Url → String → Exec W (LdapBound E)
  connect secret none file = lift panic
  connect secret (some url) file = do
    user ← lift (get_ldap_credential_value p.credentials_secret secret username_key)
    password ← lift (get_ldap_credential_value p.credentials_secret secret password_key)
    configure url user password file

  -- The certificate is written to a file, which is removed at the end.
  abbrev pub with_certificate : Option GoMap → Option Url → String → Exec W (LdapBound E)
  with_certificate secret url ca = do
    file ← calls.temp_file name
    calls.write_file file ca
    deferred (calls.remove file) (connect secret url file)

  -- `Bind`, given the secret, the URL and the certificate that `Validate` kept, if it kept them.
  unfoldable pub ldap_bind : Option GoMap → Option Url → Option String → Exec W (LdapBound E)
  ldap_bind secret url none = connect secret url ""
  ldap_bind secret url (some ca) =
      if ca == "" then connect secret url "" else with_certificate secret url ca
