-- ===== src/Api.antt =====
-- api/v1alpha1/groupsync_types.go: the custom resource. A pointer or an optional slice whose nil
-- the code tells from empty is an `Option`; the records of `legacyconfigv1` (a library) hold the
-- fields that the operator reads.
use group_sync_operator.Prelude.{String, Bool, Option, none, List}
use group_sync_operator.Prelude.Int.{ℤ}
use group_sync_operator.Prelude.Dict.{Dict}

abbrev pub one_sync_scope : String
one_sync_scope = "one"

abbrev pub sub_sync_scope : String
sub_sync_scope = "sub"

pub record ObjectRef : Type 0 where
  pub key : String
  pub name : String
  pub namespace : String
  pub kind : String

abbrev pub config_map_kind : String
config_map_kind = "ConfigMap"

pub record LdapQuery : Type 0 where
  pub base_dn : String
  pub scope : String
  pub deref_aliases : String
  pub time_limit : ℤ
  pub filter : String
  pub page_size : ℤ

pub record Rfc2307Config : Type 0 where
  pub all_groups_query : LdapQuery
  pub group_uid_attribute : String
  pub group_name_attributes : Option (List String)
  pub group_membership_attributes : List String
  pub all_users_query : LdapQuery
  pub user_uid_attribute : String
  pub user_name_attributes : List String
  pub tolerate_member_not_found_errors : Bool
  pub tolerate_member_out_of_scope_errors : Bool

pub record ActiveDirectoryConfig : Type 0 where
  pub all_users_query : LdapQuery
  pub user_name_attributes : List String
  pub group_membership_attributes : List String

pub record AugmentedActiveDirectoryConfig : Type 0 where
  pub all_users_query : LdapQuery
  pub user_name_attributes : List String
  pub group_membership_attributes : List String
  pub all_groups_query : LdapQuery
  pub group_uid_attribute : String
  pub group_name_attributes : Option (List String)

pub record KeycloakProvider : Type 0 where
  pub ca : Option ObjectRef
  pub ca_secret : Option ObjectRef
  pub credentials_secret : ObjectRef
  pub groups : List String
  pub insecure : Bool
  pub login_realm : String
  pub realm : String
  pub scope : String
  pub url : String
  pub prune : Bool

pub record GitHubProvider : Type 0 where
  pub ca : Option ObjectRef
  pub ca_secret : Option ObjectRef
  pub credentials_secret : ObjectRef
  pub insecure : Bool
  pub organization : String
  pub teams : List String
  pub map_by_scim_id : Bool
  pub url : Option String
  pub v4_url : Option String
  pub prune : Bool

pub record GitLabProvider : Type 0 where
  pub ca : Option ObjectRef
  pub ca_secret : Option ObjectRef
  pub credentials_secret : ObjectRef
  pub insecure : Bool
  pub groups : List String
  pub url : Option String
  pub prune : Bool

pub record LdapProvider : Type 0 where
  pub ca : Option ObjectRef
  pub ca_secret : Option ObjectRef
  pub credentials_secret : Option ObjectRef
  pub insecure : Bool
  pub group_uid_name_mapping : Dict String
  pub rfc2307_config : Option Rfc2307Config
  pub active_directory_config : Option ActiveDirectoryConfig
  pub augmented_active_directory_config : Option AugmentedActiveDirectoryConfig
  pub url : Option String
  pub whitelist : Option (List String)
  pub blacklist : Option (List String)
  pub prune : Bool

pub record AzureProvider : Type 0 where
  pub base_groups : List String
  pub credentials_secret : ObjectRef
  pub filter : String
  pub insecure : Bool
  pub groups : List String
  pub authority_host : Option String
  pub user_name_attributes : Option (List String)
  pub prune : Bool

pub record OktaProvider : Type 0 where
  pub credentials_secret : ObjectRef
  pub groups : List String
  pub url : String
  pub app_id : String
  pub extract_login_username : Bool
  pub profile_key : String
  pub group_limit : ℤ
  pub prune : Bool

pub record ProviderType : Type 0 where
  pub azure : Option AzureProvider
  pub github : Option GitHubProvider
  pub gitlab : Option GitLabProvider
  pub ldap : Option LdapProvider
  pub keycloak : Option KeycloakProvider
  pub okta : Option OktaProvider

-- `*ProviderType` is embedded: a provider with no more than a name holds nil.
pub record Provider : Type 0 where
  pub name : String
  pub provider_type : Option ProviderType

pub record GroupSyncSpec : Type 0 where
  pub providers : List Provider
  pub schedule : String

pub record GroupSync : Type 0 where
  pub name : String
  pub namespace : String
  pub spec : GroupSyncSpec
  pub last_sync_success_time : Option String

-- Values for tests and witnesses.
abbrev pub some_ref : ObjectRef
some_ref = record { key = ""; name = "creds"; namespace = "ns"; kind = "Secret" }

abbrev pub empty_provider_type : ProviderType
empty_provider_type = record {
  azure = none;
  github = none;
  gitlab = none;
  ldap = none;
  keycloak = none;
  okta = none;
}
