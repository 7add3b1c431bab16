-- ===== src/Tests/Provider.antt =====
-- The LDAP provider: its validation and what it puts together.
use group_sync_operator.Prelude.{
  String, List, Error, All, raise, ◌≡◌, ◌↔◌, refl, true, false, ◌&&◌, Option, none, some, [], ◌∷◌,
  ok, pure,
}
use group_sync_operator.Prelude.Int.{pos}
use group_sync_operator.Api.{ObjectRef, LdapProvider, LdapQuery}
use group_sync_operator.Syncer.{determine_from_deprecated_object_ref, get_object_ref_data}
use group_sync_operator.Ldap.Listers.{Lister}
use group_sync_operator.Ldap.Mappers.{GroupNameMapper, dn_mapper}
use group_sync_operator.Ldap.Validation.{Checks, ldap_validate}
use group_sync_operator.Certificates.Found.{certificate, certificate_is_found}
use group_sync_operator.Ldap.Validation.Accepted.{
  credentials_are_read, ca_source, rest_is_valid, ldap_validate_iff,
}
use group_sync_operator.Ldap.Directory.{Directory}
use group_sync_operator.Ldap.Directory.Memory.{Entry, Request, memory_directory}
use group_sync_operator.Ldap.Builders.{Queries}
use group_sync_operator.Cluster.{Group}
use group_sync_operator.Cluster.Memory.{not_found}
use group_sync_operator.Ldap.Connection.Assembled.{WorldCalls, sync_bound}
use group_sync_operator.Ldap.Connection.Restricted.{admits, IsAdmitted, ldap_validate-sync_bound}
use group_sync_operator.Tests.GroupSyncer.{midnight}
use group_sync_operator.Ldap.Provider.{init_list}
use group_sync_operator.Ldap.Connection.{Bound, bind_schema}
use group_sync_operator.Ldap.Connection.Complete.{Accepts}

abbrev pub checks : Checks
checks = record {
  dn_parses = λ s. true;
  scope_is_known = λ s. true;
  deref_aliases_is_known = λ s. true;
  filter_compiles = λ s. true;
  normalized = λ s. s;
  scheme_of = λ s. some "ldaps";
  secret = λ namespace name. ok (some (("ca.crt", "PEM") ∷ ("username", "sync") ∷ []));
  config_map = λ namespace name. ok none;
}

abbrev query : LdapQuery
query = record {
  base_dn = "dc=example";
  scope = "sub";
  deref_aliases = "";
  time_limit = pos 0;
  filter = "(cn=*)";
  page_size = pos 0;
}

abbrev secret_ref : ObjectRef
secret_ref = record { key = ""; name = "ldap"; namespace = "ns"; kind = "Secret" }

abbrev pub provider : LdapProvider
provider = record {
  ca = some secret_ref;
  ca_secret = none;
  credentials_secret = some secret_ref;
  insecure = false;
  group_uid_name_mapping = ("ops", "operators") ∷ [];
  rfc2307_config = none;
  active_directory_config = some (record {
    all_users_query = query;
    user_name_attributes = "uid" ∷ [];
    group_membership_attributes = "memberOf" ∷ [];
  });
  augmented_active_directory_config = none;
  url = some "ldaps://ldap.example.com";
  whitelist = none;
  blacklist = none;
  prune = false;
}

ldap_validate_iff_example : (ldap_validate checks provider ≡ ok tt) ↔ (
    (credentials_are_read checks provider.credentials_secret
      && (certificate_is_found checks.config_map checks.secret (ca_source checks provider)
          && rest_is_valid checks provider
              (certificate checks.config_map checks.secret (ca_source checks provider))))
    ≡ true)
ldap_validate_iff_example = ldap_validate_iff checks provider

pub provider_is_accepted :
    (credentials_are_read checks provider.credentials_secret
      && (certificate_is_found checks.config_map checks.secret (ca_source checks provider)
          && rest_is_valid checks provider
              (certificate checks.config_map checks.secret (ca_source checks provider))))
    ≡ true
unfolding determine_from_deprecated_object_ref get_object_ref_data
provider_is_accepted = refl

abbrev pub directory : Directory Entry String Request
directory = memory_directory []

-- A query is its base DN.
abbrev pub queries : Queries String
queries = record {
  new_ldap_query = λ q. ok q.base_dn;
  new_ldap_query_on_attribute =
      λ q attribute. ok (record { query = q.base_dn; query_attribute = attribute });
}

pub queries-Accepts : Accepts checks queries
queries-Accepts = record {
  query = λ q valid. (q.base_dn, refl);
  on_attribute = λ q attribute is_dn_only valid.
      (record { query = q.base_dn; query_attribute = attribute }, refl);
}

-- The provider with a blacklist.
abbrev restricted : LdapProvider
restricted = record provider { blacklist = some ("ops" ∷ []) }

abbrev calls : WorldCalls (Unit {0})
calls = record {
  get_group = λ name. raise not_found;
  create_group = λ g. pure tt;
  update_group = λ g. pure tt;
  now = pure midnight;
  split_host_port = λ h. ok (h, "636");
}

ldap_validate-sync_bound_example :
    (b : Bound Entry) × (bind_schema directory queries restricted ≡ ok b)
    × ((w : Unit {0}) (gs : List Group) (es : List Error)
        → (sync_bound calls "ldap.example.com" b w).0 ≡ ok (gs, es)
        → All (IsAdmitted restricted) gs)
ldap_validate-sync_bound_example =
    ldap_validate-sync_bound directory queries restricted checks queries-Accepts "ldap.example.com"
      calls ((ldap_validate_iff checks restricted).1 provider_is_accepted)

on_blacklist :
    admits (init_list restricted.whitelist) (init_list restricted.blacklist) "ops" ≡ false
unfolding init_list
on_blacklist = refl

abbrev built : Lister (Unit {0})
built = pure ("dev" ∷ "ops" ∷ [])

abbrev default : Option (GroupNameMapper (Unit {0}))
default = some dn_mapper
