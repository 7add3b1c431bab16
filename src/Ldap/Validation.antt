-- ===== src/Ldap/Validation.antt =====
-- The validation of pkg/syncer/ldap.go. What the LDAP libraries, `url` and `strings` answer is a
-- parameter.
pub mod Accepted
use group_sync_operator.Prelude.{
  String, ◌==◌, Bool, true, false, not, ◌||◌, ◌&&◌, Option, none, some, List, [], ◌∷◌, ◌++◌, Result,
  ok, err, panic, Error, failure, new_aggregate, is_empty, is_some, if◌then◌else◌, ltb,
}
use group_sync_operator.Prelude.Int.{is_negative}
use group_sync_operator.Prelude.Dict.{Dict, GoMap, get}
use group_sync_operator.Api.{
  ObjectRef, LdapProvider, LdapQuery, Rfc2307Config, ActiveDirectoryConfig,
  AugmentedActiveDirectoryConfig,
}
use group_sync_operator.Certificates.{
  required, errors_of, ca_certificate, append_errors, aggregated,
}
use group_sync_operator.Syncer.{determine_from_deprecated_object_ref, get_object_ref_data}

-- The calls of libraries and of the API server that the validation makes.
pub record Checks : Type 0 where
  pub dn_parses : String → Bool
  pub scope_is_known : String → Bool
  pub deref_aliases_is_known : String → Bool
  pub filter_compiles : String → Bool
  -- `strings.TrimSpace(strings.ToLower(s))`
  pub normalized : String → String
  -- The scheme of `url.Parse`.
  pub scheme_of : String → Option String
  pub secret : String → String → Result GoMap
  pub config_map : String → String → Result GoMap

abbrev pub invalid : String → String → Error
invalid path text = failure path (text ∷ [])

abbrev pub missing : String → Error
missing path = failure path []

module _ (c : Checks) where
  -- `validateLDAPQuery`
  unfoldable pub validate_ldap_query : LdapQuery → String → Bool → List Error
  validate_ldap_query q path is_dn_only =
      required (c.dn_parses q.base_dn) (invalid path "invalid base DN for search")
      ++ (required ((q.scope == "") || c.scope_is_known q.scope)
            (invalid path "invalid LDAP search scope")
          ++ (required ((q.deref_aliases == "") || c.deref_aliases_is_known q.deref_aliases)
                (invalid path "LDAP alias dereferencing instruction invalid")
              ++ (required (not (is_negative q.time_limit))
                    (invalid path "timeout must be equal to or greater than zero")
                  ++ (if is_dn_only
                      then required (q.filter == "") (
                          invalid path "cannot specify a filter when using dn as the UID attribute")
                      else required (c.filter_compiles q.filter)
                          (invalid path "invalid query filter")))))

  abbrev pub is_dn : String → Bool
  is_dn attribute = c.normalized attribute == "dn"

  abbrev pub names_given : Option (List String) → Bool
  names_given none = false
  names_given (some names) = not (is_empty names)

  -- `ValidateRFC2307Config`
  unfoldable pub validate_rfc2307_config : Rfc2307Config → List Error
  validate_rfc2307_config g =
      validate_ldap_query g.all_groups_query "groupsQuery" false
      ++ (required (not (g.group_uid_attribute == "")) (missing "groupUIDAttribute")
          ++ (required (names_given g.group_name_attributes) (missing "groupNameAttributes")
              ++ (required (not (is_empty g.group_membership_attributes))
                    (missing "groupMembershipAttributes")
                  ++ (validate_ldap_query g.all_users_query "usersQuery"
                        (is_dn g.user_uid_attribute)
                      ++ (required (not (g.user_uid_attribute == "")) (missing "userUIDAttribute")
                          ++ required (not (is_empty g.user_name_attributes))
                              (missing "userNameAttributes"))))))

  -- `ValidateActiveDirectoryConfig`
  unfoldable pub validate_active_directory_config : ActiveDirectoryConfig → List Error
  validate_active_directory_config g =
      validate_ldap_query g.all_users_query "usersQuery" false
      ++ (required (not (is_empty g.user_name_attributes)) (missing "userNameAttributes")
          ++ required (not (is_empty g.group_membership_attributes))
              (missing "groupMembershipAttributes"))

  -- `ValidateAugmentedActiveDirectoryConfig`
  unfoldable pub validate_augmented_config : AugmentedActiveDirectoryConfig → List Error
  validate_augmented_config g =
      validate_ldap_query g.all_users_query "usersQuery" false
      ++ (required (not (is_empty g.user_name_attributes)) (missing "userNameAttributes")
          ++ (required (not (is_empty g.group_membership_attributes))
                (missing "groupMembershipAttributes")
              ++ (validate_ldap_query g.all_groups_query "groupsQuery" (is_dn g.group_uid_attribute)
                  ++ (required (not (g.group_uid_attribute == "")) (missing "groupUIDAttribute")
                      ++ required (names_given g.group_name_attributes)
                          (missing "groupNameAttributes")))))

  unfoldable pub credentials_errors : Option ObjectRef → Result (List Error)
  credentials_errors none = ok []
  credentials_errors (some r) = errors_of (c.secret r.namespace r.name)

  -- The URL against the certificate. An insecure provider whose URL is not parsed panics: the
  -- scheme is read of a nil URL.
  abbrev pub insecure_errors : Option String → Option String → Result (List Error)
  insecure_errors none ca = panic
  insecure_errors (some scheme) ca = ok (
      required (not (scheme == "ldaps"))
        (failure "Cannot use %s scheme with insecure=true" (scheme ∷ []))
      ++ required (not (is_some ca)) (failure "Cannot specify a caSecret with insecure=true" []))

  unfoldable pub url_errors : Option String → Bool → Option String → Result (List Error)
  url_errors none insecure ca = ok (failure "LDAP URL must be provided" [] ∷ [])
  url_errors (some url) true ca = insecure_errors (c.scheme_of url) ca
  url_errors (some url) false ca = ok (
      required (is_some (c.scheme_of url)) (failure "Invalid LDAP URL: '%s" (url ∷ []))
      ++ required (is_some ca) (failure "caSecret must be specified when insecure=false" []))

  unfoldable pub mapping_errors : Dict String → List Error
  mapping_errors [] = []
  mapping_errors ((uid, name) ∷ rest) =
      required (not ((uid == "") || (name == "")))
        (invalid "groupUIDNameMapping" "has empty key or value")
      ++ mapping_errors rest

  abbrev pub errors_if_given {ℓ} : {A : Type ℓ} → (A → List Error) → Option A → List Error
  errors_if_given check none = []
  errors_if_given check (some a) = check a

  -- The errors of the schemas that are given, and the test that exactly one is.
  abbrev pub count_errors : Bool → Bool → Bool → List Error
  count_errors r a g =
      required (not ((r && a) || ((r && g) || (a && g))))
        (failure "only one schema-specific config is allowed; found %v" [])
      ++ required (r || (a || g)) (missing "schema")

  unfoldable pub schema_errors : LdapProvider → List Error
  schema_errors p =
      errors_if_given validate_rfc2307_config p.rfc2307_config
      ++ (errors_if_given validate_active_directory_config p.active_directory_config
          ++ (errors_if_given validate_augmented_config p.augmented_active_directory_config
              ++ count_errors (is_some p.rfc2307_config) (is_some p.active_directory_config)
                  (is_some p.augmented_active_directory_config)))

  abbrev pub after_certificate :
      LdapProvider → Result (Option String × List Error) → Result (List Error)
  after_certificate p (ok (ca, es)) = append_errors (ok es) (
      append_errors (url_errors p.url p.insecure ca)
        (ok (mapping_errors p.group_uid_name_mapping ++ schema_errors p)))
  after_certificate p (err e) = err e
  after_certificate p panic = panic

  -- `LdapSyncer.Validate`
  unfoldable pub ldap_validate : LdapProvider → Result (Unit {0})
  ldap_validate p = aggregated (
      append_errors (credentials_errors p.credentials_secret) (
        after_certificate p (
          ca_certificate c.config_map c.secret
            (determine_from_deprecated_object_ref p.ca p.ca_secret))))
