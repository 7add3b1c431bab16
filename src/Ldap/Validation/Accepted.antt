-- ===== src/Ldap/Validation/Accepted.antt =====
-- Which LDAP providers pass the validation.
use group_sync_operator.Prelude.{
  String, ◌≡◌, ◌↔◌, refl, sym, ◌∙◌, ◌==◌, Bool, true, false, not, ◌||◌, ◌&&◌, Option, none, some,
  List, [], ◌∷◌, ◌++◌, Result, ok, err, panic, Error, is_empty, is_some, if◌then◌else◌,
  Option-cases, inl, inr, arith,
}
use group_sync_operator.Prelude.Int.{is_negative}
use group_sync_operator.Prelude.Dict.{Dict, GoMap}
use group_sync_operator.Api.{
  ObjectRef, LdapProvider, LdapQuery, Rfc2307Config, ActiveDirectoryConfig,
  AugmentedActiveDirectoryConfig,
}
use group_sync_operator.Certificates.{
  ca_key, no_ca_key, certificate_of, ca_certificate, append_errors,
}
use group_sync_operator.Certificates.Found.{
  is_empty-append, is_empty-required, no_errors, no_errors-append, aggregated_iff, is_read,
  errors_of_lem, found_in, certificate, certificate_is_found,
}
use group_sync_operator.Syncer.{determine_from_deprecated_object_ref, get_object_ref_data}
use group_sync_operator.Ldap.Validation.{
  Checks, is_dn, names_given, validate_ldap_query, validate_rfc2307_config,
  validate_active_directory_config, validate_augmented_config, credentials_errors, url_errors,
  mapping_errors, schema_errors, errors_if_given, count_errors, after_certificate, ldap_validate,
}

module _ (c : Checks) where
  abbrev pub query_is_valid : LdapQuery → Bool → Bool
  query_is_valid q is_dn_only =
      c.dn_parses q.base_dn
      && (((q.scope == "") || c.scope_is_known q.scope)
          && (((q.deref_aliases == "") || c.deref_aliases_is_known q.deref_aliases)
              && (not (is_negative q.time_limit)
                  && (if is_dn_only then q.filter == "" else c.filter_compiles q.filter))))

  validate_ldap_query_lem :
      (q : LdapQuery) (path : String) (dn : Bool)
      → is_empty (validate_ldap_query c q path dn) ≡ query_is_valid q dn
  unfolding validate_ldap_query
  validate_ldap_query_lem q path true = simp (is_empty-append, is_empty-required) refl
  validate_ldap_query_lem q path false = simp (is_empty-append, is_empty-required) refl

  abbrev pub rfc2307_is_valid : Rfc2307Config → Bool
  rfc2307_is_valid g =
      query_is_valid g.all_groups_query false
      && (not (g.group_uid_attribute == "")
          && (names_given c g.group_name_attributes
              && (not (is_empty g.group_membership_attributes)
                  && (query_is_valid g.all_users_query (is_dn c g.user_uid_attribute)
                      && (not (g.user_uid_attribute == "")
                          && not (is_empty g.user_name_attributes))))))

  validate_rfc2307_config_lem :
      (g : Rfc2307Config) → is_empty (validate_rfc2307_config c g) ≡ rfc2307_is_valid g
  unfolding validate_rfc2307_config
  validate_rfc2307_config_lem g =
      simp (is_empty-append, is_empty-required, validate_ldap_query_lem) refl

  abbrev pub active_directory_is_valid : ActiveDirectoryConfig → Bool
  active_directory_is_valid g =
      query_is_valid g.all_users_query false
      && (not (is_empty g.user_name_attributes) && not (is_empty g.group_membership_attributes))

  validate_active_directory_config_lem :
      (g : ActiveDirectoryConfig)
      → is_empty (validate_active_directory_config c g) ≡ active_directory_is_valid g
  unfolding validate_active_directory_config
  validate_active_directory_config_lem g =
      simp (is_empty-append, is_empty-required, validate_ldap_query_lem) refl

  abbrev pub augmented_is_valid : AugmentedActiveDirectoryConfig → Bool
  augmented_is_valid g =
      query_is_valid g.all_users_query false
      && (not (is_empty g.user_name_attributes)
          && (not (is_empty g.group_membership_attributes)
              && (query_is_valid g.all_groups_query (is_dn c g.group_uid_attribute)
                  && (not (g.group_uid_attribute == "") && names_given c g.group_name_attributes))))

  validate_augmented_config_lem :
      (g : AugmentedActiveDirectoryConfig)
      → is_empty (validate_augmented_config c g) ≡ augmented_is_valid g
  unfolding validate_augmented_config
  validate_augmented_config_lem g =
      simp (is_empty-append, is_empty-required, validate_ldap_query_lem) refl

  -- Exactly one schema is given, and it is valid.
  abbrev pub schema_is_valid :
      Option Rfc2307Config
      → Option ActiveDirectoryConfig
      → Option AugmentedActiveDirectoryConfig
      → Bool
  schema_is_valid (some g) none none = rfc2307_is_valid g
  schema_is_valid none (some g) none = active_directory_is_valid g
  schema_is_valid none none (some g) = augmented_is_valid g
  schema_is_valid _ _ _ = false

  schemas_lem :
      (r : Option Rfc2307Config) (a : Option ActiveDirectoryConfig)
      (g : Option AugmentedActiveDirectoryConfig)
      → is_empty (
          errors_if_given c (validate_rfc2307_config c) r
          ++ (errors_if_given c (validate_active_directory_config c) a
              ++ (errors_if_given c (validate_augmented_config c) g
                  ++ count_errors c (is_some r) (is_some a) (is_some g))))
        ≡ schema_is_valid r a g
  schemas_lem none none none = refl
  schemas_lem (some r) none none =
      simp (is_empty-append, validate_rfc2307_config_lem) (ground arith)
  schemas_lem none (some a) none =
      simp (is_empty-append, validate_active_directory_config_lem) (ground arith)
  schemas_lem none none (some g) =
      simp (is_empty-append, validate_augmented_config_lem) (ground arith)
  schemas_lem (some r) (some a) none = simp (is_empty-append) (ground arith)
  schemas_lem (some r) none (some g) = simp (is_empty-append) (ground arith)
  schemas_lem none (some a) (some g) = simp (is_empty-append) (ground arith)
  schemas_lem (some r) (some a) (some g) = simp (is_empty-append) (ground arith)

  schema_errors_lem :
      (p : LdapProvider)
      → is_empty (schema_errors c p)
        ≡ schema_is_valid p.rfc2307_config p.active_directory_config
            p.augmented_active_directory_config
  unfolding schema_errors
  schema_errors_lem p =
      schemas_lem p.rfc2307_config p.active_directory_config p.augmented_active_directory_config

  abbrev pub mapping_is_valid : Dict String → Bool
  mapping_is_valid [] = true
  mapping_is_valid ((uid, name) ∷ rest) = not ((uid == "") || (name == "")) && mapping_is_valid rest

  mapping_errors_lem : (m : Dict String) → is_empty (mapping_errors c m) ≡ mapping_is_valid m
  unfolding mapping_errors
  mapping_errors_lem [] = refl
  mapping_errors_lem ((uid, name) ∷ rest) =
      simp (is_empty-append, is_empty-required, mapping_errors_lem rest) refl

  -- A URL that is parsed, against the certificate: an insecure provider has no certificate and
  -- another scheme than ldaps, a secure one has a certificate.
  abbrev pub scheme_is_valid : Option String → Bool → Option String → Bool
  scheme_is_valid none insecure ca = false
  scheme_is_valid (some scheme) true ca = not (scheme == "ldaps") && not (is_some ca)
  scheme_is_valid (some scheme) false ca = is_some ca

  abbrev pub url_is_valid : Option String → Bool → Option String → Bool
  url_is_valid none insecure ca = false
  url_is_valid (some url) insecure ca = scheme_is_valid (c.scheme_of url) insecure ca

  url_errors_lem :
      (url : Option String) (insecure : Bool) (ca : Option String)
      → no_errors (url_errors c url insecure ca) ≡ url_is_valid url insecure ca
  unfolding url_errors
  url_errors_lem none insecure ca = refl
  url_errors_lem (some url) true ca = elim (Option-cases (c.scheme_of url)) [
    | inl q ↦ rw q refl
    | inr (scheme, q) ↦ rw q (simp (is_empty-append, is_empty-required) refl)
  ]
  url_errors_lem (some url) false ca = elim (Option-cases (c.scheme_of url)) [
    | inl q ↦ rw q refl
    | inr (scheme, q) ↦ rw q (simp (is_empty-append, is_empty-required) refl)
  ]

  abbrev pub credentials_are_read : Option ObjectRef → Bool
  credentials_are_read none = true
  credentials_are_read (some r) = is_read (c.secret r.namespace r.name)

  credentials_errors_lem :
      (o : Option ObjectRef) → no_errors (credentials_errors c o) ≡ credentials_are_read o
  unfolding credentials_errors
  credentials_errors_lem none = refl
  credentials_errors_lem (some r) = errors_of_lem (c.secret r.namespace r.name)

  abbrev pub rest_is_valid : LdapProvider → Option String → Bool
  rest_is_valid p ca =
      url_is_valid p.url p.insecure ca
      && (mapping_is_valid p.group_uid_name_mapping
          && schema_is_valid p.rfc2307_config p.active_directory_config
              p.augmented_active_directory_config)

  after_certificate_lem :
      (p : LdapProvider) (ca : Option String) (es : List Error)
      → no_errors (after_certificate c p (ok (ca, es))) ≡ (is_empty es && rest_is_valid p ca)
  after_certificate_lem p ca es =
      simp
        (no_errors-append, url_errors_lem, is_empty-append, mapping_errors_lem, schema_errors_lem)
        refl

  certificate_of_lem :
      (p : LdapProvider) (r : ObjectRef) (read : Result GoMap)
      → no_errors (after_certificate c p (certificate_of r read))
        ≡ (is_some (found_in (ca_key r) read) && rest_is_valid p (found_in (ca_key r) read))
  certificate_of_lem p r (ok found) = after_certificate_lem p _ _ ∙ simp (is_empty-required) refl
  certificate_of_lem p r (err e) = after_certificate_lem p none (e ∷ no_ca_key r ∷ [])
  certificate_of_lem p r panic = refl

  ca_certificate_lem :
      (p : LdapProvider) (o : Option ObjectRef)
      → no_errors (after_certificate c p (ca_certificate c.config_map c.secret o)) ≡ (
          certificate_is_found c.config_map c.secret o
          && rest_is_valid p (certificate c.config_map c.secret o))
  unfolding ca_certificate
  ca_certificate_lem p none = after_certificate_lem p none []
  ca_certificate_lem p (some r) =
      certificate_of_lem p r (get_object_ref_data c.config_map c.secret r)

  -- The place of the certificate, the deprecated one where the other is left out.
  abbrev pub ca_source : LdapProvider → Option ObjectRef
  ca_source p = determine_from_deprecated_object_ref p.ca p.ca_secret

  -- An LDAP provider passes the validation, with no error and no panic, exactly if: its secret is
  -- read, if it names one; its certificate is found, if it names a source for it; its URL is given
  -- and parsed, with another scheme than ldaps and no certificate if it is insecure, and with a
  -- certificate if not; no UID and no name of its mapping is empty; and exactly one schema is
  -- given, whose attributes are there and whose queries are valid.
  pub ldap_validate_iff :
      (p : LdapProvider)
      → (ldap_validate c p ≡ ok tt) ↔ (
          (credentials_are_read p.credentials_secret
            && (certificate_is_found c.config_map c.secret (ca_source p)
                && rest_is_valid p (certificate c.config_map c.secret (ca_source p))))
          ≡ true)
  unfolding ldap_validate
  ldap_validate_iff p =
      let all : _ =
        no_errors-append (credentials_errors c p.credentials_secret)
          (after_certificate c p (ca_certificate c.config_map c.secret (ca_source p))) in
      let valid : _ =
        rw (credentials_errors_lem p.credentials_secret, ca_certificate_lem p (ca_source p)) at
          all in
      let aggregate : _ = aggregated_iff (
        append_errors (credentials_errors c p.credentials_secret)
          (after_certificate c p (ca_certificate c.config_map c.secret (ca_source p)))) in
      (λ h. sym valid ∙ aggregate.0 h, λ h. aggregate.1 (valid ∙ h))
