-- ===== src/Keycloak/Accepted.antt =====
-- Which Keycloak providers pass the validation, and how `Bind` logs in then.
use group_sync_operator.Prelude.{
  String, ◌==◌, false, none, Option-cases, Bool-cases, inl, inr, eq_of_==, ◌≡◌, ◌↔◌, refl, ap, ◌∙◌,
  Bool, ◌&&◌, Option, some, ok, is_empty, true, &&-eq_true,
}
use group_sync_operator.Prelude.Dict.{GoMap, get, get_or_empty}
use group_sync_operator.Api.{KeycloakProvider, ObjectRef}
use group_sync_operator.Syncer.{determine_from_deprecated_object_ref}
use group_sync_operator.Certificates.Found.{
  is_empty-append, is_empty-required, certificate_is_found,
}
use group_sync_operator.Credentials.{
  Lookups, Fields, Transport, trusting, unverified, has, username_key, password_key, error_if_any,
}
use group_sync_operator.Credentials.Passed.{
  both-Described, report-Described, errors-Described, holds_keys, holds_keys-eq_true, found,
  read_secret, secret_kept, check_keys-Described, certificate_kept,
  certificate_kept-credentials_secret, check_certificate-Described,
}
use group_sync_operator.Keycloak.Connection.{
  keycloak_key_errors, keycloak_checks, keycloak_validate, keycloak_transport, KeycloakCalls,
  login_with, keycloak_bind,
}

abbrev pub has_keycloak_keys : GoMap → Bool
has_keycloak_keys m = has username_key m && has password_key m

keycloak_key_errors_lem :
    (p : KeycloakProvider) (m : GoMap) → is_empty (keycloak_key_errors p m) ≡ has_keycloak_keys m
keycloak_key_errors_lem p m = simp (is_empty-append, is_empty-required) refl

has-get : (k : String) (m : GoMap) → has k m ≡ true → (v : String) × (get k m ≡ some v)
has-get k m h = elim (Option-cases (get k m)) [
  | inl e ↦ absurd (let q : _ = rw e at h in cc)
  | inr (v, e) ↦ (v, e)
]

-- The setting of the login for a provider that is insecure or not, and the certificate that was kept.
pub data TransportOf : Bool → Option String → Option Transport → Type 0 where
  trusts :
      (insecure : Bool) (ca : String)
      → (ca == "") ≡ false
      → TransportOf insecure (some ca) (some (trusting ca))
  verifies_none : TransportOf true none (some unverified)
  verifies_none_empty : TransportOf true (some "") (some unverified)
  changes_nothing : TransportOf false none none
  changes_nothing_empty : TransportOf false (some "") none

keycloak_transport-TransportOf :
    (insecure : Bool) (ca : Option String)
    → TransportOf insecure ca (keycloak_transport insecure ca)
keycloak_transport-TransportOf true none = verifies_none
keycloak_transport-TransportOf false none = changes_nothing
keycloak_transport-TransportOf true (some ca) = elim (Bool-cases (ca == "")) [
  | inl y ↦ rw (eq_of_== ca "" y) verifies_none_empty
  | inr n ↦ rw n (trusts true ca n)
]
keycloak_transport-TransportOf false (some ca) = elim (Bool-cases (ca == "")) [
  | inl y ↦ rw (eq_of_== ca "" y) changes_nothing_empty
  | inr n ↦ rw n (trusts false ca n)
]

get-get_or_empty : (k : String) (m : GoMap) (v : String) → get k m ≡ some v → get_or_empty k m ≡ v
get-get_or_empty k m v h = rw (get_or_empty, h) refl

login_with_lem :
    {W Token : Type 0} (calls : KeycloakCalls W Token) (p : KeycloakProvider)
    (transport : Option Transport) (m : GoMap) (user password : String)
    → get username_key m ≡ some user
    → get password_key m ≡ some password
    → login_with calls p transport (some m)
      ≡ calls.login_admin transport user password p.login_realm
login_with_lem calls p transport m user password u q =
    ap (λ v. calls.login_admin transport v (get_or_empty password_key m) p.login_realm)
      (get-get_or_empty username_key m user u)
    ∙ ap (λ v. calls.login_admin transport user v p.login_realm)
        (get-get_or_empty password_key m password q)

module _ (c : Lookups) where
  abbrev pub keycloak_ca_source : KeycloakProvider → Option ObjectRef
  keycloak_ca_source p = determine_from_deprecated_object_ref p.ca p.ca_secret

  abbrev pub keycloak_is_valid : KeycloakProvider → Bool
  keycloak_is_valid p =
      holds_keys has_keycloak_keys (read_secret c p.credentials_secret)
      && (is_empty (error_if_any (c.request_uri_error p.url))
          && certificate_is_found c.config_map c.secret (keycloak_ca_source p))

  abbrev pub keycloak_fields : KeycloakProvider → Fields → Fields
  keycloak_fields p s =
      certificate_kept c (keycloak_ca_source p) (secret_kept c p.credentials_secret s)

  -- A Keycloak provider passes the validation, with no error and no panic, exactly if its secret is
  -- read and has a user name and a password, its URL is that of a request, and its certificate is
  -- found if it names a source for it; then the syncer keeps the secret and the certificate.
  pub keycloak_validate_iff :
      (p : KeycloakProvider) (s t : Fields)
      → (keycloak_validate c p s ≡ (ok tt, t))
        ↔ ((keycloak_is_valid p ≡ true) × (t ≡ keycloak_fields p s))
  unfolding keycloak_validate keycloak_checks
  keycloak_validate_iff p s t = report-Described s t (
      both-Described
        (check_keys-Described c _ has_keycloak_keys (keycloak_key_errors_lem p)
          p.credentials_secret)
        (both-Described (errors-Described _)
          (check_certificate-Described c (keycloak_ca_source p))))

  -- After a validation that passes the secret is read, it has a user name and a password, and `Bind`
  -- is the login with these two in the realm of the provider. The login trusts the certificate if one
  -- was kept that is not empty, and else verifies no certificate if the provider is insecure, and
  -- changes no setting if it is not.
  pub keycloak_bind-keycloak_validate :
      {W Token : Type 0} (calls : KeycloakCalls W Token) (p : KeycloakProvider) (s t : Fields)
      → keycloak_validate c p s ≡ (ok tt, t)
      → (m : GoMap) × (user password : String) × (transport : Option Transport) × (read_secret c
            p.credentials_secret
          ≡ ok m)
        × (get "username" m ≡ some user)
        × (get "password" m ≡ some password)
        × TransportOf p.insecure t.ca_certificate transport
        × (keycloak_bind calls p t ≡ calls.login_admin transport user password p.login_realm)
  unfolding keycloak_bind
  keycloak_bind-keycloak_validate calls p s t h =
      let v : _ = (keycloak_validate_iff p s t).0 h in
      let read : _ =
        holds_keys-eq_true has_keycloak_keys (read_secret c p.credentials_secret)
          (&&-eq_true _ _ v.0).0 in
      let kept : t.credentials_secret ≡ some (read.0) =
        ap (λ (u : Fields). u.credentials_secret) v.1
        ∙ (certificate_kept-credentials_secret c (keycloak_ca_source p) _ ∙ ap found read.1) in
      let keys : _ = &&-eq_true _ _ read.2 in
      let user : _ = has-get username_key read.0 keys.0 in
      let password : _ = has-get password_key read.0 keys.1 in
      (
        read.0,
        user.0,
        password.0,
        keycloak_transport p.insecure t.ca_certificate,
        read.1,
        user.1,
        password.1,
        keycloak_transport-TransportOf p.insecure t.ca_certificate,
        ap (λ o. login_with calls p (keycloak_transport p.insecure t.ca_certificate) o) kept
            ∙ login_with_lem calls p _ read.0 user.0 password.0 user.1 password.1,
      )
