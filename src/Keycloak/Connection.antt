-- ===== src/Keycloak/Connection.antt =====
-- `Validate` and `Bind` of pkg/syncer/keycloak.go. The calls of the gocloak library are parameters.
use group_sync_operator.Prelude.{
  String, ◌==◌, Bool, true, false, Option, none, some, List, ◌++◌, Exec, panic, Error,
  if◌then◌else◌, pure, lift,
}
use group_sync_operator.Prelude.Dict.{GoMap, get_or_empty}
use group_sync_operator.Api.{KeycloakProvider}
use group_sync_operator.Syncer.{determine_from_deprecated_object_ref}
use group_sync_operator.Certificates.{required}
use group_sync_operator.Credentials.{
  Lookups, Fields, Check, both, report, check_secret, check_certificate, in_secret, has, Transport,
  unverified, trusting, username_key, password_key, error_if_any,
}

abbrev pub no_username : KeycloakProvider → Error
no_username p =
    in_secret "Could not find 'username' key in secret '%s' in namespace '%s" p.credentials_secret

abbrev pub no_password : KeycloakProvider → Error
no_password p =
    in_secret "Could not find 'password' key in secret '%s' in namespace '%s" p.credentials_secret

abbrev pub keycloak_key_errors : KeycloakProvider → GoMap → List Error
keycloak_key_errors p m =
    required (has username_key m) (no_username p) ++ required (has password_key m) (no_password p)

module _ (c : Lookups) where
  unfoldable pub keycloak_checks : KeycloakProvider → Check
  keycloak_checks p = both (check_secret c (keycloak_key_errors p) p.credentials_secret) (
      both (pure (error_if_any (c.request_uri_error p.url)))
        (check_certificate c (determine_from_deprecated_object_ref p.ca p.ca_secret)))

  -- `Validate`
  unfoldable pub keycloak_validate : KeycloakProvider → Exec Fields (Unit {0})
  keycloak_validate p = report (keycloak_checks p)

-- The certificate, if there is one, replaces the setting that does not verify.
abbrev pub keycloak_transport : Bool → Option String → Option Transport
keycloak_transport true none = some unverified
keycloak_transport false none = none
keycloak_transport true (some ca) = if ca == "" then some unverified else some (trusting ca)
keycloak_transport false (some ca) = if ca == "" then none else some (trusting ca)

-- `LoginAdmin`, with the user name, the password and the realm.
pub record KeycloakCalls (W Token : Type 0) : Type 0 where
  pub login_admin : Option Transport → String → String → String → Exec W Token

module _ {W Token : Type 0} (calls : KeycloakCalls W Token) where
  abbrev pub login_with : KeycloakProvider → Option Transport → Option GoMap → Exec W Token
  login_with p t none = lift panic
  login_with p t (some m) =
      calls.login_admin t (get_or_empty username_key m) (get_or_empty password_key m) p.login_realm

  -- `Bind`, with the token that it keeps; it panics where no secret was kept.
  unfoldable pub keycloak_bind : KeycloakProvider → Fields → Exec W Token
  keycloak_bind p s =
      login_with p (keycloak_transport p.insecure s.ca_certificate) s.credentials_secret
