-- ===== src/Tests/Connections.antt =====
-- The validation of a Keycloak provider, and what `Bind` does after it.
use group_sync_operator.Prelude.{ℕ, String, ◌≡◌, refl, Option, none, some, [], ◌∷◌, ok}
use group_sync_operator.Prelude.Dict.{GoMap, get}
use group_sync_operator.Syncer.{determine_from_deprecated_object_ref}
use group_sync_operator.Credentials.{
  Lookups, Fields, Transport, no_fields, username_key, password_key,
}
use group_sync_operator.Credentials.Passed.{read_secret}
use group_sync_operator.Keycloak.Connection.{keycloak_validate, KeycloakCalls, keycloak_bind}
use group_sync_operator.Keycloak.Accepted.{
  TransportOf, keycloak_fields, keycloak_validate_iff, keycloak_bind-keycloak_validate,
}
use group_sync_operator.Tests.Keycloak as Realm

abbrev lookups : Lookups
lookups = record {
  secret = λ namespace name. ok (some ((username_key, "u") ∷ (password_key, "p") ∷ []));
  config_map = λ namespace name. ok none;
  parse_url = λ s. none;
  request_uri_error = λ s. none;
}

abbrev keycloak_bound : Fields
keycloak_bound = keycloak_fields lookups Realm.provider no_fields

keycloak_validates : keycloak_validate lookups Realm.provider no_fields ≡ (ok tt, keycloak_bound)
unfolding determine_from_deprecated_object_ref
keycloak_validates = (keycloak_validate_iff lookups Realm.provider no_fields _).1 (refl, refl)

abbrev keycloak_calls : KeycloakCalls ℕ String
keycloak_calls = record { login_admin = λ t user password realm w. (ok realm, w) }

keycloak_bind-keycloak_validate_example :
    (m : GoMap) × (user password : String) × (transport : Option Transport) × (read_secret lookups
        Realm.provider.credentials_secret
      ≡ ok m)
    × (get "username" m ≡ some user)
    × (get "password" m ≡ some password)
    × TransportOf Realm.provider.insecure keycloak_bound.ca_certificate transport
    × (keycloak_bind keycloak_calls Realm.provider keycloak_bound
        ≡ keycloak_calls.login_admin transport user password Realm.provider.login_realm)
keycloak_bind-keycloak_validate_example =
    keycloak_bind-keycloak_validate lookups keycloak_calls Realm.provider no_fields keycloak_bound
      keycloak_validates
