-- ===== src/Ldap/Connection/Opened.antt =====
-- What `Bind` of pkg/syncer/ldap.go leaves after a validation that passes, where its calls succeed.
use group_sync_operator.Prelude.{String, ◌==◌, ◌≡◌, refl, Bool, false, Option, none, some, ok}
use group_sync_operator.Prelude.Dict.{GoMap}
use group_sync_operator.Api.{LdapProvider}
use group_sync_operator.Credentials.{Url, username_key, password_key}
use group_sync_operator.Ldap.Directory.{Directory}
use group_sync_operator.Ldap.Validation.{Checks, ldap_validate}
use group_sync_operator.Ldap.Builders.{Queries}
use group_sync_operator.Ldap.Connection.{Bound, bind_schema, LdapCalls, connect, ldap_bind}
use group_sync_operator.Ldap.Connection.Complete.{Accepts, ldap_validate-bind_schema}
use group_sync_operator.Ldap.Connection.Works.{CredentialOf, CredentialOf-get}
use group_sync_operator.Ldap.Connection.Interfaces.{BoundFor, Complete-BoundFor}

module _ {W : Type 0} (calls : LdapCalls W) (name url user password : String)
    (insecure : Bool) where
  abbrev pub Configured : String → W → String → Type 0
  Configured file w host = (calls.new_client_config url user password file insecure w).0 ≡ ok host

  -- The calls of `Bind` succeed: a certificate that is not empty is written to a file, and the client
  -- is configured with it, for this host.
  pub data Opened : Option String → W → String → Type 0 where
    no_certificate : (w : W) (host : String) → Configured "" w host → Opened none w host
    empty_certificate : (w : W) (host : String) → Configured "" w host → Opened (some "") w host
    with_file :
        (ca file : String) (w : W) (host : String)
        → (ca == "") ≡ false
        → (calls.temp_file name w).0 ≡ ok file
        → (calls.write_file file ca (calls.temp_file name w).1).0 ≡ ok tt
        → Configured file (calls.write_file file ca (calls.temp_file name w).1).1 host
        → Opened (some ca) w host

module _ {W E Q R : Type 0} (calls : LdapCalls W) (d : Directory E Q R) (queries : Queries Q)
    (name : String) (p : LdapProvider) (secret : Option GoMap) (url : Url) (user password : String)
    (u : CredentialOf p.credentials_secret secret username_key user)
    (q : CredentialOf p.credentials_secret secret password_key password) where
  connect_result :
      (file : String) (w : W) (host : String) (b : Bound E)
      → bind_schema d queries p ≡ ok b
      → Configured calls name url.text user password p.insecure file w host
      → (connect calls d queries name p secret (some url) file w).0
        ≡ ok (record { host = host; bound = b })
  connect_result file w host b made configured =
      rw
        (
          CredentialOf-get p.credentials_secret secret username_key user u,
          CredentialOf-get p.credentials_secret secret password_key password q,
          configured,
          made,
        )
        refl

  ldap_bind_result :
      (ca : Option String) (w : W) (host : String) (b : Bound E)
      → bind_schema d queries p ≡ ok b
      → Opened calls name url.text user password p.insecure ca w host
      → (ldap_bind calls d queries name p secret (some url) ca w).0
        ≡ ok (record { host = host; bound = b })
  unfolding ldap_bind
  ldap_bind_result _ _ _ b made (no_certificate w host c) = connect_result "" w host b made c
  ldap_bind_result _ _ _ b made (empty_certificate w host c) = connect_result "" w host b made c
  ldap_bind_result _ _ _ b made (with_file ca file w host n t x c) =
      rw (n, t, x) (connect_result file _ host b made c)

  -- After a validation that passes, where the query library makes a query of what passed its checks,
  -- the credentials are a user name and a password (empty where they are not given), and the calls of
  -- `Bind` succeed with them, `Bind` succeeds with the host of the client and the parts of the schema of
  -- the provider, over one interface to the directory that has the queries and the attributes of the
  -- schema. The lister lists the whitelist, or what the interface lists if that is empty, less the
  -- blacklist; groups are named by the mapping of the provider, and else as the schema says; users are
  -- named by the attributes of the schema.
  pub ldap_validate-ldap_bind :
      (c : Checks) (ca : Option String) (w : W) (host : String)
      → Accepts c queries
      → ldap_validate c p ≡ ok tt
      → Opened calls name url.text user password p.insecure ca w host
      → (b : Bound E) × ((ldap_bind calls d queries name p secret (some url) ca w).0
          ≡ ok (record { host = host; bound = b }))
        × BoundFor d queries p b
  ldap_validate-ldap_bind c ca w host accepts valid opened =
      let made : _ = ldap_validate-bind_schema d queries p c accepts valid in
      (
        made.0,
        ldap_bind_result ca w host made.0 made.1 opened,
        Complete-BoundFor d queries p made.0 made.2,
      )
