-- ===== src/Credentials.antt =====
-- What the `Validate` methods of pkg/syncer/github.go, gitlab.go, keycloak.go, azure.go and okta.go
-- have in common: each reads the secret and the certificate, keeps them in the fields of the syncer,
-- and collects errors. What the cluster and `net/url` answer is a parameter.
pub mod Passed
use group_sync_operator.Prelude.{
  String, ◌==◌, Bool, true, false, is_some, if◌then◌else◌, Option, none, some, List, [], ◌∷◌, ◌++◌,
  Exec, Result, ok, err, panic, Error, failure, new_aggregate, pure, lift, ◌>>=◌,
}
use group_sync_operator.Prelude.Dict.{GoMap, get}
use group_sync_operator.Api.{ObjectRef}
use group_sync_operator.Certificates.{ca_certificate}

-- `url.URL`: its host, and what its `String` prints.
pub record Url : Type 0 where
  pub host : String
  pub text : String

-- The calls that the methods make.
pub record Lookups : Type 0 where
  pub secret : String → String → Result GoMap
  pub config_map : String → String → Result GoMap
  -- `url.Parse`: nothing where it answers an error, and then the URL is nil.
  pub parse_url : String → Option Url
  -- The error of `url.ParseRequestURI`.
  pub request_uri_error : String → Option Error

-- The fields that `Init` and `Validate` set and `Bind` and `Sync` read.
pub record Fields : Type 0 where
  pub credentials_secret : Option GoMap
  pub url : Option Url
  pub ca_certificate : Option String

abbrev pub no_fields : Fields
no_fields = record { credentials_secret = none; url = none; ca_certificate = none }

-- The keys of the secrets.
abbrev pub username_key : String
username_key = "username"

abbrev pub password_key : String
password_key = "password"

abbrev pub token_key : String
token_key = "token"

abbrev pub private_key : String
private_key = "privateKey"

abbrev pub app_id_key : String
app_id_key = "appId"

abbrev pub has : String → GoMap → Bool
has key m = is_some (get key m)

-- The TLS transport of a client: none is the default one.
pub data Transport : Type 0 where
  unverified : Transport
  trusting : String → Transport

abbrev pub transport : Bool → Option String → Option Transport
transport true ca = some unverified
transport false none = none
transport false (some ca) = if ca == "" then none else some (trusting ca)

-- A part of a validation: it collects errors.
abbrev pub Check : Type 0
Check = Exec Fields (List Error)

abbrev pub both : Check → Check → Check
both m k = do es ← m; fs ← k; pure (es ++ fs)

abbrev pub report : Check → Exec Fields (Unit {0})
report m = do es ← m; lift (new_aggregate es)

abbrev pub secret_is : (GoMap → List Error) → Result GoMap → Check
secret_is errors (ok m) s = (ok (errors m), record s { credentials_secret = some m })
secret_is errors (err e) s = (ok (e ∷ []), s)
secret_is errors panic s = (panic, s)

abbrev pub certificate_is : Result (Option String × List Error) → Check
certificate_is (ok (ca, es)) s = (ok es, record s { ca_certificate = ca })
certificate_is (err e) s = (err e, s)
certificate_is panic s = (panic, s)

abbrev pub url_is : List Error → Error → Option Url → Check
url_is es invalid none s = (ok (es ++ (invalid ∷ [])), record s { url = none })
url_is es invalid (some u) s = (ok es, record s { url = some u })

abbrev pub error_if_any : Option Error → List Error
error_if_any none = []
error_if_any (some e) = e ∷ []

abbrev pub in_secret : String → ObjectRef → Error
in_secret text r = failure text (r.name ∷ r.namespace ∷ [])

module _ (c : Lookups) where
  -- The secret is kept, and its keys are checked.
  unfoldable pub check_secret : (GoMap → List Error) → ObjectRef → Check
  check_secret errors r = secret_is errors (c.secret r.namespace r.name)

  -- The certificate is kept, where the provider names a source of it.
  unfoldable pub check_certificate : Option ObjectRef → Check
  check_certificate none s = (ok [], s)
  check_certificate (some r) s = certificate_is (ca_certificate c.config_map c.secret (some r)) s

  -- The URL that is kept is nil where it is not parsed.
  unfoldable pub keep_url : List Error → Error → String → Check
  keep_url es invalid url = url_is es invalid (c.parse_url url)
