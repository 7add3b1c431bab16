-- ===== src/GitHub/Connection.antt =====
-- `Init`, `Validate` and `Bind` of pkg/syncer/github.go. The calls of the githubapp library are
-- parameters, on an abstract state of the world.
use group_sync_operator.Prelude.{
  String, ◌==◌, Bool, false, not, ◌&&◌, ◌||◌, Option, none, some, [], ◌∷◌, Exec, Result, ok, panic,
  Error, failure, if◌then◌else◌, pure, lift, raise, ◌>>=◌,
}
use group_sync_operator.Prelude.Int.{ℤ}
use group_sync_operator.Prelude.Dict.{GoMap, get_or_empty}
use group_sync_operator.Prelude.Text.{last}
use group_sync_operator.Api.{GitHubProvider}
use group_sync_operator.Syncer.{determine_from_deprecated_object_ref}
use group_sync_operator.Certificates.{required}
use group_sync_operator.Credentials.{
  Url, Lookups, Fields, no_fields, Check, both, report, check_secret, check_certificate, keep_url,
  in_secret, has, Transport, transport, token_key, private_key, app_id_key,
}

abbrev pub default_base_url : String
default_base_url = "https://api.github.com/"

-- `Init`, where the error of the parsing is dropped.
unfoldable pub github_init : Lookups → Fields × Bool
github_init c = (record no_fields { url = c.parse_url default_base_url }, false)

abbrev pub has_github_keys : GoMap → Bool
has_github_keys m = has token_key m || (has private_key m && has app_id_key m)

abbrev pub no_github_keys : GitHubProvider → Error
no_github_keys p =
    in_secret
      "Could not find `token` or `privateKey` and `appId` key in secret '%s' in namespace '%s"
      p.credentials_secret

module _ (c : Lookups) where
  -- A URL that is given and empty panics: its last byte is read.
  unfoldable pub check_github_url : Option String → Check
  check_github_url none s = (ok [], s)
  check_github_url (some url) s =
      let checked =
        keep_url c
          (required (last url == "/") (failure "GitHub URL Must end with a slash ('/')" []))
          (failure "Invalid GitHub URL: '%s" (url ∷ [])) url s in
      if url == "" then (panic, s) else checked

  unfoldable pub github_checks : GitHubProvider → Check
  github_checks p =
      both
        (check_secret c (λ m. required (has_github_keys m) (no_github_keys p)) p.credentials_secret)
        (both
          (pure
            (required (not (p.organization == "")) (failure "Organization name not provided" [])))
          (both (check_certificate c (determine_from_deprecated_object_ref p.ca p.ca_secret))
            (check_github_url p.url)))

  -- `Validate`
  unfoldable pub github_validate : GitHubProvider → Exec Fields (Unit {0})
  github_validate p = report (github_checks p)

-- `githubapp.Config` and the options of the client creator.
pub record Config : Type 0 where
  pub v3_api_url : String
  pub v4_api_url : String
  pub private_key : String
  pub integration_id : Option ℤ
  pub transport : Option Transport

pub record GitHubCalls (W Creator App Client V4 : Type 0) : Type 0 where
  pub parse_int : String → Result ℤ
  pub new_client_creator : Config → Exec W Creator
  pub new_app_client : Creator → Exec W App
  -- `GetByOwner`, and the ID of what it answers.
  pub installation_of : App → String → Exec W ℤ
  pub new_installation_client : Creator → ℤ → Exec W Client
  pub new_installation_v4_client : Creator → ℤ → Exec W V4
  pub new_token_client : Creator → String → Exec W Client
  pub new_token_v4_client : Creator → String → Exec W V4

-- The clients that `Bind` leaves, with the base URL that replaces the client's own.
pub record Clients (Client V4 : Type 0) : Type 0 where
  pub client : Client
  pub base_url : Option Url
  pub v4_client : V4

abbrev pub no_credentials : GitHubProvider → Error
no_credentials p =
    in_secret "Could not locate credentials in secret '%s' in namespace '%s'" p.credentials_secret

-- The configuration reads both URLs: where one is nil it panics.
abbrev pub config_of : Option String → Option String → Option Transport → Option Config
config_of (some v3) (some v4) t = some (record {
  v3_api_url = v3;
  v4_api_url = v4;
  private_key = "";
  integration_id = none;
  transport = t;
})
config_of _ _ t = none

module _ {W Creator App Client V4 : Type 0} (calls : GitHubCalls W Creator App Client V4) where
  -- The installation of a GitHub app.
  unfoldable pub bind_app : GitHubProvider → Fields → Config → GoMap → Exec W (Clients Client V4)
  bind_app p s config m = do
    id ← lift (calls.parse_int (get_or_empty app_id_key m))
    creator ←
        calls.new_client_creator
          (record config { private_key = get_or_empty private_key m; integration_id = some id })
    app ← calls.new_app_client creator
    installation ← calls.installation_of app p.organization
    client ← calls.new_installation_client creator installation
    v4 ← calls.new_installation_v4_client creator installation
    pure (record { client = client; base_url = s.url; v4_client = v4 })

  -- A token.
  unfoldable pub bind_token : Fields → Config → GoMap → Exec W (Clients Client V4)
  bind_token s config m = do
    creator ← calls.new_client_creator config
    client ← calls.new_token_client creator (get_or_empty token_key m)
    v4 ← calls.new_token_v4_client creator (get_or_empty token_key m)
    pure (record { client = client; base_url = s.url; v4_client = v4 })

  abbrev pub bind_with : GitHubProvider → Fields → Config → GoMap → Exec W (Clients Client V4)
  bind_with p s config m =
      if has private_key m && has app_id_key m
      then bind_app p s config m
      else if has token_key m
      then bind_token s config m
      else raise (no_credentials p)

  abbrev pub bind_if :
      GitHubProvider → Fields → Option GoMap → Option Config → Exec W (Clients Client V4)
  bind_if p s (some m) (some config) = bind_with p s config m
  bind_if p s _ _ = lift panic

  -- `Bind`; it panics too where no secret was kept.
  unfoldable pub github_bind : GitHubProvider → Fields → Exec W (Clients Client V4)
  github_bind p s =
      bind_if p s s.credentials_secret
        (config_of p.url p.v4_url (transport p.insecure s.ca_certificate))
