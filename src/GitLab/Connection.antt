-- ===== src/GitLab/Connection.antt =====
-- `Init`, `Validate` and `Bind` of pkg/syncer/gitlab.go. The calls of the go-gitlab library are
-- parameters, on an abstract state of the world.
use group_sync_operator.Prelude.{
  String, Bool, false, ◌&&◌, ◌||◌, Option, none, some, [], ◌∷◌, Exec, Error, failure, if◌then◌else◌,
  pure, lift, ok, panic, raise, ◌>>=◌, handle,
}
use group_sync_operator.Prelude.Dict.{GoMap, get_or_empty}
use group_sync_operator.Api.{GitLabProvider}
use group_sync_operator.Syncer.{determine_from_deprecated_object_ref}
use group_sync_operator.Certificates.{required}
use group_sync_operator.Credentials.{
  Url, Lookups, Fields, no_fields, Check, both, report, check_secret, check_certificate, keep_url,
  in_secret, has, Transport, transport, token_key, username_key, password_key,
}

-- `Init`
unfoldable pub gitlab_init : Fields × Bool
gitlab_init = (no_fields, false)

abbrev pub has_gitlab_keys : GoMap → Bool
has_gitlab_keys m = (has username_key m && has password_key m) || has token_key m

abbrev pub no_gitlab_keys : GitLabProvider → Error
no_gitlab_keys p =
    in_secret
      "Could not find 'username' and `password` or `token` key in secret '%s' in namespace '%s"
      p.credentials_secret

module _ (c : Lookups) where
  unfoldable pub check_gitlab_url : Option String → Check
  check_gitlab_url none s = (ok [], s)
  check_gitlab_url (some url) s = keep_url c [] (failure "Invalid GitLab URL: '%s" (url ∷ [])) url s

  unfoldable pub gitlab_checks : GitLabProvider → Check
  gitlab_checks p =
      both
        (check_secret c (λ m. required (has_gitlab_keys m) (no_gitlab_keys p)) p.credentials_secret)
        (both (check_certificate c (determine_from_deprecated_object_ref p.ca p.ca_secret))
          (check_gitlab_url p.url))

  -- `Validate`
  unfoldable pub gitlab_validate : GitLabProvider → Exec Fields (Unit {0})
  gitlab_validate p = report (gitlab_checks p)

-- The options of a client: its base URL and its transport.
pub record Options : Type 0 where
  pub base_url : Option String
  pub transport : Option Transport

abbrev pub text_of : Option Url → Option String
text_of none = none
text_of (some u) = some u.text

abbrev pub options : GitLabProvider → Fields → Options
options p s = record { base_url = text_of s.url; transport = transport p.insecure s.ca_certificate }

pub record GitLabCalls (W Client : Type 0) : Type 0 where
  pub new_oauth_client : String → Options → Exec W Client
  pub new_basic_auth_client : String → String → Options → Exec W Client

abbrev pub no_gitlab_credentials : GitLabProvider → Error
no_gitlab_credentials p =
    in_secret "Could not locate credentials in secret '%s' in namespace '%s'" p.credentials_secret

module _ {W Client : Type 0} (calls : GitLabCalls W Client) where
  -- The error of the first client is dropped, and the client is then nil.
  abbrev pub bind_oauth : Options → GoMap → Exec W (Option Client)
  bind_oauth o m =
      handle (calls.new_oauth_client (get_or_empty token_key m) o) (λ e. pure none)
        (λ client. pure (some client))

  abbrev pub bind_basic : Options → GoMap → Exec W (Option Client)
  bind_basic o m = do
    client ←
        calls.new_basic_auth_client (get_or_empty username_key m) (get_or_empty password_key m) o
    pure (some client)

  abbrev pub bind_gitlab : GitLabProvider → Options → GoMap → Exec W (Option Client)
  bind_gitlab p o m =
      if has token_key m
      then bind_oauth o m
      else if has username_key m && has password_key m
      then bind_basic o m
      else raise (no_gitlab_credentials p)

  abbrev pub bind_kept : GitLabProvider → Options → Option GoMap → Exec W (Option Client)
  bind_kept p o none = lift panic
  bind_kept p o (some m) = bind_gitlab p o m

  -- `Bind`, with the client that it leaves; it panics where no secret was kept.
  unfoldable pub gitlab_bind : GitLabProvider → Fields → Exec W (Option Client)
  gitlab_bind p s = bind_kept p (options p s) s.credentials_secret
