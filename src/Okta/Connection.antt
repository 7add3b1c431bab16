-- ===== src/Okta/Connection.antt =====
-- `Validate` and `Bind` of pkg/syncer/okta.go. The client of the okta library is a parameter.
use group_sync_operator.Prelude.{
  String, Option, none, some, List, [], ◌∷◌, Exec, panic, Error, pure, lift,
}
use group_sync_operator.Prelude.Dict.{GoMap, get_or_empty}
use group_sync_operator.Api.{OktaProvider}
use group_sync_operator.Certificates.{required}
use group_sync_operator.Credentials.{
  Lookups, Fields, Check, both, report, check_secret, in_secret, has, error_if_any,
}

abbrev pub okta_token_key : String
okta_token_key = "okta-api-token"

abbrev pub no_okta_token : OktaProvider → Error
no_okta_token p = in_secret "could not find api token '%s' in namespace '%s" p.credentials_secret

-- `utilerrors.NewAggregate` leaves out the nil errors.
abbrev pub without_nil : List (Option Error) → List Error
without_nil [] = []
without_nil (none ∷ es) = without_nil es
without_nil (some e ∷ es) = e ∷ without_nil es

module _ (c : Lookups) where
  -- The slice of errors is made with two elements, which are nil.
  unfoldable pub okta_checks : OktaProvider → Check
  okta_checks p = both (pure (without_nil (none ∷ none ∷ []))) (
      both
        (check_secret c (λ m. required (has okta_token_key m) (no_okta_token p))
          p.credentials_secret)
        (pure (error_if_any (c.request_uri_error p.url))))

  -- `Validate`
  unfoldable pub okta_validate : OktaProvider → Exec Fields (Unit {0})
  okta_validate p = report (okta_checks p)

-- `okta.NewClient`, with the URL of the organization and the token.
pub record OktaCalls (W Client : Type 0) : Type 0 where
  pub new_client : String → String → Exec W Client

module _ {W Client : Type 0} (calls : OktaCalls W Client) where
  abbrev pub bind_okta : OktaProvider → Option GoMap → Exec W Client
  bind_okta p none = lift panic
  bind_okta p (some m) = calls.new_client p.url (get_or_empty okta_token_key m)

  -- `Bind`, with the client that it keeps; it panics where no secret was kept.
  unfoldable pub okta_bind : OktaProvider → Fields → Exec W Client
  okta_bind p s = bind_okta p s.credentials_secret
