-- ===== src/Okta/Accepted.antt =====
-- Which Okta providers pass the validation, and how `Bind` connects then.
use group_sync_operator.Prelude.{
  ◌≡◌, ◌↔◌, ap, ◌∙◌, Bool, true, ◌&&◌, some, [], ok, is_empty, &&-eq_true,
}
use group_sync_operator.Prelude.Dict.{GoMap}
use group_sync_operator.Api.{OktaProvider}
use group_sync_operator.Credentials.{Lookups, Fields, has, error_if_any}
use group_sync_operator.Credentials.Passed.{
  both-Described, report-Described, errors-Described, holds_keys, holds_keys-eq_true, found,
  read_secret, secret_kept, check_secret-Described,
}
use group_sync_operator.Okta.Connection.{
  okta_token_key, okta_checks, okta_validate, OktaCalls, bind_okta, okta_bind,
}

module _ (c : Lookups) where
  abbrev pub okta_is_valid : OktaProvider → Bool
  okta_is_valid p =
      holds_keys (has okta_token_key) (read_secret c p.credentials_secret)
      && is_empty (error_if_any (c.request_uri_error p.url))

  -- An Okta provider passes the validation, with no error and no panic, exactly if its secret is
  -- read and has a token and its URL is that of a request; then the syncer keeps the secret.
  okta_validate_iff :
      (p : OktaProvider) (s t : Fields)
      → (okta_validate c p s ≡ (ok tt, t))
        ↔ ((okta_is_valid p ≡ true) × (t ≡ secret_kept c p.credentials_secret s))
  unfolding okta_validate okta_checks
  okta_validate_iff p s t = report-Described s t (
      both-Described (errors-Described []) (
        both-Described (check_secret-Described c (has okta_token_key) _ p.credentials_secret)
          (errors-Described _)))

  -- After a validation that passes, `Bind` makes its client with the URL of the provider and the
  -- token of the secret.
  okta_bind-okta_validate :
      {W Client : Type 0} (calls : OktaCalls W Client) (p : OktaProvider) (s t : Fields)
      → okta_validate c p s ≡ (ok tt, t)
      → (m : GoMap) × (read_secret c p.credentials_secret ≡ ok m)
        × (has okta_token_key m ≡ true)
        × (okta_bind calls p t ≡ bind_okta calls p (some m))
  unfolding okta_bind
  okta_bind-okta_validate calls p s t h =
      let v : _ = (okta_validate_iff p s t).0 h in
      let read : _ =
        holds_keys-eq_true (has okta_token_key) (read_secret c p.credentials_secret)
          (&&-eq_true _ _ v.0).0 in
      let kept : t.credentials_secret ≡ some (read.0) =
        ap (λ (u : Fields). u.credentials_secret) v.1 ∙ ap found read.1 in
      (read.0, read.1, read.2, ap (λ o. bind_okta calls p o) kept)
