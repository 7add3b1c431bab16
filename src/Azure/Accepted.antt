-- ===== src/Azure/Accepted.antt =====
-- Which Azure providers pass the validation, and how `Bind` connects then.
use group_sync_operator.Prelude.{◌≡◌, ◌↔◌, ap, ◌∙◌, Bool, true, not, ◌&&◌, some, ok, arith}
use group_sync_operator.Prelude.Dict.{GoMap}
use group_sync_operator.Api.{AzureProvider}
use group_sync_operator.Certificates.Found.{is_empty-required}
use group_sync_operator.Credentials.{Lookups, Fields, has}
use group_sync_operator.Credentials.Passed.{
  report-Described, holds_keys, holds_keys-eq_true, found, read_secret, secret_kept,
  check_keys-Described,
}
use group_sync_operator.Azure.Connection.{
  tenant_id, client_id, client_secret, lacks_azure_keys, no_azure_keys, azure_checks,
  azure_validate, AzureCalls, bind_azure, azure_bind,
}

abbrev pub has_azure_keys : GoMap → Bool
has_azure_keys m = has tenant_id m && (has client_id m && has client_secret m)

lacks_azure_keys_lem : (m : GoMap) → not (lacks_azure_keys m) ≡ has_azure_keys m
lacks_azure_keys_lem m = ground arith

module _ (c : Lookups) where
  abbrev pub azure_is_valid : AzureProvider → Bool
  azure_is_valid p = holds_keys has_azure_keys (read_secret c p.credentials_secret)

  -- An Azure provider passes the validation, with no error and no panic, exactly if its secret is
  -- read and has a tenant ID, a client ID and a client secret; then the syncer keeps the secret.
  azure_validate_iff :
      (p : AzureProvider) (s t : Fields)
      → (azure_validate c p s ≡ (ok tt, t))
        ↔ ((azure_is_valid p ≡ true) × (t ≡ secret_kept c p.credentials_secret s))
  unfolding azure_validate azure_checks
  azure_validate_iff p s t = report-Described s t (
      check_keys-Described c _ has_azure_keys
        (λ m. is_empty-required _ (no_azure_keys p) ∙ lacks_azure_keys_lem m) p.credentials_secret)

  -- After a validation that passes, `Bind` makes its client with the three values of the secret.
  azure_bind-azure_validate :
      {W Credential Provider Adapter Client : Type 0}
      (calls : AzureCalls W Credential Provider Adapter Client) (p : AzureProvider) (s t : Fields)
      → azure_validate c p s ≡ (ok tt, t)
      → (m : GoMap) × (read_secret c p.credentials_secret ≡ ok m)
        × (has_azure_keys m ≡ true)
        × (azure_bind calls p t ≡ bind_azure calls p (some m))
  unfolding azure_bind
  azure_bind-azure_validate calls p s t h =
      let v : _ = (azure_validate_iff p s t).0 h in
      let read : _ = holds_keys-eq_true has_azure_keys (read_secret c p.credentials_secret) v.0 in
      let kept : t.credentials_secret ≡ some (read.0) =
        ap (λ (u : Fields). u.credentials_secret) v.1 ∙ ap found read.1 in
      (read.0, read.1, read.2, ap (λ o. bind_azure calls p o) kept)
