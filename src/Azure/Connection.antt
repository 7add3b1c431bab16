-- ===== src/Azure/Connection.antt =====
-- `Validate` and `Bind` of pkg/syncer/azure.go. The calls of azidentity and of the Graph SDK are
-- parameters.
use group_sync_operator.Prelude.{
  String, Bool, ◌||◌, not, Option, none, some, Exec, panic, Error, pure, lift, ◌>>=◌,
}
use group_sync_operator.Prelude.Dict.{GoMap, get_or_empty}
use group_sync_operator.Api.{AzureProvider}
use group_sync_operator.Certificates.{required}
use group_sync_operator.Credentials.{Lookups, Fields, Check, report, check_secret, in_secret, has}

abbrev pub tenant_id : String
tenant_id = "AZURE_TENANT_ID"

abbrev pub client_id : String
client_id = "AZURE_CLIENT_ID"

abbrev pub client_secret : String
client_secret = "AZURE_CLIENT_SECRET"

abbrev pub lacks_azure_keys : GoMap → Bool
lacks_azure_keys m = not (has tenant_id m) || (not (has client_id m) || not (has client_secret m))

abbrev pub no_azure_keys : AzureProvider → Error
no_azure_keys p =
    in_secret
      "Could not find `AZURE_TENANT_ID` or `AZURE_CLIENT_ID` or `AZURE_CLIENT_SECRET` key in secret '%s' in namespace '%s"
      p.credentials_secret

module _ (c : Lookups) where
  unfoldable pub azure_checks : AzureProvider → Check
  azure_checks p =
      check_secret c (λ m. required (not (lacks_azure_keys m)) (no_azure_keys p))
        p.credentials_secret

  -- `Validate`
  unfoldable pub azure_validate : AzureProvider → Exec Fields (Unit {0})
  azure_validate p = report (azure_checks p)

-- The calls of `Bind`, with the authority host of the public cloud.
pub record AzureCalls (W Credential Provider Adapter Client : Type 0) : Type 0 where
  pub public_cloud : String
  pub new_credential : String → String → String → String → Exec W Credential
  pub new_authentication_provider : Credential → Exec W Provider
  pub new_adapter : Provider → Exec W Adapter
  pub new_client : Adapter → Client

-- `getAuthorityHost`
abbrev pub get_authority_host : String → Option String → String
get_authority_host public_cloud none = public_cloud
get_authority_host public_cloud (some host) = host

module _ {W Credential Provider Adapter Client : Type 0}
    (calls : AzureCalls W Credential Provider Adapter Client) where
  abbrev pub bind_azure : AzureProvider → Option GoMap → Exec W Client
  bind_azure p none = lift panic
  bind_azure p (some m) = do
    credential ←
        calls.new_credential (get_authority_host calls.public_cloud p.authority_host)
          (get_or_empty tenant_id m) (get_or_empty client_id m) (get_or_empty client_secret m)
    provider ← calls.new_authentication_provider credential
    adapter ← calls.new_adapter provider
    pure (calls.new_client adapter)

  -- `Bind`, with the client that it keeps; it panics where no secret was kept.
  unfoldable pub azure_bind : AzureProvider → Fields → Exec W Client
  azure_bind p s = bind_azure p s.credentials_secret
