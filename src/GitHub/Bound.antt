-- ===== src/GitHub/Bound.antt =====
-- How `Bind` of pkg/syncer/github.go authenticates after a validation that passes.
use group_sync_operator.Prelude.{Exec, ◌&&◌, Option, none, some, panic, lift, if◌then◌else◌}
use group_sync_operator.Prelude.Dict.{GoMap}
use group_sync_operator.Api.{GitHubProvider}
use group_sync_operator.Credentials.{Fields, has, private_key, app_id_key}
use group_sync_operator.GitHub.Connection.{Config, GitHubCalls, Clients, bind_app, bind_token}

module _ {W Creator App Client V4 : Type 0} (calls : GitHubCalls W Creator App Client V4) where
  -- As a GitHub app if the secret has both of its keys, and with its token if not; without a
  -- configuration the method panics.
  abbrev pub authenticate :
      GitHubProvider → Fields → GoMap → Option Config → Exec W (Clients Client V4)
  authenticate p s m none = lift panic
  authenticate p s m (some config) =
      if has private_key m && has app_id_key m
      then bind_app calls p s config m
      else bind_token calls s config m
