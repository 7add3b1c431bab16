-- ===== src/GitLab/Groups.antt =====
-- The `Sync` of pkg/syncer/gitlab.go. What the client answers is a parameter, a function of the
-- request.
use group_sync_operator.Prelude.{ℕ, String, Option, none, some, List, [], ◌∷◌, Result, ok, panic}
use group_sync_operator.Prelude.Int.{ℤ}
use group_sync_operator.Decimal.{format_int}
use group_sync_operator.Constants.{sync_source_host, sync_source_uid}
use group_sync_operator.Api.{GitLabProvider}
use group_sync_operator.Cluster.{Group}
use group_sync_operator.Syncer.{is_group_allowed}
use group_sync_operator.Credentials.{Url, Fields}
use group_sync_operator.Collect.{Fuelled, next, collect}
use group_sync_operator.GitLab.{Answer, gitlab_groups, gitlab_members}

pub record GitLabGroup : Type 0 where
  pub id : ℤ
  pub name : String

-- The requests: a page of the groups, and a page of the user names of the members of a group.
pub record GitLabServer : Type 0 where
  pub list_groups : ℕ → Result (Answer GitLabGroup)
  pub list_group_members : ℤ → ℕ → Result (Answer String)

abbrev pub gitlab_group : Url → GitLabGroup → List String → Group
gitlab_group url g members = record {
  name = g.name;
  uid = "";
  labels = some [];
  annotations = some ((sync_source_host, url.host) ∷ (sync_source_uid, format_int g.id) ∷ []);
  users = members;
}

-- It panics where the URL is nil: its host is read.
abbrev pub with_host : Option Url → GitLabGroup → List String → Fuelled Group
with_host none g members = some panic
with_host (some url) g members = some (ok (gitlab_group url g members))

module _ (server : GitLabServer) (fuel : ℕ) where
  -- The body of the loop over the groups.
  unfoldable pub make_gitlab_group : Option Url → GitLabGroup → Fuelled Group
  make_gitlab_group url g =
      next (gitlab_members (server.list_group_members g.id) fuel) (with_host url g)

  -- `Sync`
  unfoldable pub gitlab_sync : GitLabProvider → Fields → Fuelled (List Group)
  gitlab_sync p s =
      next (gitlab_groups server.list_groups fuel)
        (collect (λ (g : GitLabGroup). is_group_allowed g.name p.groups) (make_gitlab_group s.url))
