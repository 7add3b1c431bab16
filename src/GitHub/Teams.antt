-- ===== src/GitHub/Teams.antt =====
-- `Sync` of pkg/syncer/github.go and the loops over pages that it calls, on fuel: they have no result
-- where the fuel ends before the last page. What the two clients answer is a parameter, a function of
-- the request; the pointers in their answers that the code follows are not nil.
use group_sync_operator.Prelude.{
  ℕ, zero, suc, eqb, String, Bool, true, false, Option, none, some, List, [], ◌∷◌, ◌++◌, map,
  Result, ok, panic, if◌then◌else◌,
}
use group_sync_operator.Prelude.Int.{ℤ}
use group_sync_operator.Prelude.Dict.{Dict, insert, get_or_empty}
use group_sync_operator.Decimal.{format_int}
use group_sync_operator.Constants.{sync_source_host, sync_source_uid}
use group_sync_operator.Api.{GitHubProvider}
use group_sync_operator.Cluster.{Group}
use group_sync_operator.Syncer.{is_group_allowed}
use group_sync_operator.Credentials.{Url, Fields}
use group_sync_operator.Collect.{Fuelled, next, collect}

pub record Team : Type 0 where
  pub id : ℤ
  pub name : String

-- A page of an answer, with the number of the next one, 0 on the last.
pub record Page (A : Type 0) : Type 0 where
  pub items : List A
  pub next_page : ℕ

module _ {A : Type 0} where
  abbrev pub put_items : List A → Fuelled (List A) → Fuelled (List A)
  put_items xs rest = next rest (λ ys. some (ok (xs ++ ys)))

  -- The end of a turn.
  abbrev pub follow : (ℕ → Fuelled (List A)) → Page A → Fuelled (List A)
  follow rest r =
      if eqb r.next_page 0 then some (ok r.items) else put_items r.items (rest r.next_page)

  -- The loop of both listings, at the page that it asks for.
  unfoldable pub pages_from : (ℕ → Result (Page A)) → ℕ → ℕ → Fuelled (List A)
  pages_from request zero page = none
  pages_from request (suc fuel) page =
      next (some (request page)) (follow (λ j. pages_from request fuel j))

-- An edge of the answer to `scimQuery`: the login and the name of its SAML identity.
pub record Edge : Type 0 where
  pub login : String
  pub username : String

pub record ScimPage : Type 0 where
  pub edges : List Edge
  pub has_next_page : Bool
  pub end_cursor : String

abbrev pub add_edges : List Edge → Dict String → Dict String
add_edges [] m = m
add_edges (e ∷ es) m = add_edges es (insert e.login e.username m)

abbrev pub scim_follow :
    (String → Dict String → Fuelled (Dict String)) → Dict String → ScimPage → Fuelled (Dict String)
scim_follow rest m r =
    if r.has_next_page
    then rest r.end_cursor (add_edges r.edges m)
    else some (ok (add_edges r.edges m))

-- The loop of `getScimIdentity`, after a cursor. The answer is decoded into `scimQuery`, which all
-- queries share, so the query depends on what it holds before.
unfoldable pub scim_from :
    (Option String → ScimPage → Result ScimPage)
    → ℕ
    → Option String
    → ScimPage
    → Dict String
    → Fuelled (Dict String)
scim_from query zero after before m = none
scim_from query (suc fuel) after before m =
    next (some (query after before))
      (λ read. scim_follow (λ cursor n. scim_from query fuel (some cursor) read n) m read)

-- The requests that `Sync` makes: the ID of an organization, its teams, the logins of the members of
-- a team, and the identities.
pub record GitHubServer : Type 0 where
  pub get_organization : String → Result ℤ
  pub list_teams : String → ℕ → Result (Page Team)
  pub list_team_members_by_id : ℤ → ℤ → ℕ → Result (Page String)
  pub scim_query : String → Option String → ScimPage → Result ScimPage
  -- What `scimQuery` holds when `getScimIdentity` begins.
  pub scim_query_held : ScimPage

module _ (server : GitHubServer) (fuel : ℕ) where
  unfoldable pub get_organization_teams : String → Fuelled (List Team)
  get_organization_teams organization = pages_from (server.list_teams organization) fuel 0

  unfoldable pub list_team_members : ℤ → ℤ → Fuelled (List String)
  list_team_members team organization =
      pages_from (server.list_team_members_by_id organization team) fuel 0

  unfoldable pub get_scim_identity : String → Fuelled (Dict String)
  get_scim_identity organization =
      scim_from (server.scim_query organization) fuel none server.scim_query_held []

  -- The map is nil, and not read, where users are not mapped.
  abbrev pub identities : GitHubProvider → Fuelled (Dict String)
  identities p = if p.map_by_scim_id then get_scim_identity p.organization else some (ok [])

  -- The name of a user: a login that the map lacks becomes the empty text.
  abbrev pub user_id : Bool → Dict String → String → String
  user_id true ids login = get_or_empty login (some ids)
  user_id false ids login = login

  abbrev pub github_group : GitHubProvider → Dict String → String → Team → List String → Group
  github_group p ids host team members = record {
    name = team.name;
    uid = "";
    labels = some [];
    annotations = some ((sync_source_host, host) ∷ (sync_source_uid, format_int team.id) ∷ []);
    users = map (user_id p.map_by_scim_id ids) members;
  }

  -- The body of the loop over the teams; it panics where the URL is nil.
  unfoldable pub github_team : GitHubProvider → Option Url → ℤ → Dict String → Team → Fuelled Group
  github_team p none organization ids team = some panic
  github_team p (some url) organization ids team =
      next (list_team_members team.id organization)
        (λ members. some (ok (github_group p ids url.host team members)))

  -- `Sync`
  unfoldable pub github_sync : GitHubProvider → Fields → Fuelled (List Group)
  github_sync p s = next (some (server.get_organization p.organization)) (λ organization.
      next (get_organization_teams p.organization) (λ teams. next (identities p) (λ ids.
        collect (λ (t : Team). is_group_allowed t.name p.teams)
          (github_team p s.url organization ids) teams)))
