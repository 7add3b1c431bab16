-- ===== src/Tests/GitHub.antt =====
-- The GitHub provider.
use group_sync_operator.Prelude.{
  ℕ, eqb, String, ◌≡◌, ◌↔◌, refl, true, false, none, some, [], ◌∷◌, map, ok, arith, if◌then◌else◌,
}
use group_sync_operator.Prelude.Int.{pos}
use group_sync_operator.Prelude.Dict.{Dict, GoMap, lookup}
use group_sync_operator.Api.{GitHubProvider, some_ref}
use group_sync_operator.Credentials.{Url, Lookups, no_fields, token_key, private_key, app_id_key}
use group_sync_operator.Collect.Collected.{kept}
use group_sync_operator.GitHub.Connection.{github_validate, Config, GitHubCalls}
use group_sync_operator.GitHub.Accepted.{github_is_valid, github_fields, github_validate_iff}
use group_sync_operator.Syncer.{is_group_allowed}
use group_sync_operator.Decimal.{format_int, itoa, itoa_from}
use group_sync_operator.Collect.{collect}
use group_sync_operator.GitHub.Teams.{
  identities, get_organization_teams, list_team_members, github_team, pages_from, scim_from, Team,
  Page, Edge, GitHubServer, get_scim_identity, github_group, github_sync,
}
use group_sync_operator.GitHub.Paged.{concat, identity_of, get_scim_identity_result}
use group_sync_operator.GitHub.Synced.{is_allowed, github_sync_result}

abbrev url : Url
url = record { host = "github.example"; text = "https://github.example/" }

abbrev secret : GoMap
secret = some ((token_key, "t") ∷ (private_key, "k") ∷ (app_id_key, "7") ∷ [])

abbrev lookups : Lookups
lookups = record {
  secret = λ namespace name. ok secret;
  config_map = λ namespace name. ok none;
  parse_url = λ s. some url;
  request_uri_error = λ s. none;
}

abbrev provider : GitHubProvider
provider = record {
  ca = none;
  ca_secret = none;
  credentials_secret = some_ref;
  insecure = false;
  organization = "org";
  teams = "dev" ∷ [];
  map_by_scim_id = true;
  url = some "https://github.example/";
  v4_url = some "https://github.example/graphql";
  prune = false;
}

github_validate_iff_example :
    (github_validate lookups provider no_fields ≡ (ok tt, github_fields lookups provider no_fields))
    ↔ ((github_is_valid lookups provider ≡ true)
        × (github_fields lookups provider no_fields ≡ github_fields lookups provider no_fields))
github_validate_iff_example =
    github_validate_iff lookups provider no_fields (github_fields lookups provider no_fields)

abbrev calls : GitHubCalls ℕ Config Config String String
calls = record {
  parse_int = λ s. ok (pos 7);
  new_client_creator = λ config w. (ok config, w);
  new_app_client = λ config w. (ok config, w);
  installation_of = λ app organization w. (ok (pos 3), w);
  new_installation_client = λ config id w. (ok "app", w);
  new_installation_v4_client = λ config id w. (ok "app v4", w);
  new_token_client = λ config token w. (ok token, w);
  new_token_v4_client = λ config token w. (ok token, w);
}

abbrev developers : Team
developers = record { id = pos 12; name = "dev" }

abbrev writers : Team
writers = record { id = pos 13; name = "docs" }

-- Two pages of teams, of members and of identities.
abbrev team_page : ℕ → Page Team
team_page i =
    if eqb i 0
    then record { items = writers ∷ []; next_page = 2 }
    else record { items = developers ∷ []; next_page = 0 }

abbrev member_page : ℕ → Page String
member_page i =
    if eqb i 0
    then record { items = "ann" ∷ []; next_page = 2 }
    else record { items = "bob" ∷ []; next_page = 0 }

abbrev ann : Edge
ann = record { login = "ann"; username = "ann@example" }

abbrev server : GitHubServer
server = record {
  get_organization = λ name. ok (pos 1);
  list_teams = λ organization i. ok (team_page i);
  list_team_members_by_id = λ organization team i. ok (member_page i);
  scim_query = λ organization after before.
      ok (record { edges = ann ∷ []; has_next_page = false; end_cursor = "" });
  scim_query_held = record { edges = []; has_next_page = false; end_cursor = "" };
}

identities_read : identities server 2 provider ≡ some (ok (("ann", "ann@example") ∷ []))
unfolding get_scim_identity scim_from
identities_read = refl

github_sync_result_example :
    github_sync server 2 provider (github_fields lookups provider no_fields)
    ≡ some (
        ok (
          map
            (λ t.
              github_group server 2 provider
                (("ann", "ann@example") ∷ [])
                "github.example"
                t
                (concat (("ann" ∷ []) ∷ ("bob" ∷ []) ∷ [])))
            (kept (is_allowed server provider) (concat ((writers ∷ []) ∷ (developers ∷ []) ∷ [])))))
unfolding concat
github_sync_result_example =
    github_sync_result server provider 2 (github_fields lookups provider no_fields) url (pos 1)
      (("ann", "ann@example") ∷ []) ((writers ∷ []) ∷ (developers ∷ []) ∷ [])
      (λ t. ("ann" ∷ []) ∷ ("bob" ∷ []) ∷ []) refl refl (2, refl, refl, refl) (omega arith)
      identities_read
      (
        (λ h. ((2, refl, refl, refl), omega arith)),
        ((λ h. ((2, refl, refl, refl), omega arith)), tt),
      )

get_scim_identity_result_example :
    (m : Dict String) × (get_scim_identity server 1 "org" ≡ some (ok m))
    × ((login : String) → lookup login m ≡ identity_of login (concat ((ann ∷ []) ∷ [])))
get_scim_identity_result_example =
    get_scim_identity_result server "org" ((ann ∷ []) ∷ []) 1 ("", λ before. refl) (omega arith)

-- A user whose login has no identity gets the empty name.
synced_run :
    github_sync server 2 provider (github_fields lookups provider no_fields)
    ≡ some (
        ok (
          record {
            name = "dev";
            uid = "";
            labels = some [];
            annotations = some (
                ("group-sync-operator.redhat-cop.io/sync.source.host", "github.example")
                ∷ ("group-sync-operator.redhat-cop.io/sync.source.uid", "12")
                ∷ []);
            users = "ann@example" ∷ "" ∷ [];
          }
          ∷ []))
unfolding github_sync get_organization_teams list_team_members get_scim_identity github_team
    pages_from scim_from collect is_group_allowed format_int itoa itoa_from
synced_run = refl
