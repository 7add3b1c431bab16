-- ===== src/Tests/Keycloak.antt =====
-- A small realm of Keycloak.
use group_sync_operator.Prelude.{
  ℕ, String, ◌≡◌, refl, ◌==◌, Bool, true, ◌||◌, ◌&&◌, some, Option, List, [], ◌∷◌, Result, ok,
  arith, if◌then◌else◌,
}
use group_sync_operator.Prelude.Dict.{get}
use group_sync_operator.Constants.{sync_source_host, sync_source_uid}
use group_sync_operator.Api.{KeycloakProvider, sub_sync_scope}
use group_sync_operator.Syncer.{is_group_allowed}
use group_sync_operator.Paging.{fetch_all}
use group_sync_operator.Paging.Complete.{window, fetch_all_result}
use group_sync_operator.Keycloak.{
  User, KeycloakGroup, group, no_groups, add_group, KeycloakCache, has_id, members_of,
  add_to_parent, single_diff, process_all, process_group,
}
use group_sync_operator.Keycloak.Members.{DistinctIds, add_to_parent_result}
use group_sync_operator.Keycloak.Scope.{is_cached, reachable, process_all_sound}
use group_sync_operator.Keycloak.Groups.{make_group, make_group_result}
use group_sync_operator.Tests.Syncer.{keycloak_provider}

abbrev ann : User
ann = record { id = "1"; username = "ann" }

abbrev bob : User
bob = record { id = "2"; username = "bob" }

abbrev team : KeycloakGroup
team = group "t" "team" [] no_groups

abbrev company : KeycloakGroup
company = group "c" "company" [] (add_group team no_groups)

abbrev get_members : String → Option (List User)
get_members id = some (if id == "t" then ann ∷ bob ∷ [] else ann ∷ [])

abbrev pub provider : KeycloakProvider
provider = record keycloak_provider { scope = sub_sync_scope }

abbrev no_cache : KeycloakCache
no_cache = record { groups = []; members = [] }

-- The team is cached, and its members are among those of the company.
abbrev processed : KeycloakCache
processed = record {
  groups = ("c", company) ∷ ("t", team) ∷ [];
  members = ("c", ann ∷ bob ∷ []) ∷ ("t", ann ∷ bob ∷ []) ∷ [];
}

realm_run : process_all provider get_members (company ∷ []) no_cache ≡ processed
unfolding process_all process_group add_to_parent single_diff is_group_allowed
realm_run = refl

process_all_sound_example :
    (is_cached "t" no_cache || reachable provider get_members "t" (company ∷ [])) ≡ true
unfolding process_all process_group add_to_parent single_diff is_group_allowed
process_all_sound_example = process_all_sound provider get_members (company ∷ []) no_cache "t" refl

abbrev read : KeycloakCache
read = record { groups = []; members = ("c", ann ∷ []) ∷ [] }

add_to_parent_result_example :
    ((group k : String)
      → has_id k (members_of group (add_to_parent (some "c") (ann ∷ bob ∷ []) read))
        ≡ (has_id k (members_of group read) || ("c" == group && has_id k (ann ∷ bob ∷ []))))
    × DistinctIds (members_of "c" (add_to_parent (some "c") (ann ∷ bob ∷ []) read))
add_to_parent_result_example =
    add_to_parent_result "c" (ann ∷ bob ∷ []) read (refl, tt) (refl, (refl, tt))

abbrev all_qualify : String → Bool
all_qualify key = true

make_group_result_example :
    (get sync_source_host (make_group all_qualify processed "sso.example.com" team).annotations
      ≡ some "sso.example.com")
    × (get sync_source_uid (make_group all_qualify processed "sso.example.com" team).annotations
        ≡ some "t")
make_group_result_example = make_group_result all_qualify processed "sso.example.com" team

abbrev served : ℕ → Result (List User)
served first = ok (window (ann ∷ bob ∷ []) first)

fetch_all_result_example : fetch_all served 3 0 ≡ some (ok (ann ∷ bob ∷ []))
fetch_all_result_example = fetch_all_result served (ann ∷ bob ∷ []) 3 (λ first. refl) (omega arith)
