-- ===== src/Tests/Azure.antt =====
-- A directory of Azure.
use group_sync_operator.Prelude.{
  String, ◌≡◌, refl, true, false, none, some, List, [], ◌∷◌, ok, panic, holds, if◌then◌else◌,
}
use group_sync_operator.Api.{AzureProvider, some_ref}
use group_sync_operator.Cluster.{Group}
use group_sync_operator.Syncer.{is_group_allowed}
use group_sync_operator.Collect.{collect}
use group_sync_operator.Azure.Groups.{
  DirectoryObject, AzureGroup, AzureServer, graph_odata_type, graph_user_type, graph_group_type,
  graph_display_name, member_names, azure_group, make_azure_group, azure_sync, aad_groups,
  base_groups, base_group, child_groups, list_group_members, get_username_for_user, first_username,
  is_username_present,
}
use group_sync_operator.Azure.Synced.{
  name_attribute, all_readable, names_of_users, member_names_result,
}
use group_sync_operator.Azure.Described.{
  not_sent, no_member, other_member, group_member, no_base, not_found_once, found_once, no_group,
  not_allowed, made_group, azure_sync_result,
}

abbrev ann : DirectoryObject
ann = record {
  id = some "1";
  additional = (graph_odata_type, graph_user_type) ∷ ("mail", "ann@example") ∷ [];
}

abbrev child : DirectoryObject
child = record {
  id = some "2";
  additional = (graph_odata_type, graph_group_type) ∷ (graph_display_name, "child") ∷ [];
}

abbrev attributes : List String
attributes = "mail" ∷ "userPrincipalName" ∷ []

member_names_result_example : member_names (some attributes) (ann ∷ child ∷ []) ≡ (
    if all_readable (name_attribute (some attributes)) (ann ∷ child ∷ [])
    then some (ok (names_of_users (name_attribute (some attributes)) (ann ∷ child ∷ [])))
    else some panic)
member_names_result_example = member_names_result (some attributes) (ann ∷ child ∷ [])

abbrev provider : AzureProvider
provider = record {
  base_groups = "base" ∷ "gone" ∷ [];
  credentials_secret = some_ref;
  filter = "";
  insecure = false;
  groups = "child" ∷ [];
  authority_host = none;
  user_name_attributes = some attributes;
  prune = true;
}

abbrev server : AzureServer
server = record {
  list_groups = λ filter. ok (
      if holds "displayName eq 'base'" filter
      then record { id = some "0"; display_name = some "base" } ∷ []
      else []);
  list_members = λ id filter. ok (ann ∷ child ∷ []);
  list_transitive_members = λ id. ok (ann ∷ []);
  public_cloud = "https://login.microsoftonline.com/";
  parse_host = λ s. ok "login.microsoftonline.com";
}

abbrev synced : List Group
synced =
    azure_group server provider "login.microsoftonline.com" "child" "2" ("ann@example" ∷ []) ∷ []

abbrev base : AzureGroup
base = record { id = some "0"; display_name = some "base" }

abbrev child_group : AzureGroup
child_group = record { id = some "2"; display_name = some "child" }

azure_sync_result_example : azure_sync server provider ≡ some (ok synced)
unfolding is_group_allowed
azure_sync_result_example =
    azure_sync_result server provider none "login.microsoftonline.com" (base ∷ child_group ∷ [])
      synced not_sent
      (found_once base "0" (ann ∷ child ∷ []) (child_group ∷ []) refl refl refl
        (other_member graph_user_type refl refl
          (group_member graph_group_type "child" refl refl refl no_member))
        (not_found_once [] refl refl no_base))
      refl
      (not_allowed "base" refl refl
        (made_group "child" "2" (ann ∷ []) refl refl refl refl refl no_group))

-- The base group is followed by the groups among its members; the one that is not found is passed
-- over.
synced_run : azure_sync server provider ≡ some (ok synced)
unfolding azure_sync aad_groups base_groups base_group child_groups list_group_members member_names
    get_username_for_user first_username is_username_present make_azure_group collect
    is_group_allowed
synced_run = refl
