-- ===== src/Azure/Groups.antt =====
-- `Sync` of pkg/syncer/azure.go. What the Graph client answers is a parameter, a function of the
-- request; of each request the first page of the answer is read. Nothing here is on fuel: the results
-- are those of Collect, and never none.
use Prim.Native.String as Text
use group_sync_operator.Prelude.{
  String, ◌==◌, Bool, true, false, Option, none, some, List, [], ◌∷◌, ◌++◌, is_empty, not, Result,
  ok, panic, if◌then◌else◌,
}
use group_sync_operator.Prelude.Dict.{Dict, lookup}
use group_sync_operator.Constants.{sync_source_host, sync_source_uid}
use group_sync_operator.Api.{AzureProvider}
use group_sync_operator.Cluster.{Group}
use group_sync_operator.Syncer.{is_group_allowed}
use group_sync_operator.Collect.{Fuelled, next, collect}
use group_sync_operator.Azure.Connection.{get_authority_host}

-- `graph.DirectoryObject`: its ID, and the texts among its additional data.
pub record DirectoryObject : Type 0 where
  pub id : Option String
  pub additional : Dict String

-- `graph.Group`
pub record AzureGroup : Type 0 where
  pub id : Option String
  pub display_name : Option String

-- The requests: the groups and the members that fit a filter, if there is one, the transitive
-- members, the authority host of the public cloud, and the host of `url.Parse`.
pub record AzureServer : Type 0 where
  pub list_groups : Option String → Result (List AzureGroup)
  pub list_members : String → Option String → Result (List DirectoryObject)
  pub list_transitive_members : String → Result (List DirectoryObject)
  pub public_cloud : String
  pub parse_host : String → Result String

abbrev pub graph_odata_type : String
graph_odata_type = "@odata.type"

abbrev pub graph_group_type : String
graph_group_type = "#microsoft.graph.group"

abbrev pub graph_user_type : String
graph_user_type = "#microsoft.graph.user"

abbrev pub graph_display_name : String
graph_display_name = "displayName"

abbrev pub graph_user_name_attribute : String
graph_user_name_attribute = "userPrincipalName"

-- A pointer that is followed.
abbrev pub deref {ℓ} : {A : Type ℓ} → Option A → Fuelled A
deref none = some panic
deref (some a) = some (ok a)

abbrev pub join_lists : {A : Type 0} → List A → Fuelled (List A) → Fuelled (List A)
join_lists xs rest = next rest (λ ys. some (ok (xs ++ ys)))

-- The loop over the members of a base group: a member that is a group is taken, with its ID and its
-- display name. It panics on a member with no type, and on a group with no display name.
abbrev pub named_group : DirectoryObject → String → Fuelled (List AzureGroup)
named_group m name = some (ok (record { id = m.id; display_name = some name } ∷ []))

abbrev pub group_if : DirectoryObject → Bool → Fuelled (List AzureGroup)
group_if m true = next (deref (lookup graph_display_name m.additional)) (named_group m)
group_if m false = some (ok [])

unfoldable pub child_groups : List DirectoryObject → Fuelled (List AzureGroup)
child_groups [] = some (ok [])
child_groups (m ∷ ms) = next (deref (lookup graph_odata_type m.additional)) (λ type.
    next (group_if m (graph_group_type == type)) (λ taken. join_lists taken (child_groups ms)))

-- `isUsernamePresent`: the value is read before it is known to be there.
unfoldable pub is_username_present : DirectoryObject → String → Fuelled (String × Bool)
is_username_present user field =
    next (deref (lookup field user.additional)) (λ value. some (ok (value, true)))

abbrev pub username_or : Fuelled (Option String) → String × Bool → Fuelled (Option String)
username_or rest (username, true) = some (ok (some username))
username_or rest (username, false) = rest

-- The loop of `getUsernameForUser`, and the method: nothing is the Boolean false.
unfoldable pub first_username : DirectoryObject → List String → Fuelled (Option String)
first_username user [] = some (ok none)
first_username user (attribute ∷ attributes) =
    next (is_username_present user attribute) (username_or (first_username user attributes))

unfoldable pub get_username_for_user :
    Option (List String) → DirectoryObject → Fuelled (Option String)
get_username_for_user none user =
    next (is_username_present user graph_user_name_attribute) (username_or (some (ok none)))
get_username_for_user (some attributes) user = first_username user attributes

abbrev pub name_list : Option String → List String
name_list none = []
name_list (some name) = name ∷ []

abbrev pub user_if : Option (List String) → DirectoryObject → Bool → Fuelled (List String)
user_if attributes m true =
    next (get_username_for_user attributes m) (λ name. some (ok (name_list name)))
user_if attributes m false = some (ok [])

-- The loop of `listGroupMembers`: it panics on a member with no type.
unfoldable pub member_names : Option (List String) → List DirectoryObject → Fuelled (List String)
member_names attributes [] = some (ok [])
member_names attributes (m ∷ ms) = next (deref (lookup graph_odata_type m.additional)) (λ type.
    next (user_if attributes m (type == graph_user_type))
      (λ names. join_lists names (member_names attributes ms)))

abbrev pub filter_of : AzureProvider → Option String
filter_of p = if p.filter == "" then none else some p.filter

abbrev pub filter_by_name : String → Option String
filter_by_name name = some (Text.◌++◌ "displayName eq '" (Text.◌++◌ name "'"))

module _ (server : AzureServer) (p : AzureProvider) where
  -- `listGroupMembers`
  unfoldable pub list_group_members : String → Fuelled (List String)
  list_group_members id =
      next (some (server.list_transitive_members id)) (member_names p.user_name_attributes)

  -- A base group that is not found exactly once is passed over.
  unfoldable pub base_group : List AzureGroup → Fuelled (List AzureGroup)
  base_group (g ∷ []) = next (deref g.id) (λ id.
      next (some (server.list_members id (filter_of p)))
        (λ members. next (child_groups members) (λ children. some (ok (g ∷ children)))))
  base_group _ = some (ok [])

  -- The loop over the base groups.
  unfoldable pub base_groups : List String → Fuelled (List AzureGroup)
  base_groups [] = some (ok [])
  base_groups (name ∷ names) =
      next (some (server.list_groups (filter_by_name name)))
        (λ found. next (base_group found) (λ taken. join_lists taken (base_groups names)))

  unfoldable pub aad_groups : Fuelled (List AzureGroup)
  aad_groups =
      if not (is_empty p.base_groups)
      then base_groups p.base_groups
      else some (server.list_groups (filter_of p))

  -- A group with no display name is passed over.
  abbrev pub azure_name_is_allowed : Option String → Bool
  azure_name_is_allowed none = false
  azure_name_is_allowed (some name) = is_group_allowed name p.groups

  abbrev pub azure_is_allowed : AzureGroup → Bool
  azure_is_allowed g = azure_name_is_allowed g.display_name

  abbrev pub azure_group : String → String → String → List String → Group
  azure_group host name id users = record {
    name = name;
    uid = "";
    labels = some [];
    annotations = some ((sync_source_host, host) ∷ (sync_source_uid, id) ∷ []);
    users = users;
  }

  -- The body of the loop over the groups.
  unfoldable pub make_azure_group : String → AzureGroup → Fuelled Group
  make_azure_group host g = next (deref g.display_name) (λ name.
      next (deref g.id)
        (λ id. next (list_group_members id) (λ users. some (ok (azure_group host name id users)))))

  -- `Sync`
  unfoldable pub azure_sync : Fuelled (List Group)
  azure_sync = next aad_groups (λ gs.
      next (some (server.parse_host (get_authority_host server.public_cloud p.authority_host)))
        (λ host. collect azure_is_allowed (make_azure_group host) gs))
