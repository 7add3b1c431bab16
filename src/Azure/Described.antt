-- ===== src/Azure/Described.antt =====
-- The groups of a directory that the `Sync` of pkg/syncer/azure.go is to return, described by the
-- answers of the directory.
use Prim.Native.String as Text
use group_sync_operator.Prelude.{
  eqb, String, ◌==◌, ◌≡◌, refl, true, false, ◌||◌, Option, none, some, List, [], ◌∷◌, ◌++◌, length,
  ok, is_empty, member, if◌then◌else◌,
}
use group_sync_operator.Prelude.Dict.{lookup}
use group_sync_operator.Api.{AzureProvider}
use group_sync_operator.Cluster.{Group}
use group_sync_operator.Syncer.{is_group_allowed}
use group_sync_operator.Collect.{collect}
use group_sync_operator.Azure.Groups.{
  DirectoryObject, AzureGroup, AzureServer, child_groups, list_group_members, base_group,
  base_groups, aad_groups, azure_is_allowed, make_azure_group, azure_sync,
}
use group_sync_operator.Azure.Synced.{
  name_attribute, all_readable, names_of_users, member_names_result,
}

-- A filter that is empty is not sent.
pub data SentFilter : String → Option String → Type 0 where
  not_sent : SentFilter "" none
  sent : (f : String) → (f == "") ≡ false → SentFilter f (some f)

SentFilter-result :
    (f : String) (o : Option String) → SentFilter f o → (if f == "" then none else some f) ≡ o
SentFilter-result _ _ not_sent = refl
SentFilter-result _ _ (sent f h) = rw h refl

-- The groups among the members of a base group, in order: those of the type of a group, with their
-- display names.
pub data ChildrenOf : List DirectoryObject → List AzureGroup → Type 0 where
  no_member : ChildrenOf [] []
  other_member :
      {m : DirectoryObject} {ms : List DirectoryObject} {gs : List AzureGroup} (type : String)
      → lookup "@odata.type" m.additional ≡ some type
      → ("#microsoft.graph.group" == type) ≡ false
      → ChildrenOf ms gs
      → ChildrenOf (m ∷ ms) gs
  group_member :
      {m : DirectoryObject} {ms : List DirectoryObject} {gs : List AzureGroup} (type name : String)
      → lookup "@odata.type" m.additional ≡ some type
      → ("#microsoft.graph.group" == type) ≡ true
      → lookup "displayName" m.additional ≡ some name
      → ChildrenOf ms gs
      → ChildrenOf (m ∷ ms) (record { id = m.id; display_name = some name } ∷ gs)

ChildrenOf-child_groups :
    {ms : List DirectoryObject} {gs : List AzureGroup}
    → ChildrenOf ms gs
    → child_groups ms ≡ some (ok gs)
unfolding child_groups
ChildrenOf-child_groups no_member = refl
ChildrenOf-child_groups (other_member type t n c) = rw (t, n, ChildrenOf-child_groups c) refl
ChildrenOf-child_groups (group_member type name t y d c) =
    rw (t, y, d, ChildrenOf-child_groups c) refl

base_group-not_one :
    (server : AzureServer) (p : AzureProvider) (found : List AzureGroup)
    → eqb (length found) 1 ≡ false
    → base_group server p found ≡ some (ok [])
unfolding base_group
base_group-not_one server p [] h = refl
base_group-not_one server p (g ∷ []) h = absurd (cc)
base_group-not_one server p (g ∷ h ∷ rest) _ = refl

module _ (server : AzureServer) (p : AzureProvider) (sent_filter : Option String) where
  -- The groups for these base groups, in order: a base group that is found exactly once is followed
  -- by the groups among its members that pass the filter; another is passed over.
  pub data BasesOf : List String → List AzureGroup → Type 0 where
    no_base : BasesOf [] []
    not_found_once :
        {name : String} {names : List String} {gs : List AzureGroup} (found : List AzureGroup)
        → server.list_groups (some (Text.◌++◌ "displayName eq '" (Text.◌++◌ name "'"))) ≡ ok found
        → eqb (length found) 1 ≡ false
        → BasesOf names gs
        → BasesOf (name ∷ names) gs
    found_once :
        {name : String} {names : List String} {gs : List AzureGroup} (g : AzureGroup) (id : String)
        (ms : List DirectoryObject) (children : List AzureGroup)
        → server.list_groups (some (Text.◌++◌ "displayName eq '" (Text.◌++◌ name "'")))
          ≡ ok (g ∷ [])
        → g.id ≡ some id
        → server.list_members id sent_filter ≡ ok ms
        → ChildrenOf ms children
        → BasesOf names gs
        → BasesOf (name ∷ names) (g ∷ (children ++ gs))

  -- The groups that are looked at: those of the base groups if the provider names some, and else those
  -- that pass the filter.
  abbrev pub ListedFor : List String → List AzureGroup → Type 0
  ListedFor [] gs = server.list_groups sent_filter ≡ ok gs
  ListedFor (name ∷ names) gs = BasesOf (name ∷ names) gs

  BasesOf-base_groups :
      {names : List String} {gs : List AzureGroup}
      → SentFilter p.filter sent_filter
      → BasesOf names gs
      → base_groups server p names ≡ some (ok gs)
  unfolding base_groups base_group
  BasesOf-base_groups f no_base = refl
  BasesOf-base_groups f (not_found_once found l n b) =
      rw (l, base_group-not_one server p found n, BasesOf-base_groups f b) refl
  BasesOf-base_groups f (found_once g id ms children l i m c b) =
      rw
        (
          l,
          i,
          SentFilter-result p.filter sent_filter f,
          m,
          ChildrenOf-child_groups c,
          BasesOf-base_groups f b,
        )
        refl

  ListedFor-aad_groups :
      (names : List String) (gs : List AzureGroup)
      → p.base_groups ≡ names
      → SentFilter p.filter sent_filter
      → ListedFor names gs
      → aad_groups server p ≡ some (ok gs)
  unfolding aad_groups base_groups base_group
  ListedFor-aad_groups [] gs e f l = rw (e, SentFilter-result p.filter sent_filter f, l) refl
  ListedFor-aad_groups (name ∷ names) gs e f l = rw (e, BasesOf-base_groups f l) refl

module _ (server : AzureServer) (p : AzureProvider) (host : String) where
  -- The OpenShift groups for these groups, in order: one for each whose display name is given and
  -- allowed, with its marks and the names of the users among its transitive members.
  pub data MadeOf : List AzureGroup → List Group → Type 0 where
    no_group : MadeOf [] []
    unnamed :
        {g : AzureGroup} {gs : List AzureGroup} {os : List Group}
        → g.display_name ≡ none
        → MadeOf gs os
        → MadeOf (g ∷ gs) os
    not_allowed :
        {g : AzureGroup} {gs : List AzureGroup} {os : List Group} (name : String)
        → g.display_name ≡ some name
        → (is_empty p.groups || member name p.groups) ≡ false
        → MadeOf gs os
        → MadeOf (g ∷ gs) os
    made_group :
        {g : AzureGroup} {gs : List AzureGroup} {os : List Group} (name id : String)
        (ms : List DirectoryObject)
        → g.display_name ≡ some name
        → (is_empty p.groups || member name p.groups) ≡ true
        → g.id ≡ some id
        → server.list_transitive_members id ≡ ok ms
        → all_readable (name_attribute p.user_name_attributes) ms ≡ true
        → MadeOf gs os
        → MadeOf (g ∷ gs) (
            record {
              name = name;
              uid = "";
              labels = some [];
              annotations = some (
                  ("group-sync-operator.redhat-cop.io/sync.source.host", host)
                  ∷ ("group-sync-operator.redhat-cop.io/sync.source.uid", id)
                  ∷ []);
              users = names_of_users (name_attribute p.user_name_attributes) ms;
            }
            ∷ os)

  MadeOf-collect :
      {gs : List AzureGroup} {os : List Group}
      → MadeOf gs os
      → collect (azure_is_allowed server p) (make_azure_group server p host) gs ≡ some (ok os)
  unfolding collect make_azure_group list_group_members is_group_allowed
  MadeOf-collect no_group = refl
  MadeOf-collect (unnamed n m) = rw (n, MadeOf-collect m) refl
  MadeOf-collect (not_allowed name n a m) = rw (n, a, MadeOf-collect m) refl
  MadeOf-collect (made_group name id ms n a i l r m) =
      rw (n, a, i, l, member_names_result p.user_name_attributes ms, r, MadeOf-collect m) refl

-- Where the directory answers the groups that the provider asks for, its base groups with the groups
-- among their members or all groups that pass the filter, and the authority host is parsed, `Sync`
-- ends without an error or a panic and returns exactly the described groups: one for each whose
-- display name is given and allowed, in order, with the host, its ID and the names of the users among
-- its transitive members.
pub azure_sync_result :
    (server : AzureServer) (p : AzureProvider) (sent_filter : Option String) (host : String)
    (gs : List AzureGroup) (os : List Group)
    → SentFilter p.filter sent_filter
    → ListedFor server p sent_filter p.base_groups gs
    → server.parse_host (elim p.authority_host [ none ↦ server.public_cloud | some h ↦ h ])
      ≡ ok host
    → MadeOf server p host gs os
    → azure_sync server p ≡ some (ok os)
unfolding azure_sync
azure_sync_result server p sent_filter host gs os f l h m =
    rw (ListedFor-aad_groups server p sent_filter p.base_groups gs refl f l, h)
      (MadeOf-collect server p host m)
