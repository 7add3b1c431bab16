-- ===== src/Keycloak/Groups.antt =====
-- The OpenShift groups that `Sync` of pkg/syncer/keycloak.go makes of the cached groups.
use group_sync_operator.Prelude.{
  String, ◌≡◌, refl, ◌∙◌, ◌==◌, Bool, false, some, List, [], ◌∷◌, ◌++◌, join, Result, ok, err,
  panic, if◌then◌else◌,
}
use group_sync_operator.Prelude.Dict.{Dict, insert, lookup, lookup-insert, get}
use group_sync_operator.Constants.{
  sync_source_host, sync_source_uid, hierarchy_children, hierarchy_parent, hierarchy_parents,
}
use group_sync_operator.Cluster.{Group}
use group_sync_operator.Keycloak.{
  User, KeycloakGroup, KeycloakGroups, group, no_groups, add_group, group_id, group_name,
  group_names, sub_groups, KeycloakCache, members_of,
}

-- The attributes whose key qualifies for an annotation.
abbrev pub qualified_attributes : (String → Bool) → Dict (List String) → Dict String
qualified_attributes is_qualified [] = []
qualified_attributes is_qualified ((key, values) ∷ rest) =
    let others = qualified_attributes is_qualified rest in
    if is_qualified key then insert key (join "'" values) others else others

abbrev pub attributes_of : KeycloakGroup → Dict (List String)
attributes_of (group id name attributes subs) = attributes

-- The group's name, once for each of its subgroups that has the name in question.
abbrev pub parents_among : String → String → KeycloakGroups → List String
parents_among name parent no_groups = []
parents_among name parent (add_group g gs) =
    let rest = parents_among name parent gs in if group_name g == name then parent ∷ rest else rest

abbrev pub parent_names : String → Dict KeycloakGroup → List String
parent_names name [] = []
parent_names name ((id, g) ∷ rest) =
    parents_among name (group_name g) (sub_groups g) ++ parent_names name rest

abbrev pub with_children : List String → Dict String → Dict String
with_children [] m = m
with_children (c ∷ cs) m = insert hierarchy_children (join "," (c ∷ cs)) m

abbrev pub with_parents : List String → Dict String → Dict String
with_parents [] m = m
with_parents (p ∷ []) m = insert hierarchy_parent p m
with_parents (p ∷ q ∷ ps) m = insert hierarchy_parents (join "," (p ∷ q ∷ ps)) m

abbrev pub usernames : List User → List String
usernames [] = []
usernames (u ∷ us) = u.username ∷ usernames us

module _ (is_qualified : String → Bool) (s : KeycloakCache) where
  unfoldable pub group_annotations : String → KeycloakGroup → Dict String
  group_annotations host g = with_parents (parent_names (group_name g) s.groups) (
      with_children (group_names (sub_groups g)) (
        insert sync_source_uid (group_id g)
          (insert sync_source_host host (qualified_attributes is_qualified (attributes_of g)))))

  -- The group of one cached group.
  unfoldable pub make_group : String → KeycloakGroup → Group
  make_group host g = record {
    name = group_name g;
    uid = "";
    labels = some [];
    annotations = some (group_annotations host g);
    users = usernames (members_of (group_id g) s);
  }

  -- The second loop of `Sync`, over the cached groups; the URL is parsed at each turn.
  unfoldable pub make_groups : Result String → Dict KeycloakGroup → Result (List Group)
  make_groups host [] = ok []
  make_groups host ((id, g) ∷ rest) =
      let others = make_groups host rest in
      elim host [
        | err e ↦ err e
        | panic ↦ panic
        | ok h ↦ elim others [ ok gs ↦ ok (make_group h g ∷ gs) | err e ↦ err e | panic ↦ panic ]
      ]

  parents-other :
      (k : String) (ps : List String) (m : Dict String)
      → (hierarchy_parent == k) ≡ false
      → (hierarchy_parents == k) ≡ false
      → lookup k (with_parents ps m) ≡ lookup k m
  parents-other k [] m f g = refl
  parents-other k (p ∷ []) m f g = lookup-insert hierarchy_parent k p m ∙ rw f refl
  parents-other k (p ∷ q ∷ ps) m f g =
      lookup-insert hierarchy_parents k (join "," (p ∷ q ∷ ps)) m ∙ rw g refl

  children-other :
      (k : String) (cs : List String) (m : Dict String)
      → (hierarchy_children == k) ≡ false
      → lookup k (with_children cs m) ≡ lookup k m
  children-other k [] m f = refl
  children-other k (c ∷ cs) m f =
      lookup-insert hierarchy_children k (join "," (c ∷ cs)) m ∙ rw f refl

  -- Whatever the attributes of a group are, the group that is made of it is annotated with the host
  -- of the URL and with its ID.
  pub make_group_result :
      (host : String) (g : KeycloakGroup)
      → (get sync_source_host (make_group host g).annotations ≡ some host)
        × (get sync_source_uid (make_group host g).annotations ≡ some (group_id g))
  unfolding make_group group_annotations
  make_group_result host g =
      let own : Dict String = qualified_attributes is_qualified (attributes_of g) in
      let hosted : Dict String = insert sync_source_host host own in
      let marked : Dict String = insert sync_source_uid (group_id g) hosted in
      let cs : List String = group_names (sub_groups g) in
      let ps : List String = parent_names (group_name g) s.groups in
      (
        parents-other sync_source_host ps (with_children cs marked) refl refl
            ∙ children-other sync_source_host cs marked refl
            ∙ lookup-insert sync_source_uid sync_source_host (group_id g) hosted
            ∙ lookup-insert sync_source_host sync_source_host host own,
        parents-other sync_source_uid ps (with_children cs marked) refl refl
            ∙ children-other sync_source_uid cs marked refl
            ∙ lookup-insert sync_source_uid sync_source_uid (group_id g) hosted,
      )

  -- A group that is a subgroup once among the cached groups is annotated with the name of the group
  -- that it is below as its parent.
  make_group-parent :
      (host : String) (g : KeycloakGroup) (p : String)
      → parent_names (group_name g) s.groups ≡ p ∷ []
      → get hierarchy_parent (make_group host g).annotations ≡ some p
  unfolding make_group group_annotations
  make_group-parent host g p h = rw h (
      lookup-insert hierarchy_parent hierarchy_parent p (
        with_children (group_names (sub_groups g)) (
          insert sync_source_uid (group_id g)
            (insert sync_source_host host (qualified_attributes is_qualified (attributes_of g))))))
