-- ===== src/Ldap/Listers.antt =====
-- pkg/provider/ldap/helpers/grouplister.go: which LDAP groups to synchronise.
pub mod Listed
use group_sync_operator.Prelude.{
  String, ◌==◌, Bool, true, false, not, Option, none, some, List, [], ◌∷◌, ◌++◌, Exec, Result, ok,
  err, panic, Error, failure, member, is_empty, is_some, if◌then◌else◌, pure, raise, lift, ◌>>=◌,
}
use group_sync_operator.Prelude.Dict.{Dict, GoMap, get, get_or_empty, lookup, insert}
use group_sync_operator.Constants.{ldap_host_label, ldap_url_annotation, ldap_uid_annotation}
use group_sync_operator.Cluster.{Group}

-- The interface `LDAPGroupLister`.
abbrev pub Lister : Type 0 → Type 0
Lister S = Exec S (List String)

unfoldable pub drop_blacklisted : List String → List String → List String
drop_blacklisted blacklist [] = []
drop_blacklisted blacklist (name ∷ names) =
    let rest = drop_blacklisted blacklist names in
    if member name blacklist then rest else name ∷ rest

module _ {S : Type 0} where
  -- `whitelistLDAPGroupLister.ListGroups`
  unfoldable pub whitelist_lister : List String → Lister S
  whitelist_lister uids = pure uids

  -- `blacklistLDAPGroupLister.ListGroups`
  unfoldable pub blacklist_lister : List String → Lister S → Lister S
  blacklist_lister blacklist base = do names ← base; pure (drop_blacklisted blacklist names)

abbrev pub missing_annotation : String → String → Error
missing_annotation name annotation =
    failure "group %q marked as having been synced did not have an %s annotation"
      (name ∷ annotation ∷ [])

-- The test on the two annotations of a group of that name.
abbrev pub matching : String → String → Option String → Option String → Result Bool
matching name ldap_url none uid = err (missing_annotation name ldap_url_annotation)
matching name ldap_url (some actual) uid =
    if not (actual == ldap_url)
    then ok false
    else if is_some uid
    then ok true
    else err (missing_annotation name ldap_uid_annotation)

-- `validateGroupAnnotations`
unfoldable pub validate_group_annotations : String → Group → Result Bool
validate_group_annotations ldap_url g =
    matching g.name ldap_url (get ldap_url_annotation g.annotations)
      (get ldap_uid_annotation g.annotations)

-- The map `ldapGroupUIDToOpenShiftGroupName` of the two listers, beside the state of the client.
pub record Mapped (S : Type 0) : Type 0 where
  pub client : S
  pub names : Dict String

-- One turn of the loop over the groups that were read: their names are noted under their UIDs.
abbrev pub note_group : Group → Dict String → Dict String
note_group g names = insert (get_or_empty ldap_uid_annotation g.annotations) g.name names

module _ {S : Type 0} where
  abbrev pub with_client {ℓ} : {A : Type ℓ} → Exec S A → Exec (Mapped S) A
  with_client m s = ((m s.client).0, record s { client = (m s.client).1 })

  abbrev pub note_name : Group → Exec (Mapped S) String
  note_name g s = (
    ok (get_or_empty ldap_uid_annotation g.annotations),
    record s { names = note_group g s.names },
  )

  -- A group whose annotations match is noted and listed.
  abbrev pub note_matching :
      Result Bool
      → Group
      → (List String → Exec (Mapped S) (List String))
      → List String
      → Exec (Mapped S) (List String)
  note_matching r g rest uids = lift r >>= λ matches.
      if matches then (note_name g >>= λ uid. rest (uids ++ uid ∷ [])) else rest uids

  -- The loop of `allOpenShiftGroupLister.ListGroups`.
  unfoldable pub list_marked :
      List String → String → List Group → List String → Exec (Mapped S) (List String)
  list_marked blacklist ldap_url [] uids = pure uids
  list_marked blacklist ldap_url (g ∷ gs) uids =
      let rest : List String → Exec (Mapped S) (List String) =
        λ us. list_marked blacklist ldap_url gs us in
      if member g.name blacklist
      then rest uids
      else note_matching (validate_group_annotations ldap_url g) g rest uids

  module _ (split_host_port : String → Result (String × String))
      (list_groups : String → String → Exec S (List Group)) (blacklist : List String)
      (ldap_url : String) where
    -- `allOpenShiftGroupLister.ListGroups`
    unfoldable pub all_openshift_lister : Lister (Mapped S)
    all_openshift_lister = do
      host ← lift (split_host_port ldap_url)
      groups ← with_client (list_groups ldap_host_label host.0)
      list_marked blacklist ldap_url groups []

  -- The two loops of `openshiftGroupLister.ListGroups`.
  unfoldable pub read_groups :
      (String → Exec S Group) → List String → List String → Exec S (List Group)
  read_groups get_group blacklist [] = pure []
  read_groups get_group blacklist (name ∷ names) =
      let rest = read_groups get_group blacklist names in
      if member name blacklist then rest else (do g ← get_group name; gs ← rest; pure (g ∷ gs))

  unfoldable pub list_matching : String → List Group → List String → Exec (Mapped S) (List String)
  list_matching ldap_url [] uids = pure uids
  list_matching ldap_url (g ∷ gs) uids =
      let rest : List String → Exec (Mapped S) (List String) = λ us. list_matching ldap_url gs us in
      (lift (validate_group_annotations ldap_url g) >>= λ matches.
      if matches
      then (note_name g >>= λ uid. rest (uids ++ uid ∷ []))
      else raise (failure "group %q was not synchronized from: %s" (g.name ∷ ldap_url ∷ [])))

  -- `openshiftGroupLister.ListGroups`
  unfoldable pub openshift_lister :
      (String → Exec S Group) → List String → List String → String → Lister (Mapped S)
  openshift_lister get_group whitelist blacklist ldap_url = do
    groups ← with_client (read_groups get_group blacklist whitelist)
    list_matching ldap_url groups []

  abbrev pub mapped_name : String → Exec (Mapped S) String
  mapped_name uid s = elim (lookup uid s.names) [
    | some name ↦ (ok name, s)
    | none ↦ (err (failure "no mapping found for %q" (uid ∷ [])), s)
  ]

  -- `GroupNameFor` of both: the groups are listed first where nothing was mapped.
  unfoldable pub group_name_for : Lister (Mapped S) → String → Exec (Mapped S) String
  group_name_for lister uid s =
      if is_empty s.names then (lister >>= λ _. mapped_name uid) s else mapped_name uid s
