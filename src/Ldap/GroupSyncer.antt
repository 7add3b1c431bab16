-- ===== src/Ldap/GroupSyncer.antt =====
-- pkg/provider/ldap/helpers/groupsyncer.go: the `LDAPGroupSyncer`, which makes the OpenShift groups
-- of the LDAP groups that are listed.
pub mod Ownership
pub mod Accounting
pub mod DryRun
use group_sync_operator.Prelude.{
  String, ◌==◌, Bool, true, false, not, Option, none, some, List, [], ◌∷◌, ◌++◌, Exec, Result, ok,
  err, panic, Error, failure, is_query_out_of_bounds, is_api_not_found, is_empty, holds, handle,
  if◌then◌else◌, pure, raise, lift, ◌>>=◌,
}
use group_sync_operator.Prelude.Dict.{get, get_or_empty, assign}
use group_sync_operator.Constants.{
  ldap_host_label, ldap_url_annotation, ldap_uid_annotation, ldap_sync_time_annotation,
}
use group_sync_operator.Timestamp.{Time, iso8601}
use group_sync_operator.Cluster.{Group}

-- The fields of `LDAPGroupSyncer`, on a state of the world, with what it uses of its client.
pub record LdapGroupSyncer (W E : Type 0) : Type 0 where
  pub list_groups : Exec W (List String)
  pub extract_members : String → Exec W (List E)
  pub user_name_for : E → Result String
  pub group_name_for : String → Exec W String
  pub get_group : String → Exec W Group
  pub create_group : Group → Exec W (Unit {0})
  pub update_group : Group → Exec W (Unit {0})
  pub now : Exec W Time
  pub split_host_port : String → Result (String × String)
  pub host : String
  pub dry_run : Bool

-- What `Sync` does with one LDAP group: a group, with an error where it was not written; an error;
-- or nothing, where a query is out of bounds.
pub data Turn : Type 0 where
  made : Group → List Error → Turn
  failed : Error → Turn
  skipped : Turn

abbrev pub fresh_group : String → String → String → String → Group
fresh_group host host_ip uid name = record {
  name = name;
  uid = "";
  labels = some ((ldap_host_label, host_ip) ∷ []);
  annotations = some ((ldap_url_annotation, host) ∷ (ldap_uid_annotation, uid) ∷ []);
  users = [];
}

-- The group that was read, or a new one where there is none.
unfoldable pub existing_or_new : String → String → String → String → Result Group → Result Group
existing_or_new host host_ip uid name (ok g) = ok g
existing_or_new host host_ip uid name (err e) =
    if is_api_not_found e then ok (fresh_group host host_ip uid name) else err e
existing_or_new host host_ip uid name panic = panic

abbrev pub mismatch : String → Group → String → String → String → Error
mismatch text g key wanted got = failure text (g.name ∷ key ∷ wanted ∷ got ∷ [])

-- The three tests that the group is not related to a different LDAP group.
unfoldable pub check_owned : String → String → String → Group → Result Group
check_owned host host_ip uid g =
    if not (holds host_ip (get ldap_host_label g.labels))
    then err (
        mismatch "group %q: %s label did not match sync host: wanted %s, got %s" g ldap_host_label
          host_ip (get_or_empty ldap_host_label g.labels))
    else if not (holds host (get ldap_url_annotation g.annotations))
    then err (
        mismatch "group %q: %s annotation did not match sync host: wanted %s, got %s" g
          ldap_url_annotation host (get_or_empty ldap_url_annotation g.annotations))
    else if not (holds uid (get ldap_uid_annotation g.annotations))
    then err (
        mismatch "group %q: %s annotation did not match LDAP UID: wanted %s, got %s" g
          ldap_uid_annotation uid (get_or_empty ldap_uid_annotation g.annotations))
    else ok g

module _ {W E : Type 0} (s : LdapGroupSyncer W E) where
  -- `determineUsernames`
  unfoldable pub determine_usernames : List E → Result (List String)
  determine_usernames [] = ok []
  determine_usernames (e ∷ es) =
      let rest = determine_usernames es in
      elim (s.user_name_for e) [
        | err x ↦ err x
        | panic ↦ panic
        | ok name ↦ elim rest [ ok names ↦ ok (name ∷ names) | err x ↦ err x | panic ↦ panic ]
      ]

  -- `updateOpenShiftGroup`
  unfoldable pub update_openshift_group : Group → Exec W (Unit {0})
  update_openshift_group g = if not (g.uid == "") then s.update_group g else s.create_group g

  -- The users and the time are set on a group that passed the tests.
  unfoldable pub stamp : List String → Group → Exec W Group
  stamp usernames g = do
    now ← s.now
    annotations ← lift (assign ldap_sync_time_annotation (iso8601 now) g.annotations)
    pure (record g { annotations = annotations; users = usernames })

  abbrev pub read_group : String → String → String → Exec W Group
  read_group host_ip uid name w =
      (existing_or_new s.host host_ip uid name (s.get_group name w).0, (s.get_group name w).1)

  -- `makeOpenShiftGroup`
  unfoldable pub make_openshift_group : String → List String → Exec W Group
  make_openshift_group uid usernames = do
    host_ip ← lift (s.split_host_port s.host)
    name ← s.group_name_for uid
    group ← read_group host_ip.0 uid name
    owned ← lift (check_owned s.host host_ip.0 uid group)
    stamp usernames owned

  abbrev pub write_made : Group → Exec W Turn
  write_made g =
      if s.dry_run
      then pure (made g [])
      else handle (update_openshift_group g) (λ e. pure (made g (e ∷ []))) (λ _. pure (made g []))

  abbrev pub not_made : Error → Exec W Turn
  not_made e = pure (if is_query_out_of_bounds e then skipped else failed e)

  -- One turn of the loop of `Sync`.
  unfoldable pub sync_uid : String → Exec W Turn
  sync_uid uid =
      handle (s.extract_members uid) (λ e. pure (failed e))
        λ members.
          handle (lift (determine_usernames members)) (λ e. pure (failed e))
            λ usernames. handle (make_openshift_group uid usernames) not_made write_made

  abbrev pub add_turn : Turn → List Group × List Error → List Group × List Error
  add_turn (made g es) (gs, errs) = (g ∷ gs, es ++ errs)
  add_turn (failed e) (gs, errs) = (gs, e ∷ errs)
  add_turn skipped rest = rest

  unfoldable pub sync_uids : List String → Exec W (List Group × List Error)
  sync_uids [] = pure ([], [])
  sync_uids (uid ∷ uids) = do turn ← sync_uid uid; rest ← sync_uids uids; pure (add_turn turn rest)

  abbrev pub not_listed : Error → List Group × List Error
  not_listed e = ([], e ∷ [])

  -- `LDAPGroupSyncer.Sync`
  unfoldable pub sync : Exec W (List Group × List Error)
  sync = handle s.list_groups (λ e. pure (not_listed e)) sync_uids
