-- ===== src/Tests/GroupSyncer.antt =====
-- A synchronisation of LDAP groups over a cluster that counts its writes.
use group_sync_operator.Prelude.{
  ℕ, suc, ◌+◌, ◌≤◌, length, Error, String, ◌≡◌, refl, true, some, [], ◌∷◌, ok, err, pure, All,
}
use group_sync_operator.Prelude.Int.{pos}
use group_sync_operator.Prelude.Keeps.{Keeps}
use group_sync_operator.Constants.{ldap_host_label, ldap_url_annotation, ldap_uid_annotation}
use group_sync_operator.Timestamp.{Time, iso8601, time_zone}
use group_sync_operator.Decimal.{pad, zeros, itoa, itoa_from}
use group_sync_operator.Cluster.{Group}
use group_sync_operator.Cluster.Memory.{not_found}
use group_sync_operator.Ldap.GroupSyncer.{
  LdapGroupSyncer, sync, sync_uids, sync_uid, determine_usernames, make_openshift_group,
  existing_or_new, check_owned, stamp,
}
use group_sync_operator.Ldap.GroupSyncer.Ownership.{IsMadeForOne, sync_result}
use group_sync_operator.Ldap.GroupSyncer.Accounting.{Accounted, sync-Accounted}
use group_sync_operator.Ldap.GroupSyncer.DryRun.{ReadsOnly, sync-Keeps}

abbrev pub midnight : Time
midnight = record {
  year = 2021;
  month = 1;
  day = 1;
  hour = 0;
  minute = 0;
  second = 0;
  zone = "UTC";
  offset = pos 0;
}

-- The state is the number of writes. The entries are the names of the users.
abbrev pub syncer : LdapGroupSyncer ℕ String
syncer = record {
  list_groups = pure ("dev" ∷ []);
  extract_members = λ uid. pure ("ann" ∷ "bob" ∷ []);
  user_name_for = λ e. ok e;
  group_name_for = λ uid. pure uid;
  get_group = λ name w. (err not_found, w);
  create_group = λ g w. (ok tt, suc w);
  update_group = λ g w. (ok tt, suc w);
  now = pure midnight;
  split_host_port = λ h. ok ("ldap.example.com", "389");
  host = "ldap.example.com:389";
  dry_run = true;
}

abbrev pub developers : Group
developers = record {
  name = "dev";
  uid = "";
  labels = some ((ldap_host_label, "ldap.example.com") ∷ []);
  annotations = some (
      (ldap_url_annotation, "ldap.example.com:389")
      ∷ (ldap_uid_annotation, "dev")
      ∷ ("openshift.io/ldap.sync-time", "2021-01-01T00:00:00Z")
      ∷ []);
  users = "ann" ∷ "bob" ∷ [];
}

sync_result_example : All (IsMadeForOne syncer 0 ("dev" ∷ [])) (developers ∷ [])
unfolding sync sync_uids sync_uid determine_usernames make_openshift_group existing_or_new
    check_owned stamp iso8601 pad zeros itoa itoa_from time_zone
sync_result_example = sync_result syncer 0 ("dev" ∷ []) (developers ∷ []) [] refl refl

sync-Accounted_example :
    Accounted syncer ("dev" ∷ []) (developers ∷ []) []
    × (length (developers ∷ []) + length {A = Error} [] ≤ length {A = String} ("dev" ∷ []))
unfolding sync sync_uids sync_uid determine_usernames make_openshift_group existing_or_new
    check_owned stamp iso8601 pad zeros itoa itoa_from time_zone
sync-Accounted_example = sync-Accounted syncer 0 ("dev" ∷ []) (developers ∷ []) [] refl refl refl

abbrev HasNotWritten : ℕ → Type 0
HasNotWritten w = w ≡ 0

abbrev reads_only : ReadsOnly HasNotWritten syncer
reads_only = record {
  list_keeps = record { at = λ w h. h };
  extract_keeps = λ uid. record { at = λ w h. h };
  name_keeps = λ uid. record { at = λ w h. h };
  get_keeps = λ name. record { at = λ w h. h };
  now_keeps = record { at = λ w h. h };
}

sync-Keeps_example : Keeps HasNotWritten (sync syncer)
sync-Keeps_example = sync-Keeps syncer reads_only refl
