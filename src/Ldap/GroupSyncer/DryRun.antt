-- ===== src/Ldap/GroupSyncer/DryRun.antt =====
-- Under `DryRun` nothing is written.
use group_sync_operator.Prelude.{String, ◌≡◌, true, List, [], ◌∷◌}
use group_sync_operator.Prelude.Keeps.{Keeps, Keeps-bind, Keeps-handle, Keeps-pure, keeps_rules}
use group_sync_operator.Ldap.GroupSyncer.{
  LdapGroupSyncer, stamp, read_group, make_openshift_group, write_made, sync_uid, sync_uids, sync,
}

-- What the calls that read leave alone.
pub record ReadsOnly {W E : Type 0} (P : W → Type 0) (s : LdapGroupSyncer W E) : Type 0 where
  pub list_keeps : Keeps P s.list_groups
  pub extract_keeps : (uid : String) → Keeps P (s.extract_members uid)
  pub name_keeps : (uid : String) → Keeps P (s.group_name_for uid)
  pub get_keeps : (name : String) → Keeps P (s.get_group name)
  pub now_keeps : Keeps P s.now

module _ {W E : Type 0} {P : W → Type 0} (s : LdapGroupSyncer W E) (reads : ReadsOnly P s) where
  read_group-Keeps : (ip uid name : String) → Keeps P (read_group s ip uid name)
  read_group-Keeps ip uid name = record { at = λ w h. (reads.get_keeps name).at w h }

  now-Keeps : Keeps P s.now
  now-Keeps = reads.now_keeps

  stamp-Keeps : (usernames : List String) → (g : _) → Keeps P (stamp s usernames g)
  unfolding stamp
  stamp-Keeps usernames g = search (keeps_rules, now-Keeps)

  name-Keeps : (uid : String) → Keeps P (s.group_name_for uid)
  name-Keeps uid = reads.name_keeps uid

  make-Keeps :
      (uid : String) (usernames : List String) → Keeps P (make_openshift_group s uid usernames)
  unfolding make_openshift_group
  make-Keeps uid usernames =
      search (keeps_rules, stamp-Keeps, read_group-Keeps, name-Keeps) depth 14

  module _ (dry : s.dry_run ≡ true) where
    write_made-Keeps : (g : _) → Keeps P (write_made s g)
    write_made-Keeps g = rw dry (Keeps-pure _)

    sync_uid-Keeps : (uid : String) → Keeps P (sync_uid s uid)
    unfolding sync_uid
    sync_uid-Keeps uid =
        Keeps-handle _ _ _ (reads.extract_keeps uid) (λ e. Keeps-pure _)
          λ members. search (keeps_rules, make-Keeps, write_made-Keeps) depth 14

    sync_uids-Keeps : (uids : List String) → Keeps P (sync_uids s uids)
    unfolding sync_uids
    sync_uids-Keeps [] = Keeps-pure _
    sync_uids-Keeps (uid ∷ uids) =
        Keeps-bind _ _ (sync_uid-Keeps uid)
          λ t. Keeps-bind _ _ (sync_uids-Keeps uids) λ r. Keeps-pure _

    -- Under `DryRun`, which is how the operator runs it, `Sync` keeps whatever the reads of the
    -- directory and of the cluster and of the clock keep: it creates and updates no group,
    -- whichever branch each LDAP group takes, and whether it returns or panics.
    pub sync-Keeps : Keeps P (sync s)
    unfolding sync
    sync-Keeps = Keeps-handle _ _ _ reads.list_keeps (λ e. Keeps-pure _) sync_uids-Keeps
