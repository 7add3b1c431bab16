-- ===== src/Controller.antt =====
-- controllers/groupsync_controller.go over a cluster: the reconciler, its loop over the providers
-- and their groups, and the pruning. The proofs are in the modules below.
use Prim.Native.String.{◌++◌}
pub mod Merge
pub mod Safety
pub mod Update
pub mod Prune
pub mod Untouched
pub mod Settled
use group_sync_operator.Prelude.{
  ℕ, ◌+◌, String, Bool, true, false, Option, none, some, List, [], ◌∷◌, Exec, Result, ok, err,
  panic, Error, is_api_not_found, ◌==◌, str_ltb, if◌then◌else◌, holds, pure, raise, lift, ◌>>=◌,
  ◌>>◌,
}
use group_sync_operator.Prelude.Dict.{Dict, GoMap, get, get_or_empty, insert, assign}
use group_sync_operator.Constants.{sync_timestamp, sync_provider}
use group_sync_operator.Timestamp.{Time, iso8601}
use group_sync_operator.Api.{GroupSync}
use group_sync_operator.Cluster.{Group, Outcome, Metric, Cluster}
use group_sync_operator.Syncer.{
  Syncer, GroupSyncer, get_group_sync_mgr, set_defaults, with_defaults, validate,
}

-- Go's `m1[k] = v` for each pair of `m2`.
abbrev pub merge_into : Dict String → Dict String → Dict String
merge_into m1 [] = m1
merge_into m1 ((k, v) ∷ m2) = insert k v (merge_into m1 m2)

-- `mergeMap`
unfoldable pub merge_map : GoMap → GoMap → GoMap
merge_map none m2 = m2
merge_map (some m1) none = some m1
merge_map (some m1) (some m2) = some (merge_into m1 m2)

-- A nil map is copied as an empty one.
abbrev pub or_made : GoMap → GoMap
or_made none = some []
or_made (some m) = some m

-- `fmt.Sprintf("%s_%s", instance.Name, groupSyncer.GetProviderName())`
abbrev pub provider_label : GroupSync → String → String
provider_label i name = i.name ++ ("_" ++ name)

abbrev pub new_group : String → Group
new_group n = record { name = n; uid = ""; labels = none; annotations = none; users = [] }

-- What the read of the group of that name allows: a group to write, or none where the group is not
-- managed by this provider.
unfoldable pub claim : String → String → Result Group → Result (Option Group)
claim label n (ok g) = ok (if holds label (get sync_provider g.labels) then some g else none)
claim label n (err e) = if is_api_not_found e then ok (some (new_group n)) else err e
claim label n panic = panic

module _ {ℓ} {W : Type 0} {A : Type ℓ} where
  abbrev pub on_result : Result A → (Error → Exec W Outcome) → (A → Exec W Outcome) → Exec W Outcome
  on_result (ok a) failed next w = next a w
  on_result (err e) failed next w = failed e w
  on_result panic failed next w = (panic, w)

  -- The run of `m`, and what follows on its value or on its error.
  abbrev pub attempt : Exec W A → (Error → Exec W Outcome) → (A → Exec W Outcome) → Exec W Outcome
  attempt m failed next w = on_result (m w).0 failed next (m w).1

module _ {W : Type 0} (c : Cluster W) where
  -- The labels and annotations are merged, the group is stamped and written.
  unfoldable pub write_synced : String → Group → Group → Exec W ℕ
  write_synced label group ocp = do
    labels ← lift (assign sync_provider label (merge_map ocp.labels (or_made group.labels)))
    now ← c.now
    annotations ← lift (
        assign sync_timestamp (iso8601 now) (merge_map ocp.annotations (or_made group.annotations)))
    c.write_group (record ocp { labels = labels; annotations = annotations; users = group.users })
    pure 1

  unfoldable pub write_claimed : String → Group → Option Group → Exec W ℕ
  write_claimed label group none = pure 0
  write_claimed label group (some ocp) = write_synced label group ocp

  -- One turn of the loop over the groups of a provider: how many groups it wrote.
  unfoldable pub sync_group : String → Group → Exec W ℕ
  sync_group label group w =
      let (r, w') = c.get_group group.name w in
      (lift (claim label group.name r) >>= write_claimed label group) w'

  unfoldable pub sync_groups : String → List Group → ℕ → Exec W ℕ
  sync_groups label [] updated = pure updated
  sync_groups label (g ∷ gs) updated = do n ← sync_group label g; sync_groups label gs (updated + n)

  -- One turn of the loop of `pruneGroups`.
  unfoldable pub prune_group : String → Group → Exec W ℕ
  prune_group start g =
      if str_ltb (get_or_empty sync_timestamp g.annotations) start
      then (c.delete_group g >>= λ _. pure 1)
      else pure 0

  unfoldable pub prune_listed : String → List Group → ℕ → Exec W ℕ
  prune_listed start [] pruned = pure pruned
  prune_listed start (g ∷ gs) pruned = do
    n ← prune_group start g
    prune_listed start gs (pruned + n)

  -- `pruneGroups`; on an error the count is not read.
  unfoldable pub prune_groups : String → String → Exec W ℕ
  prune_groups label start = do gs ← c.list_groups sync_provider label; prune_listed start gs 0

  abbrev pub prune_if : Bool → Exec W ℕ → Exec W ℕ
  prune_if true m = m
  prune_if false m = pure 0

  -- The turn of the loop over the syncers, for one of them.
  unfoldable pub sync_with : GroupSync → GroupSyncer W → Exec W (Unit {0})
  sync_with i s = do
    let label = provider_label i s.provider_name
    s.bind
    start ← c.now
    groups ← s.sync
    updated ← sync_groups label groups 0
    pruned ← prune_if s.prune (prune_groups label (iso8601 start))
    c.count s.provider_name Metric.successful_group_syncs_inc
    c.count s.provider_name (Metric.groups_synchronized_set updated)
    c.count s.provider_name (Metric.group_sync_error_set 0)
    if s.prune then c.count s.provider_name (Metric.groups_pruned_set pruned) else pure tt

  -- `wrapMetricsErrorWithMetrics`
  unfoldable pub wrap_metrics_error_with_metrics : String → GroupSync → Error → Exec W Outcome
  wrap_metrics_error_with_metrics name i e = do
    c.count name Metric.unsuccessful_group_syncs_inc
    c.count name (Metric.group_sync_error_set 1)
    c.manage_error i e

  -- The loop over the syncers.
  unfoldable pub sync_providers : GroupSync → List (GroupSyncer W) → Exec W Outcome → Exec W Outcome
  sync_providers i [] done = done
  sync_providers i (s ∷ ss) done =
      attempt (sync_with i s) (wrap_metrics_error_with_metrics s.provider_name i)
        (λ _. sync_providers i ss done)

  -- A schedule that is not parsed leaves `sched` nil.
  abbrev pub queued_again : GroupSync → Outcome → Option (ℕ × ℕ) → Exec W Outcome
  queued_again i r none = lift panic
  queued_again i r (some (at, wait)) = do
    c.count "" (Metric.next_scheduled_synchronization_set at)
    pure (record { requeue_after = wait })

  abbrev pub scheduled : GroupSync → Outcome → Exec W Outcome
  scheduled i r =
      if i.spec.schedule == ""
      then pure r
      else (c.now >>= λ now. queued_again i r (c.next_run i.spec.schedule now))

  -- The end of `Reconcile`, after every provider was synced.
  unfoldable pub finish : GroupSync → Exec W Outcome
  finish i = do
    t ← c.now
    r ← c.manage_success (record i { last_sync_success_time = some (iso8601 t) })
    scheduled i r

  module _ (methods : GroupSync → Syncer → GroupSyncer W) where
    abbrev pub as_syncers : GroupSync → List Syncer → List (GroupSyncer W)
    as_syncers i [] = []
    as_syncers i (s ∷ ss) = methods i s ∷ as_syncers i ss

    abbrev pub no_requeue : Outcome
    no_requeue = record { requeue_after = 0 }

    -- `Reconcile` on an instance that was read, with its syncers and whether `SetDefaults`
    -- reported a change. The instance holds the defaults.
    unfoldable pub reconcile_with : GroupSync → List Syncer → Bool → Exec W Outcome
    reconcile_with i ss true =
        attempt (c.update_instance i) (c.manage_error i) (λ _. pure no_requeue)
    reconcile_with i ss false =
        attempt (validate c.schedule_is_valid i.spec.schedule (as_syncers i ss)) (c.manage_error i)
          (λ _. sync_providers i (as_syncers i ss) (finish i))

    abbrev pub with_syncers : GroupSync → List Syncer × Bool → Exec W Outcome
    with_syncers i (ss, changed) = reconcile_with (with_defaults i ss) ss changed

    unfoldable pub reconcile_instance : GroupSync → Exec W Outcome
    reconcile_instance i =
        on_result (get_group_sync_mgr i) (c.manage_error i) (λ ss. with_syncers i (set_defaults ss))

    -- `Reconcile`
    unfoldable pub reconcile : String → String → Exec W Outcome
    reconcile namespace name =
        attempt (c.get_instance namespace name)
          (λ e. if is_api_not_found e then pure no_requeue else raise e) reconcile_instance
