-- ===== src/Metrics.antt =====
-- controllers/groupsync_controller_metrics.go: the names of the metrics, and those that are registered.
use group_sync_operator.Prelude.{String, ◌≡◌, refl, Bool, true, false, not, List, [], ◌∷◌, member}
use group_sync_operator.Cluster.{Metric}

abbrev metric_name : Metric → String
metric_name Metric.successful_group_syncs_inc = "group_sync_successful_syncs_count"
metric_name Metric.unsuccessful_group_syncs_inc = "group_sync_unsuccessful_syncs_count"
metric_name (Metric.groups_synchronized_set n) = "group_sync_number_groups"
metric_name (Metric.groups_pruned_set n) = "group_pruned_number_groups"
metric_name (Metric.next_scheduled_synchronization_set n) = "group_sync_next_scheduled_sync"
metric_name (Metric.group_sync_error_set n) = "group_sync_error"

-- What `init` registers.
abbrev registered : List String
registered =
    "group_sync_successful_syncs_count" ∷ "group_sync_unsuccessful_syncs_count"
    ∷ "group_sync_number_groups" ∷ "group_sync_next_scheduled_sync" ∷ "group_sync_error" ∷ []

abbrev is_exported : Metric → Bool
is_exported k = member (metric_name k) registered

abbrev is_of_pruning : Metric → Bool
is_of_pruning (Metric.groups_pruned_set n) = true
is_of_pruning _ = false

-- Every metric is registered but that of the pruned groups.
is_exported_iff : (k : Metric) → is_exported k ≡ not (is_of_pruning k)
is_exported_iff Metric.successful_group_syncs_inc = refl
is_exported_iff Metric.unsuccessful_group_syncs_inc = refl
is_exported_iff (Metric.groups_synchronized_set n) = refl
is_exported_iff (Metric.groups_pruned_set n) = refl
is_exported_iff (Metric.next_scheduled_synchronization_set n) = refl
is_exported_iff (Metric.group_sync_error_set n) = refl
