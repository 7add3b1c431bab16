-- ===== src/Cluster.antt =====
-- What the operator uses of the Kubernetes API, of controller-runtime and of operator-utils: a
-- record of operations on an abstract state of the world, and their documented laws. None of it is
-- code of the repository, so it is a parameter of the controller.
pub mod Memory
use group_sync_operator.Prelude.{
  ℕ, String, ◌≡◌, Bool, true, false, Option, none, some, List, Exec, Result, ok, err, Error, ◌==◌,
  is_api_not_found, All, Occurs,
}
use group_sync_operator.Prelude.Dict.{GoMap, get}
use group_sync_operator.Timestamp.{Time}
use group_sync_operator.Api.{GroupSync}

-- `userv1.Group`, as far as the operator reads and writes it.
pub record Group : Type 0 where
  pub name : String
  pub uid : String
  pub labels : GoMap
  pub annotations : GoMap
  pub users : List String

-- What the API server keeps of a group under its name.
pub record Stored : Type 0 where
  pub labels : GoMap
  pub annotations : GoMap
  pub users : List String

abbrev pub stored : Group → Stored
stored g = record { labels = g.labels; annotations = g.annotations; users = g.users }

-- `ctrl.Result`: after how long the request is queued again, 0 for not at all.
pub record Outcome : Type 0 where
  pub requeue_after : ℕ

-- The metrics of controllers/groupsync_controller_metrics.go, each with its update.
pub data Metric : Type 0 where
  successful_group_syncs_inc : Metric
  unsuccessful_group_syncs_inc : Metric
  groups_synchronized_set : ℕ → Metric
  group_sync_error_set : ℕ → Metric
  groups_pruned_set : ℕ → Metric
  next_scheduled_synchronization_set : ℕ → Metric

pub record Cluster (W : Type 0) : Type 0 where
  pub get_group : String → Exec W Group
  pub list_groups : String → String → Exec W (List Group)
  pub write_group : Group → Exec W (Unit {0})
  pub delete_group : Group → Exec W (Unit {0})
  pub get_instance : String → String → Exec W GroupSync
  pub update_instance : GroupSync → Exec W (Unit {0})
  pub manage_error : GroupSync → Error → Exec W Outcome
  pub manage_success : GroupSync → Exec W Outcome
  pub now : Exec W Time
  pub count : String → Metric → Exec W (Unit {0})
  pub schedule_is_valid : String → Bool
  -- `cron.ParseStandard` of the other version of the library, then `Next`: the time of the next
  -- run and the wait for it; `none` where the schedule is not parsed.
  pub next_run : String → Time → Option (ℕ × ℕ)

-- The groups that the API server holds, by name.
abbrev pub View : Type 0 → Type 0
View W = W → String → Option Stored

-- What the documentation says of the calls. A read changes no group. A write or a delete that
-- succeeds is seen, and whether it succeeds or not it touches no group of another name.
pub record ClusterLaws {W : Type 0} (c : Cluster W) (view : View W) : Type 0 where
  pub get_keeps : (n : String) (w : W) (m : String) → view (c.get_group n w).1 m ≡ view w m
  pub get_ok :
      (n : String) (w : W) (g : Group)
      → (c.get_group n w).0 ≡ ok g
      → (g.name ≡ n) × (view w n ≡ some (stored g))
  pub get_not_found :
      (n : String) (w : W) (e : Error)
      → (c.get_group n w).0 ≡ err e
      → is_api_not_found e ≡ true
      → view w n ≡ none
  pub list_keeps : (k v : String) (w : W) (m : String) → view (c.list_groups k v w).1 m ≡ view w m
  pub list_sound :
      (k v : String) (w : W) (gs : List Group)
      → (c.list_groups k v w).0 ≡ ok gs
      → All (λ g. (get k g.labels ≡ some v) × (view w g.name ≡ some (stored g))) gs
  pub list_complete :
      (k v : String) (w : W) (gs : List Group) (n : String) (s : Stored)
      → (c.list_groups k v w).0 ≡ ok gs
      → view w n ≡ some s
      → get k s.labels ≡ some v
      → (g : Group) × (g.name ≡ n) × Occurs g gs
  pub write_ok :
      (g : Group) (w : W)
      → (c.write_group g w).0 ≡ ok tt
      → view (c.write_group g w).1 g.name ≡ some (stored g)
  pub write_others :
      (g : Group) (w : W) (n : String)
      → (g.name == n) ≡ false
      → view (c.write_group g w).1 n ≡ view w n
  pub delete_ok :
      (g : Group) (w : W)
      → (c.delete_group g w).0 ≡ ok tt
      → view (c.delete_group g w).1 g.name ≡ none
  pub delete_others :
      (g : Group) (w : W) (n : String)
      → (g.name == n) ≡ false
      → view (c.delete_group g w).1 n ≡ view w n
  pub now_keeps : (w : W) (m : String) → view (c.now w).1 m ≡ view w m
  pub count_keeps :
      (s : String) (k : Metric) (w : W) (m : String) → view (c.count s k w).1 m ≡ view w m
  pub error_keeps :
      (i : GroupSync) (e : Error) (w : W) (m : String) → view (c.manage_error i e w).1 m ≡ view w m
  pub success_keeps :
      (i : GroupSync) (w : W) (m : String) → view (c.manage_success i w).1 m ≡ view w m
  pub instance_keeps :
      (a b : String) (w : W) (m : String) → view (c.get_instance a b w).1 m ≡ view w m
  pub update_keeps :
      (i : GroupSync) (w : W) (m : String) → view (c.update_instance i w).1 m ≡ view w m
