-- ===== src/Tests/Controller.antt =====
-- The controller over a cluster in memory, with a syncer that returns fixed groups.
use mathlib.Core.Option.{some-injective}
use group_sync_operator.Prelude.{
  ◌≡◌, ◌≢◌, refl, sym, ap, ◌∙◌, subst, Occurs, inl, inr, ne_of_==, ok-injective, true, false, none,
  some, [], ◌∷◌, ok, pure,
}
use group_sync_operator.Prelude.Dict.{get}
use group_sync_operator.Constants.{sync_provider, sync_timestamp}
use group_sync_operator.Api.{GroupSync, Provider, OktaProvider, empty_provider_type, some_ref}
use group_sync_operator.Cluster.{Group, Stored}
use group_sync_operator.Cluster.Memory.{World, memory, held, memory-laws}
use group_sync_operator.Syncer.{Syncer, GroupSyncer}
use group_sync_operator.Controller.{
  merge_map, reconcile, sync_group, prune_groups, provider_label, claim, write_claimed,
  write_synced, prune_listed, prune_group,
}
use group_sync_operator.Controller.Safety.{Reads}
use group_sync_operator.Controller.Untouched.{syncer_name, reconcile_untouched}
use group_sync_operator.Controller.Update.{Turn, sync_group_result}
use group_sync_operator.Controller.Prune.{prune_groups_result}
use group_sync_operator.Prelude.Int.{pos}

abbrev pub okta_provider : OktaProvider
okta_provider = record {
  credentials_secret = some_ref;
  groups = [];
  url = "https://example.okta.com";
  app_id = "app";
  extract_login_username = false;
  profile_key = "login";
  group_limit = pos 1000;
  prune = true;
}

abbrev pub instance_okta : GroupSync
instance_okta = record {
  name = "sync";
  namespace = "ns";
  spec = record {
    providers =
        (record {
          name = "okta";
          provider_type = some (record empty_provider_type { okta = some okta_provider });
        })
        ∷ [];
    schedule = "";
  };
  last_sync_success_time = none;
}

abbrev kept_group : Stored
kept_group = record { labels = none; annotations = none; users = "eve" ∷ [] }

abbrev old_group : Stored
old_group = record {
  labels = some ((sync_provider, "sync_okta") ∷ ("team", "a") ∷ []);
  annotations = some ((sync_timestamp, "2020-01-01T00:00:00Z") ∷ []);
  users = "bob" ∷ [];
}

abbrev pub dev_group : Group
dev_group = record {
  name = "dev";
  uid = "";
  labels = some [];
  annotations = some (("id", "7") ∷ []);
  users = "amy" ∷ "bob" ∷ [];
}

abbrev pub world : World
world = record {
  groups = ("admins", kept_group) ∷ ("gone", old_group) ∷ ("dev", old_group) ∷ [];
  seconds = 0;
  metrics = [];
  instance = instance_okta;
  errors = [];
}

abbrev pub fixed : GroupSync → Syncer → GroupSyncer World
fixed i t = record {
  provider_name = syncer_name t;
  bind = pure tt;
  sync = pure (dev_group ∷ (record dev_group { name = "admins" }) ∷ []);
  validate = pure tt;
  prune = true;
}

fixed-Reads : (i : GroupSync) (t : Syncer) → Reads held (fixed i t)
fixed-Reads i t = record {
  bind_keeps = λ w m. refl;
  sync_keeps = λ w m. refl;
  validate_keeps = λ w m. refl;
}

-- A group of a provider that the resource does not list any more.
abbrev left_group : Stored
left_group = record {
  labels = some ((sync_provider, "sync_removed") ∷ []);
  annotations = none;
  users = "eve" ∷ [];
}

abbrev older : World
older = record world { groups = ("left", left_group) ∷ world.groups }

not_removed :
    (p : Provider)
    → Occurs p instance_okta.spec.providers
    → get sync_provider left_group.labels ≢ some (provider_label instance_okta p.name)
not_removed p (inl e) h =
    ne_of_== "sync_removed" "sync_okta" refl
      (some-injective _ _ h ∙ ap (λ (q : Provider). provider_label instance_okta q.name) (sym e))
not_removed p (inr o) h = absurd o

reconcile_untouched_example :
    held (reconcile memory fixed "ns" "sync" older).1 "left" ≡ some left_group
reconcile_untouched_example =
    reconcile_untouched memory-laws "left" left_group fixed (λ i t. refl) fixed-Reads "ns" "sync"
      older
      (λ i e.
        subst
          (λ (k : GroupSync).
            (p : Provider)
            → Occurs p k.spec.providers
            → get sync_provider left_group.labels ≢ some (provider_label k p.name))
          (ok-injective e) not_removed)
      refl

sync_dev_succeeds : (sync_group memory "sync_okta" dev_group world).0 ≡ ok 1
unfolding sync_group claim write_claimed write_synced merge_map
sync_dev_succeeds = refl

sync_group_result_example :
    Turn "sync_okta"
      (memory.now world).0
      dev_group
      1
      (some old_group)
      (held (sync_group memory "sync_okta" dev_group world).1 "dev")
sync_group_result_example =
    sync_group_result memory-laws "sync_okta" dev_group world 1 sync_dev_succeeds

prune_succeeds : (prune_groups memory "sync_okta" "2021-01-01T00:00:00Z" world).0 ≡ ok 2
unfolding prune_groups prune_listed prune_group
prune_succeeds = refl

prune_groups_result_example :
    held (prune_groups memory "sync_okta" "2021-01-01T00:00:00Z" world).1 "gone" ≡ none
prune_groups_result_example =
    prune_groups_result memory-laws "gone" "2021-01-01T00:00:00Z" "sync_okta" world 2 prune_succeeds
