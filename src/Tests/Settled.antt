-- ===== src/Tests/Settled.antt =====
-- A turn of a provider over a cluster in memory, with a clock whose seconds stop at 59.
use group_sync_operator.Prelude.{
  ℕ, ◌+◌, ltb, str_ltb, ◌≡◌, refl, ok-injective, subst, false, List, ok, All, arith, if◌then◌else◌,
}
use group_sync_operator.Prelude.Int.{pos}
use group_sync_operator.Timestamp.{Time, iso8601, time_zone}
use group_sync_operator.Timestamp.Order.{IsUtc, is_before, str_ltb-iso8601}
use group_sync_operator.Cluster.{Group, Cluster, ClusterLaws}
use group_sync_operator.Cluster.Memory.{World, memory, held, memory-laws}
use group_sync_operator.Syncer.{GroupSyncer, okta}
use group_sync_operator.Decimal.{pad, zeros, itoa, itoa_from}
use group_sync_operator.Controller.{
  sync_with, provider_label, sync_groups, sync_group, claim, write_claimed, write_synced, merge_map,
  prune_groups, prune_listed, prune_group,
}
use group_sync_operator.Controller.Settled.{Clock, Settled, sync_with_settles}
use group_sync_operator.Tests.Controller.{instance_okta, fixed, world, okta_provider}

abbrev tick : ℕ → Time
tick s = record {
  year = 2021;
  month = 3;
  day = 9;
  hour = 12;
  minute = 5;
  second = if ltb s 59 then s else 59;
  zone = "UTC";
  offset = pos 0;
}

abbrev ticking : Cluster World
ticking = record memory { now = λ w. (ok (tick w.seconds), record w { seconds = w.seconds + 1 }) }

ticking-laws : ClusterLaws ticking held
ticking-laws = record {
  get_keeps = memory-laws.get_keeps;
  get_ok = memory-laws.get_ok;
  get_not_found = memory-laws.get_not_found;
  list_keeps = memory-laws.list_keeps;
  list_sound = memory-laws.list_sound;
  list_complete = memory-laws.list_complete;
  write_ok = memory-laws.write_ok;
  write_others = memory-laws.write_others;
  delete_ok = memory-laws.delete_ok;
  delete_others = memory-laws.delete_others;
  now_keeps = λ w m. refl;
  count_keeps = memory-laws.count_keeps;
  error_keeps = memory-laws.error_keeps;
  success_keeps = memory-laws.success_keeps;
  instance_keeps = memory-laws.instance_keeps;
  update_keeps = memory-laws.update_keeps;
}

abbrev Since : Time → World → Type 0
Since t w = is_before (tick w.seconds) t ≡ false

tick-IsUtc : (s : ℕ) → IsUtc (tick s)
tick-IsUtc s = record {
  utc = refl;
  year = omega arith;
  month = omega arith;
  day = omega arith;
  hour = omega arith;
  minute = omega arith;
  second = ground arith;
}

tick_goes_on : (s : ℕ) → is_before (tick (s + 1)) (tick s) ≡ false
tick_goes_on s = ground arith

tick_later : (s : ℕ) (t : Time) → is_before (tick s) t ≡ false → is_before (tick (s + 1)) t ≡ false
tick_later s t h = ground arith

clock : Clock ticking Since
clock = record {
  now_utc = λ w t h. subst IsUtc (ok-injective h) (tick-IsUtc w.seconds);
  now_since = λ w t h.
      subst (λ u. is_before (tick (w.seconds + 1)) u ≡ false) (ok-injective h)
        (tick_goes_on w.seconds);
  now_after = λ w s t since h. subst (λ u. is_before u s ≡ false) (ok-injective h) since;
  now_keeps = λ w t since. tick_later w.seconds t since;
  get_keeps = λ n w t since. since;
  write_keeps = λ g w t since. since;
}

abbrev fixed_okta : GroupSyncer World
fixed_okta = fixed instance_okta (okta "okta" okta_provider)

turn_succeeds : (sync_with ticking instance_okta fixed_okta world).0 ≡ ok tt
unfolding sync_with sync_groups sync_group claim write_claimed write_synced merge_map prune_groups
    prune_listed prune_group iso8601 time_zone pad zeros itoa itoa_from
turn_succeeds = refl

sync_with_settles_example :
    (start : Time) × (gs : List Group) × ((ticking.now world).0 ≡ ok start)
    × ((fixed_okta.sync (ticking.now world).1).0 ≡ ok gs)
    × All
        (λ g.
          Settled ticking-laws clock
            (provider_label instance_okta "okta")
            start
            gs
            g.name
            (sync_with ticking instance_okta fixed_okta world).1)
        gs
sync_with_settles_example =
    sync_with_settles ticking-laws clock instance_okta fixed_okta world (λ v t since. since)
      turn_succeeds

str_ltb-iso8601_example :
    str_ltb (iso8601 (tick 7)) (iso8601 (tick 8)) ≡ is_before (tick 7) (tick 8)
str_ltb-iso8601_example = str_ltb-iso8601 (tick 7) (tick 8) (tick-IsUtc 7) (tick-IsUtc 8)
