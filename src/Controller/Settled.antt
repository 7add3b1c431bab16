-- ===== src/Controller/Settled.antt =====
-- What the turn of a provider leaves of the groups that it returned, its own pruning included.
use group_sync_operator.Prelude.{
  ℕ, ◌+◌, String, ◌≡◌, ◌≢◌, ◌⊎◌, refl, ap, ◌∙◌, subst, Bool, true, false, Option, none, some, List,
  [], ◌∷◌, Exec, Result, ok, err, panic, is_api_not_found, ◌==◌, Bool-cases, inl, inr, All,
  All-each, Occurs, holds, holds-eq_some, lift, pure, ◌>>=◌, ◌>>◌, >>=-eq_ok, arith, str_ltb,
  eq_of_==, if◌then◌else◌,
}
use group_sync_operator.Prelude.Keeps.{Keeps, Keeps-bind, Keeps-lift, keeps_rules}
use group_sync_operator.Prelude.Dict.{GoMap, get, get_or_empty}
use group_sync_operator.Constants.{sync_provider, sync_timestamp}
use group_sync_operator.Timestamp.{Time, iso8601}
use group_sync_operator.Timestamp.Order.{IsUtc, is_before, str_ltb-iso8601}
use group_sync_operator.Api.{GroupSync}
use group_sync_operator.Cluster.{Group, Stored, stored, Cluster, ClusterLaws, View, Metric}
use group_sync_operator.Syncer.{GroupSyncer}
use group_sync_operator.Controller.{
  claim, write_synced, write_claimed, sync_group, sync_groups, prune_groups, prune_if, sync_with,
  provider_label, new_group,
}
use group_sync_operator.Controller.Update.{sync_group_result}
use group_sync_operator.Controller.Prune.{stale, pruned, prune_groups_result}
use group_sync_operator.Controller.Safety.{Holds, count-Keeps, write_synced-Keeps}

-- A clock that never goes back: `Since t w` says that in the state `w` it has reached `t`.
pub record Clock {W : Type 0} (c : Cluster W) (Since : Time → W → Type 0) : Type 0 where
  pub now_utc : (w : W) (t : Time) → (c.now w).0 ≡ ok t → IsUtc t
  pub now_since : (w : W) (t : Time) → (c.now w).0 ≡ ok t → Since t (c.now w).1
  pub now_after : (w : W) (s t : Time) → Since s w → (c.now w).0 ≡ ok t → is_before t s ≡ false
  pub now_keeps : (w : W) (t : Time) → Since t w → Since t (c.now w).1
  pub get_keeps : (n : String) (w : W) (t : Time) → Since t w → Since t (c.get_group n w).1
  pub write_keeps : (g : Group) (w : W) (t : Time) → Since t w → Since t (c.write_group g w).1

-- The group under a name has this label, a time stamp that is not before the start, and the users
-- of a returned group of that name.
abbrev pub Own : String → String → List Group → String → Stored → Type 0
Own label start gs n s =
    (get sync_provider s.labels ≡ some label)
    × (stale start s ≡ false)
    × (g : Group) × Occurs g gs
    × (g.name ≡ n)
    × (s.users ≡ g.users)

abbrev pub Foreign : String → Stored → Type 0
Foreign label s = get sync_provider s.labels ≢ some label

get_or_empty-some : (k : String) (m : GoMap) (v : String) → get k m ≡ some v → get_or_empty k m ≡ v
get_or_empty-some k m v h = rw (get_or_empty, h) refl

module _ {W : Type 0} {c : Cluster W} {view : View W} (laws : ClusterLaws c view)
    {Since : Time → W → Type 0} (clock : Clock c Since) (label : String) (start : Time)
    (all : List Group) where
  abbrev pub Settled : String → W → Type 0
  Settled n w =
      (s : Stored) × (view w n ≡ some s) × (Own label (iso8601 start) all n s ⊎ Foreign label s)

  get-Keeps : (n : String) → Keeps (Since start) (c.get_group n)
  get-Keeps n = record { at = λ w h. clock.get_keeps n w start h }

  now-Keeps : Keeps (Since start) c.now
  now-Keeps = record { at = λ w h. clock.now_keeps w start h }

  write-Keeps : (g : Group) → Keeps (Since start) (c.write_group g)
  write-Keeps g = record { at = λ w h. clock.write_keeps g w start h }

  write_claimed-Keeps :
      (group : Group) (o : Option Group) → Keeps (Since start) (write_claimed c label group o)
  unfolding write_claimed write_synced
  write_claimed-Keeps group none = search keeps_rules
  write_claimed-Keeps group (some ocp) = search (keeps_rules, now-Keeps, write-Keeps)

  sync_group-Keeps : (group : Group) → Keeps (Since start) (sync_group c label group)
  unfolding sync_group
  sync_group-Keeps group = record {
    at = λ w h.
        (Keeps-bind (lift (claim label group.name (c.get_group group.name w).0)) _ (Keeps-lift _)
            (write_claimed-Keeps group)).at
          (c.get_group group.name w).1 (clock.get_keeps group.name w start h);
  }

  -- A time that the clock answers later is no reason to prune.
  fresh :
      (w : W) (t : Time) (s : Stored)
      → Since start w
      → IsUtc start
      → (c.now w).0 ≡ ok t
      → get sync_timestamp s.annotations ≡ some (iso8601 t)
      → stale (iso8601 start) s ≡ false
  fresh w t s since utc e h =
      ap (λ v. str_ltb v (iso8601 start)) (get_or_empty-some sync_timestamp s.annotations _ h)
      ∙ (str_ltb-iso8601 t start (clock.now_utc w t e) utc ∙ clock.now_after w start t since e)

  -- A turn settles its group.
  settles :
      (group : Group) (w : W) (k : ℕ)
      → Since start w
      → IsUtc start
      → Occurs group all
      → (sync_group c label group w).0 ≡ ok k
      → Settled group.name (sync_group c label group w).1
  settles group w k since utc occurs h = elim (sync_group_result laws label group w k h) [
    | inl (_, s, _, foreign, after) ↦ (s, after, inr foreign)
    | inr (_, s, after, _, synced) ↦ (
      s,
      after,
      inl (
        synced.provider,
        fresh (c.get_group group.name w).1 synced.time s (clock.get_keeps group.name w start since)
            utc synced.read synced.timestamp,
        group,
        occurs,
        refl,
        synced.users,
      ),
    )
  ]

  -- A turn leaves a group of another name alone.
  claimed_others :
      (group : Group) (n : String) (s : Stored) (w w' : W) (r : Result Group)
      → (group.name == n) ≡ false
      → ((g : Group) → r ≡ ok g → (g.name ≡ group.name) × (view w group.name ≡ some (stored g)))
      → view w' n ≡ some s
      → view ((lift (claim label group.name r) >>= write_claimed c label group) w').1 n ≡ some s
  unfolding claim write_claimed
  claimed_others group n s w w' (ok g) ne found h =
      elim (Bool-cases (holds label (get sync_provider g.labels))) [
        | inl y ↦
            let same : (g.name == n) ≡ false = ap (λ m. m == n) (found g refl).0 ∙ ne in
            rw y ((write_synced-Keeps laws n s label group g same).at w' h)
        | inr f ↦ rw f h
      ]
  claimed_others group n s w w' (err e) ne found h = elim (Bool-cases (is_api_not_found e)) [
    | inl y ↦ rw y ((write_synced-Keeps laws n s label group (new_group group.name) ne).at w' h)
    | inr f ↦ rw f h
  ]
  claimed_others group n s w w' panic ne found h = h

  sync_group-others :
      (group : Group) (n : String) (s : Stored) (w : W)
      → (group.name == n) ≡ false
      → view w n ≡ some s
      → view (sync_group c label group w).1 n ≡ some s
  unfolding sync_group
  sync_group-others group n s w ne h =
      claimed_others group n s w (c.get_group group.name w).1 (c.get_group group.name w).0 ne
        (laws.get_ok group.name w) (laws.get_keeps group.name w n ∙ h)

  -- A turn keeps what is settled under any name.
  turn_keeps :
      (group : Group) (n : String) (w : W) (k : ℕ)
      → Since start w
      → IsUtc start
      → Occurs group all
      → (sync_group c label group w).0 ≡ ok k
      → Settled n w
      → Settled n (sync_group c label group w).1
  turn_keeps group n w k since utc occurs h settled = elim (Bool-cases (group.name == n)) [
    | inl q ↦
        subst (λ m. Settled m (sync_group c label group w).1) (eq_of_== group.name n q)
          (settles group w k since utc occurs h)
    | inr ne ↦ (settled.0, sync_group-others group n settled.0 w ne settled.1, settled.2)
  ]

  after_turn :
      (g : Group) (gs : List Group) (w : W) (k : ℕ) (n : String)
      → Since start w
      → IsUtc start
      → Occurs g all
      → (sync_group c label g w).0 ≡ ok k
      → (Settled n w ⊎ ((x : Group) × Occurs x (g ∷ gs) × (x.name ≡ n)))
      → Settled n (sync_group c label g w).1 ⊎ ((x : Group) × Occurs x gs × (x.name ≡ n))
  after_turn g gs w k n since utc occurs h (inl settled) =
      inl (turn_keeps g n w k since utc occurs h settled)
  after_turn g gs w k n since utc occurs h (inr (x, inl e, q)) = inl (
      subst (λ m. Settled m (sync_group c label g w).1) (ap (λ (t : Group). t.name) e ∙ q)
        (settles g w k since utc occurs h))
  after_turn g gs w k n since utc occurs h (inr (x, inr later, q)) = inr (x, later, q)

  -- The groups that are left to write, and the names that are settled before.
  loop_settles :
      (gs : List Group) (w : W) (count k : ℕ) (n : String)
      → Since start w
      → IsUtc start
      → All (λ g. Occurs g all) gs
      → (sync_groups c label gs count w).0 ≡ ok k
      → (Settled n w ⊎ ((g : Group) × Occurs g gs × (g.name ≡ n)))
      → Settled n (sync_groups c label gs count w).1
  unfolding sync_groups
  loop_settles [] w count k n since utc occurs h o = elim o [
    | inl settled ↦ settled
    | inr (g, none_left, e) ↦ absurd none_left
  ]
  loop_settles (g ∷ gs) w count k n since utc occurs h o =
      let run : _ =
        >>=-eq_ok (sync_group c label g) (λ j. sync_groups c label gs (count + j)) w k h in
      rw run.1 (
        loop_settles gs (sync_group c label g w).1 (count + run.0) k n
          ((sync_group-Keeps g).at w since) utc occurs.1 run.2
          (after_turn g gs w run.0 n since utc occurs.0 run.1 o))

  -- Pruning spares what is settled.
  spared :
      (n : String) (v : Stored) (o after : Option Stored)
      → o ≡ some v
      → Own label (iso8601 start) all n v ⊎ Foreign label v
      → after ≡ pruned label (iso8601 start) o
      → after ≡ some v
  spared n v none after e settled h = absurd (cc)
  spared n v (some x) after e settled h =
      let same : x ≡ v = cc in h ∙ ap (pruned label (iso8601 start)) e ∙ not_pruned settled
    where
      not_pruned :
          Own label (iso8601 start) all n v ⊎ Foreign label v
          → pruned label (iso8601 start) (some v) ≡ some v
      not_pruned (inl own) = rw own.1 (ground arith)
      not_pruned (inr foreign) = elim (Bool-cases (holds label (get sync_provider v.labels))) [
        | inl y ↦ absurd (foreign (holds-eq_some label (get sync_provider v.labels) y))
        | inr f ↦ rw f refl
      ]

  prune_if_settles :
      (b : Bool) (n : String) (w : W) (k : ℕ)
      → (prune_if c b (prune_groups c label (iso8601 start)) w).0 ≡ ok k
      → Settled n w
      → Settled n (prune_if c b (prune_groups c label (iso8601 start)) w).1
  prune_if_settles false n w k h settled = settled
  prune_if_settles true n w k h settled = (
    settled.0,
    spared n settled.0 (view w n) _ settled.1 settled.2
        (prune_groups_result laws n (iso8601 start) label w k h),
    settled.2,
  )

  -- The end of the turn: the pruning and the metrics.
  abbrev metrics : GroupSyncer W → ℕ → ℕ → Exec W (Unit {0})
  metrics s updated count = do
    c.count s.provider_name Metric.successful_group_syncs_inc
    c.count s.provider_name (Metric.groups_synchronized_set updated)
    c.count s.provider_name (Metric.group_sync_error_set 0)
    if s.prune then c.count s.provider_name (Metric.groups_pruned_set count) else pure tt

  abbrev ending : GroupSyncer W → ℕ → Exec W (Unit {0})
  ending s updated = prune_if c s.prune (prune_groups c label (iso8601 start)) >>= metrics s updated

  metrics-Keeps :
      (s : GroupSyncer W) (updated count : ℕ) (n : String) (v : Stored)
      → Keeps (Holds laws n v) (metrics s updated count)
  metrics-Keeps s updated count n v = search (keeps_rules, count-Keeps) depth 12

  ending_settles :
      (s : GroupSyncer W) (updated : ℕ) (n : String) (w : W)
      → (ending s updated w).0 ≡ ok tt
      → Settled n w
      → Settled n (ending s updated w).1
  ending_settles s updated n w h settled =
      let run : _ =
        >>=-eq_ok (prune_if c s.prune (prune_groups c label (iso8601 start))) (metrics s updated) w
          tt h in
      let v : _ = prune_if_settles s.prune n w run.0 run.1 settled in
      rw run.1 (v.0, (metrics-Keeps s updated run.0 n v.0).at _ v.1, v.2)

module _ {W : Type 0} {c : Cluster W} {view : View W} (laws : ClusterLaws c view)
    {Since : Time → W → Type 0} (clock : Clock c Since) where
  -- When the turn of a provider succeeds, over a clock that never goes back and answers times in UTC,
  -- each group that the provider returned is then under its name: with the label of the provider, a
  -- time stamp that is not before the start of the turn, and the users that the provider returned for
  -- a group of this name; or with another label or none, if this provider does not manage it. The
  -- turn's own pruning removes none of them.
  pub sync_with_settles :
      (i : GroupSync) (s : GroupSyncer W) (w : W)
      → ((v : W) (t : Time) → Since t v → Since t (s.sync v).1)
      → (sync_with c i s w).0 ≡ ok tt
      → (start : Time) × (gs : List Group) × ((c.now (s.bind w).1).0 ≡ ok start)
        × ((s.sync (c.now (s.bind w).1).1).0 ≡ ok gs)
        × All
            (λ g.
              Settled laws clock
                (provider_label i s.provider_name)
                start
                gs
                g.name
                (sync_with c i s w).1)
            gs
  unfolding sync_with
  sync_with_settles i s w since h =
      let label : String = provider_label i s.provider_name in
      let bound : _ = >>=-eq_ok s.bind _ w tt h in
      let started : _ = >>=-eq_ok c.now _ (s.bind w).1 tt bound.2 in
      let synced : _ = >>=-eq_ok s.sync _ (c.now (s.bind w).1).1 tt started.2 in
      let start : Time = started.0 in
      let gs : List Group = synced.0 in
      let begun : Since start (s.sync (c.now (s.bind w).1).1).1 =
        since (c.now (s.bind w).1).1 start (clock.now_since (s.bind w).1 start started.1) in
      let wrote : _ =
        >>=-eq_ok (sync_groups c label gs 0) (ending laws clock label start gs s)
          (s.sync (c.now (s.bind w).1).1).1 tt synced.2 in
      let each : (g : Group)
          → Occurs g gs
          → Settled laws clock label start gs g.name (sync_with c i s w).1 =
        λ g o.
          let settled : _ =
            loop_settles laws clock label start gs gs (s.sync (c.now (s.bind w).1).1).1 0 wrote.0
              g.name begun (clock.now_utc (s.bind w).1 start started.1)
              (All-each (λ x. Occurs x gs) gs (λ x p. p)) wrote.1 (inr (g, o, refl)) in
          rw (bound.1, started.1, synced.1, wrote.1)
            (ending_settles laws clock label start gs s wrote.0 g.name
              (sync_groups c label gs 0 (s.sync (c.now (s.bind w).1).1).1).1 wrote.2 settled) in
      (
        start,
        gs,
        started.1,
        synced.1,
        All-each (λ g. Settled laws clock label start gs g.name (sync_with c i s w).1) gs each,
      )
