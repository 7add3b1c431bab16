-- ===== src/Controller/Safety.antt =====
-- A group that another provider manages, or none, is left alone.
use group_sync_operator.Prelude.{
  ℕ, ◌+◌, String, ◌≡◌, ◌≢◌, refl, sym, ap, ◌∙◌, Bool, true, false, none, some, List, [], ◌∷◌, Exec,
  Result, ok, err, panic, Error, ◌==◌, Bool-cases, inl, inr, All, is_api_not_found, holds,
  holds-eq_some, lift, ◌>>=◌, ==-eq_false,
}
use mathlib.Core.Option.{some-ne-none}
use group_sync_operator.Prelude.Keeps.{Keeps, Keeps-bind, Keeps-bind_from, keeps_rules}
use group_sync_operator.Prelude.Dict.{get}
use group_sync_operator.Constants.{sync_provider}
use group_sync_operator.Api.{GroupSync}
use group_sync_operator.Cluster.{Group, Stored, stored, Cluster, ClusterLaws, View, Metric}
use group_sync_operator.Syncer.{GroupSyncer}
use group_sync_operator.Controller.{
  claim, write_synced, write_claimed, sync_group, sync_groups, prune_group, prune_listed,
  prune_groups, prune_if, sync_with, new_group, provider_label,
}

-- What the calls of a syncer leave alone: they write no group.
pub record Reads {W : Type 0} (view : View W) (g : GroupSyncer W) : Type 0 where
  pub bind_keeps : (w : W) (m : String) → view (g.bind w).1 m ≡ view w m
  pub sync_keeps : (w : W) (m : String) → view (g.sync w).1 m ≡ view w m
  pub validate_keeps : (w : W) (m : String) → view (g.validate w).1 m ≡ view w m

module _ {W : Type 0} {c : Cluster W} {view : View W} (laws : ClusterLaws c view) (n : String)
    (s : Stored) where
  abbrev pub Holds : W → Type 0
  Holds w = view w n ≡ some s

  write-Keeps : (g : Group) → (g.name == n) ≡ false → Keeps Holds (c.write_group g)
  write-Keeps g ne = record { at = λ w h. laws.write_others g w n ne ∙ h }

  pub now-Keeps : Keeps Holds c.now
  now-Keeps = record { at = λ w h. laws.now_keeps w n ∙ h }

  delete-Keeps : (g : Group) → (g.name == n) ≡ false → Keeps Holds (c.delete_group g)
  delete-Keeps g ne = record { at = λ w h. laws.delete_others g w n ne ∙ h }

  pub count-Keeps : (p : String) (k : Metric) → Keeps Holds (c.count p k)
  count-Keeps p k = record { at = λ w h. laws.count_keeps p k w n ∙ h }

  pub write_synced-Keeps :
      (label : String) (group ocp : Group)
      → (ocp.name == n) ≡ false
      → Keeps Holds (write_synced c label group ocp)
  unfolding write_synced
  write_synced-Keeps label group ocp ne = search (keeps_rules, now-Keeps, write-Keeps)

  -- A group whose label is not the one in the view has another name.
  foreign-ne :
      (label : String) (w : W) (m : String) (g : Group)
      → get sync_provider s.labels ≢ some label
      → Holds w
      → view w m ≡ some (stored g)
      → get sync_provider g.labels ≡ some label
      → m ≢ n
  foreign-ne label w m g foreign h v l e =
      let same : s ≡ stored g = cc (h, ap (view w) e, v) in
      foreign (ap (λ (t : Stored). get sync_provider t.labels) same ∙ l)

  claim-keeps :
      (label : String) (group : Group) (w w' : W) (r : Result Group)
      → get sync_provider s.labels ≢ some label
      → Holds w
      → Holds w'
      → ((g : Group) → r ≡ ok g → (g.name ≡ group.name) × (view w group.name ≡ some (stored g)))
      → ((e : Error) → r ≡ err e → is_api_not_found e ≡ true → view w group.name ≡ none)
      → Holds ((lift (claim label group.name r) >>= write_claimed c label group) w').1
  unfolding claim write_claimed
  claim-keeps label group w w' (ok g) foreign h h' found missing =
      elim (Bool-cases (holds label (get sync_provider g.labels))) [
        | inl y ↦ rw y (
            (write_synced-Keeps label group g (
                ==-eq_false g.name n (λ e.
                  let (same, v) = found g refl in
                  foreign-ne label w group.name g foreign h v
                    (holds-eq_some label (get sync_provider g.labels) y) (sym same ∙ e)))).at
              w' h')
        | inr f ↦ rw f h'
      ]
  claim-keeps label group w w' (err e) foreign h h' found missing =
      elim (Bool-cases (is_api_not_found e)) [
        | inl y ↦ rw y (
            (write_synced-Keeps label group (new_group group.name) (
                ==-eq_false group.name n
                  (λ q. some-ne-none s (sym h ∙ ap (view w) (sym q) ∙ missing e refl y)))).at
              w' h')
        | inr f ↦ rw f h'
      ]
  claim-keeps label group w w' panic foreign h h' found missing = h'

  sync_group-Keeps :
      (label : String) (group : Group)
      → get sync_provider s.labels ≢ some label
      → Keeps Holds (sync_group c label group)
  unfolding sync_group
  sync_group-Keeps label group foreign = record {
    at = λ w h.
        claim-keeps label group w (c.get_group group.name w).1 (c.get_group group.name w).0 foreign
          h (laws.get_keeps group.name w n ∙ h) (laws.get_ok group.name w)
          (laws.get_not_found group.name w);
  }

  sync_groups-Keeps :
      (label : String) (gs : List Group) (updated : ℕ)
      → get sync_provider s.labels ≢ some label
      → Keeps Holds (sync_groups c label gs updated)
  unfolding sync_groups
  sync_groups-Keeps label [] updated foreign = search keeps_rules
  sync_groups-Keeps label (g ∷ gs) updated foreign =
      Keeps-bind (sync_group c label g) _ (sync_group-Keeps label g foreign)
        (λ k. sync_groups-Keeps label gs (updated + k) foreign)

  prune_group-Keeps :
      (start : String) (g : Group) → (g.name == n) ≡ false → Keeps Holds (prune_group c start g)
  unfolding prune_group
  prune_group-Keeps start g ne = search (keeps_rules, delete-Keeps)

  prune_listed-Keeps :
      (start : String) (gs : List Group) (pruned : ℕ)
      → All (λ g. (g.name == n) ≡ false) gs
      → Keeps Holds (prune_listed c start gs pruned)
  unfolding prune_listed
  prune_listed-Keeps start [] pruned ne = search keeps_rules
  prune_listed-Keeps start (g ∷ gs) pruned ne =
      Keeps-bind (prune_group c start g) _ (prune_group-Keeps start g ne.0)
        (λ k. prune_listed-Keeps start gs (pruned + k) ne.1)

  listed-ne :
      (label : String) (w : W) (gs : List Group)
      → get sync_provider s.labels ≢ some label
      → Holds w
      → All (λ g. (get sync_provider g.labels ≡ some label) × (view w g.name ≡ some (stored g))) gs
      → All (λ g. (g.name == n) ≡ false) gs
  listed-ne label w [] foreign h sound = tt
  listed-ne label w (g ∷ gs) foreign h sound = (
    ==-eq_false g.name n (foreign-ne label w g.name g foreign h sound.0.1 sound.0.0),
    listed-ne label w gs foreign h sound.1,
  )

  prune_groups-Keeps :
      (label start : String)
      → get sync_provider s.labels ≢ some label
      → Keeps Holds (prune_groups c label start)
  unfolding prune_groups
  prune_groups-Keeps label start foreign = record {
    at = λ w h.
        Keeps-bind_from Holds (c.list_groups sync_provider label) _ w
          (laws.list_keeps sync_provider label w n ∙ h)
          (λ gs e.
            (prune_listed-Keeps start gs 0
                (listed-ne label w gs foreign h (laws.list_sound sync_provider label w gs e))).at
              (c.list_groups sync_provider label w).1
              (laws.list_keeps sync_provider label w n ∙ h));
  }

  prune_if-Keeps : (b : Bool) (m : Exec W ℕ) → Keeps Holds m → Keeps Holds (prune_if c b m)
  prune_if-Keeps true m k = k
  prune_if-Keeps false m k = search keeps_rules

  module _ (g : GroupSyncer W) (reads : Reads view g) where
    bind-Keeps : Keeps Holds g.bind
    bind-Keeps = record { at = λ w h. reads.bind_keeps w n ∙ h }

    sync-Keeps : Keeps Holds g.sync
    sync-Keeps = record { at = λ w h. reads.sync_keeps w n ∙ h }

    pub sync_with-Keeps :
        (i : GroupSync)
        → get sync_provider s.labels ≢ some (provider_label i g.provider_name)
        → Keeps Holds (sync_with c i g)
    unfolding sync_with
    sync_with-Keeps i foreign =
        search
          (
            keeps_rules, bind-Keeps, sync-Keeps, now-Keeps, count-Keeps, prune_if-Keeps,
            sync_groups-Keeps, prune_groups-Keeps,
          )
          depth 14
