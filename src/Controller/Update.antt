-- ===== src/Controller/Update.antt =====
-- What a turn of the loop over the groups writes.
use group_sync_operator.Prelude.{
  ℕ, String, ◌≡◌, ◌≢◌, refl, sym, ◌∙◌, true, false, Option, none, some, [], Exec, Result, ok, err,
  panic, Error, ◌==◌, Bool-cases, inl, inr, ◌⊎◌, eq_refl, is_api_not_found, holds, holds-eq_some,
  holds-some, lift, pure, ◌>>=◌, >>=-eq_ok, ok-injective, subst, false≢true,
}
use group_sync_operator.Prelude.Dict.{Dict, GoMap, get, lookup, insert, lookup-insert, assign}
use group_sync_operator.Constants.{sync_provider, sync_timestamp}
use group_sync_operator.Timestamp.{Time, iso8601}
use group_sync_operator.Cluster.{Group, Stored, stored, Cluster, ClusterLaws, View}
use group_sync_operator.Controller.{
  merge_map, or_made, claim, write_synced, write_claimed, sync_group, new_group,
}
use group_sync_operator.Controller.Merge.{over, get-merge_map}

abbrev entries : GoMap → Dict String
entries none = []
entries (some m) = m

-- Two maps merged, with one key set.
set_over : String → String → GoMap → GoMap → GoMap
set_over k v old new = some (insert k v (entries (merge_map old (or_made new))))

-- The write to a merged map does not panic.
assign-merge_map :
    (k v : String) (old new : GoMap)
    → assign k v (merge_map old (or_made new)) ≡ ok (set_over k v old new)
unfolding merge_map set_over
assign-merge_map k v none none = refl
assign-merge_map k v none (some m) = refl
assign-merge_map k v (some l) none = refl
assign-merge_map k v (some l) (some m) = refl

get-entries : (k : String) (m : GoMap) → lookup k (entries m) ≡ get k m
get-entries k none = refl
get-entries k (some m) = refl

get-or_made : (k : String) (m : GoMap) → get k (or_made m) ≡ get k m
get-or_made k none = refl
get-or_made k (some m) = refl

get-set_over_self : (k v : String) (old new : GoMap) → get k (set_over k v old new) ≡ some v
unfolding set_over
get-set_over_self k v old new = simp (lookup-insert, eq_refl)

get-set_over_ne :
    (k j v : String) (old new : GoMap)
    → (k == j) ≡ false
    → get j (set_over k v old new) ≡ over (get j old) (get j new)
unfolding set_over
get-set_over_ne k j v old new ne = simp (lookup-insert, ne, get-entries, get-merge_map, get-or_made)

-- The group that is written.
stamped : String → Group → Group → Time → Group
stamped label group ocp t = record ocp {
  labels = set_over sync_provider label ocp.labels group.labels;
  annotations = set_over sync_timestamp (iso8601 t) ocp.annotations group.annotations;
  users = group.users;
}

-- How `new` comes from the group that the provider returned, what the clock answered and what the
-- cluster had before.
pub record IsSynced (label : String) (clock : Result Time) (group : Group) (old new : Stored)
    : Type 0 where
  pub users : new.users ≡ group.users
  pub provider : get sync_provider new.labels ≡ some label
  pub labels :
      (k : String)
      → (sync_provider == k) ≡ false
      → get k new.labels ≡ over (get k old.labels) (get k group.labels)
  pub annotations :
      (k : String)
      → (sync_timestamp == k) ≡ false
      → get k new.annotations ≡ over (get k old.annotations) (get k group.annotations)
  pub time : Time
  pub read : clock ≡ ok time
  pub timestamp : get sync_timestamp new.annotations ≡ some (iso8601 time)

IsSynced-stamped :
    (label : String) (group ocp : Group) (t : Time)
    → IsSynced label (ok t) group (stored ocp) (stored (stamped label group ocp t))
unfolding stamped
IsSynced-stamped label group ocp t = record {
  users = refl;
  provider = get-set_over_self sync_provider label ocp.labels group.labels;
  labels = λ k ne. get-set_over_ne sync_provider k label ocp.labels group.labels ne;
  annotations =
      λ k ne. get-set_over_ne sync_timestamp k (iso8601 t) ocp.annotations group.annotations ne;
  time = t;
  read = refl;
  timestamp = get-set_over_self sync_timestamp (iso8601 t) ocp.annotations group.annotations;
}

-- What a provider may write over: nothing, or a group with its label.
abbrev pub Claimable : String → Option Stored → Type 0
Claimable label none = Unit
Claimable label (some s) = get sync_provider s.labels ≡ some label

abbrev pub or_blank : Option Stored → Stored
or_blank none = record { labels = none; annotations = none; users = [] }
or_blank (some s) = s

-- How one turn of the loop that returned `k` has changed what is kept under the group's name.
abbrev pub Turn : String → Result Time → Group → ℕ → Option Stored → Option Stored → Type 0
Turn label clock group k before after =
    ((k ≡ 0)
      × (s : Stored) × (before ≡ some s)
      × (get sync_provider s.labels ≢ some label)
      × (after ≡ some s))
    ⊎ ((k ≡ 1)
        × (s : Stored) × (after ≡ some s)
        × Claimable label before
        × IsSynced label clock group (or_blank before) s)

module _ {W : Type 0} {c : Cluster W} {view : View W} (laws : ClusterLaws c view) where
  write_synced-eq :
      (label : String) (group ocp : Group) (w : W)
      → write_synced c label group ocp w
        ≡ (c.now >>= λ t. c.write_group (stamped label group ocp t) >>= λ _. pure 1) w
  unfolding write_synced stamped
  write_synced-eq label group ocp w = simp assign-merge_map

  write_synced_result :
      (label : String) (group ocp : Group) (w : W) (k : ℕ)
      → (write_synced c label group ocp w).0 ≡ ok k
      → (k ≡ 1)
        × (s : Stored) × (view (write_synced c label group ocp w).1 ocp.name ≡ some s)
        × IsSynced label (c.now w).0 group (stored ocp) s
  write_synced_result label group ocp w k h =
      let m : Time → Exec W ℕ = λ t. c.write_group (stamped label group ocp t) >>= λ _. pure 1 in
      let h' : ((c.now >>= m) w).0 ≡ ok k = rw (write_synced-eq label group ocp w) at h in
      let (t, e, f) = >>=-eq_ok c.now m w k h' in
      let (u, d, g) =
        >>=-eq_ok (c.write_group (stamped label group ocp t)) (λ _. pure 1) (c.now w).1 k f in
      let v : view (c.write_group (stamped label group ocp t) (c.now w).1).1 ocp.name
          ≡ some (stored (stamped label group ocp t)) =
        unfold stamped in laws.write_ok (stamped label group ocp t) (c.now w).1 d in
      rw (write_synced-eq label group ocp w) (
        rw (e, d)
          (
            sym (ok-injective g),
            stored (stamped label group ocp t),
            v,
            IsSynced-stamped label group ocp t,
          ))

  claim_result :
      (label : String) (group : Group) (w w' : W) (r : Result Group) (k : ℕ)
      → ((g : Group) → r ≡ ok g → (g.name ≡ group.name) × (view w group.name ≡ some (stored g)))
      → ((e : Error) → r ≡ err e → is_api_not_found e ≡ true → view w group.name ≡ none)
      → view w' group.name ≡ view w group.name
      → ((lift (claim label group.name r) >>= write_claimed c label group) w').0 ≡ ok k
      → Turn label
          (c.now w').0
          group
          k
          (view w group.name)
          (view ((lift (claim label group.name r) >>= write_claimed c label group) w').1 group.name)
  unfolding claim write_claimed
  claim_result label group w w' (ok g) k found missing same h =
      let (e, v) = found g refl in
      elim (Bool-cases (holds label (get sync_provider g.labels))) [
        | inl y ↦
            let (one, s, v', synced) = write_synced_result label group g w' k (rw y at h) in
            rw (y, v)
              (inr (
                one,
                s,
                subst (λ m. view (write_synced c label group g w').1 m ≡ some s) e v',
                holds-eq_some label (get sync_provider g.labels) y,
                synced,
              ))
        | inr f ↦
            rw (f, v)
              (inl (
                sym (ok-injective (rw f at h)),
                stored g,
                refl,
                (λ l. false≢true (sym f ∙ holds-some label (get sync_provider g.labels) l)),
                same ∙ v,
              ))
      ]
  claim_result label group w w' (err e) k found missing same h =
      elim (Bool-cases (is_api_not_found e)) [
        | inl y ↦
            let (one, s, v', synced) =
              write_synced_result label group (new_group group.name) w' k (rw y at h) in
            rw (y, missing e refl y) (inr (one, s, v', tt, synced))
        | inr f ↦ absurd (let q : _ = rw f at h in cc)
      ]
  claim_result label group w w' panic k found missing same h = absurd (cc)

  -- A turn of the loop over a provider's groups that succeeds with the count 0 found a group of
  -- that name without this provider's label, and left it as it was. One that succeeds with the
  -- count 1 found no group or one with the label, and the group now has the users that the provider
  -- returned, the provider's label, the time that the clock answered, and at every other key the value that the provider
  -- returned or, failing that, the one that the group had.
  pub sync_group_result :
      (label : String) (group : Group) (w : W) (k : ℕ)
      → (sync_group c label group w).0 ≡ ok k
      → Turn label
          (c.now (c.get_group group.name w).1).0
          group
          k
          (view w group.name)
          (view (sync_group c label group w).1 group.name)
  unfolding sync_group
  sync_group_result label group w k h =
      claim_result label group w (c.get_group group.name w).1 (c.get_group group.name w).0 k
        (laws.get_ok group.name w) (laws.get_not_found group.name w)
        (laws.get_keeps group.name w group.name) h
