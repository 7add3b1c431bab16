-- ===== src/Controller/Prune.antt =====
-- A pruning that succeeds deletes exactly the provider's groups with a time stamp before the start.
use group_sync_operator.Prelude.{
  ℕ, ◌+◌, String, ◌≡◌, refl, sym, ap, ◌∙◌, subst, Bool, true, false, ◌&&◌, false≢true, Option, none,
  some, List, [], ◌∷◌, ok, ◌==◌, str_ltb, Bool-cases, inl, inr, ◌⊎◌, if◌then◌else◌, holds,
  holds-eq_some, holds-some, pure, ◌>>=◌, >>=-eq_ok, >>=-pure, All, Occurs, All-Occurs, eq_of_==,
}
use group_sync_operator.Prelude.Keeps.{Keeps-bind_from}
use group_sync_operator.Prelude.Dict.{get, get_or_empty}
use group_sync_operator.Constants.{sync_provider, sync_timestamp}
use group_sync_operator.Cluster.{Group, Stored, stored, Cluster, ClusterLaws, View}
use group_sync_operator.Controller.{prune_group, prune_listed, prune_groups}

-- Is the time stamp before the start, as a string? A missing one is the empty string.
abbrev pub stale : String → Stored → Bool
stale start s = str_ltb (get_or_empty sync_timestamp s.annotations) start

-- What is left of a group.
abbrev pub pruned : String → String → Option Stored → Option Stored
pruned label start none = none
pruned label start (some s) =
    if holds label (get sync_provider s.labels) && stale start s then none else some s

module _ {W : Type 0} {c : Cluster W} {view : View W} (laws : ClusterLaws c view)
    (n start : String) where
  -- The group is not the one of that name, or it is not stale.
  abbrev Spared : Group → Type 0
  Spared g = ((g.name == n) ≡ false) ⊎ (stale start (stored g) ≡ false)

  prune_group-Spared :
      (g : Group) (w : W) → Spared g → view (prune_group c start g w).1 n ≡ view w n
  unfolding prune_group
  prune_group-Spared g w spared = elim (Bool-cases (stale start (stored g))) [
    | inl y ↦
        rw (y, >>=-pure {B = ℕ} (c.delete_group g) 1 w)
          (elim spared [
            | inl ne ↦ laws.delete_others g w n ne
            | inr f ↦ absurd (false≢true (sym f ∙ y))
          ])
    | inr f ↦ rw f
  ]

  deleted :
      (g : Group) (w : W) (k : ℕ)
      → ((c.delete_group g >>= λ _. pure 1) w).0 ≡ ok k
      → view (c.delete_group g w).1 g.name ≡ none
  deleted g w k h =
      let (u, e, _) = >>=-eq_ok (c.delete_group g) (λ _. pure 1) w k h in laws.delete_ok g w e

  prune_group-none :
      (g : Group) (w : W) (k : ℕ)
      → (prune_group c start g w).0 ≡ ok k
      → view w n ≡ none
      → view (prune_group c start g w).1 n ≡ none
  unfolding prune_group
  prune_group-none g w k h e = elim (Bool-cases (stale start (stored g))) [
    | inl y ↦
        rw (y, >>=-pure {B = ℕ} (c.delete_group g) 1 w)
          (elim (Bool-cases (g.name == n)) [
            | inl same ↦
                subst (λ m. view (c.delete_group g w).1 m ≡ none) (eq_of_== g.name n same)
                  (deleted g w k (rw y at h))
            | inr ne ↦ laws.delete_others g w n ne ∙ e
          ])
    | inr f ↦ rw f e
  ]

  prune_group-stale :
      (g : Group) (w : W) (k : ℕ)
      → (prune_group c start g w).0 ≡ ok k
      → g.name ≡ n
      → stale start (stored g) ≡ true
      → view (prune_group c start g w).1 n ≡ none
  unfolding prune_group
  prune_group-stale g w k h e y =
      rw (y, >>=-pure {B = ℕ} (c.delete_group g) 1 w)
        (subst (λ m. view (c.delete_group g w).1 m ≡ none) e (deleted g w k (rw y at h)))

  prune_listed-Spared :
      (gs : List Group) (w : W) (count : ℕ)
      → All Spared gs
      → view (prune_listed c start gs count w).1 n ≡ view w n
  unfolding prune_listed
  prune_listed-Spared [] w count h = refl
  prune_listed-Spared (g ∷ gs) w count h =
      let spared : view (prune_group c start g w).1 n ≡ view w n = prune_group-Spared g w h.0 in
      Keeps-bind_from (λ v. view v n ≡ view w n) (prune_group c start g) _ w spared
        (λ j e. prune_listed-Spared gs (prune_group c start g w).1 (count + j) h.1 ∙ spared)

  prune_listed-none :
      (gs : List Group) (w : W) (count k : ℕ)
      → (prune_listed c start gs count w).0 ≡ ok k
      → view w n ≡ none
      → view (prune_listed c start gs count w).1 n ≡ none
  unfolding prune_listed
  prune_listed-none [] w count k h e = e
  prune_listed-none (g ∷ gs) w count k h e =
      let (m, a, b) =
        >>=-eq_ok (prune_group c start g) (λ j. prune_listed c start gs (count + j)) w k h in
      rw a (
        prune_listed-none gs (prune_group c start g w).1 (count + m) k b
          (prune_group-none g w m a e))

  prune_listed-stale :
      (gs : List Group) (w : W) (count k : ℕ) (g : Group)
      → (prune_listed c start gs count w).0 ≡ ok k
      → Occurs g gs
      → g.name ≡ n
      → stale start (stored g) ≡ true
      → view (prune_listed c start gs count w).1 n ≡ none
  unfolding prune_listed
  prune_listed-stale [] w count k g h o e y = absurd o
  prune_listed-stale (x ∷ gs) w count k g h o e y =
      let (m, a, b) =
        >>=-eq_ok (prune_group c start x) (λ j. prune_listed c start gs (count + j)) w k h in
      let w' = (prune_group c start x w).1 in
      rw a (elim o [
        | inl q ↦ prune_listed-none gs w' (count + m) k b (
            prune_group-stale x w m a (ap (λ (t : Group). t.name) q ∙ e)
              (ap (λ (t : Group). stale start (stored t)) q ∙ y))
        | inr r ↦ prune_listed-stale gs w' (count + m) k g b r e y
      ])

  module _ (label : String) (w : W) where
    abbrev Listed : List Group → Type 0
    Listed gs =
        All (λ g. (get sync_provider g.labels ≡ some label) × (view w g.name ≡ some (stored g))) gs

    spare_each :
        (gs : List Group)
        → ((g : Group)
            → view w g.name ≡ some (stored g)
            → get sync_provider g.labels ≡ some label
            → Spared g)
        → Listed gs
        → All Spared gs
    spare_each [] spare h = tt
    spare_each (g ∷ gs) spare h = (spare g h.0.1 h.0.0, spare_each gs spare h.1)

    same_stored :
        (g : Group) (s : Stored)
        → view w g.name ≡ some (stored g)
        → view w n ≡ some s
        → g.name ≡ n
        → stored g ≡ s
    same_stored g s v h q = let e : view w g.name ≡ view w n = ap (view w) q in cc (v, h, e)

    -- A group of that name has the properties of what is kept under it.
    spare_if : (g : Group) → (g.name ≡ n → stale start (stored g) ≡ false) → Spared g
    spare_if g fresh = elim (Bool-cases (g.name == n)) [
      | inl q ↦ inr (fresh (eq_of_== g.name n q))
      | inr ne ↦ inl ne
    ]

    -- After the groups with the label were listed at `w`, from a state with the same groups.
    pruned_lem :
        (gs : List Group) (w' : W) (k : ℕ) (o : Option Stored)
        → view w n ≡ o
        → view w' n ≡ o
        → Listed gs
        → ((s : Stored)
            → view w n ≡ some s
            → get sync_provider s.labels ≡ some label
            → (g : Group) × (g.name ≡ n) × Occurs g gs)
        → (prune_listed c start gs 0 w').0 ≡ ok k
        → view (prune_listed c start gs 0 w').1 n ≡ pruned label start o
    pruned_lem gs w' k none h h' listed complete run = prune_listed-none gs w' 0 k run h'
    pruned_lem gs w' k (some s) h h' listed complete run =
        elim (Bool-cases (holds label (get sync_provider s.labels))) [
          | inr f ↦ rw f (
              prune_listed-Spared gs w' 0 (
                spare_each gs
                  (λ g v l. spare_if g λ q.
                    let e : stored g ≡ s = same_stored g s v h q in
                    absurd (
                      false≢true (
                        sym f
                        ∙ holds-some label (get sync_provider s.labels)
                            (ap (λ (t : Stored). get sync_provider t.labels) (sym e) ∙ l))))
                  listed)
              ∙ h')
          | inl y ↦ elim (Bool-cases (stale start s)) [
            | inr f ↦
                rw (y, f)
                  (prune_listed-Spared gs w' 0 (
                      spare_each gs
                        (λ g v l. spare_if g λ q. ap (stale start) (same_stored g s v h q) ∙ f)
                        listed)
                    ∙ h')
            | inl z ↦
                let (g, q, o) = complete s h (holds-eq_some label (get sync_provider s.labels) y) in
                let v =
                  (All-Occurs
                    (λ g.
                      (get sync_provider g.labels ≡ some label) × (view w g.name ≡ some (stored g)))
                    g gs listed o).1 in
                rw (y, z)
                  (prune_listed-stale gs w' 0 k g run o q
                    (ap (stale start) (same_stored g s v h q) ∙ z))
          ]
        ]

  -- A pruning that succeeds leaves under every name what was there, except that a group is gone if
  -- it has the provider's label and its time stamp is before the start (as a string; the empty one
  -- if there is none).
  pub prune_groups_result :
      (label : String) (w : W) (k : ℕ)
      → (prune_groups c label start w).0 ≡ ok k
      → view (prune_groups c label start w).1 n ≡ pruned label start (view w n)
  unfolding prune_groups
  prune_groups_result label w k h =
      let (gs, e, run) =
        >>=-eq_ok (c.list_groups sync_provider label) (λ gs. prune_listed c start gs 0) w k h in
      let w' = (c.list_groups sync_provider label w).1 in
      rw e (
        pruned_lem label w gs w' k (view w n) refl (laws.list_keeps sync_provider label w n)
          (laws.list_sound sync_provider label w gs e)
          (λ s v l. laws.list_complete sync_provider label w gs n s e v l) run)
