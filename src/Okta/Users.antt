-- ===== src/Okta/Users.antt =====
-- Which groups are cached.
use group_sync_operator.Prelude.{
  String, ◌≡◌, refl, sym, ◌∙◌, ◌==◌, Bool, true, false, ◌||◌, ◌&&◌, List, [], ◌∷◌, Option, none,
  some, Bool-cases, inl, inr, arith, eq_of_==,
}
use group_sync_operator.Prelude.Dict.{Dict, insert, contains, lookup-insert}
use group_sync_operator.Api.{OktaProvider}
use group_sync_operator.Syncer.{is_group_allowed}
use group_sync_operator.Okta.{
  OktaGroup, OktaUser, OktaCache, with_users, process_okta_group, process_okta_groups,
}

-- Is one of the groups of that ID, and is its name allowed?
abbrev pub has_allowed : OktaProvider → String → List OktaGroup → Bool
has_allowed p k [] = false
has_allowed p k (g ∷ gs) = (g.id == k && is_group_allowed g.name p.groups) || has_allowed p k gs

module _ (p : OktaProvider) (list_users : String → Option (List OktaUser)) where
  with_users-groups :
      (id : String) (r : Option (List OktaUser)) (s : OktaCache)
      → (with_users p list_users id r s).groups ≡ s.groups
  with_users-groups id (some us) s = refl
  with_users-groups id none s = refl

  contains-insert :
      (g : OktaGroup) (k : String) (m : Dict OktaGroup)
      → contains k (insert g.id g m) ≡ (g.id == k || contains k m)
  contains-insert g k m = elim (Bool-cases (g.id == k)) [
    | inl y ↦ rw (lookup-insert g.id k g m, y) refl
    | inr f ↦ rw (lookup-insert g.id k g m, f) refl
  ]

  contains-process_okta_group :
      (g : OktaGroup) (s : OktaCache) (k : String)
      → contains k (process_okta_group p list_users g s).groups
        ≡ (contains k s.groups || (g.id == k && is_group_allowed g.name p.groups))
  unfolding process_okta_group
  contains-process_okta_group g s k = elim (Bool-cases (is_group_allowed g.name p.groups)) [
    | inl y ↦
        rw
          (
            y,
            with_users-groups g.id (list_users g.id) (record s { groups = insert g.id g s.groups }),
            contains-insert g k s.groups,
          )
          (ground arith)
    | inr f ↦ rw f (ground arith)
  ]

  already :
      (g : OktaGroup) (s : OktaCache) (k : String)
      → contains g.id s.groups ≡ true
      → contains k s.groups
        ≡ (contains k s.groups || (g.id == k && is_group_allowed g.name p.groups))
  already g s k y = elim (Bool-cases (g.id == k)) [
    | inl e ↦ rw (sym (eq_of_== g.id k e), y) refl
    | inr f ↦ rw f (ground arith)
  ]

  -- After the groups of Okta are processed, a group is in the cache exactly if it was there before
  -- or one of the groups has its ID and an allowed name, also where its users are not read.
  pub process_okta_groups_lem :
      (gs : List OktaGroup) (s : OktaCache) (k : String)
      → contains k (process_okta_groups p list_users gs s).groups
        ≡ (contains k s.groups || has_allowed p k gs)
  unfolding process_okta_groups
  process_okta_groups_lem [] s k = ground arith
  process_okta_groups_lem (g ∷ gs) s k = elim (Bool-cases (contains g.id s.groups)) [
    | inl y ↦
        let here : _ = already g s k y in
        rw (process_okta_groups, y) (process_okta_groups_lem gs s k ∙ ground arith)
    | inr f ↦
        rw (process_okta_groups, f)
          (process_okta_groups_lem gs (process_okta_group p list_users g s) k
            ∙ rw (contains-process_okta_group g s k) (ground arith))
  ]
