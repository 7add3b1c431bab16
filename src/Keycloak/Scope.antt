-- ===== src/Keycloak/Scope.antt =====
-- Which groups are cached.
use group_sync_operator.Prelude.{
  String, ◌≡◌, refl, sym, ap, ◌∙◌, ◌==◌, Bool, true, false, ◌||◌, ◌&&◌, Option, none, some, List,
  [], ◌∷◌, arith, Bool-cases, Option-cases, inl, inr, if◌then◌else◌,
}
use group_sync_operator.Prelude.Dict.{contains, lookup-insert}
use group_sync_operator.Api.{KeycloakProvider, sub_sync_scope}
use group_sync_operator.Syncer.{is_group_allowed}
use group_sync_operator.Keycloak.{
  User, KeycloakGroup, KeycloakGroups, group, no_groups, add_group, group_id, group_name,
  KeycloakCache, cache_group, cache_members, add_to_parent, is_skipped, process_group,
  process_groups, process_all,
}

abbrev pub is_cached : String → KeycloakCache → Bool
is_cached k s = contains k s.groups

-- Is the group, or one below it, of that ID?
mutual
  pub within : String → KeycloakGroup → Bool
  within k (group id name attributes subs) = id == k || within_any k subs

  pub within_any : String → KeycloakGroups → Bool
  within_any k no_groups = false
  within_any k (add_group g gs) = within k g || within_any k gs

module _ (p : KeycloakProvider) (get_members : String → Option (List User)) where
  cache_members-groups :
      (id : String) (parent : Option String) (us : List User) (s : KeycloakCache)
      → (cache_members id parent us s).groups ≡ s.groups
  unfolding add_to_parent
  cache_members-groups id none us s = refl
  cache_members-groups id (some parent) us s = refl

  cache_group-is_cached :
      (k : String) (g : KeycloakGroup) (s : KeycloakCache)
      → is_cached k (cache_group g s) ≡ (group_id g == k || is_cached k s)
  cache_group-is_cached k g s = elim (Bool-cases (group_id g == k)) [
    | inl y ↦ rw (lookup-insert (group_id g) k g s.groups, y) refl
    | inr f ↦ rw (lookup-insert (group_id g) k g s.groups, f) refl
  ]

  read-is_cached :
      (k : String) (g : KeycloakGroup) (parent : Option String) (us : List User) (s : KeycloakCache)
      → is_cached k (cache_members (group_id g) parent us (cache_group g s))
        ≡ (group_id g == k || is_cached k s)
  read-is_cached k g parent us s =
      ap (λ m. contains k m) (cache_members-groups (group_id g) parent us (cache_group g s))
      ∙ cache_group-is_cached k g s

  widen :
      (k id : String) (cached below : Bool)
      → ((id == k || cached) || below) ≡ true
      → (cached || (id == k || below)) ≡ true
  widen k id cached below h = ground arith

  narrow :
      (k id : String) (cached below : Bool)
      → (id == k || cached) ≡ true
      → (cached || (id == k || below)) ≡ true
  narrow k id cached below h = ground arith

  skip_first : (a b c : Bool) → (a || c) ≡ true → (a || (b || c)) ≡ true
  skip_first a b c h = ground arith

  combine :
      (a t b c : Bool) → (t ≡ true → (a || b) ≡ true) → (t || c) ≡ true → (a || (b || c)) ≡ true
  combine a true b c h r = let q : _ = h refl in ground arith
  combine a false b c h r = ground arith

  or_true : (a b : Bool) → a ≡ true → (a || b) ≡ true
  or_true a b h = ground arith

  -- A turn of a loop that goes on from `s` or from `t`.
  either_way :
      (b : Bool) (s t : KeycloakCache) (k : String) (here later : Bool)
      (next : KeycloakCache → KeycloakCache)
      → ((u : KeycloakCache) → is_cached k (next u) ≡ true → (is_cached k u || later) ≡ true)
      → (is_cached k t ≡ true → (is_cached k s || here) ≡ true)
      → is_cached k (next (if b then s else t)) ≡ true
      → (is_cached k s || (here || later)) ≡ true
  either_way true s t k here later next rest turn h =
      skip_first (is_cached k s) here later (rest s h)
  either_way false s t k here later next rest turn h =
      combine (is_cached k s) (is_cached k t) here later turn (rest t h)

  mutual
    unfolding process_group within

    process_group-within :
        (g : KeycloakGroup) (parent : Option String) (s : KeycloakCache) (k : String)
        → is_cached k (process_group p get_members g parent s) ≡ true
        → (is_cached k s || within k g) ≡ true
    process_group-within (group id name attributes subs) parent s k h =
        let g : KeycloakGroup = group id name attributes subs in
        elim (Bool-cases (is_skipped p get_members parent name)) [
          | inl y ↦ or_true (is_cached k s) (within k g) (rw (process_group, y) at h)
          | inr f ↦ elim (Option-cases (get_members id)) [
            | inl q ↦
                narrow k id (is_cached k s) (within_any k subs)
                  (sym (cache_group-is_cached k g s) ∙ (rw (process_group, f, q) at h))
            | inr (us, q) ↦ elim (Bool-cases (p.scope == sub_sync_scope)) [
              | inr n ↦
                  narrow k id (is_cached k s) (within_any k subs)
                    (sym (read-is_cached k g parent us s) ∙ (rw (process_group, f, q, n) at h))
              | inl z ↦ widen k id (is_cached k s) (within_any k subs) (
                  rw (read-is_cached k g parent us s) at (
                    process_groups-within subs id (cache_members id parent us (cache_group g s)) k
                      (rw (process_group, f, q, z) at h)))
            ]
          ]
        ]

    process_groups-within :
        (gs : KeycloakGroups) (parent : String) (s : KeycloakCache) (k : String)
        → is_cached k (process_groups p get_members gs parent s) ≡ true
        → (is_cached k s || within_any k gs) ≡ true
    process_groups-within no_groups parent s k h = or_true (is_cached k s) false h
    process_groups-within (add_group g gs) parent s k h =
        either_way (contains (group_id g) s.groups) s
          (process_group p get_members g (some parent) s) k (within k g) (within_any k gs)
          (λ u. process_groups p get_members gs parent u) (λ u. process_groups-within gs parent u k)
          (process_group-within g (some parent) s k) h

  -- Is the group, or one below it, of that ID, and the group's name allowed?
  abbrev pub reachable : String → List KeycloakGroup → Bool
  reachable k [] = false
  reachable k (g ∷ gs) = (is_group_allowed (group_name g) p.groups && within k g) || reachable k gs

  top-within :
      (g : KeycloakGroup) (s : KeycloakCache) (k : String)
      → is_cached k (process_group p get_members g none s) ≡ true
      → (is_cached k s || (is_group_allowed (group_name g) p.groups && within k g)) ≡ true
  unfolding process_group
  top-within (group id name attributes subs) s k h =
      elim (Bool-cases (is_group_allowed name p.groups)) [
        | inl y ↦ rw y (process_group-within (group id name attributes subs) none s k h)
        | inr f ↦ or_true (is_cached k s) _ (rw (process_group, f) at h)
      ]

  -- After all the groups of Keycloak are processed, a group that is in the cache was there before,
  -- or it is a top-level group whose name is allowed, or a group below one.
  pub process_all_sound :
      (gs : List KeycloakGroup) (s : KeycloakCache) (k : String)
      → is_cached k (process_all p get_members gs s) ≡ true
      → (is_cached k s || reachable k gs) ≡ true
  unfolding process_all
  process_all_sound [] s k h = or_true (is_cached k s) false h
  process_all_sound (g ∷ gs) s k h =
      either_way (contains (group_id g) s.groups) s (process_group p get_members g none s) k
        (is_group_allowed (group_name g) p.groups && within k g) (reachable k gs)
        (λ u. process_all p get_members gs u) (λ u. process_all_sound gs u k) (top-within g s k) h
