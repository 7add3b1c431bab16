-- ===== src/Ldap/Rfc2307/Listing.antt =====
-- The groups that `ListGroups` lists are cached for `GroupEntryFor`.
use group_sync_operator.Prelude.{
  String, ◌≡◌, refl, sym, some, List, [], ◌∷◌, ok, Bool-cases, Result-cases, ok-injective,
  >>=-eq_ok, inl, inr, ◌==◌, eq_of_==, Occurs, pure, ◌⊎◌, subst, ne_of_==,
}
use group_sync_operator.Prelude.Dict.{lookup, lookup-insert}
use group_sync_operator.Ldap.Directory.{Directory}
use group_sync_operator.Ldap.Rfc2307.{
  Rfc2307, Caches, group_uid, list_entries, list_groups, group_entry_for, group_attributes,
  remember_group,
}

module _ {E Q R : Type 0} (d : Directory E Q R) (a : Rfc2307 Q) where
  -- The entry is cached under its UID.
  IsCached : Caches E → String → Type 0
  IsCached s uid = (g : E) × (lookup uid s.cached_groups ≡ some g) × (group_uid d a g ≡ uid)

  remembered :
      (s : Caches E) (g : E) (uid : String)
      → (IsCached s uid) ⊎ (group_uid d a g ≡ uid)
      → IsCached (remember_group d a (group_uid d a g) g s).1 uid
  unfolding IsCached
  remembered s g uid h = elim (Bool-cases (group_uid d a g == uid)) [
    | inl y ↦ (
      g,
      rw (lookup-insert (group_uid d a g) uid g s.cached_groups, y) refl,
      eq_of_== (group_uid d a g) uid y,
    )
    | inr f ↦ elim h [
      | inl (b, q, u) ↦ (b, rw (lookup-insert (group_uid d a g) uid g s.cached_groups, f) q, u)
      | inr e ↦ absurd (ne_of_== (group_uid d a g) uid f e)
    ]
  ]

  carried :
      (s : Caches E) (g : E) (us : List String) (uid : String)
      → (IsCached s uid) ⊎ Occurs uid (group_uid d a g ∷ us)
      → IsCached (remember_group d a (group_uid d a g) g s).1 uid ⊎ Occurs uid us
  carried s g us uid c = elim c [
    | inl y ↦ inl (remembered s g uid (inl y))
    | inr o ↦ elim o [ inl e ↦ inl (remembered s g uid (inr e)) | inr r ↦ inr r ]
  ]

  listed_lem :
      (gs : List E) (s : Caches E) (uids : List String) (uid : String)
      → (list_entries d a gs s).0 ≡ ok uids
      → (IsCached s uid) ⊎ Occurs uid uids
      → IsCached (list_entries d a gs s).1 uid
  unfolding list_entries
  listed_lem [] s uids uid h c = elim c [
    | inl y ↦ y
    | inr o ↦ absurd (subst (λ l. Occurs uid l) (sym (ok-injective h)) o)
  ]
  listed_lem (g ∷ gs) s uids uid h c = elim (Bool-cases (group_uid d a g == "")) [
    | inl y ↦ absurd (let q : _ = rw (list_entries, y) at h in cc)
    | inr f ↦
        let (us, q, r) =
          >>=-eq_ok (list_entries d a gs) (λ us. pure (group_uid d a g ∷ us))
            (remember_group d a (group_uid d a g) g s).1 uids (rw (list_entries, f) at h) in
        rw (list_entries, f, q)
          (listed_lem gs (remember_group d a (group_uid d a g) g s).1 us uid q (
            carried s g us uid
              (subst (λ l. IsCached s uid ⊎ Occurs uid l) (sym (ok-injective r)) c)))
  ]

  cached-group_entry_for :
      (s : Caches E) (uid : String) (g : E)
      → lookup uid s.cached_groups ≡ some g
      → group_entry_for d a uid s ≡ (ok g, s)
  unfolding group_entry_for
  cached-group_entry_for s uid g h = rw (group_entry_for, h) refl

  -- After `ListGroups` succeeded, from whatever caches, `GroupEntryFor` answers for every UID that
  -- was listed without a query and without a change of the caches, with an entry that has this UID.
  pub list_groups-group_entry_for :
      (s : Caches E) (uids : List String) (uid : String)
      → (list_groups d a s).0 ≡ ok uids
      → Occurs uid uids
      → (g : E) × (group_entry_for d a uid (list_groups d a s).1 ≡ (ok g, (list_groups d a s).1))
        × (group_uid d a g ≡ uid)
  unfolding list_groups IsCached
  list_groups-group_entry_for s uids uid h o =
      elim (Result-cases
        (d.query_for_entries (d.new_search_request a.group_query.query (group_attributes d a)))) [
          | inl (gs, q) ↦
              let (g, found, named) = listed_lem gs s uids uid (rw (list_groups, q) at h) (inr o) in
              (
                g,
                rw (list_groups, q) (cached-group_entry_for (list_entries d a gs s).1 uid g found),
                named,
              )
          | inr (inl (e, q)) ↦ absurd (let z : _ = rw (list_groups, q) at h in cc)
          | inr (inr q) ↦ absurd (let z : _ = rw (list_groups, q) at h in cc)
        ]
