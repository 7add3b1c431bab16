-- ===== src/Ldap/AugmentedAd/Exists.antt =====
-- When a group of an augmented Active Directory exists.
use group_sync_operator.Prelude.{
  String, ◌≡◌, ◌↔◌, refl, ap, ◌∙◌, Bool, true, not, some, List, [], ◌∷◌, Result, ok, err, panic,
  is_empty, is_some, pure, >>=-eq_ok, ok-injective, Bool-cases, inl, inr,
}
use group_sync_operator.Ldap.Directory.{Directory}
use group_sync_operator.Ldap.Detectors.{
  is_absent, existence, group_based_detector, member_based_detector,
}
use group_sync_operator.Ldap.Detectors.Existence.{compound_detector_iff}
use group_sync_operator.Ldap.AugmentedAd.{
  AugmentedConfig, AugmentedCache, augmented_entry_for, augmented_entry, augmented_members,
  augmented_exists,
}

existence-eq_true {ℓ} :
    {A : Type ℓ} (test : A → Bool) (r : Result A)
    → existence test r ≡ ok true
    → (a : A) × (r ≡ ok a) × (test a ≡ true)
existence-eq_true test (ok a) h = (a, refl, ok-injective h)
existence-eq_true test (err e) h = elim (Bool-cases (is_absent e)) [
  | inl y ↦ absurd (let q : _ = rw y at h in cc)
  | inr f ↦ absurd (let q : _ = rw f at h in cc)
]
existence-eq_true test panic h = absurd (cc)

not_empty :
    {A : Type 0} (xs : List A)
    → not (is_empty xs) ≡ true
    → (x : A) × (rest : List A) × (xs ≡ x ∷ rest)
not_empty [] h = absurd (cc)
not_empty (x ∷ xs) h = (x, xs, refl)

module _ {E Q R : Type 0} (d : Directory E Q R) (a : AugmentedConfig Q) where
  -- After the group's entry is looked up, the caches are those that the lookup left.
  abbrev pub looked_up : String → AugmentedCache E → AugmentedCache E
  looked_up uid s = (augmented_entry d a uid s).1

  -- A group is found to exist exactly when its entry is found and then at least one member is
  -- extracted for it, neither with an error.
  augmented_exists_iff :
      (uid : String) (s : AugmentedCache E)
      → ((augmented_exists d a uid s).0 ≡ ok true) ↔ (
          ((g : E) × ((augmented_entry_for d a uid s).0 ≡ ok g))
          × ((m : E) × (ms : List E) × ((augmented_members d a uid (looked_up uid s)).0
                ≡ ok (m ∷ ms))))
  unfolding augmented_exists group_based_detector member_based_detector
  augmented_exists_iff uid s =
      let both : _ =
        compound_detector_iff uid
          (group_based_detector (augmented_entry d a)
            ∷ member_based_detector (augmented_members d a)
            ∷ [])
          s in
      (
        λ h.
            let (_, (g, (m, _))) = both.0 h in
            let (o, p, q) = existence-eq_true is_some (augmented_entry d a uid s).0 g in
            let (e, r, t) = >>=-eq_ok (augmented_entry_for d a uid) (λ g. pure (some g)) s o p in
            let (ms, p', q') =
              existence-eq_true (λ es. not (is_empty es))
                (augmented_members d a uid (looked_up uid s)).0 m in
            let (x, rest, same) = not_empty ms q' in ((e, r), (x, rest, p' ∙ ap (λ z. ok z) same)),
        λ ((g, p), (m, ms, q)). both.1 (λ e. cc, (rw p refl, (rw q refl, tt))),
      )
