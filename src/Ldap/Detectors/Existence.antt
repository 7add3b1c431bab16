-- ===== src/Ldap/Detectors/Existence.antt =====
-- When a group is found to exist.
use group_sync_operator.Prelude.{
  String, ◌≡◌, ◌≢◌, ◌↔◌, refl, ap, ◌∙◌, Bool, true, ◌&&◌, List, [], ◌∷◌, ok, >>=-eq_ok,
  ok-injective, arith,
}
use group_sync_operator.Ldap.Detectors.{Detector, conclude, compound_detector}

and_true : (a b : Bool) → (a && b) ≡ true → (a ≡ true) × (b ≡ true)
and_true a b h = ground arith

module _ {S : Type 0} (uid : String) where
  -- Each detector, in the state that the ones before it left, says that the group exists.
  abbrev pub AllDetect : List (Detector S) → S → Type 0
  AllDetect [] s = Unit
  AllDetect (l ∷ ls) s = ((l uid s).0 ≡ ok true) × AllDetect ls (l uid s).1

  conclude-AllDetect :
      (ls : List (Detector S)) (b : Bool) (s : S)
      → (conclude ls uid b s).0 ≡ ok true
      → (b ≡ true) × AllDetect ls s
  unfolding conclude
  conclude-AllDetect [] b s h = (ok-injective h, tt)
  conclude-AllDetect (l ∷ ls) b s h =
      let (a, e, k) = >>=-eq_ok (l uid) (λ o. conclude ls uid (b && o)) s true h in
      let (both, rest) = conclude-AllDetect ls (b && a) (l uid s).1 k in
      let (p, q) = and_true b a both in (p, (e ∙ ap ok q, rest))

  AllDetect-conclude :
      (ls : List (Detector S)) (s : S) → AllDetect ls s → (conclude ls uid true s).0 ≡ ok true
  unfolding conclude
  AllDetect-conclude [] s h = refl
  AllDetect-conclude (l ∷ ls) s h = rw h.0 (AllDetect-conclude ls (l uid s).1 h.1)

  -- The compound detector says that a group exists exactly when it has a detector and all of its
  -- detectors, run in order, say so, none of them with an error.
  pub compound_detector_iff :
      (ls : List (Detector S)) (s : S)
      → ((compound_detector ls uid s).0 ≡ ok true) ↔ ((ls ≢ []) × AllDetect ls s)
  unfolding compound_detector
  compound_detector_iff [] s = (λ h. absurd (cc), λ h. absurd (h.0 refl))
  compound_detector_iff (l ∷ ls) s = (
    λ h. (λ e. cc, (conclude-AllDetect (l ∷ ls) true s h).1),
    λ h. AllDetect-conclude (l ∷ ls) s h.1,
  )
