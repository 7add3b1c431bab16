-- ===== src/Ldap/Detectors.antt =====
-- pkg/provider/ldap/helpers/groupdetector/groupdetector.go.
pub mod Existence
use group_sync_operator.Prelude.{
  String, Bool, true, false, ◌||◌, ◌&&◌, Option, none, some, List, [], ◌∷◌, Exec, Result, ok, err,
  panic, Error, is_query_out_of_bounds, is_entry_not_found, is_no_such_object, is_empty, is_some,
  not, if◌then◌else◌, pure, raise, lift, ◌>>=◌,
}

-- The interface `LDAPGroupDetector`, on the state that the detectors share.
abbrev pub Detector : Type 0 → Type 0
Detector S = String → Exec S Bool

-- An error that says that there is no such entry.
abbrev pub is_absent : Error → Bool
is_absent e = is_query_out_of_bounds e || (is_entry_not_found e || is_no_such_object e)

abbrev pub existence {ℓ} : {A : Type ℓ} → (A → Bool) → Result A → Result Bool
existence test (ok a) = ok (test a)
existence test (err e) = if is_absent e then ok false else err e
existence test panic = panic

module _ {S E : Type 0} where
  -- `GroupBasedDetector.Exists`; the getter returns a pointer.
  unfoldable pub group_based_detector : (String → Exec S (Option E)) → Detector S
  group_based_detector group_entry_for uid s =
      (existence is_some (group_entry_for uid s).0, (group_entry_for uid s).1)

  -- `MemberBasedDetector.Exists`
  unfoldable pub member_based_detector : (String → Exec S (List E)) → Detector S
  member_based_detector extract_members uid s =
      (existence (λ es. not (is_empty es)) (extract_members uid s).0, (extract_members uid s).1)

module _ {S : Type 0} where
  -- The loop of `CompoundDetector.Exists`.
  unfoldable pub conclude : List (Detector S) → String → Bool → Exec S Bool
  conclude [] uid conclusion = pure conclusion
  conclude (l ∷ ls) uid conclusion = do opinion ← l uid; conclude ls uid (conclusion && opinion)

  -- `CompoundDetector.Exists`
  unfoldable pub compound_detector : List (Detector S) → Detector S
  unfolding conclude
  compound_detector [] uid = pure false
  compound_detector (l ∷ ls) uid = conclude (l ∷ ls) uid true
