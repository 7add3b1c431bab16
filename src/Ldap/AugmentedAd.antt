-- ===== src/Ldap/AugmentedAd.antt =====
-- pkg/provider/ldap/helpers/ad/augmented_ldapinterface.go: the interface for Active Directory with
-- entries for groups, which are cached beside the members.
pub mod Exists
use group_sync_operator.Prelude.{
  String, Bool, Option, none, some, List, [], ◌∷◌, ◌++◌, Exec, Result, ok, err, panic, Error, pure,
  lift, ◌>>=◌,
}
use group_sync_operator.Prelude.Dict.{Dict, lookup, insert}
use group_sync_operator.Ldap.Directory.{Directory, QueryOnAttribute}
use group_sync_operator.Ldap.Ad
use group_sync_operator.Ldap.Ad.{AdConfig, AdCache, new_ad_cache, ad_list_groups}
use group_sync_operator.Ldap.Rfc2307.{unique_entry}
use group_sync_operator.Ldap.Detectors.{
  Detector, group_based_detector, member_based_detector, compound_detector,
}

-- `AugmentedADLDAPInterface`, with the embedded `ADLDAPInterface`.
pub record AugmentedConfig (Q : Type 0) : Type 0 where
  pub ad : AdConfig Q
  pub group_query : QueryOnAttribute Q
  pub group_name_attributes : List String

pub record AugmentedCache (E : Type 0) : Type 0 where
  pub ad_cache : AdCache E
  pub cached_groups : Dict E

-- `NewAugmentedADLDAPInterface`
abbrev pub new_augmented_cache : {E : Type 0} → AugmentedCache E
new_augmented_cache = record { ad_cache = new_ad_cache; cached_groups = [] }

-- A method of the embedded interface.
abbrev pub with_ad {ℓ} : {E : Type 0} {A : Type ℓ} → Exec (AdCache E) A → Exec (AugmentedCache E) A
with_ad m s = ((m s.ad_cache).0, record s { ad_cache = (m s.ad_cache).1 })

module _ {E Q R : Type 0} (d : Directory E Q R) (a : AugmentedConfig Q) where
  abbrev pub required_group_attributes : List String
  required_group_attributes =
      d.set_list (a.group_name_attributes ++ (a.group_query.query_attribute ∷ []))

  abbrev pub remember_entry : String → E → Exec (AugmentedCache E) E
  remember_entry uid g s = (ok g, record s { cached_groups = insert uid g s.cached_groups })

  -- `AugmentedADLDAPInterface.GroupEntryFor`
  unfoldable pub augmented_entry_for : String → Exec (AugmentedCache E) E
  augmented_entry_for uid s = elim (lookup uid s.cached_groups) [
    | some g ↦ (ok g, s)
    | none ↦
        (lift (unique_entry d a.group_query required_group_attributes uid) >>= remember_entry uid) s
  ]

  -- `ExtractMembers` and `ListGroups` are those of the embedded interface.
  abbrev pub augmented_members : String → Exec (AugmentedCache E) (List E)
  augmented_members uid = with_ad (Ad.extract_members d a.ad uid)

  abbrev pub augmented_list_groups : Exec (AugmentedCache E) (List String)
  augmented_list_groups = with_ad (ad_list_groups d a.ad)

  abbrev pub augmented_entry : String → Exec (AugmentedCache E) (Option E)
  augmented_entry uid = augmented_entry_for uid >>= λ g. pure (some g)

  -- `AugmentedADLDAPInterface.Exists`
  unfoldable pub augmented_exists : Detector (AugmentedCache E)
  augmented_exists =
      compound_detector
        (group_based_detector augmented_entry ∷ member_based_detector augmented_members ∷ [])
