-- ===== src/Ldap/Mappers.antt =====
-- pkg/provider/ldap/helpers/groupnamemapper.go and usernamemapper.go.
pub mod Names
use group_sync_operator.Prelude.{
  String, ◌==◌, Bool, true, false, Option, none, some, List, [], ◌∷◌, ◌++◌, Exec, Result, ok, err,
  panic, Error, failure, aggregate, errors, if◌then◌else◌, pure, raise, lift, ◌>>=◌,
}
use group_sync_operator.Prelude.Dict.{Dict, lookup}
use group_sync_operator.Ldap.Directory.{Directory}

-- The interface `LDAPGroupNameMapper`, on the state that the mappers share.
abbrev pub GroupNameMapper : Type 0 → Type 0
GroupNameMapper S = String → Exec S String

module _ {S : Type 0} where
  -- `UserDefinedLDAPGroupNameMapper.GroupNameFor`
  unfoldable pub user_defined_mapper : Dict String → GroupNameMapper S
  user_defined_mapper mapping uid = elim (lookup uid mapping) [
    | some name ↦ pure name
    | none ↦ raise (failure "no OpenShift Group name defined for LDAP group UID: %s" (uid ∷ []))
  ]

  -- `DNLDAPGroupNameMapper.GroupNameFor`
  unfoldable pub dn_mapper : GroupNameMapper S
  dn_mapper uid = pure uid

  -- The loop of `UnionGroupNameMapper.GroupNameFor`.
  abbrev pub or_next :
      Result String × S → (List Error → Exec S String) → List Error → Result String × S
  or_next (ok name, s) next errs = (ok name, s)
  or_next (err e, s) next errs = next (errs ++ e ∷ []) s
  or_next (panic, s) next errs = (panic, s)

  unfoldable pub first_name : List (GroupNameMapper S) → String → List Error → Exec S String
  first_name [] uid errs = raise (aggregate (errors errs))
  first_name (m ∷ ms) uid errs = λ s. or_next (m uid s) (λ es. first_name ms uid es) errs

  -- `UnionGroupNameMapper.GroupNameFor`
  unfoldable pub union_mapper : List (GroupNameMapper S) → GroupNameMapper S
  union_mapper [] uid = raise (failure "no group name mappers defined" [])
  union_mapper (m ∷ ms) uid = first_name (m ∷ ms) uid []

abbrev pub named_or : String → Error → Result String
named_or name e = if name == "" then err e else ok name

module _ {E Q R : Type 0} (d : Directory E Q R) where
  -- `EntryAttributeLDAPGroupNameMapper.GroupNameFor`
  unfoldable pub entry_attribute_mapper :
      {S : Type 0} → List String → (String → Exec S E) → GroupNameMapper S
  entry_attribute_mapper attributes group_entry_for uid = do
    group ← group_entry_for uid
    lift (
        named_or (d.get_attribute_value group attributes) (
          failure
            "the group entry (%v: %v) does not map to an OpenShift Group name with the given name attribute (%v)"
            (d.dn group ∷ attributes)))

  -- `DefaultLDAPUserNameMapper.UserNameFor`
  unfoldable pub user_name_for : List String → E → Result String
  user_name_for attributes user = named_or (d.get_attribute_value user attributes) (
      failure "the user entry (%v) does not map to a OpenShift User name with the given mapping"
        (d.dn user ∷ []))
