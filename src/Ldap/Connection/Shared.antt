-- ===== src/Ldap/Connection/Shared.antt =====
-- The parts that `Bind` of pkg/syncer/ldap.go puts together share one interface, and have a mapper
-- of group names.
use group_sync_operator.Prelude.{
  String, ◌≡◌, ◌⊎◌, refl, Option, none, some, List, [], ◌∷◌, Exec, Result, ok, is_empty, Bool-cases,
  inl, inr,
}
use group_sync_operator.Prelude.Dict.{Dict}
use group_sync_operator.Api.{LdapProvider}
use group_sync_operator.Ldap.Listers.{Lister}
use group_sync_operator.Ldap.Mappers.{GroupNameMapper}
use group_sync_operator.Ldap.Provider.{init_list, get_ldap_group_lister, get_group_name_mapper}
use group_sync_operator.Ldap.Builders.{Builder, memoised}
use group_sync_operator.Ldap.Connection.{build_parts}

-- Nothing is kept yet, or this interface is.
abbrev pub Ready : {I : Type 0} → I → Option I → Type 0
Ready i m = (m ≡ none) ⊎ (m ≡ some i)

pub memoised-Ready :
    {I : Type 0} (made : Result I) (i : I) (m : Option I)
    → made ≡ ok i
    → Ready i m
    → memoised made m ≡ (ok i, some i)
memoised-Ready made i none h r = rw h refl
memoised-Ready made i (some j) h (inl e) = absurd (cc)
memoised-Ready made i (some j) h (inr e) = let same : j ≡ i = cc in rw same refl

module _ {S : Type 0} where
  chosen :
      (base : Lister S) (whitelist blacklist : List String)
      → (l : Lister S) × (get_ldap_group_lister (ok base) whitelist blacklist ≡ ok l)
  unfolding get_ldap_group_lister
  chosen base [] blacklist = (_, refl)
  chosen base (uid ∷ uids) blacklist = (_, refl)

  mapped :
      (mapper : GroupNameMapper S) (mappings : Dict String)
      → (f : GroupNameMapper S) × (get_group_name_mapper (ok (some mapper)) mappings ≡ ok (some f))
  unfolding get_group_name_mapper
  mapped mapper [] = (_, refl)
  mapped mapper (m ∷ ms) = (_, refl)

module _ {I S E : Type 0} where
  -- Each method of the builder uses the interface, made or kept.
  pub record Uses (b : Builder (Option I) S E) (i : I) (lister : Lister S)
      (mapper : GroupNameMapper S) (extractor : String → Exec S (List E)) : Type 0 where
    pub lists : (m : Option I) → Ready i m → b.get_group_lister m ≡ (ok lister, some i)
    pub names : (m : Option I) → Ready i m → (b.get_group_name_mapper m).0 ≡ ok (some mapper)
    pub stays : (m : Option I) → Ready i m → Ready i (b.get_group_name_mapper m).1
    pub extracts : (m : Option I) → Ready i m → (b.get_group_member_extractor m).0 ≡ ok extractor

  -- Where the interface is made, the parts are: the lister that the lists of the provider choose, a
  -- mapper, which is there, and the extractor of the one interface.
  pub build_parts_result :
      (b : Builder (Option I) S E) (p : LdapProvider) (i : I) (lister : Lister S)
      (mapper : GroupNameMapper S) (extractor : String → Exec S (List E))
      → Uses b i lister mapper extractor
      → (l : Lister S) × (f : GroupNameMapper S) × (get_ldap_group_lister
            (ok lister)
            (init_list p.whitelist)
            (init_list p.blacklist)
          ≡ ok l)
        × (get_group_name_mapper (ok (some mapper)) p.group_uid_name_mapping ≡ ok (some f))
        × ((build_parts b p none).0
            ≡ ok (record {
              lister = l;
              mapper = some f;
              extractor = extractor;
              user_name_for = b.get_user_name_mapper;
            }))
  unfolding build_parts
  build_parts_result b p i lister mapper extractor u =
      let l : _ = chosen lister (init_list p.whitelist) (init_list p.blacklist) in
      let f : _ = mapped mapper p.group_uid_name_mapping in
      let first : Ready i none = inl refl in
      (
        l.0,
        f.0,
        l.1,
        f.1,
        elim (Bool-cases (is_empty (init_list p.whitelist))) [
          | inl y ↦
              let kept : Ready i (some i) = inr refl in
              rw
                (
                  u.lists none first,
                  l.1,
                  y,
                  u.names (some i) kept,
                  f.1,
                  u.extracts (b.get_group_name_mapper (some i)).1 (u.stays (some i) kept),
                )
                refl
          | inr n ↦
              rw
                (
                  u.lists none first,
                  l.1,
                  n,
                  u.names none first,
                  f.1,
                  u.extracts (b.get_group_name_mapper none).1 (u.stays none first),
                )
                refl
        ],
      )
