-- ===== src/Ldap/Connection/Works.antt =====
-- How the parts work that `Bind` of pkg/syncer/ldap.go puts together, and the credentials that it reads.
use group_sync_operator.Prelude.{
  String, ◌≡◌, refl, sym, not, ◌&&◌, Option, none, some, List, [], ◌∷◌, Exec, ok, member,
  ok-injective,
}
use group_sync_operator.Prelude.Dict.{Dict, GoMap, get, lookup}
use group_sync_operator.Api.{ObjectRef, LdapProvider}
use group_sync_operator.Ldap.Directory.{Directory}
use group_sync_operator.Ldap.Listers.{Lister}
use group_sync_operator.Ldap.Mappers.{
  GroupNameMapper, user_defined_mapper, union_mapper, first_name, user_name_for,
}
use group_sync_operator.Ldap.Provider.{init_list, get_ldap_credential_value, get_group_name_mapper}
use group_sync_operator.Ldap.Provider.Chosen.{
  base_of, get_ldap_group_lister_result, user_defined-found, union-first,
}
use group_sync_operator.Ldap.Builders.{Queries}
use group_sync_operator.Ldap.Connection.{Parts}
use group_sync_operator.Ldap.Connection.Complete.{PartsOf}

-- The value of a key of the credentials: empty where the provider has no reference, or the secret that
-- was kept does not have the key.
pub data CredentialOf : Option ObjectRef → Option GoMap → String → String → Type 0 where
  no_reference : (kept : Option GoMap) (key : String) → CredentialOf none kept key ""
  found_key :
      (r : ObjectRef) (m : GoMap) (key v : String)
      → get key m ≡ some v
      → CredentialOf (some r) (some m) key v
  no_key :
      (r : ObjectRef) (m : GoMap) (key : String)
      → get key m ≡ none
      → CredentialOf (some r) (some m) key ""

pub CredentialOf-get :
    (r : Option ObjectRef) (kept : Option GoMap) (key v : String)
    → CredentialOf r kept key v
    → get_ldap_credential_value r kept key ≡ ok v
unfolding get_ldap_credential_value
CredentialOf-get _ _ _ _ (no_reference kept key) = refl
CredentialOf-get _ _ _ _ (found_key r m key v h) = rw h refl
CredentialOf-get _ _ _ _ (no_key r m key h) = rw h refl

-- The mapper names a UID by the mapping of the provider, and a UID that the mapping lacks as the
-- mapper of the schema does.
pub record NamesBy {S : Type 0} (mappings : Dict String) (mapper f : GroupNameMapper S)
    : Type 0 where
  pub by_mapping : (uid n : String) (s : S) → lookup uid mappings ≡ some n → f uid s ≡ (ok n, s)
  pub by_schema :
      (uid n : String) (s t : S)
      → lookup uid mappings ≡ none
      → mapper uid s ≡ (ok n, t)
      → f uid s ≡ (ok n, t)

module _ {S : Type 0} where
  union_schema :
      (ms : Dict String) (mapper : GroupNameMapper S) (uid n : String) (s t : S)
      → lookup uid ms ≡ none
      → mapper uid s ≡ (ok n, t)
      → union_mapper (user_defined_mapper ms ∷ mapper ∷ []) uid s ≡ (ok n, t)
  unfolding union_mapper first_name user_defined_mapper
  union_schema ms mapper uid n s t l h = rw (user_defined_mapper, l, h) refl

  get_group_name_mapper-NamesBy :
      (mapper : GroupNameMapper S) (mappings : Dict String) (o : Option (GroupNameMapper S))
      → get_group_name_mapper (ok (some mapper)) mappings ≡ ok o
      → (f : GroupNameMapper S) × (o ≡ some f) × NamesBy mappings mapper f
  unfolding get_group_name_mapper
  get_group_name_mapper-NamesBy mapper [] o h = (
    mapper,
    sym (ok-injective h),
    record { by_mapping = λ uid n s l. absurd (cc); by_schema = λ uid n s t l r. r },
  )
  get_group_name_mapper-NamesBy mapper (m ∷ ms) o h = (
    union_mapper (user_defined_mapper (m ∷ ms) ∷ mapper ∷ []),
    sym (ok-injective h),
    record {
      by_mapping = λ uid n s l.
          union-first (user_defined_mapper (m ∷ ms)) mapper uid n s
            (user_defined-found (m ∷ ms) uid n s l);
      by_schema = λ uid n s t l r. union_schema (m ∷ ms) mapper uid n s t l r;
    },
  )

module _ {E Q R : Type 0} (d : Directory E Q R) (p : LdapProvider) where
  -- The parts work over the listing, the mapper and the extraction of one interface.
  pub record WorksBy {S : Type 0} (lister : Lister S) (mapper : GroupNameMapper S)
      (extractor : String → Exec S (List E)) (attributes : List String) (parts : Parts S E)
      : Type 0 where
    pub lists :
        (s t : S) (xs : List String)
        → base_of lister (init_list p.whitelist) s ≡ (ok xs, t)
        → (ys : List String) × (parts.lister s ≡ (ok ys, t))
          × ((n : String) → member n ys ≡ (member n xs && not (member n (init_list p.blacklist))))
    pub group_mapper : GroupNameMapper S
    pub is_mapper : parts.mapper ≡ some group_mapper
    pub names : NamesBy p.group_uid_name_mapping mapper group_mapper
    pub extracts : parts.extractor ≡ extractor
    pub users : parts.user_name_for ≡ user_name_for d attributes

  pub PartsOf-WorksBy :
      (queries : Queries Q) {S : Type 0} (lister : Lister S) (mapper : GroupNameMapper S)
      (extractor : String → Exec S (List E)) (attributes : List String) (parts : Parts S E)
      → PartsOf d queries p lister mapper extractor attributes parts
      → WorksBy lister mapper extractor attributes parts
  PartsOf-WorksBy queries lister mapper extractor attributes parts h =
      let named : _ =
        get_group_name_mapper-NamesBy mapper p.group_uid_name_mapping parts.mapper h.4 in
      record {
        lists = λ s t xs run.
            get_ldap_group_lister_result lister parts.lister (init_list p.whitelist)
              (init_list p.blacklist) xs s t h.0 run;
        group_mapper = named.0;
        is_mapper = named.1;
        names = named.2;
        extracts = h.1;
        users = h.2;
      }
