-- ===== src/Ldap/Provider/Chosen.antt =====
-- The lister, the mapper and the builder that are chosen.
use group_sync_operator.Prelude.{
  String, ◌≡◌, refl, subst, Bool, true, not, ◌&&◌, Option, none, some, List, [], ◌∷◌, ok, member,
  ok-injective, pure, arith,
}
use group_sync_operator.Prelude.Dict.{Dict, lookup}
use group_sync_operator.Api.{
  LdapProvider, Rfc2307Config, ActiveDirectoryConfig, AugmentedActiveDirectoryConfig,
}
use group_sync_operator.Ldap.Listers.{Lister, whitelist_lister}
use group_sync_operator.Ldap.Listers.Listed.{blacklist_lister_result}
use group_sync_operator.Ldap.Mappers.{
  GroupNameMapper, user_defined_mapper, union_mapper, first_name,
}
use group_sync_operator.Ldap.Validation.{Checks, ldap_validate}
use group_sync_operator.Certificates.Found.{certificate, certificate_is_found}
use group_sync_operator.Ldap.Validation.Accepted.{
  ldap_validate_iff, schema_is_valid, ca_source, credentials_are_read, url_is_valid,
  mapping_is_valid,
}
use group_sync_operator.Ldap.Provider.{
  Schema, rfc2307, active_directory, augmented_active_directory, build_sync_builder,
  get_ldap_group_lister, unless_empty, get_group_name_mapper,
}

module _ {S : Type 0} where
  -- What is listed before the blacklist: the whitelist if there is one, and else what the
  -- builder's lister lists.
  abbrev pub base_of : Lister S → List String → Lister S
  base_of built [] = built
  base_of built (uid ∷ uids) = pure (uid ∷ uids)

  unless_empty_lem :
      (blacklist : List String) (base : Lister S) (s t : S) (xs : List String)
      → base s ≡ (ok xs, t)
      → (ys : List String) × (unless_empty blacklist base s ≡ (ok ys, t))
        × ((n : String) → member n ys ≡ (member n xs && not (member n blacklist)))
  unless_empty_lem [] base s t xs h = (xs, h, λ n. ground arith)
  unless_empty_lem (b ∷ bs) base s t xs h =
      let (ys, run, all, sub) = blacklist_lister_result (b ∷ bs) base s t xs h in (ys, run, all)

  -- The lister that `Bind` chooses lists the UIDs of the whitelist, or those of the builder's lister
  -- if there is no whitelist, less those of the blacklist; with a whitelist the builder's lister
  -- is not asked, so no directory is read.
  pub get_ldap_group_lister_result :
      (built l : Lister S) (whitelist blacklist xs : List String) (s t : S)
      → get_ldap_group_lister (ok built) whitelist blacklist ≡ ok l
      → base_of built whitelist s ≡ (ok xs, t)
      → (ys : List String) × (l s ≡ (ok ys, t))
        × ((n : String) → member n ys ≡ (member n xs && not (member n blacklist)))
  unfolding get_ldap_group_lister whitelist_lister
  get_ldap_group_lister_result built l [] blacklist xs s t h b =
      subst
        (λ (k : Lister S).
          (ys : List String) × (k s ≡ (ok ys, t))
          × ((n : String) → member n ys ≡ (member n xs && not (member n blacklist))))
        (ok-injective h) (unless_empty_lem blacklist built s t xs b)
  get_ldap_group_lister_result built l (uid ∷ uids) blacklist xs s t h b =
      subst
        (λ (k : Lister S).
          (ys : List String) × (k s ≡ (ok ys, t))
          × ((n : String) → member n ys ≡ (member n xs && not (member n blacklist))))
        (ok-injective h) (unless_empty_lem blacklist (whitelist_lister (uid ∷ uids)) s t xs b)

  pub user_defined-found :
      (ms : Dict String) (uid n : String) (s : S)
      → lookup uid ms ≡ some n
      → user_defined_mapper ms uid s ≡ (ok n, s)
  unfolding user_defined_mapper
  user_defined-found ms uid n s h = rw (user_defined_mapper, h) refl

  pub union-first :
      (m d : GroupNameMapper S) (uid n : String) (s : S)
      → m uid s ≡ (ok n, s)
      → union_mapper (m ∷ d ∷ []) uid s ≡ (ok n, s)
  unfolding union_mapper first_name
  union-first m d uid n s h = rw h refl

  -- A UID that the specified mapping has is named by it, whichever mapper the builder gives, if
  -- any, and no directory is read for it.
  get_group_name_mapper_result :
      (default : Option (GroupNameMapper S)) (mappings : Dict String) (uid n : String) (s : S)
      → lookup uid mappings ≡ some n
      → (f : GroupNameMapper S) × (get_group_name_mapper (ok default) mappings ≡ ok (some f))
        × (f uid s ≡ (ok n, s))
  unfolding get_group_name_mapper
  get_group_name_mapper_result default [] uid n s h = absurd (cc)
  get_group_name_mapper_result none (m ∷ ms) uid n s h =
      (user_defined_mapper (m ∷ ms), refl, user_defined-found (m ∷ ms) uid n s h)
  get_group_name_mapper_result (some d) (m ∷ ms) uid n s h = (
    union_mapper (user_defined_mapper (m ∷ ms) ∷ d ∷ []),
    refl,
    union-first (user_defined_mapper (m ∷ ms)) d uid n s (user_defined-found (m ∷ ms) uid n s h),
  )

-- The schema is the only one that the provider gives.
abbrev pub IsOnlySchema : Schema → LdapProvider → Type 0
IsOnlySchema (rfc2307 g) p =
    (p.rfc2307_config ≡ some g)
    × (p.active_directory_config ≡ none)
    × (p.augmented_active_directory_config ≡ none)
IsOnlySchema (active_directory g) p =
    (p.rfc2307_config ≡ none)
    × (p.active_directory_config ≡ some g)
    × (p.augmented_active_directory_config ≡ none)
IsOnlySchema (augmented_active_directory g) p =
    (p.rfc2307_config ≡ none)
    × (p.active_directory_config ≡ none)
    × (p.augmented_active_directory_config ≡ some g)

last_conjunct : (a b c d e : Bool) → (a && (b && (c && (d && e)))) ≡ true → e ≡ true
last_conjunct a b c d e h = ground arith

module _ (c : Checks) where
  built_lem :
      (p : LdapProvider) (r : Option Rfc2307Config) (a : Option ActiveDirectoryConfig)
      (g : Option AugmentedActiveDirectoryConfig)
      → p.rfc2307_config ≡ r
      → p.active_directory_config ≡ a
      → p.augmented_active_directory_config ≡ g
      → schema_is_valid c r a g ≡ true
      → (k : Schema) × (build_sync_builder p ≡ ok k) × IsOnlySchema k p
  unfolding build_sync_builder
  built_lem p (some r) none none x y z h = (rfc2307 r, rw (build_sync_builder, x) refl, (x, y, z))
  built_lem p none (some a) none x y z h =
      (active_directory a, rw (build_sync_builder, x, y) refl, (x, y, z))
  built_lem p none none (some g) x y z h =
      (augmented_active_directory g, rw (build_sync_builder, x, y, z) refl, (x, y, z))
  built_lem p none none none x y z h = absurd (cc)
  built_lem p (some r) (some a) none x y z h = absurd (cc)
  built_lem p (some r) none (some g) x y z h = absurd (cc)
  built_lem p none (some a) (some g) x y z h = absurd (cc)
  built_lem p (some r) (some a) (some g) x y z h = absurd (cc)

  pub ldap_validate-schema_is_valid :
      (p : LdapProvider)
      → ldap_validate c p ≡ ok tt
      → schema_is_valid c p.rfc2307_config p.active_directory_config
          p.augmented_active_directory_config
        ≡ true
  ldap_validate-schema_is_valid p h =
      last_conjunct (credentials_are_read c p.credentials_secret)
        (certificate_is_found c.config_map c.secret (ca_source c p))
        (url_is_valid c p.url p.insecure (certificate c.config_map c.secret (ca_source c p)))
        (mapping_is_valid c p.group_uid_name_mapping)
        (schema_is_valid c p.rfc2307_config p.active_directory_config
          p.augmented_active_directory_config)
        ((ldap_validate_iff c p).0 h)

  -- For a provider that passed the validation a builder is made, that of the only schema that the
  -- provider gives.
  pub ldap_validate-build_sync_builder :
      (p : LdapProvider)
      → ldap_validate c p ≡ ok tt
      → (k : Schema) × (build_sync_builder p ≡ ok k) × IsOnlySchema k p
  ldap_validate-build_sync_builder p h =
      built_lem p p.rfc2307_config p.active_directory_config p.augmented_active_directory_config
        refl refl refl (ldap_validate-schema_is_valid p h)
