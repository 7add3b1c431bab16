-- ===== src/Ldap/Ad/Population.antt =====
-- What `populateCache` fills the cache with, and what `ListGroups` and `ExtractMembers` answer from
-- it.
use group_sync_operator.Prelude.{
  String, ◌≡◌, refl, sym, ap, ◌∙◌, Bool, true, false, ◌||◌, ◌&&◌, some, List, [], ◌∷◌, ok,
  Bool-cases, Option-cases, inl, inr, arith, ◌==◌, member, eq_of_==,
}
use group_sync_operator.Prelude.Dict.{Dict, lookup, contains, lookup-insert}
use group_sync_operator.Ldap.Directory.{Directory}
use group_sync_operator.Ldap.Ad.{
  AdConfig, AdCache, keys, is_entry_present, add_entry, or_no_members, add_member, add_memberships,
  required_user_attributes, memberships, add_users, populate_cache, ad_list_groups, filled,
  new_ad_cache, extract_members,
}
use group_sync_operator.Ldap.Ad.Members.{present-add_entry, cached_lem}

member-keys {ℓ} : {V : Type ℓ} (k : String) (m : Dict V) → member k (keys m) ≡ contains k m
member-keys k [] = refl
member-keys k ((j, v) ∷ m) = ground (arith, member-keys k m)

module _ {E Q R : Type 0} (d : Directory E Q R) where
  -- Is there an entry with the DN of `x` among the members of the group?
  abbrev pub is_member : String → E → Dict (List E) → Bool
  is_member uid x members = is_entry_present d (or_no_members (lookup uid members)) x

  none_before :
      (us : List E) (b : Bool) (x : E)
      → is_entry_present d us x ≡ (is_entry_present d [] x || b)
      → is_entry_present d us x ≡ b
  unfolding is_entry_present
  none_before us b x h = h

  member-add_member :
      (user : E) (k : String) (members : Dict (List E)) (uid : String) (x : E)
      → is_member uid x (add_member d user k members)
        ≡ (is_member uid x members || (k == uid && d.dn user == d.dn x))
  unfolding add_member
  member-add_member user k members uid x = elim (Bool-cases (k == uid)) [
    | inl y ↦
        rw
          (
            lookup-insert k uid (add_entry d (or_no_members (lookup k members)) user) members,
            y,
            sym (eq_of_== k uid y),
            present-add_entry d (or_no_members (lookup k members)) user x,
          )
          refl
    | inr f ↦
        rw (lookup-insert k uid (add_entry d (or_no_members (lookup k members)) user) members, f)
          (ground arith)
  ]

  listed-add_member :
      (user : E) (k : String) (members : Dict (List E)) (uid : String)
      → contains uid (add_member d user k members) ≡ (contains uid members || k == uid)
  unfolding add_member
  listed-add_member user k members uid = elim (Bool-cases (k == uid)) [
    | inl y ↦
        rw (lookup-insert k uid (add_entry d (or_no_members (lookup k members)) user) members, y)
          (ground arith)
    | inr f ↦
        rw (lookup-insert k uid (add_entry d (or_no_members (lookup k members)) user) members, f)
          (ground arith)
  ]

  member-add_memberships :
      (user : E) (ks : List String) (members : Dict (List E)) (uid : String) (x : E)
      → is_member uid x (add_memberships d user ks members)
        ≡ (is_member uid x members || (member uid ks && d.dn user == d.dn x))
  unfolding add_memberships
  member-add_memberships user [] members uid x = ground arith
  member-add_memberships user (k ∷ ks) members uid x =
      rw
        (
          member-add_memberships user ks (add_member d user k members) uid x,
          member-add_member user k members uid x,
        )
        (ground arith)

  listed-add_memberships :
      (user : E) (ks : List String) (members : Dict (List E)) (uid : String)
      → contains uid (add_memberships d user ks members) ≡ (contains uid members || member uid ks)
  unfolding add_memberships
  listed-add_memberships user [] members uid = ground arith
  listed-add_memberships user (k ∷ ks) members uid =
      rw
        (
          listed-add_memberships user ks (add_member d user k members) uid,
          listed-add_member user k members uid,
        )
        (ground arith)

  module _ (a : AdConfig Q) where
    -- Does one of the users name the group, and does one with the DN of `x`?
    abbrev pub is_named : List E → String → Bool
    is_named [] uid = false
    is_named (user ∷ users) uid =
        member uid (memberships d a a.group_membership_attributes user) || is_named users uid

    abbrev pub is_named_by : List E → String → E → Bool
    is_named_by [] uid x = false
    is_named_by (user ∷ users) uid x =
        (member uid (memberships d a a.group_membership_attributes user) && d.dn user == d.dn x)
        || is_named_by users uid x

    member-add_users :
        (users : List E) (members : Dict (List E)) (uid : String) (x : E)
        → is_member uid x (add_users d a users members)
          ≡ (is_member uid x members || is_named_by users uid x)
    unfolding add_users
    member-add_users [] members uid x = ground arith
    member-add_users (user ∷ users) members uid x =
        let ks : _ = memberships d a a.group_membership_attributes user in
        rw
          (
            member-add_users users (add_memberships d user ks members) uid x,
            member-add_memberships user ks members uid x,
          )
          (ground arith)

    listed-add_users :
        (users : List E) (members : Dict (List E)) (uid : String)
        → contains uid (add_users d a users members) ≡ (contains uid members || is_named users uid)
    unfolding add_users
    listed-add_users [] members uid = ground arith
    listed-add_users (user ∷ users) members uid =
        let ks : _ = memberships d a a.group_membership_attributes user in
        rw
          (
            listed-add_users users (add_memberships d user ks members) uid,
            listed-add_memberships user ks members uid,
          )
          (ground arith)

    abbrev pub user_request : R
    user_request = d.new_search_request a.user_query (required_user_attributes d a)

    list_lem :
        (users : List E) (s : AdCache E)
        → d.query_for_entries user_request ≡ ok users
        → s.cache_fully_populated ≡ false
        → ad_list_groups d a s ≡ (
          ok (d.set_list (keys (add_users d a users s.ldap_group_to_ldap_members))),
          (filled d a users s).1,
        )
    unfolding ad_list_groups populate_cache
    list_lem users s q f = rw (f, q) refl

    found :
        (users : List E) (uid : String)
        → is_named users uid ≡ true
        → (us : List E) × (lookup uid (add_users d a users []) ≡ some us)
          × ((x : E) → is_entry_present d us x ≡ is_named_by users uid x)
    found users uid n = elim (Option-cases (lookup uid (add_users d a users []))) [
      | inl f ↦ absurd (let l : _ = rw f at (listed-add_users users [] uid) in cc)
      | inr (us, y) ↦ (
        us,
        y,
        λ x. none_before us (is_named_by users uid x) x (rw y at (member-add_users users [] uid x)),
      )
    ]

    -- When the search for the users answers, `ListGroups` on an empty cache lists exactly the groups
    -- that a user of the answer names in one of the membership attributes.
    pub ad_list_groups_result :
        (users : List E)
        → d.query_for_entries user_request ≡ ok users
        → (groups : List String) × ((ad_list_groups d a new_ad_cache).0 ≡ ok groups)
          × ((uid : String) → member uid groups ≡ is_named users uid)
    ad_list_groups_result users q =
        let members : Dict (List E) = add_users d a users [] in
        (
          d.set_list (keys members),
          ap (λ p. p.0) (list_lem users new_ad_cache q refl),
          λ uid.
              d.member-set_list uid (keys members)
              ∙ member-keys uid members
              ∙ listed-add_users users [] uid,
        )

    -- When the search for the users answers and one of these users names the group,
    -- `ExtractMembers` gives for this group, after `ListGroups` on an empty cache, members whose
    -- DNs are exactly those of the users that name it, with no query and no change of the cache.
    pub ad_list_groups-extract_members :
        (users : List E) (uid : String)
        → d.query_for_entries user_request ≡ ok users
        → is_named users uid ≡ true
        → (members : List E) × (extract_members d a uid (ad_list_groups d a new_ad_cache).1
            ≡ (ok members, (ad_list_groups d a new_ad_cache).1))
          × ((x : E) → is_entry_present d members x ≡ is_named_by users uid x)
    ad_list_groups-extract_members users uid q n =
        let (us, y, present) = found users uid n in
        (
          us,
          rw (list_lem users new_ad_cache q refl)
              (cached_lem d a uid (filled d a users new_ad_cache).1 us y),
          present,
        )
