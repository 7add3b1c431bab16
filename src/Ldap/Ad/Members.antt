-- ===== src/Ldap/Ad/Members.antt =====
-- What `ExtractMembers` returns and caches.
use group_sync_operator.Prelude.{
  String, ◌≡◌, refl, ap, sym, ◌∙◌, Bool, true, false, ◌||◌, none, some, List, [], ◌∷◌, ◌++◌, Result,
  ok, Bool-cases, Option-cases, inl, inr, Result-cases, ok-injective, arith, ◌==◌, eq_iff, eq_of_==,
  eq_refl,
}
use group_sync_operator.Prelude.Dict.{lookup, lookup-insert}
use group_sync_operator.Ldap.Directory.{Directory}
use group_sync_operator.Ldap.Ad.{
  AdConfig, AdCache, is_entry_present, add_entry, add_entries, required_user_attributes, gather,
  remember, extract_members,
}

module _ {E Q R : Type 0} (d : Directory E Q R) where
  -- No two of the entries have the same DN.
  abbrev pub DistinctDns : List E → Type 0
  DistinctDns [] = Unit
  DistinctDns (e ∷ es) = (is_entry_present d es e ≡ false) × DistinctDns es

  present-append :
      (xs ys : List E) (x : E)
      → is_entry_present d (xs ++ ys) x ≡ (is_entry_present d xs x || is_entry_present d ys x)
  unfolding is_entry_present
  present-append [] ys x = refl
  present-append (e ∷ xs) ys x = ground (arith, present-append xs ys x)

  present-single : (e x : E) → is_entry_present d (e ∷ []) x ≡ (d.dn e == d.dn x)
  unfolding is_entry_present
  present-single e x = ground arith

  -- Entries of the same DN are present together.
  present_same :
      (xs : List E) (e x : E) → d.dn e ≡ d.dn x → is_entry_present d xs e ≡ is_entry_present d xs x
  unfolding is_entry_present
  present_same [] e x h = refl
  present_same (y ∷ xs) e x h = rw (h, present_same xs e x h)

  present_already :
      (us : List E) (e x : E)
      → is_entry_present d us e ≡ true
      → is_entry_present d us x ≡ (is_entry_present d us x || (d.dn e == d.dn x))
  present_already us e x y = elim (Bool-cases (d.dn e == d.dn x)) [
    | inl q ↦ let same : _ = present_same us e x (eq_of_== (d.dn e) (d.dn x) q) in ground arith
    | inr f ↦ ground arith
  ]

  pub present-add_entry :
      (us : List E) (e x : E)
      → is_entry_present d (add_entry d us e) x ≡ (is_entry_present d us x || (d.dn e == d.dn x))
  unfolding add_entry
  present-add_entry us e x = elim (Bool-cases (is_entry_present d us e)) [
    | inl y ↦ rw y (present_already us e x y)
    | inr f ↦ rw (f, present-append, present-single)
  ]

  absent_rest :
      (us : List E) (u e : E)
      → is_entry_present d (u ∷ us) e ≡ false
      → is_entry_present d us e ≡ false
  unfolding is_entry_present
  absent_rest us u e f = ground arith

  apart :
      (us : List E) (u e : E)
      → is_entry_present d us u ≡ false
      → is_entry_present d (u ∷ us) e ≡ false
      → (is_entry_present d us u || (d.dn e == d.dn u)) ≡ false
  unfolding is_entry_present
  apart us u e h f = ground (arith, eq_iff (d.dn e) (d.dn u), eq_iff (d.dn u) (d.dn e))

  Distinct-append :
      (us : List E) (e : E)
      → DistinctDns us
      → is_entry_present d us e ≡ false
      → DistinctDns (us ++ e ∷ [])
  Distinct-append [] e h f = (unfold is_entry_present in refl, tt)
  Distinct-append (u ∷ us) e h f = (
    rw (present-append, present-single) (apart us u e h.0 f),
    Distinct-append us e h.1 (absent_rest us u e f),
  )

  DistinctDns-add_entry : (us : List E) (e : E) → DistinctDns us → DistinctDns (add_entry d us e)
  unfolding add_entry
  DistinctDns-add_entry us e h = elim (Bool-cases (is_entry_present d us e)) [
    | inl y ↦ rw y h
    | inr f ↦ rw f (Distinct-append us e h f)
  ]

  regroup :
      (us : List E) (e : E) (es : List E) (x : E)
      → ((is_entry_present d us x || (d.dn e == d.dn x)) || is_entry_present d es x)
        ≡ (is_entry_present d us x || is_entry_present d (e ∷ es) x)
  unfolding is_entry_present
  regroup us e es x = ground arith

  present-add_entries :
      (us es : List E) (x : E)
      → is_entry_present d (add_entries d us es) x
        ≡ (is_entry_present d us x || is_entry_present d es x)
  unfolding add_entries
  present-add_entries us [] x = unfold is_entry_present in ground arith
  present-add_entries us (e ∷ es) x =
      rw (present-add_entries (add_entry d us e) es x, present-add_entry us e x) (regroup us e es x)

  DistinctDns-add_entries : (us es : List E) → DistinctDns us → DistinctDns (add_entries d us es)
  unfolding add_entries
  DistinctDns-add_entries us [] h = h
  DistinctDns-add_entries us (e ∷ es) h =
      DistinctDns-add_entries (add_entry d us e) es (DistinctDns-add_entry us e h)

  module _ (a : AdConfig Q) where
    -- Does the query on one of the attributes answer an entry with the DN of `x`?
    abbrev pub is_among : Result (List E) → E → Bool
    is_among (ok entries) x = is_entry_present d entries x
    is_among _ x = false

    abbrev pub is_answered : Result R → E → Bool
    is_answered (ok request) x = is_among (d.query_for_entries request) x
    is_answered _ x = false

    abbrev pub answered : List String → String → E → Bool
    answered [] uid x = false
    answered (attribute ∷ rest) uid x =
        is_answered
          (d.new_attribute_request a.user_query attribute uid (required_user_attributes d a)) x
        || answered rest uid x

    abbrev IsGathered : List E → List String → String → List E → Type 0
    IsGathered users attributes uid out =
        DistinctDns out
        × ((x : E)
            → is_entry_present d out x ≡ (is_entry_present d users x || answered attributes uid x))

    gather_lem :
        (attributes : List String) (uid : String) (users out : List E)
        → gather d a attributes uid users ≡ ok out
        → DistinctDns users
        → IsGathered users attributes uid out
    unfolding gather
    gather_lem [] uid users out h t = rw (sym (ok-injective h)) (t, λ x. ground arith)
    gather_lem (attribute ∷ rest) uid users out h t =
        elim (Result-cases
          (d.new_attribute_request a.user_query attribute uid (required_user_attributes d a))) [
            | inl (request, q) ↦ elim (Result-cases (d.query_for_entries request)) [
              | inl (entries, p) ↦
                  let (t', present) =
                    gather_lem rest uid (add_entries d users entries) out (rw (gather, q, p) at h)
                      (DistinctDns-add_entries users entries t) in
                  (
                    t',
                    λ x. rw (present x, present-add_entries users entries x, q, p) (ground arith),
                  )
              | inr (inl (e, p)) ↦ absurd (let g : _ = rw (gather, q, p) at h in cc)
              | inr (inr p) ↦ absurd (let g : _ = rw (gather, q, p) at h in cc)
            ]
            | inr (inl (e, q)) ↦ absurd (let g : _ = rw (gather, q) at h in cc)
            | inr (inr q) ↦ absurd (let g : _ = rw (gather, q) at h in cc)
          ]

    fresh_lem :
        (uid : String) (s : AdCache E) (users : List E)
        → lookup uid s.ldap_group_to_ldap_members ≡ none
        → (extract_members d a uid s).0 ≡ ok users
        → (gather d a a.group_membership_attributes uid [] ≡ ok users)
          × (extract_members d a uid s ≡ remember d a uid users s)
    unfolding extract_members
    fresh_lem uid s users n h =
        elim (Result-cases (gather d a a.group_membership_attributes uid [])) [
          | inl (us, q) ↦
              let same : us ≡ users = ok-injective (rw (extract_members, n, q) at h) in
              (q ∙ ap (λ z. ok z) same, rw (extract_members, n, q, same) refl)
          | inr (inl (e, q)) ↦ absurd (let g : _ = rw (extract_members, n, q) at h in cc)
          | inr (inr q) ↦ absurd (let g : _ = rw (extract_members, n, q) at h in cc)
        ]

    -- The members that are extracted for a group with no entry in the cache have different DNs, and
    -- an entry's DN is among theirs exactly if the query on some membership attribute of the group
    -- answered an entry with it.
    pub extract_members_result :
        (uid : String) (s : AdCache E) (users : List E)
        → lookup uid s.ldap_group_to_ldap_members ≡ none
        → (extract_members d a uid s).0 ≡ ok users
        → DistinctDns users
          × ((x : E) → is_entry_present d users x ≡ answered a.group_membership_attributes uid x)
    extract_members_result uid s users n h =
        let (distinct, present) =
          gather_lem a.group_membership_attributes uid [] users (fresh_lem uid s users n h).0 tt in
        (distinct, λ x. present x ∙ (unfold is_entry_present in refl))

    pub cached_lem :
        (uid : String) (s : AdCache E) (users : List E)
        → lookup uid s.ldap_group_to_ldap_members ≡ some users
        → extract_members d a uid s ≡ (ok users, s)
    unfolding extract_members
    cached_lem uid s users y = rw (extract_members, y) refl

    -- A second call of `ExtractMembers` for a group gives what the first one gave and queries nothing:
    -- it leaves the cache as the first call left it.
    extract_members_again :
        (uid : String) (s : AdCache E) (users : List E)
        → (extract_members d a uid s).0 ≡ ok users
        → extract_members d a uid (extract_members d a uid s).1
          ≡ (ok users, (extract_members d a uid s).1)
    extract_members_again uid s users h =
        elim (Option-cases (lookup uid s.ldap_group_to_ldap_members)) [
          | inl n ↦ rw (fresh_lem uid s users n h).1 (
              cached_lem uid (remember d a uid users s).1 users
                (rw (lookup-insert uid uid users s.ldap_group_to_ldap_members, eq_refl uid) refl))
          | inr (us, y) ↦
              let here : _ = cached_lem uid s us y in
              let same : us ≡ users = ok-injective (rw here at h) in rw (here, here, same) refl
        ]
