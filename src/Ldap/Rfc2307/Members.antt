-- ===== src/Ldap/Rfc2307/Members.antt =====
-- `ExtractMembers` against a description without caches, and which failed lookups it tolerates.
use group_sync_operator.Prelude.{
  String, ◌≡◌, refl, sym, ap, ◌∙◌, subst, Bool, true, false, not, ◌||◌, ◌&&◌, Option, none, some,
  List, [], ◌∷◌, ◌↔◌, Exec, Result, ok, err, panic, Error, is_query_out_of_bounds, is_some,
  Bool-cases, Option-cases, Result-cases, ok-injective, inl, inr, arith, ◌==◌, eq_of_==,
  if◌then◌else◌, ◌>>=◌, pure,
}
use group_sync_operator.Prelude.Dict.{lookup, lookup-insert}
use group_sync_operator.Ldap.Directory.{Directory}
use group_sync_operator.Ldap.Handlers.{new_member_lookup_error}
use group_sync_operator.Ldap.Rfc2307.{
  Rfc2307, Caches, unique_entry, user_attributes, group_attributes, remember_user, user_entry_for,
  group_entry_for, member_uids, judged, on_member, find_members, extract_members,
}

some-injective : {A : Type 0} {x y : A} → some x ≡ some y → x ≡ y
some-injective h = cc

module _ {E Q R : Type 0} (d : Directory E Q R) (a : Rfc2307 Q) where
  -- What the directory answers for the UID of a user.
  abbrev pub user_of : String → Result E
  user_of uid = unique_entry d a.user_query (user_attributes d a) uid

  -- Every cached user is what the directory answers.
  abbrev pub IsSound : Caches E → Type 0
  IsSound s = (uid : String) (u : E) → lookup uid s.cached_users ≡ some u → user_of uid ≡ ok u

  IsSound-remember_user :
      (s : Caches E) (uid : String) (u : E)
      → user_of uid ≡ ok u
      → IsSound s
      → IsSound (remember_user d a uid u s).1
  IsSound-remember_user s uid u q t k v h = elim (Bool-cases (uid == k)) [
    | inl y ↦
        subst (λ j. user_of j ≡ ok v) (eq_of_== uid k y)
          (q ∙ ap (λ o. ok o) (some-injective (rw (lookup-insert uid k u s.cached_users, y) at h)))
    | inr f ↦ t k v (rw (lookup-insert uid k u s.cached_users, f) at h)
  ]

  Looked : Caches E → String → Type 0
  Looked s uid = ((user_entry_for d a uid s).0 ≡ user_of uid) × IsSound (user_entry_for d a uid s).1

  -- With sound caches, a lookup of a user gives what the directory answers, and keeps them sound.
  user_entry_for_lem : (uid : String) (s : Caches E) → IsSound s → Looked s uid
  unfolding Looked user_entry_for
  user_entry_for_lem uid s t = elim (Option-cases (lookup uid s.cached_users)) [
    | inr (u, y) ↦ rw (user_entry_for, y) (sym (t uid u y), t)
    | inl n ↦ elim (Result-cases (user_of uid)) [
      | inl (u, q) ↦ rw (user_entry_for, n, q) (refl, IsSound-remember_user s uid u q t)
      | inr (inl (e, q)) ↦ rw (user_entry_for, n, q) (refl, t)
      | inr (inr q) ↦ rw (user_entry_for, n, q) (refl, t)
    ]
  ]

  -- Does the error handler let the extraction go on after this error?
  abbrev pub lets_on : Bool × Option Error → Bool
  lets_on (handled, fatal) = handled && not (is_some fatal)

  -- Is a member of the group with this answer listed or left out, or does it end the extraction?
  abbrev pub is_tolerated : String → String → Result E → Bool
  is_tolerated group uid (ok u) = true
  is_tolerated group uid (err e) =
      is_query_out_of_bounds e || lets_on (a.error_handler (new_member_lookup_error group uid e))
  is_tolerated group uid panic = false

  abbrev pub all_tolerated : String → List String → Bool
  all_tolerated group [] = true
  all_tolerated group (uid ∷ uids) =
      is_tolerated group uid (user_of uid) && all_tolerated group uids

  abbrev pub if_found : Result E → List E → List E
  if_found (ok u) rest = u ∷ rest
  if_found _ rest = rest

  -- The entries that the directory has for the UIDs, in their order.
  abbrev pub entries_found : List String → List E
  entries_found [] = []
  entries_found (uid ∷ uids) = if_found (user_of uid) (entries_found uids)

  abbrev with_entry : E → Result (List E) → Result (List E)
  with_entry u (ok us) = ok (u ∷ us)
  with_entry u rest = rest

  abbrev verdict : Bool × Option Error → Error → Result (List E) → Result (List E)
  verdict (handled, some fatal) e rest = err fatal
  verdict (handled, none) e rest = if handled then rest else err e

  abbrev expected_with : String → String → Result E → Result (List E) → Result (List E)
  expected_with group uid (ok u) rest = with_entry u rest
  expected_with group uid (err e) rest =
      if is_query_out_of_bounds e
      then rest
      else verdict (a.error_handler (new_member_lookup_error group uid e))
          (new_member_lookup_error group uid e) rest
  expected_with group uid panic rest = panic

  -- The extraction without caches.
  abbrev expected : String → List String → Result (List E)
  expected group [] = ok []
  expected group (uid ∷ uids) = expected_with group uid (user_of uid) (expected group uids)

  IsExpected : Exec (Caches E) (List E) → Caches E → Result (List E) → Type 0
  IsExpected m s r = ((m s).0 ≡ r) × IsSound (m s).1

  add-IsExpected :
      (u : E) (m : Exec (Caches E) (List E)) (s : Caches E) (r : Result (List E))
      → IsExpected m s r
      → IsExpected (m >>= λ us. pure (u ∷ us)) s (with_entry u r)
  unfolding IsExpected
  add-IsExpected u m s r (q, t) = elim (Result-cases r) [
    | inl (us, y) ↦ let p : _ = q ∙ y in rw (p, y) (refl, t)
    | inr (inl (e, y)) ↦ let p : _ = q ∙ y in rw (p, y) (refl, t)
    | inr (inr y) ↦ let p : _ = q ∙ y in rw (p, y) (refl, t)
  ]

  judged-IsExpected :
      (v : Bool × Option Error) (e : Error) (m : Exec (Caches E) (List E)) (s : Caches E)
      (r : Result (List E))
      → IsSound s
      → IsExpected m s r
      → IsExpected (judged d a v e m) s (verdict v e r)
  unfolding IsExpected
  judged-IsExpected (handled, some fatal) e m s r t h = (refl, t)
  judged-IsExpected (true, none) e m s r t h = h
  judged-IsExpected (false, none) e m s r t h = (refl, t)

  on_member-IsExpected :
      (group uid : String) (o : Result E) (m : Exec (Caches E) (List E)) (s : Caches E)
      (r : Result (List E))
      → IsSound s
      → IsExpected m s r
      → IsExpected (on_member d a group uid o m) s (expected_with group uid o r)
  on_member-IsExpected group uid (ok u) m s r t h = add-IsExpected u m s r h
  on_member-IsExpected group uid (err e) m s r t h = elim (Bool-cases (is_query_out_of_bounds e)) [
    | inl y ↦ rw y h
    | inr f ↦ rw f (
        judged-IsExpected (a.error_handler (new_member_lookup_error group uid e))
          (new_member_lookup_error group uid e) m s r t h)
  ]
  on_member-IsExpected group uid panic m s r t h = unfold IsExpected in (refl, t)

  find_members-IsExpected :
      (group : String) (uids : List String) (s : Caches E)
      → IsSound s
      → IsExpected (find_members d a group uids) s (expected group uids)
  unfolding find_members IsExpected Looked
  find_members-IsExpected group [] s t = (refl, t)
  find_members-IsExpected group (uid ∷ uids) s t =
      let looked : Looked s uid = user_entry_for_lem uid s t in
      rw (looked.0) (
        on_member-IsExpected group uid (user_of uid) (find_members d a group uids)
          (user_entry_for d a uid s).1 (expected group uids) looked.1
          (find_members-IsExpected group uids (user_entry_for d a uid s).1 looked.1))

  verdict-ok :
      (v : Bool × Option Error) (e : Error) (r : Result (List E))
      → lets_on v ≡ true
      → verdict v e r ≡ r
  verdict-ok (true, none) e r l = refl
  verdict-ok (true, some fatal) e r l = absurd (cc)
  verdict-ok (false, none) e r l = absurd (cc)
  verdict-ok (false, some fatal) e r l = absurd (cc)

  step-ok :
      (group uid : String) (o : Result E) (r : Result (List E)) (us : List E)
      → is_tolerated group uid o ≡ true
      → r ≡ ok us
      → expected_with group uid o r ≡ ok (if_found o us)
  step-ok group uid (ok u) r us h q = rw q refl
  step-ok group uid (err e) r us h q = elim (Bool-cases (is_query_out_of_bounds e)) [
    | inl y ↦ rw y q
    | inr f ↦ rw f (
        verdict-ok (a.error_handler (new_member_lookup_error group uid e))
          (new_member_lookup_error group uid e) r (rw f at h)
        ∙ q)
  ]
  step-ok group uid panic r us h q = absurd (cc)

  expected-ok :
      (group : String) (uids : List String)
      → all_tolerated group uids ≡ true
      → expected group uids ≡ ok (entries_found uids)
  expected-ok group [] h = refl
  expected-ok group (uid ∷ uids) h =
      step-ok group uid (user_of uid) (expected group uids) (entries_found uids) (ground arith)
        (expected-ok group uids (ground arith))

  verdict-eq_ok :
      (v : Bool × Option Error) (e : Error) (r : Result (List E)) (us : List E)
      → verdict v e r ≡ ok us
      → (lets_on v ≡ true) × (r ≡ ok us)
  verdict-eq_ok (true, none) e r us h = (refl, h)
  verdict-eq_ok (true, some fatal) e r us h = absurd (cc)
  verdict-eq_ok (false, none) e r us h = absurd (cc)
  verdict-eq_ok (false, some fatal) e r us h = absurd (cc)

  step-eq_ok :
      (group uid : String) (o : Result E) (r : Result (List E)) (us : List E)
      → expected_with group uid o r ≡ ok us
      → (is_tolerated group uid o ≡ true) × ((vs : List E) × (r ≡ ok vs))
  step-eq_ok group uid (ok u) (ok vs) us h = (refl, (vs, refl))
  step-eq_ok group uid (ok u) (err e) us h = absurd (cc)
  step-eq_ok group uid (ok u) panic us h = absurd (cc)
  step-eq_ok group uid (err e) r us h = elim (Bool-cases (is_query_out_of_bounds e)) [
    | inl y ↦ (rw y refl, (us, rw y at h))
    | inr f ↦
        let (on, q) =
          verdict-eq_ok (a.error_handler (new_member_lookup_error group uid e))
            (new_member_lookup_error group uid e) r us (rw f at h) in
        (rw (f, on) refl, (us, q))
  ]
  step-eq_ok group uid panic r us h = absurd (cc)

  expected-eq_ok :
      (group : String) (uids : List String) (us : List E)
      → expected group uids ≡ ok us
      → all_tolerated group uids ≡ true
  expected-eq_ok group [] us h = refl
  expected-eq_ok group (uid ∷ uids) us h =
      let (on, (vs, q)) = step-eq_ok group uid (user_of uid) (expected group uids) us h in
      let rest : _ = expected-eq_ok group uids vs q in ground arith

  group_entry_for-IsSound :
      (uid : String) (s : Caches E) → IsSound s → IsSound (group_entry_for d a uid s).1
  unfolding group_entry_for
  group_entry_for-IsSound uid s t = elim (Option-cases (lookup uid s.cached_groups)) [
    | inr (g, y) ↦ rw (group_entry_for, y) t
    | inl n ↦ elim (Result-cases (unique_entry d a.group_query (group_attributes d a) uid)) [
      | inl (g, q) ↦ rw (group_entry_for, n, q) t
      | inr (inl (e, q)) ↦ rw (group_entry_for, n, q) t
      | inr (inr q) ↦ rw (group_entry_for, n, q) t
    ]
  ]

  -- When the entry of the group is found and every cached user is what the directory answers,
  -- `ExtractMembers` succeeds exactly if each member of the entry is found, out of bounds, or
  -- let pass by the error handler, and then returns the entries that the directory has for the
  -- members, in the order of the membership attributes. It keeps the cache as it has to be.
  pub extract_members_iff :
      (uid : String) (s : Caches E) (g : E) (us : List E)
      → IsSound s
      → (group_entry_for d a uid s).0 ≡ ok g
      → (((extract_members d a uid s).0 ≡ ok us) ↔ (
          (all_tolerated uid (member_uids d a a.group_membership_attributes g) ≡ true)
          × (entries_found (member_uids d a a.group_membership_attributes g) ≡ us)))
        × IsSound (extract_members d a uid s).1
  unfolding extract_members IsExpected
  extract_members_iff uid s g us t q =
      let uids : List String = member_uids d a a.group_membership_attributes g in
      let found : _ =
        find_members-IsExpected uid uids (group_entry_for d a uid s).1
          (group_entry_for-IsSound uid s t) in
      rw (extract_members, q)
        (
          (
            λ h.
                let all : _ = expected-eq_ok uid uids us (sym found.0 ∙ h) in
                (all, ok-injective (sym (expected-ok uid uids all) ∙ (sym found.0 ∙ h))),
            λ (all, e). found.0 ∙ (expected-ok uid uids all ∙ ap (λ l. ok l) e),
          ),
          found.1,
        )
