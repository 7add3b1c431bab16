-- ===== src/Ldap/GroupSyncer/Accounting.antt =====
-- What becomes of each LDAP group that `Sync` of pkg/provider/ldap/helpers/groupsyncer.go lists.
use group_sync_operator.Prelude.{
  ◌+◌, ◌≤◌, String, ◌≡◌, refl, subst, true, List, [], ◌∷◌, length, ok, err, Error, Bool-cases,
  ok-injective, >>=-eq_ok, handle-eq_ok, inl, inr, lift, is_query_out_of_bounds, arith,
}
use group_sync_operator.Cluster.{Group}
use group_sync_operator.Ldap.GroupSyncer.{
  LdapGroupSyncer, Turn, made, failed, skipped, determine_usernames, make_openshift_group,
  write_made, not_made, sync_uid, add_turn, sync_uids, sync,
}
use group_sync_operator.Ldap.GroupSyncer.Ownership.{IsMade, IsTurn, sync_uid-IsTurn}

module _ {W E : Type 0} (s : LdapGroupSyncer W E) where
  -- The group of the UID was not made, for a query that is out of bounds.
  abbrev pub IsSkipped : String → Type 0
  IsSkipped uid =
      (names : List String) × (v : W) × (e : Error) × ((make_openshift_group s uid names v).0
        ≡ err e)
      × (is_query_out_of_bounds e ≡ true)

  -- Each UID in turn has a group that is its own, an error, or neither where it is skipped.
  pub data Accounted : List String → List Group → List Error → Type 0 where
    none_left : Accounted [] [] []
    by_group :
        {uid : String} {uids : List String} {g : Group} {gs : List Group} {es : List Error} (v : W)
        → IsMade s v uid g
        → Accounted uids gs es
        → Accounted (uid ∷ uids) (g ∷ gs) es
    by_error :
        {uid : String} {uids : List String} {e : Error} {gs : List Group} {es : List Error}
        → Accounted uids gs es
        → Accounted (uid ∷ uids) gs (e ∷ es)
    by_skip :
        {uid : String} {uids : List String} {gs : List Group} {es : List Error}
        → IsSkipped uid
        → Accounted uids gs es
        → Accounted (uid ∷ uids) gs es

  Accounted-length :
      {uids : List String} {gs : List Group} {es : List Error}
      → Accounted uids gs es
      → length gs + length es ≤ length uids
  Accounted-length none_left = omega arith
  Accounted-length (by_group v m a) = omega (arith, Accounted-length a)
  Accounted-length (by_error a) = omega (arith, Accounted-length a)
  Accounted-length (by_skip k a) = omega (arith, Accounted-length a)

  -- What a turn that writes nothing can be.
  unfoldable Dry : String → Turn → Type 0
  Dry uid (made g es) = es ≡ []
  Dry uid (failed e) = Unit {0}
  Dry uid skipped = IsSkipped uid

  failed-Dry : (e : Error) (t : Turn) (uid : String) → ok (failed e) ≡ ok t → Dry uid t
  unfolding Dry
  failed-Dry e t uid h = subst (Dry uid) (ok-injective h) tt

  not_made-Dry :
      (names : List String) (e : Error) (t : Turn) (v x : W) (uid : String)
      → (make_openshift_group s uid names v).0 ≡ err e
      → (not_made s e x).0 ≡ ok t
      → Dry uid t
  unfolding Dry
  not_made-Dry names e t v x uid m h = elim (Bool-cases (is_query_out_of_bounds e)) [
    | inl y ↦ subst (Dry uid) (ok-injective (rw y at h)) (names, v, e, m, y)
    | inr f ↦ subst (Dry uid) (ok-injective (rw f at h)) tt
  ]

  write_made-Dry :
      (g : Group) (t : Turn) (v : W) (uid : String)
      → s.dry_run ≡ true
      → (write_made s g v).0 ≡ ok t
      → Dry uid t
  unfolding Dry
  write_made-Dry g t v uid dry h = subst (Dry uid) (ok-injective (rw dry at h)) refl

  sync_uid-Dry :
      (uid : String) (w : W) (t : Turn) → s.dry_run ≡ true → (sync_uid s uid w).0 ≡ ok t → Dry uid t
  unfolding sync_uid
  sync_uid-Dry uid w t dry h = elim (handle-eq_ok (s.extract_members uid) _ _ w t h) [
    | inr (e, p, q) ↦ failed-Dry e t uid q
    | inl (members, p, q) ↦
        elim (handle-eq_ok (lift (determine_usernames s members)) _ _ (s.extract_members uid w).1 t
          q) [
            | inr (e, p', q') ↦ failed-Dry e t uid q'
            | inl (names, p', q') ↦
                let v : W = (s.extract_members uid w).1 in
                elim (handle-eq_ok (make_openshift_group s uid names) _ _ v t q') [
                  | inr (e, p2, q2) ↦
                      not_made-Dry names e t v (make_openshift_group s uid names v).1 uid p2 q2
                  | inl (g, p2, q2) ↦
                      write_made-Dry g t (make_openshift_group s uid names v).1 uid dry q2
                ]
          ]
  ]

  add_turn-Accounted :
      (uid : String) (uids : List String) (w : W) (t : Turn) (rest : List Group × List Error)
      → IsTurn s w uid t
      → Dry uid t
      → Accounted uids rest.0 rest.1
      → Accounted (uid ∷ uids) (add_turn s t rest).0 (add_turn s t rest).1
  unfolding IsTurn Dry
  add_turn-Accounted uid uids w (made g es) rest m d a = rw d (by_group w m a)
  add_turn-Accounted uid uids w (failed e) rest m d a = by_error a
  add_turn-Accounted uid uids w skipped rest m d a = by_skip d a

  sync_uids-Accounted :
      (uids : List String) (w : W) (r : List Group × List Error)
      → s.dry_run ≡ true
      → (sync_uids s uids w).0 ≡ ok r
      → Accounted uids r.0 r.1
  unfolding sync_uids
  sync_uids-Accounted [] w r dry h =
      subst (λ (x : List Group × List Error). Accounted [] x.0 x.1) (ok-injective h) none_left
  sync_uids-Accounted (uid ∷ uids) w r dry h =
      let (t, p, h1) = >>=-eq_ok (sync_uid s uid) _ w r h in
      let (rest, q, h2) = >>=-eq_ok (sync_uids s uids) _ (sync_uid s uid w).1 r h1 in
      subst (λ (x : List Group × List Error). Accounted (uid ∷ uids) x.0 x.1) (ok-injective h2)
        (add_turn-Accounted uid uids w t rest (sync_uid-IsTurn s uid w t p)
          (sync_uid-Dry uid w t dry p) (sync_uids-Accounted uids (sync_uid s uid w).1 rest dry q))

  -- Under DryRun `Sync` accounts for every LDAP group that it lists, in order: it returns a group that
  -- is marked with the UID and has the names of the extracted members, or an error, or neither where a
  -- query for the group is out of bounds; so there are no more groups and errors than LDAP groups.
  pub sync-Accounted :
      (w : W) (uids : List String) (gs : List Group) (es : List Error)
      → s.dry_run ≡ true
      → (s.list_groups w).0 ≡ ok uids
      → (sync s w).0 ≡ ok (gs, es)
      → Accounted uids gs es × (length gs + length es ≤ length uids)
  unfolding sync
  sync-Accounted w uids gs es dry l h =
      let a : _ = sync_uids-Accounted uids (s.list_groups w).1 (gs, es) dry (rw (sync, l) at h) in
      (a, Accounted-length a)
