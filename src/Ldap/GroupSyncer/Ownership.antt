-- ===== src/Ldap/GroupSyncer/Ownership.antt =====
-- Whose groups `Sync` returns.
use group_sync_operator.Prelude.{
  String, ◌≡◌, refl, sym, ap, ◌∙◌, subst, false, none, some, List, [], ◌∷◌, ◌++◌, ok, Error, All,
  holds, holds-eq_some, Bool-cases, ok-injective, >>=-eq_ok, handle-eq_ok, inl, inr, ◌==◌, pure,
  lift, is_query_out_of_bounds,
}
use group_sync_operator.Prelude.Dict.{GoMap, get, assign, lookup-insert}
use group_sync_operator.Constants.{
  ldap_host_label, ldap_url_annotation, ldap_uid_annotation, ldap_sync_time_annotation,
}
use group_sync_operator.Timestamp.{iso8601}
use group_sync_operator.Cluster.{Group}
use group_sync_operator.Ldap.GroupSyncer.{
  LdapGroupSyncer, Turn, made, failed, skipped, check_owned, determine_usernames,
  update_openshift_group, stamp, read_group, make_openshift_group, write_made, not_made, sync_uid,
  add_turn, sync_uids, sync,
}

-- The marks of a group that belongs to the LDAP group of that UID on that host.
pub record Owned (host host_ip uid : String) (g : Group) : Type 0 where
  pub host_label : get ldap_host_label g.labels ≡ some host_ip
  pub url_annotation : get ldap_url_annotation g.annotations ≡ some host
  pub uid_annotation : get ldap_uid_annotation g.annotations ≡ some uid

check_owned-eq_ok :
    (host host_ip uid : String) (g o : Group)
    → check_owned host host_ip uid g ≡ ok o
    → (g ≡ o) × Owned host host_ip uid g
unfolding check_owned
check_owned-eq_ok host host_ip uid g o h =
    elim (Bool-cases (holds host_ip (get ldap_host_label g.labels))) [
      | inr f ↦ absurd (let q : _ = rw (check_owned, f) at h in cc)
      | inl a ↦ elim (Bool-cases (holds host (get ldap_url_annotation g.annotations))) [
        | inr f ↦ absurd (let q : _ = rw (check_owned, a, f) at h in cc)
        | inl b ↦ elim (Bool-cases (holds uid (get ldap_uid_annotation g.annotations))) [
          | inr f ↦ absurd (let q : _ = rw (check_owned, a, b, f) at h in cc)
          | inl c ↦ (
            ok-injective (rw (check_owned, a, b, c) at h),
            record {
              host_label = holds-eq_some host_ip (get ldap_host_label g.labels) a;
              url_annotation = holds-eq_some host (get ldap_url_annotation g.annotations) b;
              uid_annotation = holds-eq_some uid (get ldap_uid_annotation g.annotations) c;
            },
          )
        ]
      ]
    ]

-- The time is set under a key of its own.
get-assign :
    (k j v : String) (m n : GoMap) → (k == j) ≡ false → assign k v m ≡ ok n → get j n ≡ get j m
get-assign k j v none n f h = absurd (cc)
get-assign k j v (some m) n f h = rw (sym (ok-injective h)) (lookup-insert k j v m ∙ rw f refl)

module _ {W E : Type 0} (s : LdapGroupSyncer W E) where
  -- The group is the one of that UID, marked with the host without its port, with the names of the
  -- members that the extraction answers in this state.
  abbrev pub IsMade : W → String → Group → Type 0
  IsMade w uid g =
      (host_ip port : String) × (s.split_host_port s.host ≡ ok (host_ip, port))
      × Owned s.host host_ip uid g
      × (members : List E) × ((s.extract_members uid w).0 ≡ ok members)
      × (determine_usernames s members ≡ ok g.users)

  stamp-Owned :
      (usernames : List String) (host_ip uid : String) (g k : Group) (w : W)
      → Owned s.host host_ip uid g
      → (stamp s usernames g w).0 ≡ ok k
      → Owned s.host host_ip uid k × (k.users ≡ usernames)
  unfolding stamp
  stamp-Owned usernames host_ip uid g k w o h =
      let (now, p, h1) = >>=-eq_ok s.now _ w k h in
      let (ann, q, h2) =
        >>=-eq_ok (lift (assign ldap_sync_time_annotation (iso8601 now) g.annotations)) _
          (s.now w).1 k h1 in
      subst (λ (x : Group). Owned s.host host_ip uid x × (x.users ≡ usernames)) (ok-injective h2)
        (
          record {
            host_label = o.host_label;
            url_annotation =
                get-assign ldap_sync_time_annotation ldap_url_annotation (iso8601 now) g.annotations
                  ann refl q
                ∙ o.url_annotation;
            uid_annotation =
                get-assign ldap_sync_time_annotation ldap_uid_annotation (iso8601 now) g.annotations
                  ann refl q
                ∙ o.uid_annotation;
          },
          refl,
        )

  make-Owned :
      (uid : String) (usernames : List String) (k : Group) (w : W)
      → (make_openshift_group s uid usernames w).0 ≡ ok k
      → (host_ip port : String) × (s.split_host_port s.host ≡ ok (host_ip, port))
        × Owned s.host host_ip uid k
        × (k.users ≡ usernames)
  unfolding make_openshift_group
  make-Owned uid usernames k w h =
      let (ip, p1, h1) = >>=-eq_ok (lift (s.split_host_port s.host)) _ w k h in
      let (name, p2, h2) = >>=-eq_ok (s.group_name_for uid) _ w k h1 in
      let w2 : W = (s.group_name_for uid w).1 in
      let (group, p3, h3) = >>=-eq_ok (read_group s ip.0 uid name) _ w2 k h2 in
      let w3 : W = (read_group s ip.0 uid name w2).1 in
      let (owned, p4, h4) = >>=-eq_ok (lift (check_owned s.host ip.0 uid group)) _ w3 k h3 in
      let (same, o) = check_owned-eq_ok s.host ip.0 uid group owned p4 in
      let (o', users) =
        stamp-Owned usernames ip.0 uid owned k w3 (subst (Owned s.host ip.0 uid) same o) h4 in
      (ip.0, ip.1, p1, o', users)

  unfoldable pub IsTurn : W → String → Turn → Type 0
  IsTurn w uid (made g es) = IsMade w uid g
  IsTurn w uid (failed e) = Unit
  IsTurn w uid skipped = Unit

  write_made-made :
      (g : Group) (t : Turn) (w : W)
      → (write_made s g w).0 ≡ ok t
      → (es : List Error) × (t ≡ made g es)
  unfolding update_openshift_group
  write_made-made g t w h = elim (Bool-cases s.dry_run) [
    | inl y ↦ ([], sym (ok-injective (rw y at h)))
    | inr f ↦
        elim (handle-eq_ok (update_openshift_group s g) (λ e. pure (made g (e ∷ [])))
          (λ _. pure (made g [])) w t (rw f at h)) [
            | inl (_, p, q) ↦ ([], sym (ok-injective q))
            | inr (e, p, q) ↦ (e ∷ [], sym (ok-injective q))
          ]
  ]

  failed-IsTurn :
      (e : Error) (t : Turn) (w v : W) (uid : String)
      → (pure (failed e) v).0 ≡ ok t
      → IsTurn w uid t
  unfolding IsTurn
  failed-IsTurn e t w v uid h = subst (IsTurn w uid) (ok-injective h) tt

  not_made-IsTurn :
      (e : Error) (t : Turn) (w v : W) (uid : String) → (not_made s e v).0 ≡ ok t → IsTurn w uid t
  unfolding IsTurn
  not_made-IsTurn e t w v uid h = elim (Bool-cases (is_query_out_of_bounds e)) [
    | inl y ↦ subst (IsTurn w uid) (ok-injective (rw y at h)) tt
    | inr f ↦ subst (IsTurn w uid) (ok-injective (rw f at h)) tt
  ]

  pub sync_uid-IsTurn :
      (uid : String) (w : W) (t : Turn) → (sync_uid s uid w).0 ≡ ok t → IsTurn w uid t
  unfolding sync_uid IsTurn
  sync_uid-IsTurn uid w t h = elim (handle-eq_ok (s.extract_members uid) _ _ w t h) [
    | inr (e, p, q) ↦ failed-IsTurn e t w (s.extract_members uid w).1 uid q
    | inl (members, p, q) ↦
        elim (handle-eq_ok (lift (determine_usernames s members)) _ _ (s.extract_members uid w).1 t
          q) [
            | inr (e, p', q') ↦ failed-IsTurn e t w (s.extract_members uid w).1 uid q'
            | inl (names, p', q') ↦
                elim (handle-eq_ok (make_openshift_group s uid names) _ _
                  (s.extract_members uid w).1 t q') [
                    | inr (e, p2, q2) ↦
                        not_made-IsTurn e t w
                          (make_openshift_group s uid names (s.extract_members uid w).1).1 uid q2
                    | inl (g, p2, q2) ↦
                        let (ip, port, split, o, users) =
                          make-Owned uid names g (s.extract_members uid w).1 p2 in
                        let (es, same) =
                          write_made-made g t
                            (make_openshift_group s uid names (s.extract_members uid w).1).1 q2 in
                        subst (IsTurn w uid) (sym same)
                          (ip, port, split, o, members, p, p' ∙ ap (λ z. ok z) (sym users))
                  ]
          ]
  ]

  -- The state in which the loop arrives after the turns of these UIDs.
  abbrev pub after_turns : List String → W → W
  after_turns [] w = w
  after_turns (uid ∷ uids) w = after_turns uids (sync_uid s uid w).1

  -- The group is made for one of the UIDs, from the members that were extracted for it after the turns
  -- of the UIDs before it.
  abbrev pub IsMadeForOne : W → List String → Group → Type 0
  IsMadeForOne w uids g =
      (before : List String) × (uid : String) × (others : List String) × (uids
        ≡ before ++ uid ∷ others)
      × IsMade (after_turns before w) uid g

  later :
      (uid : String) (uids : List String) (w : W) (gs : List Group)
      → All (IsMadeForOne (sync_uid s uid w).1 uids) gs
      → All (IsMadeForOne w (uid ∷ uids)) gs
  later uid uids w [] h = tt
  later uid uids w (g ∷ gs) ((before, u, others, e, m), rest) =
      ((uid ∷ before, u, others, ap (λ us. uid ∷ us) e, m), later uid uids w gs rest)

  add_turn-IsMade :
      (uid : String) (uids : List String) (w : W) (t : Turn) (rest : List Group × List Error)
      → IsTurn w uid t
      → All (IsMadeForOne (sync_uid s uid w).1 uids) rest.0
      → All (IsMadeForOne w (uid ∷ uids)) (add_turn s t rest).0
  unfolding IsTurn
  add_turn-IsMade uid uids w (made g es) rest m a =
      (([], uid, uids, refl, m), later uid uids w rest.0 a)
  add_turn-IsMade uid uids w (failed e) rest m a = later uid uids w rest.0 a
  add_turn-IsMade uid uids w skipped rest m a = later uid uids w rest.0 a

  sync_uids-IsMade :
      (uids : List String) (w : W) (r : List Group × List Error)
      → (sync_uids s uids w).0 ≡ ok r
      → All (IsMadeForOne w uids) r.0
  unfolding sync_uids
  sync_uids-IsMade [] w r h =
      subst (λ (x : List Group × List Error). All (IsMadeForOne w []) x.0) (ok-injective h) tt
  sync_uids-IsMade (uid ∷ uids) w r h =
      let (t, p, h1) = >>=-eq_ok (sync_uid s uid) _ w r h in
      let (rest, q, h2) = >>=-eq_ok (sync_uids s uids) _ (sync_uid s uid w).1 r h1 in
      subst (λ (x : List Group × List Error). All (IsMadeForOne w (uid ∷ uids)) x.0)
        (ok-injective h2)
        (add_turn-IsMade uid uids w t rest (sync_uid-IsTurn uid w t p)
          (sync_uids-IsMade uids (sync_uid s uid w).1 rest q))

  -- Every group that `Sync` returns, with or without errors beside it, is marked with the host, with
  -- the part of it without the port, and with the UID of one of the LDAP groups that were listed, also
  -- where it was read from the cluster, and its users are the names of the members that were extracted
  -- for this LDAP group, after the turns of the ones listed before it.
  pub sync_result :
      (w : W) (uids : List String) (gs : List Group) (es : List Error)
      → (s.list_groups w).0 ≡ ok uids
      → (sync s w).0 ≡ ok (gs, es)
      → All (IsMadeForOne (s.list_groups w).1 uids) gs
  unfolding sync
  sync_result w uids gs es l h =
      sync_uids-IsMade uids (s.list_groups w).1 (gs, es) (rw (sync, l) at h)
