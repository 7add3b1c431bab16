-- ===== src/Ldap/Connection/Restricted.antt =====
-- Which LDAP groups the provider of pkg/syncer/ldap.go synchronises, from its validation to the groups
-- that its `Sync` makes.
use group_sync_operator.Prelude.{
  String, ◌≡◌, refl, sym, ap, ◌∙◌, subst, Bool, true, not, ◌||◌, ◌&&◌, some, List, [], ◌∷◌, ◌++◌,
  eq_iff, ok, Error, All, All-map, member, is_empty, ok-injective, handle-eq_ok, >>=-eq_ok, inl,
  inr, arith,
}
use group_sync_operator.Prelude.Dict.{get}
use group_sync_operator.Constants.{ldap_uid_annotation}
use group_sync_operator.Api.{LdapProvider}
use group_sync_operator.Cluster.{Group}
use group_sync_operator.Ldap.Directory.{Directory}
use group_sync_operator.Ldap.Listers.{Lister, whitelist_lister, blacklist_lister}
use group_sync_operator.Ldap.Listers.Listed.{member-drop_blacklisted}
use group_sync_operator.Ldap.Validation.{Checks, ldap_validate}
use group_sync_operator.Ldap.Provider.{init_list, unless_empty, get_ldap_group_lister}
use group_sync_operator.Ldap.GroupSyncer.{sync}
use group_sync_operator.Ldap.GroupSyncer.Ownership.{sync_result}
use group_sync_operator.Ldap.Builders.{Queries}
use group_sync_operator.Ldap.Connection.{
  Parts, Bound, rfc2307_bound, ad_bound, augmented_bound, bind_schema,
}
use group_sync_operator.Ldap.Connection.Complete.{Accepts, Complete, ldap_validate-bind_schema}
use group_sync_operator.Ldap.Connection.Assembled.{WorldCalls, group_syncer, sync_bound}

-- The lists admit the UID: the whitelist has it, or is empty, and the blacklist does not have it.
abbrev pub admits : List String → List String → String → Bool
admits whitelist blacklist uid =
    (is_empty whitelist || member uid whitelist) && not (member uid blacklist)

member-split :
    (uids before : List String) (uid : String) (others : List String)
    → uids ≡ before ++ uid ∷ others
    → member uid uids ≡ true
member-split uids [] uid others e = rw (e, (eq_iff uid uid).1 refl) refl
member-split uids (x ∷ before) uid others e =
    rw (e, member-split (before ++ uid ∷ others) before uid others refl) (ground arith)

module _ {S : Type 0} where
  unless_empty-eq_ok :
      (blacklist : List String) (base : Lister S) (s : S) (ys : List String) (n : String)
      → (unless_empty blacklist base s).0 ≡ ok ys
      → member n ys ≡ true
      → (xs : List String) × ((base s).0 ≡ ok xs)
        × ((member n xs && not (member n blacklist)) ≡ true)
  unfolding blacklist_lister
  unless_empty-eq_ok [] base s ys n h m = (ys, h, rw m refl)
  unless_empty-eq_ok (b ∷ bs) base s ys n h m =
      let (xs, run, rest) = >>=-eq_ok base _ s ys h in
      (
        xs,
        run,
        sym (member-drop_blacklisted n (b ∷ bs) xs) ∙ (ap (member n) (ok-injective rest) ∙ m),
      )

  -- What the chosen lister lists is admitted.
  lister_admits :
      (base l : Lister S) (whitelist blacklist ys : List String) (s : S) (n : String)
      → get_ldap_group_lister (ok base) whitelist blacklist ≡ ok l
      → (l s).0 ≡ ok ys
      → member n ys ≡ true
      → admits whitelist blacklist n ≡ true
  unfolding get_ldap_group_lister whitelist_lister
  lister_admits base l [] blacklist ys s n h run m =
      let (xs, listed, both) =
        unless_empty-eq_ok blacklist base s ys n (rw (sym (ok-injective h)) at run) m in
      ground arith
  lister_admits base l (uid ∷ uids) blacklist ys s n h run m =
      let (xs, listed, both) =
        unless_empty-eq_ok blacklist (whitelist_lister (uid ∷ uids)) s ys n
          (rw (sym (ok-injective h)) at run) m in
      rw (sym (ok-injective listed)) at both

-- A group of an LDAP group that the lists of the provider admit.
abbrev pub IsAdmitted : LdapProvider → Group → Type 0
IsAdmitted p g =
    (uid : String) × (get ldap_uid_annotation g.annotations ≡ some uid)
    × (admits (init_list p.whitelist) (init_list p.blacklist) uid ≡ true)

module _ {E W S : Type 0} (p : LdapProvider) (host : String) (calls : WorldCalls W) where
  parts_admit :
      (base : Lister S) (parts : Parts S E) (z : S × W) (gs : List Group) (es : List Error)
      → get_ldap_group_lister (ok base) (init_list p.whitelist) (init_list p.blacklist)
        ≡ ok parts.lister
      → (sync (group_syncer calls host parts) z).0 ≡ ok (gs, es)
      → All (IsAdmitted p) gs
  unfolding group_syncer sync
  parts_admit base parts z gs es chosen run =
      elim (handle-eq_ok (group_syncer calls host parts).list_groups _ _ z (gs, es) run) [
        | inl (uids, listed, rest) ↦
            All-map
              (λ g m. (
                m.1,
                m.4.3.uid_annotation,
                lister_admits base parts.lister (init_list p.whitelist) (init_list p.blacklist) uids
                    z.0 m.1 chosen listed (member-split uids m.0 m.1 m.2 m.3),
              ))
              gs (sync_result (group_syncer calls host parts) z uids gs es listed run)
        | inr (e, failed, rest) ↦
            subst (λ (x : List Group × List Error). All (IsAdmitted p) x.0) (ok-injective rest) tt
      ]

module _ {E Q R W : Type 0} (d : Directory E Q R) (queries : Queries Q) (p : LdapProvider)
    (c : Checks) (accepts : Accepts c queries) (host : String) (calls : WorldCalls W) where
  sync_bound-IsAdmitted :
      (b : Bound E) (w : W) (gs : List Group) (es : List Error)
      → Complete d queries p b
      → (sync_bound calls host b w).0 ≡ ok (gs, es)
      → All (IsAdmitted p) gs
  unfolding sync_bound
  sync_bound-IsAdmitted (rfc2307_bound parts) w gs es h run =
      parts_admit p host calls _ parts _ gs es h.6.0 run
  sync_bound-IsAdmitted (ad_bound parts) w gs es h run =
      parts_admit p host calls _ parts _ gs es h.4.0 run
  sync_bound-IsAdmitted (augmented_bound parts) w gs es h run =
      parts_admit p host calls _ parts _ gs es h.6.0 run

  -- After a validation that passes, where the query library makes a query of what passed its checks,
  -- the parts that `Bind` puts together are there, and whatever groups the `Sync` of the group syncer
  -- over them returns, with or without errors beside them, are marked with the UID of an LDAP group
  -- that is on the whitelist of the provider, if that is not empty, and not on its blacklist.
  pub ldap_validate-sync_bound :
      ldap_validate c p ≡ ok tt
      → (b : Bound E) × (bind_schema d queries p ≡ ok b)
        × ((w : W) (gs : List Group) (es : List Error)
            → (sync_bound calls host b w).0 ≡ ok (gs, es)
            → All (IsAdmitted p) gs)
  ldap_validate-sync_bound valid =
      let made : _ = ldap_validate-bind_schema d queries p c accepts valid in
      (made.0, made.1, λ w gs es run. sync_bound-IsAdmitted made.0 w gs es made.2 run)
