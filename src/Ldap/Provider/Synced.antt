-- ===== src/Ldap/Provider/Synced.antt =====
-- `Sync` of the LDAP provider is all or nothing.
use group_sync_operator.Prelude.{
  ◌≡◌, ◌↔◌, refl, ap, ◌∙◌, List, [], ◌∷◌, ok, Error, ok-injective, >>=-eq_ok,
}
use group_sync_operator.Cluster.{Group}
use group_sync_operator.Ldap.GroupSyncer.{LdapGroupSyncer, sync}
use group_sync_operator.Ldap.Provider.{ldap_sync, all_or_error}

module _ {W E : Type 0} (s : LdapGroupSyncer W E) where
  inverted :
      (gs hs : List Group) (es : List Error) (t w : W)
      → (sync s w).0 ≡ ok (hs, es)
      → (all_or_error {W = W} (hs, es) t).0 ≡ ok gs
      → (sync s w).0 ≡ ok (gs, [])
  inverted gs hs [] t w q h = q ∙ ap (λ z. ok (z, [])) (ok-injective h)
  inverted gs hs (e ∷ es) t w q h = absurd (cc)

  -- The LDAP provider returns groups exactly when its group syncer returns these groups and not a
  -- single error.
  ldap_sync_iff :
      (w : W) (gs : List Group) → ((ldap_sync s w).0 ≡ ok gs) ↔ ((sync s w).0 ≡ ok (gs, []))
  unfolding ldap_sync
  ldap_sync_iff w gs = (
    λ h.
        let ((hs, es), q, k) = >>=-eq_ok (sync s) (all_or_error {W = W}) w gs h in
        inverted gs hs es (sync s w).1 w q k,
    λ h. rw h refl,
  )
