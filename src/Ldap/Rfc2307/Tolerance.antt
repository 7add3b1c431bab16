-- ===== src/Ldap/Rfc2307/Tolerance.antt =====
-- The two settings for failed member lookups: what `ExtractMembers` does under each.
use group_sync_operator.Prelude.{
  String, ◌≡◌, refl, Bool, true, false, Option, none, some, List, [], ◌∷◌, Exec, Result, ok, err,
  panic, Error, is_query_out_of_bounds, Bool-cases, inl, inr, continue-same,
}
use group_sync_operator.Ldap.Directory.{Directory}
use group_sync_operator.Ldap.Handlers.{
  new_member_lookup_error, create_error_handler, compound_handler, out_of_bounds_suppressor,
}
use group_sync_operator.Ldap.Rfc2307.{
  Rfc2307, Caches, user_entry_for, group_entry_for, member_uids, judged, on_member, find_members,
  extract_members,
}

-- The interface with the error handler of the two settings.
abbrev pub configured : {Q : Type 0} → Rfc2307 Q → Bool → Bool → Rfc2307 Q
configured a out_of_scope not_found = record a {
  error_handler = create_error_handler (some (out_of_scope, not_found));
}

module _ {E Q R : Type 0} (d : Directory E Q R) (a : Rfc2307 Q) (not_found : Bool) where
  handler-same :
      (group uid : String) (e : Error)
      → is_query_out_of_bounds e ≡ false
      → create_error_handler (some (true, not_found)) (new_member_lookup_error group uid e)
        ≡ create_error_handler (some (false, not_found)) (new_member_lookup_error group uid e)
  unfolding create_error_handler compound_handler out_of_bounds_suppressor new_member_lookup_error
  handler-same group uid e f = rw f refl

  on_member-same :
      (group uid : String) (o : Result E) (m n : Exec (Caches E) (List E)) (s : Caches E)
      → m s ≡ n s
      → on_member d (configured a true not_found) group uid o m s
        ≡ on_member d (configured a false not_found) group uid o n s
  on_member-same group uid (ok u) m n s h = rw h refl
  on_member-same group uid (err e) m n s h = elim (Bool-cases (is_query_out_of_bounds e)) [
    | inl y ↦ rw y h
    | inr f ↦
        rw (f, handler-same group uid e f)
          (judged-same
            (create_error_handler (some (false, not_found)) (new_member_lookup_error group uid e)))
  ]
    where
      judged-same :
          (v : Bool × Option Error)
          → judged d a v (new_member_lookup_error group uid e) m s
            ≡ judged d a v (new_member_lookup_error group uid e) n s
      judged-same (handled, some fatal) = refl
      judged-same (true, none) = h
      judged-same (false, none) = refl
  on_member-same group uid panic m n s h = refl

  find_members-same :
      (group : String) (uids : List String) (s : Caches E)
      → find_members d (configured a true not_found) group uids s
        ≡ find_members d (configured a false not_found) group uids s
  unfolding find_members user_entry_for
  find_members-same group [] s = refl
  find_members-same group (uid ∷ uids) s =
      on_member-same group uid (user_entry_for d a uid s).0
        (find_members d (configured a true not_found) group uids)
        (find_members d (configured a false not_found) group uids) (user_entry_for d a uid s).1
        (find_members-same group uids (user_entry_for d a uid s).1)

  -- `TolerateMemberOutOfScopeErrors` has no effect: with and without it `ExtractMembers` returns the
  -- same, members, error or panic, and leaves the same caches, from any caches.
  pub extract_members-out_of_scope :
      (uid : String) (s : Caches E)
      → extract_members d (configured a true not_found) uid s
        ≡ extract_members d (configured a false not_found) uid s
  unfolding extract_members group_entry_for member_uids
  extract_members-out_of_scope uid s =
      continue-same (group_entry_for d a uid s).0
        (λ g.
          find_members d (configured a true not_found) uid
            (member_uids d a a.group_membership_attributes g))
        (λ g.
          find_members d (configured a false not_found) uid
            (member_uids d a a.group_membership_attributes g))
        (group_entry_for d a uid s).1
        (λ g.
          find_members-same uid (member_uids d a a.group_membership_attributes g)
            (group_entry_for d a uid s).1)
