-- ===== src/Ldap/Mappers/Names.antt =====
-- Which mapper names a group.
use group_sync_operator.Prelude.{
  String, ◌≡◌, ◌↔◌, refl, ◌∙◌, List, [], ◌∷◌, ◌++◌, Result, ok, err, panic, Error,
}
use group_sync_operator.Ldap.Mappers.{GroupNameMapper, or_next, first_name, union_mapper}

module _ {S : Type 0} where
  -- The name that the first mapper to succeed gives, after those before it failed.
  pub data FirstName (uid : String) (n : String) (t : S)
      : List (GroupNameMapper S) → S → Type 0 where
    here :
        {m : GroupNameMapper S} {ms : List (GroupNameMapper S)} {s : S}
        → m uid s ≡ (ok n, t)
        → FirstName uid n t (m ∷ ms) s
    next :
        {m : GroupNameMapper S} {ms : List (GroupNameMapper S)} {s : S}
        → (e : Error) (u : S) → m uid s ≡ (err e, u)
        → FirstName uid n t ms u
        → FirstName uid n t (m ∷ ms) s

  first_name-FirstName :
      (uid n : String) (t : S) (ms : List (GroupNameMapper S)) (errs : List Error) (s : S)
      → first_name ms uid errs s ≡ (ok n, t)
      → FirstName uid n t ms s
  unfolding first_name
  first_name-FirstName uid n t [] errs s h = absurd (cc)
  first_name-FirstName uid n t (m ∷ ms) errs s h =
      go (λ es u. first_name-FirstName uid n t ms es u) (m uid s) refl h
    where
      go :
          ((es : List Error) (u : S) → first_name ms uid es u ≡ (ok n, t) → FirstName uid n t ms u)
          → (r : Result String × S) → m uid s ≡ r
          → or_next r (λ es. first_name ms uid es) errs ≡ (ok n, t)
          → FirstName uid n t (m ∷ ms) s
      go later (ok a, u) e k = FirstName.here (e ∙ k)
      go later (err x, u) e k = FirstName.next x u e (later (errs ++ x ∷ []) u k)
      go later (panic, u) e k = absurd (cc)

  FirstName-first_name :
      (uid n : String) (t : S) (ms : List (GroupNameMapper S)) (errs : List Error) (s : S)
      → FirstName uid n t ms s
      → first_name ms uid errs s ≡ (ok n, t)
  unfolding first_name
  FirstName-first_name uid n t ms errs s (FirstName.here e) = rw e
  FirstName-first_name uid n t ms errs s (FirstName.next {ms = rest} x u e later) =
      rw e (FirstName-first_name uid n t rest (errs ++ x ∷ []) u later)

  -- The union of mappers returns a name, and leaves a state, exactly when some mapper in the order
  -- of the list gives that name and leaves that state after every mapper before it failed.
  pub union_mapper_iff :
      (ms : List (GroupNameMapper S)) (uid n : String) (s t : S)
      → (union_mapper ms uid s ≡ (ok n, t)) ↔ FirstName uid n t ms s
  unfolding union_mapper
  union_mapper_iff [] uid n s t = (λ h. absurd (cc), λ h. elim h [ ])
  union_mapper_iff (m ∷ ms) uid n s t =
      (first_name-FirstName uid n t (m ∷ ms) [] s, FirstName-first_name uid n t (m ∷ ms) [] s)
