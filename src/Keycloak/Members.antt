-- ===== src/Keycloak/Members.antt =====
-- The members that a group gets from its subgroups.
use group_sync_operator.Prelude.{
  String, ◌≡◌, refl, sym, ap, ◌∙◌, ◌==◌, true, false, not, ◌||◌, ◌&&◌, some, List, [], ◌∷◌, ◌++◌,
  arith, Bool-cases, inl, inr, eq_of_==, eq_refl,
}
use group_sync_operator.Prelude.Dict.{lookup-insert}
use group_sync_operator.Keycloak.{
  User, KeycloakCache, has_id, single_diff, members_of, add_to_parent,
}

-- No two users have the same ID.
abbrev pub DistinctIds : List User → Type 0
DistinctIds [] = Unit
DistinctIds (u ∷ us) = (has_id u.id us ≡ false) × DistinctIds us

has_id-append :
    (k : String) (xs ys : List User) → has_id k (xs ++ ys) ≡ (has_id k xs || has_id k ys)
has_id-append k [] ys = refl
has_id-append k (x ∷ xs) ys = ground (arith, has_id-append k xs ys)

has_id-single_diff :
    (k : String) (xs ys : List User)
    → has_id k (single_diff xs ys) ≡ (has_id k xs && not (has_id k ys))
unfolding single_diff
has_id-single_diff k [] ys = refl
has_id-single_diff k (x ∷ xs) ys = elim (Bool-cases (x.id == k)) [
  | inl e ↦ elim (Bool-cases (has_id x.id ys)) [
    | inl y ↦
        rw
          (
            single_diff,
            y,
            has_id-single_diff k xs ys,
            e,
            sym (ap (λ i. has_id i ys) (eq_of_== x.id k e)),
            y,
          )
          (ground arith)
    | inr f ↦ rw (single_diff, f, e, sym (ap (λ i. has_id i ys) (eq_of_== x.id k e)), f) refl
  ]
  | inr n ↦ elim (Bool-cases (has_id x.id ys)) [
    | inl y ↦ rw (single_diff, y, has_id-single_diff k xs ys, n) refl
    | inr f ↦ rw (single_diff, f, n, has_id-single_diff k xs ys) refl
  ]
]

DistinctIds-single_diff : (xs ys : List User) → DistinctIds xs → DistinctIds (single_diff xs ys)
unfolding single_diff
DistinctIds-single_diff [] ys h = tt
DistinctIds-single_diff (x ∷ xs) ys h = elim (Bool-cases (has_id x.id ys)) [
  | inl y ↦ rw (single_diff, y) (DistinctIds-single_diff xs ys h.1)
  | inr f ↦
      rw (single_diff, f)
        (rw (has_id-single_diff x.id xs ys, h.0) refl, DistinctIds-single_diff xs ys h.1)
]

-- The two lists have no ID in common.
abbrev Disjoint : List User → List User → Type 0
Disjoint xs ys = (k : String) → has_id k xs ≡ true → has_id k ys ≡ false

DistinctIds-append :
    (xs ys : List User) → DistinctIds xs → DistinctIds ys → Disjoint xs ys → DistinctIds (xs ++ ys)
DistinctIds-append [] ys hx hy apart = hy
DistinctIds-append (x ∷ xs) ys hx hy apart = (
  rw (has_id-append x.id xs ys, hx.0) (apart x.id (rw (eq_refl x.id) refl)),
  DistinctIds-append xs ys hx.1 hy (λ k h. apart k (later k h)),
)
  where
    later : (k : String) → has_id k xs ≡ true → has_id k (x ∷ xs) ≡ true
    later k h = ground arith

diff-Disjoint : (xs ys : List User) → Disjoint ys (single_diff xs ys)
diff-Disjoint xs ys k h = has_id-single_diff k xs ys ∙ (rw h (ground arith))

-- When a subgroup's members are added to its parent, the parent has a user exactly if it had the
-- user or the subgroup has it, and no other group's members change. If neither list named a user
-- twice, the parent's does not either.
pub add_to_parent_result :
    (parent : String) (us : List User) (s : KeycloakCache)
    → DistinctIds (members_of parent s)
    → DistinctIds us
    → ((group k : String)
        → has_id k (members_of group (add_to_parent (some parent) us s))
          ≡ (has_id k (members_of group s) || (parent == group && has_id k us)))
      × DistinctIds (members_of parent (add_to_parent (some parent) us s))
unfolding add_to_parent
add_to_parent_result parent us s ho hu =
    let old : List User = members_of parent s in
    let new : List User = old ++ single_diff us old in
    let at : (g : String) → _ = λ g. lookup-insert parent g new s.members in
    (
      λ g k. elim (Bool-cases (parent == g)) [
        | inl y ↦
            rw
              (
                at g,
                y,
                sym (eq_of_== parent g y),
                has_id-append k old (single_diff us old),
                has_id-single_diff k us old,
              )
              (ground arith)
        | inr f ↦ rw (at g, f) (ground arith)
      ],
      rw (at parent, eq_refl parent)
          (DistinctIds-append old (single_diff us old) ho (DistinctIds-single_diff us old hu)
            (diff-Disjoint us old)),
    )
