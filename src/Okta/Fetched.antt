-- ===== src/Okta/Fetched.antt =====
-- The concurrent retrieval of the groups.
use group_sync_operator.Prelude.{
  eqb, ◌≤◌, String, ◌≡◌, ◌↔◌, refl, ap, ◌∙◌, Bool, true, ◌&&◌, Option, List, [], ◌∷◌, length, ok,
  ok-injective, is_some, Option-cases, Bool-cases, inl, inr, arith,
}
use group_sync_operator.Okta.{OktaGroup, retrieved, fetch_groups_async}

abbrev pub all_retrieved : (String → Option OktaGroup) → List String → Bool
all_retrieved get_group [] = true
all_retrieved get_group (app ∷ apps) = is_some (get_group app) && all_retrieved get_group apps

length-retrieved :
    (get_group : String → Option OktaGroup) (apps : List String)
    → length (retrieved get_group apps) ≤ length apps
unfolding retrieved
length-retrieved get_group [] = omega arith
length-retrieved get_group (app ∷ apps) = elim (Option-cases (get_group app)) [
  | inl q ↦ rw (retrieved, q) (omega (arith, length-retrieved get_group apps))
  | inr (g, q) ↦ rw (retrieved, q) (omega (arith, length-retrieved get_group apps))
]

count-retrieved :
    (get_group : String → Option OktaGroup) (apps : List String)
    → eqb (length (retrieved get_group apps)) (length apps) ≡ all_retrieved get_group apps
unfolding retrieved
count-retrieved get_group [] = refl
count-retrieved get_group (app ∷ apps) = elim (Option-cases (get_group app)) [
  | inl q ↦ rw (retrieved, q) (ground (arith, length-retrieved get_group apps))
  | inr (g, q) ↦ rw (retrieved, q) (ground (arith, count-retrieved get_group apps))
]

-- In whatever order the groups arrive, the retrieval succeeds exactly if each group was retrieved,
-- and then returns the groups that were retrieved in the order in which they arrived.
pub fetch_groups_async_iff :
    (order : List OktaGroup → List OktaGroup) (get_group : String → Option OktaGroup)
    (apps : List String) (gs : List OktaGroup)
    → ((xs : List OktaGroup) → length (order xs) ≡ length xs)
    → (fetch_groups_async order get_group apps ≡ ok gs)
      ↔ ((all_retrieved get_group apps ≡ true) × (order (retrieved get_group apps) ≡ gs))
unfolding fetch_groups_async
fetch_groups_async_iff order get_group apps gs same =
    let counted : _ =
      ap (λ n. eqb n (length apps)) (same (retrieved get_group apps))
      ∙ count-retrieved get_group apps in
    elim (Bool-cases (all_retrieved get_group apps)) [
      | inl y ↦ rw (counted, y) (λ h. (refl, ok-injective h), λ h. ap (λ l. ok l) h.1)
      | inr f ↦ rw (counted, f) (λ h. absurd (cc), λ h. absurd (cc))
    ]
