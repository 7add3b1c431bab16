-- ===== src/GitLab/Pages.antt =====
-- Which of the two loops ends.
use group_sync_operator.Prelude.{
  ℕ, zero, suc, leb, ◌+◌, ◌<◌, ◌≡◌, refl, ap, sym, true, false, none, some, List, [], ◌∷◌, ◌++◌,
  append-nil, length, Result, ok, arith,
}
use group_sync_operator.GitLab.{Answer, gitlab_groups_from, gitlab_groups, gitlab_members}

module _ {A : Type 0} (request : ℕ → Result (Answer A)) where
  -- From the page `i` on, the server answers these pages.
  abbrev pub Serves : ℕ → ℕ → List (List A) → Type 0
  Serves total i [] = Unit
  Serves total i (p ∷ ps) =
      (request i
        ≡ ok (record { items = p; current_page = i; total_pages = total; next_page = i + 1 }))
      × Serves total (i + 1) ps

  abbrev pub concat : List (List A) → List A
  concat [] = []
  concat (p ∷ ps) = p ++ concat ps

  served_from :
      (total i : ℕ) (p : List A) (ps : List (List A)) (fuel : ℕ)
      → Serves total i (p ∷ ps)
      → i + length ps ≡ total
      → length ps < fuel
      → gitlab_groups_from request fuel i ≡ some (ok (concat (p ∷ ps)))
  unfolding gitlab_groups_from
  served_from total i p ps zero h e f = absurd (omega arith)
  served_from total i p [] (suc fuel) h e f =
      let last : leb total i ≡ true = ground arith in
      rw (h.0, last) (ap (λ xs. some (ok xs)) (sym (append-nil p)))
  served_from total i p (q ∷ ps) (suc fuel) h e f =
      let more : leb total i ≡ false = ground arith in
      rw (h.0, more, served_from total (i + 1) q ps fuel h.1 (omega arith) (omega arith)) refl

  -- When the server answers the pages of a list one after the other, numbered from 1, `getGroups`
  -- ends and returns all of their elements, in order, for every fuel of at least the number of
  -- pages.
  pub gitlab_groups_result :
      (p : List A) (ps : List (List A)) (fuel : ℕ)
      → Serves (1 + length ps) 1 (p ∷ ps)
      → length ps < fuel
      → gitlab_groups request fuel ≡ some (ok (concat (p ∷ ps)))
  gitlab_groups_result p ps fuel h f = served_from (1 + length ps) 1 p ps fuel h refl f

  -- When the first page of the members of a group is not the last, `getGroupMembers` does not end:
  -- it has no result for any fuel.
  pub gitlab_members_diverges :
      (r : Answer A) (fuel : ℕ)
      → request 1 ≡ ok r
      → leb r.total_pages r.current_page ≡ false
      → gitlab_members request fuel ≡ none
  unfolding gitlab_members
  gitlab_members_diverges r zero h m = refl
  gitlab_members_diverges r (suc fuel) h m = rw (h, m, gitlab_members_diverges r fuel h m) refl
