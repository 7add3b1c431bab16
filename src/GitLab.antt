-- ===== src/GitLab.antt =====
-- The loops over pages of pkg/syncer/gitlab.go, on fuel: they have no result where the fuel ends
-- before the last page. Connection has `Init`, `Validate` and `Bind`,
-- Groups has `Sync`.
pub mod Pages
pub mod Connection
pub mod Accepted
pub mod Groups
pub mod Synced
use group_sync_operator.Prelude.{
  ℕ, zero, suc, leb, Option, none, some, List, [], ◌∷◌, ◌++◌, Result, ok, err, panic, Error,
  if◌then◌else◌,
}

-- An answer of the client, with the fields of its response that are read.
pub record Answer (A : Type 0) : Type 0 where
  pub items : List A
  pub current_page : ℕ
  pub total_pages : ℕ
  pub next_page : ℕ

module _ {A : Type 0} where
  abbrev pub prepend_items : List A → Option (Result (List A)) → Option (Result (List A))
  prepend_items xs (some (ok ys)) = some (ok (xs ++ ys))
  prepend_items xs rest = rest

  -- The end of a turn: the last page ends the loop.
  abbrev pub go_on :
      Result (Answer A) → (Answer A → Option (Result (List A))) → Option (Result (List A))
  go_on (ok r) next =
      if leb r.total_pages r.current_page then some (ok r.items) else prepend_items r.items (next r)
  go_on (err e) next = some (err e)
  go_on panic next = some panic

  -- The loop of `getGroups`, at the page that it asks for.
  unfoldable pub gitlab_groups_from : (ℕ → Result (Answer A)) → ℕ → ℕ → Option (Result (List A))
  gitlab_groups_from request zero page = none
  gitlab_groups_from request (suc fuel) page =
      go_on (request page) (λ r. gitlab_groups_from request fuel r.next_page)

  -- `getGroups`
  abbrev pub gitlab_groups : (ℕ → Result (Answer A)) → ℕ → Option (Result (List A))
  gitlab_groups request fuel = gitlab_groups_from request fuel 1

  -- `getGroupMembers`: the page that is asked for stays the first.
  unfoldable pub gitlab_members : (ℕ → Result (Answer A)) → ℕ → Option (Result (List A))
  gitlab_members request zero = none
  gitlab_members request (suc fuel) = go_on (request 1) (λ r. gitlab_members request fuel)
