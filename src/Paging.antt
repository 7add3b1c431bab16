-- ===== src/Paging.antt =====
-- The loops that read all pages of an answer, `getGroups` and `getGroupMembers` of
-- pkg/syncer/keycloak.go: pages of a fixed size are asked for until one is empty. The loop is on
-- fuel, and has no result where the fuel ends before an empty page.
pub mod Complete
use group_sync_operator.Prelude.{
  ℕ, zero, suc, ◌+◌, ◌*◌, Option, none, some, List, [], ◌∷◌, ◌++◌, Result, ok, err, panic, Error,
}

abbrev pub iteration_max : ℕ
iteration_max = 100

module _ {A : Type 0} where
  abbrev pub prepend_page : List A → Option (Result (List A)) → Option (Result (List A))
  prepend_page xs (some (ok ys)) = some (ok (xs ++ ys))
  prepend_page xs rest = rest

  abbrev pub on_page : Result (List A) → Option (Result (List A)) → Option (Result (List A))
  on_page (ok []) rest = some (ok [])
  on_page (ok (x ∷ xs)) rest = prepend_page (x ∷ xs) rest
  on_page (err e) rest = some (err e)
  on_page panic rest = some panic

  -- `page first` is the answer to the request for the elements from `first`.
  unfoldable pub fetch_all : (ℕ → Result (List A)) → ℕ → ℕ → Option (Result (List A))
  fetch_all page zero iteration = none
  fetch_all page (suc fuel) iteration =
      on_page (page (iteration * iteration_max)) (fetch_all page fuel (iteration + 1))
