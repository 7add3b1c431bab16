-- ===== src/Paging/Complete.antt =====
-- The pages together are the whole answer.
use group_sync_operator.Prelude.{
  ℕ, zero, suc, ◌+◌, ◌*◌, ◌<◌, ◌≤◌, ◌≡◌, ◌≢◌, refl, sym, ap, ◌∙◌, Option, some, List, [], ◌∷◌, ◌++◌,
  length, Result, ok, arith,
}
use group_sync_operator.Paging.{iteration_max, on_page, fetch_all}

module _ {A : Type 0} where
  abbrev pub take : ℕ → List A → List A
  take zero xs = []
  take (suc n) [] = []
  take (suc n) (x ∷ xs) = x ∷ take n xs

  abbrev pub drop : ℕ → List A → List A
  drop zero xs = xs
  drop (suc n) [] = []
  drop (suc n) (x ∷ xs) = drop n xs

  take-drop : (n : ℕ) (xs : List A) → take n xs ++ drop n xs ≡ xs
  take-drop zero xs = refl
  take-drop (suc n) [] = refl
  take-drop (suc n) (x ∷ xs) = ap (λ ys. x ∷ ys) (take-drop n xs)

  drop-nil : (n : ℕ) → drop n [] ≡ []
  drop-nil zero = refl
  drop-nil (suc n) = refl

  drop-drop : (n m k : ℕ) (xs : List A) → n + m ≡ k → drop m (drop n xs) ≡ drop k xs
  drop-drop zero m k xs h = ap (λ l. drop l xs) (omega arith)
  drop-drop (suc n) m zero xs h = absurd (omega arith)
  drop-drop (suc n) m (suc k) [] h = drop-nil m
  drop-drop (suc n) m (suc k) (x ∷ xs) h = drop-drop n m k xs (omega arith)

  length-drop : (n : ℕ) (xs : List A) → length (drop n xs) ≤ length xs
  length-drop zero xs = omega arith
  length-drop (suc n) [] = omega arith
  length-drop (suc n) (x ∷ xs) = omega (arith, length-drop n xs)

  -- The page that a server answers which has `xs` in all.
  abbrev pub window : List A → ℕ → List A
  window xs first = take iteration_max (drop first xs)

  page_lem :
      (m : ℕ) (ys : List A) (rest : Option (Result (List A)))
      → (ys ≢ [] → rest ≡ some (ok (drop (suc m) ys)))
      → on_page (ok (take (suc m) ys)) rest ≡ some (ok ys)
  page_lem m [] rest h = refl
  page_lem m (y ∷ ys) rest h = rw (h (λ e. cc)) (ap (λ zs. some (ok (y ∷ zs))) (take-drop m ys))

  shorter : (ys : List A) → ys ≢ [] → length (drop iteration_max ys) < length ys
  shorter [] h = absurd (h refl)
  shorter (y ∷ ys) h = omega (arith, length-drop 99 ys)

  next_page :
      (fuel i : ℕ) (xs : List A) (page : ℕ → Result (List A))
      → length (drop iteration_max (drop (i * iteration_max) xs))
        < length (drop (i * iteration_max) xs)
      → length (drop (i * iteration_max) xs) < suc fuel
      → (length (drop ((i + 1) * iteration_max) xs) < fuel
          → fetch_all page fuel (i + 1) ≡ some (ok (drop ((i + 1) * iteration_max) xs)))
      → fetch_all page fuel (i + 1) ≡ some (ok (drop iteration_max (drop (i * iteration_max) xs)))
  next_page fuel i xs page less enough rest =
      let same : drop iteration_max (drop (i * iteration_max) xs)
          ≡ drop ((i + 1) * iteration_max) xs =
        drop-drop (i * iteration_max) iteration_max ((i + 1) * iteration_max) xs (omega arith) in
      rest (omega (arith, ap length same)) ∙ ap (λ zs. some (ok zs)) (sym same)

  fetch_all-drop :
      (page : ℕ → Result (List A)) (xs : List A)
      → ((first : ℕ) → page first ≡ ok (window xs first))
      → (fuel i : ℕ) → length (drop (i * iteration_max) xs) < fuel
      → fetch_all page fuel i ≡ some (ok (drop (i * iteration_max) xs))
  unfolding fetch_all
  fetch_all-drop page xs served zero i h = absurd (omega arith)
  fetch_all-drop page xs served (suc fuel) i h = rw (served (i * iteration_max)) (
      page_lem 99 (drop (i * iteration_max) xs) (fetch_all page fuel (i + 1)) λ e.
        next_page fuel i xs page (shorter (drop (i * iteration_max) xs) e) h
          (fetch_all-drop page xs served fuel (i + 1)))

  -- When a server answers each request with the next hundred elements of a list, the loop ends and
  -- its result is this list, in its order, for every fuel that is more than the length of the list.
  pub fetch_all_result :
      (page : ℕ → Result (List A)) (xs : List A) (fuel : ℕ)
      → ((first : ℕ) → page first ≡ ok (window xs first))
      → length xs < fuel
      → fetch_all page fuel 0 ≡ some (ok xs)
  fetch_all_result page xs fuel served h = fetch_all-drop page xs served fuel 0 h
