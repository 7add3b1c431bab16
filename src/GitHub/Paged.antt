-- ===== src/GitHub/Paged.antt =====
-- What the loops over pages of pkg/syncer/github.go return.
use group_sync_operator.Prelude.{
  ℕ, zero, suc, eqb, ◌≤◌, String, ◌≡◌, refl, sym, ap, ◌∙◌, Bool, true, false, Option, none, some,
  List, [], ◌∷◌, ◌++◌, append-nil, length, Result, ok, arith, if◌then◌else◌, ◌==◌,
}
use group_sync_operator.Prelude.Dict.{Dict, lookup, insert, lookup-insert}
use group_sync_operator.GitHub.Teams.{
  Page, pages_from, Edge, ScimPage, add_edges, scim_from, GitHubServer, get_scim_identity,
}

unfoldable pub concat {ℓ} : {A : Type ℓ} → List (List A) → List A
concat [] = []
concat (p ∷ ps) = p ++ concat ps

module _ {A : Type 0} (request : ℕ → Result (Page A)) where
  -- From the page `i` on, the server answers these pages, each with the number of the next one.
  abbrev pub Serves : ℕ → List (List A) → Type 0
  Serves i [] = ⊥
  Serves i (p ∷ []) = request i ≡ ok (record { items = p; next_page = 0 })
  Serves i (p ∷ q ∷ ps) =
      (j : ℕ) × (request i ≡ ok (record { items = p; next_page = j }))
      × (eqb j 0 ≡ false)
      × Serves j (q ∷ ps)

  -- Where the server answers the pages of a list, the loop ends and returns all of them, in order,
  -- for every fuel of at least their number.
  pub pages_from_result :
      (i fuel : ℕ) (ps : List (List A))
      → Serves i ps
      → length ps ≤ fuel
      → pages_from request fuel i ≡ some (ok (concat ps))
  unfolding pages_from concat
  pages_from_result i fuel [] h f = absurd h
  pages_from_result i zero (p ∷ ps) h f = absurd (omega arith)
  pages_from_result i (suc fuel) (p ∷ []) h f = rw h (ap (λ xs. some (ok xs)) (sym (append-nil p)))
  pages_from_result i (suc fuel) (p ∷ q ∷ ps) h f =
      rw (h.1, h.2, pages_from_result h.0 fuel (q ∷ ps) h.3 (omega arith)) refl

-- The name of the last identity with this login.
abbrev pub or_before : Option String → Option String → Option String
or_before none before = before
or_before (some name) before = some name

abbrev pub identity_of : String → List Edge → Option String
identity_of login [] = none
identity_of login (e ∷ es) =
    or_before (identity_of login es) (if e.login == login then some e.username else none)

or_before_assoc :
    (a b c : Option String) → or_before (or_before a b) c ≡ or_before a (or_before b c)
or_before_assoc none b c = refl
or_before_assoc (some a) b c = refl

lookup-add_edges :
    (login : String) (es : List Edge) (m : Dict String)
    → lookup login (add_edges es m) ≡ or_before (identity_of login es) (lookup login m)
lookup-add_edges login [] m = refl
lookup-add_edges login (e ∷ es) m =
    lookup-add_edges login es (insert e.login e.username m)
    ∙ (ap (or_before (identity_of login es)) (lookup-insert e.login login e.username m)
        ∙ (ap (or_before (identity_of login es)) (chosen (e.login == login))
            ∙ sym (or_before_assoc (identity_of login es) _ (lookup login m))))
  where
    chosen :
        (b : Bool)
        → (if b then some e.username else lookup login m)
          ≡ or_before (if b then some e.username else none) (lookup login m)
    chosen true = refl
    chosen false = refl

add_edges-append :
    (es fs : List Edge) (m : Dict String) → add_edges (es ++ fs) m ≡ add_edges fs (add_edges es m)
add_edges-append [] fs m = refl
add_edges-append (e ∷ es) fs m = add_edges-append es fs (insert e.login e.username m)

module _ (query : Option String → ScimPage → Result ScimPage) where
  -- After the cursor, the server answers these pages of edges, and decoding an answer replaces what
  -- was held before.
  abbrev pub Answers : Option String → List (List Edge) → Type 0
  Answers after [] = ⊥
  Answers after (p ∷ []) =
      (cursor : String) × ((before : ScimPage)
        → query after before
          ≡ ok (record { edges = p; has_next_page = false; end_cursor = cursor }))
  Answers after (p ∷ q ∷ ps) =
      (cursor : String) × ((before : ScimPage)
        → query after before ≡ ok (record { edges = p; has_next_page = true; end_cursor = cursor }))
      × Answers (some cursor) (q ∷ ps)

  scim_from_result :
      (after : Option String) (fuel : ℕ) (ps : List (List Edge)) (before : ScimPage)
      (m : Dict String)
      → Answers after ps
      → length ps ≤ fuel
      → scim_from query fuel after before m ≡ some (ok (add_edges (concat ps) m))
  unfolding scim_from concat
  scim_from_result after fuel [] before m h f = absurd h
  scim_from_result after zero (p ∷ ps) before m h f = absurd (omega arith)
  scim_from_result after (suc fuel) (p ∷ []) before m h f = rw (h.1 before, append-nil p) refl
  scim_from_result after (suc fuel) (p ∷ q ∷ ps) before m h f =
      rw
        (
          h.1 before,
          add_edges-append p (q ++ concat ps) m,
          scim_from_result (some (h.0)) fuel (q ∷ ps) _ (add_edges p m) h.2 (omega arith),
        )
        refl

-- Where the server answers the identities in pages, `getScimIdentity` ends, for every fuel of at
-- least the number of pages, and gives each login the name of its last identity, and no other login
-- a name.
pub get_scim_identity_result :
    (server : GitHubServer) (organization : String) (ps : List (List Edge)) (fuel : ℕ)
    → Answers (server.scim_query organization) none ps
    → length ps ≤ fuel
    → (m : Dict String) × (get_scim_identity server fuel organization ≡ some (ok m))
      × ((login : String) → lookup login m ≡ identity_of login (concat ps))
unfolding get_scim_identity
get_scim_identity_result server organization ps fuel h f = (
  add_edges (concat ps) [],
  scim_from_result (server.scim_query organization) none fuel ps server.scim_query_held [] h f,
  λ login. lookup-add_edges login (concat ps) [] ∙ no_more (identity_of login (concat ps)),
)
  where
    no_more : (o : Option String) → or_before o none ≡ o
    no_more none = refl
    no_more (some name) = refl
