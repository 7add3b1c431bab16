-- ===== src/Prelude/Results.antt =====
-- Go's `(value, error)` results, with a panic as a third way to end, and functions that also change
-- a state.
use Prim.Native.String.{String}
use mathlib.Core.Path.{◌≡◌, refl}
use mathlib.Core.Logic.{◌⊎◌, inl, inr}
use mathlib.Core.Bool.{Bool, true, false}
use mathlib.Core.List.{List, [], ◌∷◌}

-- An error value made outside this repository: what the predicates of `ldapquery` and
-- `apierrors` answer on it, and its text.
pub record Fault : Type 0 where
  pub query_out_of_bounds : Bool
  pub entry_not_found : Bool
  pub no_such_object : Bool
  pub api_not_found : Bool
  pub text : String

mutual
  pub data Error : Type 0 where
    external : Fault → Error
    failure : String → List String → Error
    member_lookup : String → String → Error → Error
    aggregate : Errors → Error

  pub data Errors : Type 0 where
    nil : Errors
    cons : Error → Errors → Errors

abbrev pub errors : List Error → Errors
errors [] = nil
errors (e ∷ es) = cons e (errors es)

pub data Result {ℓ} (A : Type ℓ) : Type ℓ where
  ok : A → Result A
  err : Error → Result A
  panic : Result A

-- `ldapquery.IsQueryOutOfBoundsError` and its like look at the dynamic type of the error, so they
-- are false on an error that this repository makes.
abbrev pub is_query_out_of_bounds : Error → Bool
is_query_out_of_bounds (external f) = f.query_out_of_bounds
is_query_out_of_bounds _ = false

abbrev pub is_entry_not_found : Error → Bool
is_entry_not_found (external f) = f.entry_not_found
is_entry_not_found _ = false

abbrev pub is_no_such_object : Error → Bool
is_no_such_object (external f) = f.no_such_object
is_no_such_object _ = false

abbrev pub is_api_not_found : Error → Bool
is_api_not_found (external f) = f.api_not_found
is_api_not_found _ = false

abbrev pub is_ok {ℓ} : {A : Type ℓ} → Result A → Bool
is_ok (ok a) = true
is_ok _ = false

-- `utilerrors.NewAggregate` over a list of errors: nil if there is none.
abbrev pub new_aggregate : List Error → Result (Unit {0})
new_aggregate [] = ok tt
new_aggregate (e ∷ es) = err (aggregate (errors (e ∷ es)))

abbrev pub Exec {ℓ} : Type 0 → Type ℓ → Type ℓ
Exec S A = S → Result A × S

module _ {ℓ} {S : Type 0} {A : Type ℓ} where
  abbrev pub pure : A → Exec S A
  pure a s = (ok a, s)

  abbrev pub raise : Error → Exec S A
  raise e s = (err e, s)

  abbrev pub lift : Result A → Exec S A
  lift r s = (r, s)

module _ {ℓ κ} {S : Type 0} {A : Type ℓ} {B : Type κ} where
  abbrev pub continue : Result A → (A → Exec S B) → Exec S B
  continue (ok a) f s = f a s
  continue (err e) f s = (err e, s)
  continue panic f s = (panic, s)

  infixl 10 ◌>>=◌ ◌>>◌
  abbrev pub ◌>>=◌ : Exec S A → (A → Exec S B) → Exec S B
  ◌>>=◌ m f s = continue (m s).0 f (m s).1

  abbrev pub ◌>>◌ : Exec S A → Exec S B → Exec S B
  m >> k = m >>= λ _. k

-- The run of `m`, and what follows on its value or on its error.
module _ {ℓ κ} {S : Type 0} {A : Type ℓ} {B : Type κ} where
  abbrev pub settle : Result A → (Error → Exec S B) → (A → Exec S B) → Exec S B
  settle (ok a) failed next s = next a s
  settle (err e) failed next s = failed e s
  settle panic failed next s = (panic, s)

  abbrev pub handle : Exec S A → (Error → Exec S B) → (A → Exec S B) → Exec S B
  handle m failed next s = settle (m s).0 failed next (m s).1

pub ok-injective {ℓ} : {A : Type ℓ} {a b : A} → ok a ≡ ok b → a ≡ b
ok-injective h = cc

-- A successful sequence ran both parts, the second one from the state that the first one left.
module _ {ℓ κ} {S : Type 0} {A : Type ℓ} {B : Type κ} where
  continue-eq_ok :
      (r : Result A) (f : A → Exec S B) (t : S) (b : B)
      → (continue r f t).0 ≡ ok b
      → (a : A) × (r ≡ ok a) × ((f a t).0 ≡ ok b)
  continue-eq_ok (ok a) f t b h = (a, refl, h)
  continue-eq_ok (err e) f t b h = absurd (cc)
  continue-eq_ok panic f t b h = absurd (cc)

  pub >>=-eq_ok :
      (m : Exec S A) (f : A → Exec S B) (s : S) (b : B)
      → ((m >>= f) s).0 ≡ ok b
      → (a : A) × ((m s).0 ≡ ok a) × ((f a (m s).1).0 ≡ ok b)
  >>=-eq_ok m f s b h = continue-eq_ok (m s).0 f (m s).1 b h

pub new_aggregate-eq_ok : (es : List Error) → new_aggregate es ≡ ok tt → es ≡ []
new_aggregate-eq_ok [] h = refl
new_aggregate-eq_ok (e ∷ es) h = absurd (cc)

-- A value that is returned after a call leaves the state of the call.
module _ {ℓ κ} {S : Type 0} {A : Type ℓ} {B : Type κ} where
  continue-pure : (r : Result A) (b : B) (t : S) → (continue r (λ _. pure b) t).1 ≡ t
  continue-pure (ok a) b t = refl
  continue-pure (err e) b t = refl
  continue-pure panic b t = refl

  pub >>=-pure : (m : Exec S A) (b : B) (s : S) → ((m >>= λ _. pure b) s).1 ≡ (m s).1
  >>=-pure m b s = continue-pure (m s).0 b (m s).1

-- To split on a computed result and keep the equation.
pub Result-cases {ℓ} :
    {A : Type ℓ} (r : Result A)
    → ((a : A) × (r ≡ ok a)) ⊎ (((e : Error) × (r ≡ err e)) ⊎ (r ≡ panic))
Result-cases (ok a) = inl (a, refl)
Result-cases (err e) = inr (inl (e, refl))
Result-cases panic = inr (inr refl)

-- Two continuations that agree from the state that is left.
pub continue-same {ℓ κ} :
    {S : Type 0} {A : Type ℓ} {B : Type κ} (r : Result A) (f g : A → Exec S B) (t : S)
    → ((a : A) → f a t ≡ g a t)
    → continue r f t ≡ continue r g t
continue-same (ok a) f g t h = h a
continue-same (err e) f g t h = refl
continue-same panic f g t h = refl

-- A handled run that returns went on with a value or with an error.
module _ {ℓ κ} {S : Type 0} {A : Type ℓ} {B : Type κ} where
  settle-eq_ok :
      (r : Result A) (failed : Error → Exec S B) (next : A → Exec S B) (t : S) (b : B)
      → (settle r failed next t).0 ≡ ok b
      → ((a : A) × (r ≡ ok a) × ((next a t).0 ≡ ok b))
        ⊎ ((e : Error) × (r ≡ err e) × ((failed e t).0 ≡ ok b))
  settle-eq_ok (ok a) failed next t b h = inl (a, refl, h)
  settle-eq_ok (err e) failed next t b h = inr (e, refl, h)
  settle-eq_ok panic failed next t b h = absurd (cc)

  pub handle-eq_ok :
      (m : Exec S A) (failed : Error → Exec S B) (next : A → Exec S B) (s : S) (b : B)
      → (handle m failed next s).0 ≡ ok b
      → ((a : A) × ((m s).0 ≡ ok a) × ((next a (m s).1).0 ≡ ok b))
        ⊎ ((e : Error) × ((m s).0 ≡ err e) × ((failed e (m s).1).0 ≡ ok b))
  handle-eq_ok m failed next s b h = settle-eq_ok (m s).0 failed next (m s).1 b h
