-- ===== src/Collect.antt =====
-- The loop that the `Sync` methods of pkg/syncer/github.go, gitlab.go and azure.go share: each group
-- that is allowed is made in turn, and the first one that is not made ends the loop. Results are on
-- fuel, with none where it ends.
pub mod Collected
use group_sync_operator.Prelude.{
  Bool, Option, none, some, List, [], ◌∷◌, Result, ok, err, panic, if◌then◌else◌,
}

-- A result, or nothing where the fuel ended.
abbrev pub Fuelled {ℓ} : Type ℓ → Type ℓ
Fuelled A = Option (Result A)

module _ {ℓ κ} {A : Type ℓ} {B : Type κ} where
  -- What follows on the value.
  abbrev pub next : Fuelled A → (A → Fuelled B) → Fuelled B
  next none f = none
  next (some (ok a)) f = f a
  next (some (err e)) f = some (err e)
  next (some panic) f = some panic

abbrev pub put_first {ℓ} : {O : Type ℓ} → O → Fuelled (List O) → Fuelled (List O)
put_first o rest = next rest (λ os. some (ok (o ∷ os)))

module _ {G O : Type 0} where
  unfoldable pub collect : (G → Bool) → (G → Fuelled O) → List G → Fuelled (List O)
  collect keep make [] = some (ok [])
  collect keep make (g ∷ gs) =
      let rest = collect keep make gs in
      if keep g then next (make g) (λ o. put_first o rest) else rest
