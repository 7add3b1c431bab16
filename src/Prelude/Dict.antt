-- ===== src/Prelude/Dict.antt =====
-- Go maps with string keys: `none` is the nil map, which can be read and not written.
use mathlib.Core.Path.{◌≡◌, refl}
use mathlib.Core.Bool.{Bool}
use mathlib.Core.Option.{Option, none, some}
use mathlib.Core.List.{List, [], ◌∷◌}
use Prim.Native.String.{String}
use native.Mathlib.Omega.{arith}
use text.Mathlib.Text.{◌==◌}
use text.Mathlib.TextEquality.{eq_iff}
use group_sync_operator.Prelude.Results.{Result, ok, panic}
use group_sync_operator.Prelude.Tests.{if◌then◌else◌, is_some}

abbrev pub Dict {ℓ} : Type ℓ → Type ℓ
Dict V = List (String × V)

module _ {ℓ} {V : Type ℓ} where
  abbrev pub lookup : String → Dict V → Option V
  lookup k [] = none
  lookup k ((j, v) ∷ m) = if j == k then some v else lookup k m

  abbrev pub insert : String → V → Dict V → Dict V
  insert k v [] = (k, v) ∷ []
  insert k v ((j, w) ∷ m) = if j == k then (k, v) ∷ m else (j, w) ∷ insert k v m

  abbrev pub contains : String → Dict V → Bool
  contains k m = is_some (lookup k m)

  pub lookup-insert :
      (k j : String) (v : V) (m : Dict V)
      → lookup j (insert k v m) ≡ (if k == j then some v else lookup j m)
  lookup-insert k j v [] = refl
  lookup-insert k j v ((i, w) ∷ m) =
      ground (arith, eq_iff k j, eq_iff i k, eq_iff i j, lookup-insert k j v m)

abbrev pub GoMap : Type 0
GoMap = Option (Dict String)

abbrev pub get : String → GoMap → Option String
get k none = none
get k (some m) = lookup k m

-- `m[k]` as a value: the empty text where the key is missing.
abbrev pub get_or_empty : String → GoMap → String
get_or_empty k m = elim (get k m) [ none ↦ "" | some v ↦ v ]

-- `m[k] = v`.
abbrev pub assign : String → String → GoMap → Result GoMap
assign k v none = panic
assign k v (some m) = ok (some (insert k v m))
