-- ===== src/Controller/Merge.antt =====
-- `mergeMap` as a map, and what `write_synced` builds.
use group_sync_operator.Prelude.{
  String, ◌≡◌, refl, Bool, true, false, Option, none, some, [], ◌∷◌, arith, ◌==◌, if◌then◌else◌,
}
use group_sync_operator.Prelude.Dict.{Dict, GoMap, get, lookup, lookup-insert}
use group_sync_operator.Controller.{merge_into, merge_map}

-- The second value if there is one, and else the first.
abbrev pub over : Option String → Option String → Option String
over first none = first
over first (some v) = some v

over-if :
    (b : Bool) (first second : Option String) (v : String)
    → (if b then some v else over first second) ≡ over first (if b then some v else second)
over-if true first second v = refl
over-if false first second v = refl

lookup-merge_into :
    (k : String) (m1 m2 : Dict String)
    → lookup k (merge_into m1 m2) ≡ over (lookup k m1) (lookup k m2)
lookup-merge_into k m1 [] = refl
lookup-merge_into k m1 ((j, v) ∷ m2) =
    simp (lookup-insert, lookup-merge_into k m1 m2) (over-if (j == k) (lookup k m1) (lookup k m2) v)

-- A merged map has, at each key, the value of the second map if it has one there, and else the
-- value of the first; a nil map counts as empty.
pub get-merge_map :
    (k : String) (m1 m2 : GoMap) → get k (merge_map m1 m2) ≡ over (get k m1) (get k m2)
unfolding merge_map
get-merge_map k none none = refl
get-merge_map k none (some m2) = ground arith
get-merge_map k (some m1) none = refl
get-merge_map k (some m1) (some m2) = lookup-merge_into k m1 m2
