-- ===== src/Azure/Synced.antt =====
-- What the `Sync` of pkg/syncer/azure.go returns.
use group_sync_operator.Prelude.{
  String, ◌==◌, ◌≡◌, refl, Bool, true, false, Option, none, some, List, [], ◌∷◌, ◌++◌, ok, panic,
  Bool-cases, Option-cases, inl, inr, if◌then◌else◌, is_some, holds, not, ◌&&◌, ◌||◌,
}
use group_sync_operator.Prelude.Dict.{lookup}
use group_sync_operator.Collect.{Fuelled, next}
use group_sync_operator.Azure.Groups.{
  DirectoryObject, graph_odata_type, graph_user_type, graph_user_name_attribute, deref, user_if,
  first_username, get_username_for_user, is_username_present, username_or, name_list, member_names,
  join_lists,
}

-- The one attribute that names users: the first of the provider's, and none if it lists none.
abbrev pub name_attribute : Option (List String) → Option String
name_attribute none = some graph_user_name_attribute
name_attribute (some []) = none
name_attribute (some (a ∷ as_well)) = some a

abbrev pub named_by : Option String → DirectoryObject → Fuelled (Option String)
named_by none user = some (ok none)
named_by (some a) user = next (deref (lookup a user.additional)) (λ value. some (ok (some value)))

-- A value that is read is found: the other attributes are not tried.
present :
    (o : Option String) (rest : Fuelled (Option String))
    → next (next (deref o) (λ value. some (ok (value, true)))) (username_or rest)
      ≡ next (deref o) (λ value. some (ok (some value)))
present none rest = refl
present (some value) rest = refl

get_username_for_user_lem :
    (attributes : Option (List String)) (user : DirectoryObject)
    → get_username_for_user attributes user ≡ named_by (name_attribute attributes) user
unfolding get_username_for_user first_username is_username_present
get_username_for_user_lem none user =
    present (lookup graph_user_name_attribute user.additional) (some (ok none))
get_username_for_user_lem (some []) user = refl
get_username_for_user_lem (some (a ∷ others)) user =
    present (lookup a user.additional) (first_username user others)

abbrev pub type_of : DirectoryObject → Option String
type_of m = lookup graph_odata_type m.additional

abbrev pub has_name : Option String → DirectoryObject → Bool
has_name none m = true
has_name (some a) m = is_some (lookup a m.additional)

abbrev pub name_of : Option String → DirectoryObject → List String
name_of none m = []
name_of (some a) m = name_list (lookup a m.additional)

-- A member that has a type and, if it is a user, the attribute that names users.
abbrev pub is_readable : Option String → DirectoryObject → Bool
is_readable f m = is_some (type_of m) && (not (holds graph_user_type (type_of m)) || has_name f m)

abbrev pub all_readable : Option String → List DirectoryObject → Bool
all_readable f [] = true
all_readable f (m ∷ ms) = is_readable f m && all_readable f ms

-- The names of the users among the members, in order.
abbrev pub names_of_users : Option String → List DirectoryObject → List String
names_of_users f [] = []
names_of_users f (m ∷ ms) =
    if holds graph_user_type (type_of m)
    then name_of f m ++ names_of_users f ms
    else names_of_users f ms

joined :
    (b : Bool) (xs ys : List String)
    → join_lists xs (if b then some (ok ys) else some panic)
      ≡ (if b then some (ok (xs ++ ys)) else some panic)
joined true xs ys = refl
joined false xs ys = refl

named_user :
    (f : Option String) (m : DirectoryObject) (b : Bool) (ys : List String)
    → next
        (next (named_by f m) (λ name. some (ok (name_list name))))
        (λ xs. join_lists xs (if b then some (ok ys) else some panic))
      ≡ (if has_name f m && b then some (ok (name_of f m ++ ys)) else some panic)
named_user none m b ys = joined b [] ys
named_user (some a) m b ys = elim (Option-cases (lookup a m.additional)) [
  | inl e ↦ rw e refl
  | inr (value, e) ↦ rw e (joined b (value ∷ []) ys)
]

typed_member :
    (attributes : Option (List String)) (f : Option String) (m : DirectoryObject) (t : String)
    (b : Bool) (ys : List String)
    → get_username_for_user attributes m ≡ named_by f m
    → next
        (user_if attributes m (t == graph_user_type))
        (λ xs. join_lists xs (if b then some (ok ys) else some panic))
      ≡ (if (not (t == graph_user_type) || has_name f m) && b
          then some (ok (if t == graph_user_type then name_of f m ++ ys else ys))
          else some panic)
typed_member attributes f m t b ys h = elim (Bool-cases (t == graph_user_type)) [
  | inl e ↦ rw (e, h) (named_user f m b ys)
  | inr e ↦ rw e (joined b [] ys)
]

-- The listing of the members answers the names of the users among them, in order, by the first of
-- the provider's attributes, and no names where the provider lists none; but it panics if a member
-- has no type or a user lacks this attribute, whatever other attributes the provider lists.
pub member_names_result :
    (attributes : Option (List String)) (ms : List DirectoryObject)
    → member_names attributes ms ≡ (
        if all_readable (name_attribute attributes) ms
        then some (ok (names_of_users (name_attribute attributes) ms))
        else some panic)
unfolding member_names
member_names_result attributes [] = refl
member_names_result attributes (m ∷ ms) = elim (Option-cases (type_of m)) [
  | inl e ↦ rw e refl
  | inr (t, e) ↦
      rw (e, member_names_result attributes ms)
        (typed_member attributes (name_attribute attributes) m t
          (all_readable (name_attribute attributes) ms)
          (names_of_users (name_attribute attributes) ms) (get_username_for_user_lem attributes m))
]
