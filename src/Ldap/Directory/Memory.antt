-- ===== src/Ldap/Directory/Memory.antt =====
-- A directory in memory: a list of entries, whose requests name an attribute and a value. It shows
-- that the interface can be met, and runs the tests.
use group_sync_operator.Prelude.{
  String, refl, Bool, true, false, Option, none, some, List, [], ◌∷◌, Result, ok, err, Error,
  external, member, if◌then◌else◌,
}
use group_sync_operator.Prelude.Dict.{Dict, lookup}
use group_sync_operator.Ldap.Directory.{Directory}

pub record Entry : Type 0 where
  pub dn : String
  pub attributes : Dict (List String)

abbrev pub values : Option (List String) → List String
values none = []
values (some vs) = vs

abbrev pub values_of : Entry → String → List String
values_of e attribute = values (lookup attribute e.attributes)

abbrev first_value : Entry → List String → String
first_value e [] = ""
first_value e (attribute ∷ rest) = elim (values_of e attribute) [
  | [] ↦ first_value e rest
  | v ∷ _ ↦ v
]

-- A request for all entries, or for those with a value of an attribute.
abbrev pub Request : Type 0
Request = Option (String × String)

abbrev matches : Request → Entry → Bool
matches none e = true
matches (some (attribute, value)) e = member value (values_of e attribute)

abbrev select : Request → List Entry → List Entry
select r [] = []
select r (e ∷ es) = if matches r e then e ∷ select r es else select r es

abbrev pub absent : Error
absent = external (record {
  query_out_of_bounds = false;
  entry_not_found = true;
  no_such_object = false;
  api_not_found = false;
  text = "not found";
})

abbrev unique : List Entry → Result Entry
unique (e ∷ []) = ok e
unique _ = err absent

abbrev pub memory_directory : List Entry → Directory Entry String Request
memory_directory entries = record {
  dn = λ e. e.dn;
  get_attribute_values = values_of;
  get_attribute_value = first_value;
  new_search_request = λ q attributes. none;
  new_attribute_request = λ q attribute value attributes. ok (some (attribute, value));
  query_for_entries = λ r. ok (select r entries);
  query_for_unique_entry = λ r. unique (select r entries);
  set_list = λ xs. xs;
  member-set_list = λ s xs. refl;
}
