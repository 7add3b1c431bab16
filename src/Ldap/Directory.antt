-- ===== src/Ldap/Directory.antt =====
-- What the LDAP code uses of the libraries `ldapquery`, `ldaputil`, `ldap.v2` and `sets`, with
-- abstract entries `E`, queries `Q` and search requests `R`. The answers of the server are a
-- function of the request: the directory does not change during one synchronisation.
pub mod Memory
use group_sync_operator.Prelude.{String, ◌≡◌, List, Result, member}

pub record Directory (E Q R : Type 0) : Type 0 where
  -- `ldap.Entry`
  pub dn : E → String
  pub get_attribute_values : E → String → List String
  -- `ldaputil.GetAttributeValue`: the empty text where no attribute has a value.
  pub get_attribute_value : E → List String → String
  -- `LDAPQuery.NewSearchRequest` and `LDAPQueryOnAttribute.NewSearchRequest`
  pub new_search_request : Q → List String → R
  pub new_attribute_request : Q → String → String → List String → Result R
  pub query_for_entries : R → Result (List E)
  pub query_for_unique_entry : R → Result E
  -- `sets.NewString(xs...).List()`
  pub set_list : List String → List String
  pub member-set_list : (s : String) (xs : List String) → member s (set_list xs) ≡ member s xs

-- `ldapquery.LDAPQueryOnAttribute`
pub record QueryOnAttribute (Q : Type 0) : Type 0 where
  pub query : Q
  pub query_attribute : String
