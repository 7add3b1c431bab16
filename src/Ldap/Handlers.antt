-- ===== src/Ldap/Handlers.antt =====
-- pkg/provider/ldap/helpers/syncerror: the errors of member lookups and their handlers.
pub mod Order
use group_sync_operator.Prelude.{
  String, Bool, true, false, ◌||◌, Option, none, some, List, [], ◌∷◌, Error, member_lookup,
  is_query_out_of_bounds, is_entry_not_found, is_no_such_object, is_some, if◌then◌else◌,
}

-- `HandleError`: whether the error is handled, and a fatal error.
abbrev pub Handler : Type 0
Handler = Error → Bool × Option Error

unfoldable pub new_member_lookup_error : String → String → Error → Error
new_member_lookup_error group_uid user_uid caused_by = member_lookup group_uid user_uid caused_by

unfoldable pub is_member_lookup_error : Option Error → Bool
is_member_lookup_error (some (member_lookup g u e)) = true
is_member_lookup_error _ = false

abbrev pub settled : Bool × Option Error → Bool
settled (handled, fatal) = handled || is_some fatal

-- `compoundHandler.HandleError`
unfoldable pub compound_handler : List Handler → Handler
compound_handler [] e = (false, none)
compound_handler (h ∷ hs) e =
    let rest = compound_handler hs e in if settled (h e) then h e else rest

-- `memberLookupOutOfBoundsSuppressor.HandleError`
unfoldable pub out_of_bounds_suppressor : Handler
out_of_bounds_suppressor (member_lookup g u caused_by) =
    if is_query_out_of_bounds caused_by then (true, none) else (false, none)
out_of_bounds_suppressor _ = (false, none)

-- `memberLookupMemberNotFoundSuppressor.HandleError`
unfoldable pub not_found_suppressor : Handler
not_found_suppressor (member_lookup g u caused_by) =
    if is_entry_not_found caused_by || is_no_such_object caused_by
    then (true, none)
    else (false, none)
not_found_suppressor _ = (false, none)

-- `LdapSyncer.CreateErrorHandler`, given the two settings of the RFC 2307 configuration.
abbrev pub when : Bool → Handler → List Handler → List Handler
when true h hs = h ∷ hs
when false h hs = hs

unfoldable pub create_error_handler : Option (Bool × Bool) → Handler
unfolding compound_handler out_of_bounds_suppressor not_found_suppressor
create_error_handler none = compound_handler []
create_error_handler (some (tolerate_out_of_scope, tolerate_not_found)) = compound_handler (
    when tolerate_out_of_scope out_of_bounds_suppressor
      (when tolerate_not_found not_found_suppressor []))
