-- ===== src/Ldap/Handlers/Order.antt =====
-- What the handlers of the synchronisation settle.
use group_sync_operator.Prelude.{
  ◌≡◌, refl, Bool, true, false, ◌||◌, ◌&&◌, none, some, Error, member_lookup,
  is_query_out_of_bounds, is_entry_not_found, is_no_such_object, arith,
}
use group_sync_operator.Ldap.Handlers.{create_error_handler}

-- Is the cause of a member lookup error one that the settings tolerate?
abbrev pub tolerated : Bool → Bool → Error → Bool
tolerated out_of_scope not_found (member_lookup g u cause) =
    (out_of_scope && is_query_out_of_bounds cause)
    || (not_found && (is_entry_not_found cause || is_no_such_object cause))
tolerated out_of_scope not_found _ = false

-- The handler of the synchronisation never reports a fatal error, and it handles exactly the member
-- lookup errors whose cause is tolerated: an out-of-bounds query with the one setting, a missing
-- entry or object with the other.
create_error_handler_lem :
    (out_of_scope not_found : Bool) (e : Error)
    → create_error_handler (some (out_of_scope, not_found)) e
      ≡ (tolerated out_of_scope not_found e, none)
unfolding create_error_handler
create_error_handler_lem true true (member_lookup g u cause) = ground arith
create_error_handler_lem true false (member_lookup g u cause) = ground arith
create_error_handler_lem false true (member_lookup g u cause) = ground arith
create_error_handler_lem false false (member_lookup g u cause) = refl
create_error_handler_lem true true _ = refl
create_error_handler_lem true false _ = refl
create_error_handler_lem false true _ = refl
create_error_handler_lem false false _ = refl
