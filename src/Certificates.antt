-- ===== src/Certificates.antt =====
-- The reading of a certificate authority in the `Validate` methods of pkg/syncer, the same in
-- ldap.go, keycloak.go, github.go and gitlab.go, and the errors that the methods collect. The two
-- reads of the cluster are parameters.
pub mod Found
use group_sync_operator.Prelude.{
  String, ◌==◌, Bool, true, false, not, Option, none, some, List, [], ◌∷◌, ◌++◌, Result, ok, err,
  panic, Error, failure, new_aggregate, is_some, if◌then◌else◌,
}
use group_sync_operator.Prelude.Dict.{GoMap, get}
use group_sync_operator.Api.{ObjectRef}
use group_sync_operator.Syncer.{get_object_ref_data}

-- An error that is there only if the test fails.
abbrev pub required : Bool → Error → List Error
required true e = []
required false e = e ∷ []

-- The errors of a call whose value is not an error.
abbrev pub errors_of {ℓ} : {A : Type ℓ} → Result A → Result (List Error)
errors_of (ok a) = ok []
errors_of (err e) = ok (e ∷ [])
errors_of panic = panic

abbrev pub ca_key : ObjectRef → String
ca_key r = if not (r.key == "") then r.key else "ca.crt"

abbrev pub no_ca_key : ObjectRef → Error
no_ca_key r =
    failure "Could not find '%s' key in %s '%s' in namespace '%s"
      (ca_key r ∷ r.kind ∷ r.name ∷ r.namespace ∷ [])

-- The certificate, and the errors on the way to it.
abbrev pub certificate_of : ObjectRef → Result GoMap → Result (Option String × List Error)
certificate_of r (ok found) =
    ok (get (ca_key r) found, required (is_some (get (ca_key r) found)) (no_ca_key r))
certificate_of r (err e) = ok (none, e ∷ no_ca_key r ∷ [])
certificate_of r panic = panic

module _ (config_map secret : String → String → Result GoMap) where
  unfoldable pub ca_certificate : Option ObjectRef → Result (Option String × List Error)
  ca_certificate none = ok (none, [])
  ca_certificate (some r) = certificate_of r (get_object_ref_data config_map secret r)

abbrev pub append_errors : Result (List Error) → Result (List Error) → Result (List Error)
append_errors (ok es) (ok fs) = ok (es ++ fs)
append_errors (ok es) rest = rest
append_errors rest _ = rest

abbrev pub aggregated : Result (List Error) → Result (Unit {0})
aggregated (ok es) = new_aggregate es
aggregated (err e) = err e
aggregated panic = panic
