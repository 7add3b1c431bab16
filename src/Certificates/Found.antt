-- ===== src/Certificates/Found.antt =====
-- When the errors are none, and when a certificate is found.
use group_sync_operator.Prelude.{
  String, ◌≡◌, ◌↔◌, refl, Bool, true, false, ◌&&◌, Option, none, some, List, [], ◌∷◌, ◌++◌, Result,
  ok, err, panic, Error, is_empty, is_some, arith,
}
use group_sync_operator.Prelude.Dict.{GoMap, get}
use group_sync_operator.Api.{ObjectRef}
use group_sync_operator.Syncer.{get_object_ref_data}
use group_sync_operator.Certificates.{required, errors_of, ca_key, append_errors, aggregated}

pub is_empty-append : (xs ys : List Error) → is_empty (xs ++ ys) ≡ (is_empty xs && is_empty ys)
is_empty-append [] ys = refl
is_empty-append (x ∷ xs) ys = refl

pub is_empty-required : (b : Bool) (e : Error) → is_empty (required b e) ≡ b
is_empty-required true e = refl
is_empty-required false e = refl

abbrev pub no_errors : Result (List Error) → Bool
no_errors (ok es) = is_empty es
no_errors _ = false

pub no_errors-append :
    (r s : Result (List Error)) → no_errors (append_errors r s) ≡ (no_errors r && no_errors s)
no_errors-append (ok es) (ok fs) = is_empty-append es fs
no_errors-append (ok es) (err e) = ground arith
no_errors-append (ok es) panic = ground arith
no_errors-append (err e) s = refl
no_errors-append panic s = refl

pub aggregated_iff : (r : Result (List Error)) → (aggregated r ≡ ok tt) ↔ (no_errors r ≡ true)
aggregated_iff (ok []) = (λ h. refl, λ h. refl)
aggregated_iff (ok (e ∷ es)) = (λ h. absurd (cc), λ h. absurd (cc))
aggregated_iff (err e) = (λ h. absurd (cc), λ h. absurd (cc))
aggregated_iff panic = (λ h. absurd (cc), λ h. absurd (cc))

abbrev pub is_read {ℓ} : {A : Type ℓ} → Result A → Bool
is_read (ok a) = true
is_read _ = false

pub errors_of_lem {ℓ} : {A : Type ℓ} (r : Result A) → no_errors (errors_of r) ≡ is_read r
errors_of_lem (ok a) = refl
errors_of_lem (err e) = refl
errors_of_lem panic = refl

-- The certificate under its key, where the data was read.
abbrev pub found_in : String → Result GoMap → Option String
found_in key (ok found) = get key found
found_in key _ = none

module _ (config_map secret : String → String → Result GoMap) where
  abbrev pub certificate : Option ObjectRef → Option String
  certificate none = none
  certificate (some r) = found_in (ca_key r) (get_object_ref_data config_map secret r)

  -- A provider that names a source of its certificate gets one from it.
  abbrev pub certificate_is_found : Option ObjectRef → Bool
  certificate_is_found none = true
  certificate_is_found (some r) = is_some (certificate (some r))
