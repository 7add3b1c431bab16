-- ===== src/Credentials/Passed.antt =====
-- When the parts of a validation pass, and what they leave in the fields.
use group_sync_operator.Prelude.{
  String, ◌≡◌, ◌↔◌, refl, sym, ap, ◌∙◌, Bool, true, false, ◌&&◌, Option, none, some, List, [], ◌∷◌,
  ◌++◌, Result, ok, err, panic, Error, new_aggregate, is_empty, is_some, arith, continue, pure,
  ◌>>=◌,
}
use group_sync_operator.Prelude.Dict.{GoMap}
use group_sync_operator.Api.{ObjectRef}
use group_sync_operator.Certificates.{required, ca_certificate, certificate_of, ca_key, no_ca_key}
use group_sync_operator.Certificates.Found.{
  no_errors, is_empty-append, is_empty-required, found_in, certificate, certificate_is_found,
}
use group_sync_operator.Syncer.{get_object_ref_data}
use group_sync_operator.Credentials.{
  Url, Lookups, Fields, Check, both, report, secret_is, certificate_is, url_is, check_secret,
  check_certificate, keep_url,
}

appended :
    (es : List Error) (r : Result (List Error)) (t : Fields)
    → no_errors (continue r (λ fs s. (ok (es ++ fs), s)) t).0 ≡ (is_empty es && no_errors r)
appended es (ok fs) t = is_empty-append es fs
appended es (err e) t = ground arith
appended es panic t = ground arith

both_from :
    (r : Result (List Error)) (k : Check) (t : Fields)
    → no_errors (continue r (λ es. k >>= λ fs. pure (es ++ fs)) t).0
      ≡ (no_errors r && no_errors (k t).0)
both_from (ok es) k t = appended es (k t).0 (k t).1
both_from (err e) k t = refl
both_from panic k t = refl

both_lem :
    (m k : Check) (s : Fields)
    → no_errors (both m k s).0 ≡ (no_errors (m s).0 && no_errors (k (m s).1).0)
both_lem m k s = both_from (m s).0 k (m s).1

-- A check that passes goes on to the next one from the fields that it left.
both_state :
    (r : Result (List Error)) (k : Check) (t : Fields)
    → no_errors r ≡ true
    → (continue r (λ es. k >>= λ fs. pure (es ++ fs)) t).1 ≡ (k t).1
both_state (ok es) k t h = ended (k t).0 (k t).1
  where
    ended : (q : Result (List Error)) (u : Fields) → (continue q (λ fs. pure (es ++ fs)) u).1 ≡ u
    ended (ok fs) u = refl
    ended (err e) u = refl
    ended panic u = refl
both_state (err e) k t h = absurd (cc)
both_state panic k t h = absurd (cc)

both-fields : (m k : Check) (s : Fields) → no_errors (m s).0 ≡ true → (both m k s).1 ≡ (k (m s).1).1
both-fields m k s h = both_state (m s).0 k (m s).1 h

reported :
    (r : Result (List Error)) (u t : Fields)
    → (continue r (λ es s. (new_aggregate es, s)) u ≡ (ok tt, t)) ↔ ((no_errors r ≡ true) × (t ≡ u))
reported (ok []) u t = (λ h. (refl, cc), λ h. cc)
reported (ok (e ∷ es)) u t = (λ h. absurd (cc), λ h. absurd (cc))
reported (err e) u t = (λ h. absurd (cc), λ h. absurd (cc))
reported panic u t = (λ h. absurd (cc), λ h. absurd (cc))

report_iff :
    (m : Check) (s t : Fields)
    → (report m s ≡ (ok tt, t)) ↔ ((no_errors (m s).0 ≡ true) × (t ≡ (m s).1))
report_iff m s t = reported (m s).0 (m s).1 t

-- A validation passes exactly if its checks do, where these are described.
report_result :
    (m : Check) (s t u : Fields) (valid : Bool)
    → no_errors (m s).0 ≡ valid
    → (valid ≡ true → (m s).1 ≡ u)
    → (report m s ≡ (ok tt, t)) ↔ ((valid ≡ true) × (t ≡ u))
report_result m s t u valid e f = (
  λ h. let r : _ = (report_iff m s t).0 h in let v : valid ≡ true = sym e ∙ r.0 in (v, r.1 ∙ f v),
  λ h. (report_iff m s t).1 (e ∙ h.0, h.1 ∙ sym (f h.0)),
)

-- A check passes exactly if `valid`, and then changes the fields by `kept`.
pub record Described (m : Check) (valid : Bool) (kept : Fields → Fields) : Type 0 where
  pub passes : (s : Fields) → no_errors (m s).0 ≡ valid
  pub leaves : (s : Fields) → valid ≡ true → (m s).1 ≡ kept s

pub both-Described :
    {m k : Check} {v w : Bool} {f g : Fields → Fields}
    → Described m v f
    → Described k w g
    → Described (both m k) (v && w) (λ s. g (f s))
both-Described {m} {k} {v} {w} {f} {g} dm dk = record {
  passes = λ s. both_lem m k s ∙ rw (dm.passes s, dk.passes (m s).1) refl;
  leaves = λ s h.
      let hv : v ≡ true = ground arith in
      let hw : w ≡ true = ground arith in
      both-fields m k s (dm.passes s ∙ hv) ∙ (dk.leaves (m s).1 hw ∙ ap g (dm.leaves s hv));
}

pub report-Described :
    {m : Check} {v : Bool} {f : Fields → Fields} (s t : Fields)
    → Described m v f
    → (report m s ≡ (ok tt, t)) ↔ ((v ≡ true) × (t ≡ f s))
report-Described {m} {v} {f} s t d = report_result m s t (f s) v (d.passes s) (d.leaves s)

pub errors-Described : (es : List Error) → Described (pure es) (is_empty es) (λ s. s)
errors-Described es = record { passes = λ s. refl; leaves = λ s h. refl }

pub required-Described : (b : Bool) (e : Error) → Described (pure (required b e)) b (λ s. s)
required-Described b e = record { passes = λ s. is_empty-required b e; leaves = λ s h. refl }

abbrev pub secret_passes : (GoMap → List Error) → Result GoMap → Bool
secret_passes errors (ok m) = is_empty (errors m)
secret_passes errors _ = false

abbrev pub found {ℓ} : {A : Type ℓ} → Result A → Option A
found (ok a) = some a
found _ = none

secret_is_lem :
    (errors : GoMap → List Error) (r : Result GoMap) (s : Fields)
    → no_errors (secret_is errors r s).0 ≡ secret_passes errors r
secret_is_lem errors (ok m) s = refl
secret_is_lem errors (err e) s = refl
secret_is_lem errors panic s = refl

secret_is-fields :
    (errors : GoMap → List Error) (r : Result GoMap) (s : Fields)
    → secret_passes errors r ≡ true
    → (secret_is errors r s).1 ≡ record s { credentials_secret = found r }
secret_is-fields errors (ok m) s h = refl
secret_is-fields errors (err e) s h = absurd (cc)
secret_is-fields errors panic s h = absurd (cc)

-- Is there a map, and does it have these keys?
abbrev pub holds_keys : (GoMap → Bool) → Result GoMap → Bool
holds_keys test (ok m) = test m
holds_keys test _ = false

secret_passes-keys :
    (errors : GoMap → List Error) (test : GoMap → Bool)
    → ((m : GoMap) → is_empty (errors m) ≡ test m)
    → (r : Result GoMap) → secret_passes errors r ≡ holds_keys test r
secret_passes-keys errors test h (ok m) = h m
secret_passes-keys errors test h (err x) = refl
secret_passes-keys errors test h panic = refl

-- A secret that is read with its keys is kept.
pub holds_keys-eq_true :
    (test : GoMap → Bool) (r : Result GoMap)
    → holds_keys test r ≡ true
    → (m : GoMap) × (r ≡ ok m) × (test m ≡ true)
holds_keys-eq_true test (ok m) h = (m, refl, h)
holds_keys-eq_true test (err e) h = absurd (cc)
holds_keys-eq_true test panic h = absurd (cc)

module _ (c : Lookups) where
  check_secret_lem :
      (errors : GoMap → List Error) (r : ObjectRef) (s : Fields)
      → no_errors (check_secret c errors r s).0 ≡ secret_passes errors (c.secret r.namespace r.name)
  unfolding check_secret
  check_secret_lem errors r s = secret_is_lem errors (c.secret r.namespace r.name) s

  check_secret-fields :
      (errors : GoMap → List Error) (r : ObjectRef) (s : Fields)
      → secret_passes errors (c.secret r.namespace r.name) ≡ true
      → (check_secret c errors r s).1
        ≡ record s { credentials_secret = found (c.secret r.namespace r.name) }
  unfolding check_secret
  check_secret-fields errors r s h = secret_is-fields errors (c.secret r.namespace r.name) s h

  certificate_is_lem :
      (r : ObjectRef) (read : Result GoMap) (s : Fields)
      → no_errors (certificate_is (certificate_of r read) s).0 ≡ is_some (found_in (ca_key r) read)
  certificate_is_lem r (ok m) s = is_empty-required _ (no_ca_key r)
  certificate_is_lem r (err e) s = refl
  certificate_is_lem r panic s = refl

  certificate_is-fields :
      (r : ObjectRef) (read : Result GoMap) (s : Fields)
      → is_some (found_in (ca_key r) read) ≡ true
      → (certificate_is (certificate_of r read) s).1
        ≡ record s { ca_certificate = found_in (ca_key r) read }
  certificate_is-fields r (ok m) s h = refl
  certificate_is-fields r (err e) s h = absurd (cc)
  certificate_is-fields r panic s h = absurd (cc)

  -- The certificate that is kept: as before where no source of it is named.
  abbrev pub certificate_kept : Option ObjectRef → Fields → Fields
  certificate_kept none s = s
  certificate_kept (some r) s = record s {
    ca_certificate = certificate c.config_map c.secret (some r);
  }

  check_certificate_lem :
      (o : Option ObjectRef) (s : Fields)
      → no_errors (check_certificate c o s).0 ≡ certificate_is_found c.config_map c.secret o
  unfolding check_certificate ca_certificate
  check_certificate_lem none s = refl
  check_certificate_lem (some r) s =
      certificate_is_lem r (get_object_ref_data c.config_map c.secret r) s

  check_certificate-fields :
      (o : Option ObjectRef) (s : Fields)
      → certificate_is_found c.config_map c.secret o ≡ true
      → (check_certificate c o s).1 ≡ certificate_kept o s
  unfolding check_certificate ca_certificate
  check_certificate-fields none s h = refl
  check_certificate-fields (some r) s h =
      certificate_is-fields r (get_object_ref_data c.config_map c.secret r) s h

  url_is_lem :
      (es : List Error) (invalid : Error) (o : Option Url) (s : Fields)
      → no_errors (url_is es invalid o s).0 ≡ (is_empty es && is_some o)
  url_is_lem es invalid none s = is_empty-append es (invalid ∷ [])
  url_is_lem es invalid (some u) s = ground arith

  pub keep_url_lem :
      (es : List Error) (invalid : Error) (url : String) (s : Fields)
      → no_errors (keep_url c es invalid url s).0 ≡ (is_empty es && is_some (c.parse_url url))
  unfolding keep_url
  keep_url_lem es invalid url s = url_is_lem es invalid (c.parse_url url) s

  url_is-fields :
      (es : List Error) (invalid : Error) (o : Option Url) (s : Fields)
      → (url_is es invalid o s).1 ≡ record s { url = o }
  url_is-fields es invalid none s = refl
  url_is-fields es invalid (some u) s = refl

  pub keep_url-fields :
      (es : List Error) (invalid : Error) (url : String) (s : Fields)
      → (keep_url c es invalid url s).1 ≡ record s { url = c.parse_url url }
  unfolding keep_url
  keep_url-fields es invalid url s = url_is-fields es invalid (c.parse_url url) s

  abbrev pub read_secret : ObjectRef → Result GoMap
  read_secret r = c.secret r.namespace r.name

  abbrev pub secret_kept : ObjectRef → Fields → Fields
  secret_kept r s = record s { credentials_secret = found (read_secret r) }

  pub check_keys-Described :
      (errors : GoMap → List Error) (test : GoMap → Bool)
      → ((m : GoMap) → is_empty (errors m) ≡ test m)
      → (r : ObjectRef)
      → Described (check_secret c errors r) (holds_keys test (read_secret r)) (secret_kept r)
  check_keys-Described errors test h r = record {
    passes = λ s. check_secret_lem errors r s ∙ secret_passes-keys errors test h (read_secret r);
    leaves = λ s v.
        check_secret-fields errors r s (secret_passes-keys errors test h (read_secret r) ∙ v);
  }

  pub check_secret-Described :
      (test : GoMap → Bool) (e : Error) (r : ObjectRef)
      → Described
          (check_secret c (λ m. required (test m) e) r)
          (holds_keys test (read_secret r))
          (secret_kept r)
  check_secret-Described test e =
      check_keys-Described (λ m. required (test m) e) test (λ m. is_empty-required (test m) e)

  pub check_certificate-Described :
      (o : Option ObjectRef)
      → Described
          (check_certificate c o)
          (certificate_is_found c.config_map c.secret o)
          (certificate_kept o)
  check_certificate-Described o = record {
    passes = check_certificate_lem o;
    leaves = check_certificate-fields o;
  }

  -- The check of a URL that is parsed if it is given, and kept.
  keep_url-Described :
      (es : List Error) (invalid : Error) (url : String)
      → Described
          (keep_url c es invalid url)
          (is_empty es && is_some (c.parse_url url))
          (λ s. record s { url = c.parse_url url })
  keep_url-Described es invalid url = record {
    passes = keep_url_lem es invalid url;
    leaves = λ s h. keep_url-fields es invalid url s;
  }

pub certificate_kept-credentials_secret :
    (c : Lookups) (o : Option ObjectRef) (s : Fields)
    → (certificate_kept c o s).credentials_secret ≡ s.credentials_secret
certificate_kept-credentials_secret c none s = refl
certificate_kept-credentials_secret c (some r) s = refl
