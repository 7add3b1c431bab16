-- ===== src/Ldap/Connection/Files.antt =====
-- The temporary file of the certificate that `Bind` of pkg/syncer/ldap.go writes.
use group_sync_operator.Prelude.{
  String, ◌≡◌, ◌==◌, refl, sym, ◌∙◌, Bool, true, false, not, ◌||◌, ◌&&◌, Option, none, some, Result,
  ok, err, panic, is_ok, if◌then◌else◌, arith, Bool-cases, inl, inr, eq_of_==, eq_iff, holds, ◌>>◌,
}
use group_sync_operator.Prelude.Keeps.{Keeps, Keeps-lift, keeps_rules}
use group_sync_operator.Prelude.Dict.{GoMap}
use group_sync_operator.Api.{LdapProvider}
use group_sync_operator.Credentials.{Url}
use group_sync_operator.Ldap.Directory.{Directory}
use group_sync_operator.Ldap.Builders.{Queries}
use group_sync_operator.Ldap.Connection.{LdapCalls, deferred, connect, with_certificate, ldap_bind}

-- What the calls do to the files: `TempFile` makes a new one or none, `WriteFile` on a file that is
-- there makes and removes none, `Remove` removes its file or, where it answers an error, none, and
-- the configuration of the client only reads.
pub record OnFiles {W : Type 0} (calls : LdapCalls W) (exists : W → String → Bool) : Type 0 where
  pub fresh : (name f : String) (w : W) → (calls.temp_file name w).0 ≡ ok f → exists w f ≡ false
  pub made :
      (name f : String) (w : W)
      → (calls.temp_file name w).0 ≡ ok f
      → (k : String) → exists (calls.temp_file name w).1 k ≡ (f == k || exists w k)
  pub not_made :
      (name : String) (w : W)
      → is_ok (calls.temp_file name w).0 ≡ false
      → (k : String) → exists (calls.temp_file name w).1 k ≡ exists w k
  pub written :
      (f text : String) (w : W)
      → exists w f ≡ true
      → (k : String) → exists (calls.write_file f text w).1 k ≡ exists w k
  pub removed :
      (f : String) (w : W)
      → is_ok (calls.remove f w).0 ≡ true
      → (k : String) → exists (calls.remove f w).1 k ≡ (exists w k && not (f == k))
  pub not_removed :
      (f : String) (w : W)
      → is_ok (calls.remove f w).0 ≡ false
      → (k : String) → exists (calls.remove f w).1 k ≡ exists w k
  pub configured :
      (url user password file : String) (insecure : Bool) (w : W) (k : String)
      → exists (calls.new_client_config url user password file insecure w).1 k ≡ exists w k

-- The file that stays behind: the one that was made, unless it was written and removed.
abbrev pub left_by : Bool → Bool → String → Option String
left_by written removed f = if written && removed then none else some f

module _ {W E Q R : Type 0} (calls : LdapCalls W) (d : Directory E Q R) (queries : Queries Q)
    (name : String) (p : LdapProvider) (secret : Option GoMap) (url : Option Url) where
  -- Does the removal succeed that `Bind` makes last, after the certificate was written?
  abbrev pub is_removed : String → W → Bool
  is_removed f v = is_ok (calls.remove f (connect calls d queries name p secret url f v).1).0

  abbrev pub left_of : Result String → W → String → Option String
  left_of (ok f) w ca =
      left_by (is_ok (calls.write_file f ca w).0) (is_removed f (calls.write_file f ca w).1) f
  left_of _ w ca = none

  abbrev pub left_behind : Option String → W → Option String
  left_behind none w = none
  left_behind (some ca) w =
      if ca == "" then none else left_of (calls.temp_file name w).0 (calls.temp_file name w).1 ca

module _ {W E Q R : Type 0} (calls : LdapCalls W) (d : Directory E Q R) (queries : Queries Q)
    (name : String) (p : LdapProvider) (exists : W → String → Bool) (o : OnFiles calls exists) where
  abbrev Same : String → Bool → W → Type 0
  Same k b w = exists w k ≡ b

  connect-Keeps :
      (k : String) (b : Bool) (secret : Option GoMap) (url : Option Url) (file : String)
      → Keeps (Same k b) (connect calls d queries name p secret url file)
  connect-Keeps k b secret none file = Keeps-lift panic
  connect-Keeps k b secret (some url) file =
      let configured : (url user password file : String) (insecure : Bool)
          → Keeps (Same k b) (calls.new_client_config url user password file insecure) =
        λ url user password file insecure. record {
          at = λ w h. o.configured url user password file insecure w k ∙ h;
        } in
      search (keeps_rules, configured) depth 14

  -- A new file that is removed again changes nothing.
  again :
      (k f : String) (w : W)
      → exists w f ≡ false
      → ((f == k || exists w k) && not (f == k)) ≡ exists w k
  again k f w new = elim (Bool-cases (f == k)) [
    | inl y ↦ rw (y, sym (eq_of_== f k y), new) refl
    | inr n ↦ rw n (ground arith)
  ]

  module _ (secret : Option GoMap) (url : Option Url) (ca k f : String) (b : Bool) (v : W)
      (there : exists v f ≡ true) (before : exists v k ≡ (f == k || b))
      (kept : ((f == k || b) && not (f == k)) ≡ b) where
    after_write :
        (r : Result (Unit {0}))
        → (calls.write_file f ca v).0 ≡ r
        → exists
            ((calls.write_file f ca
                >> deferred (calls.remove f) (connect calls d queries name p secret url f))
              v).1
            k
          ≡ (holds k (
                left_by
                  (is_ok r)
                  (is_removed calls d queries name p secret url f (calls.write_file f ca v).1)
                  f)
              || b)
    after_write (ok u) e =
        let z : W = (connect calls d queries name p secret url f (calls.write_file f ca v).1).1 in
        let same : exists z k ≡ (f == k || b) =
          (connect-Keeps k (f == k || b) secret url f).at (calls.write_file f ca v).1
            (o.written f ca v there k ∙ before) in
        elim (Bool-cases (is_ok (calls.remove f z).0)) [
          | inl y ↦ rw (e, y) (o.removed f z y k ∙ rw same kept)
          | inr n ↦ rw (e, n) (o.not_removed f z n k ∙ same)
        ]
    after_write (err x) e = rw e (o.written f ca v there k ∙ before)
    after_write panic e = rw e (o.written f ca v there k ∙ before)

  module _ (secret : Option GoMap) (url : Option Url) (ca k : String) (w : W) where
    after_temp :
        (r : Result String)
        → (calls.temp_file name w).0 ≡ r
        → exists (with_certificate calls d queries name p secret url ca w).1 k ≡ (
            holds k (left_of calls d queries name p secret url r (calls.temp_file name w).1 ca)
            || exists w k)
    after_temp (ok f) e =
        let new : exists w f ≡ false = o.fresh name f w e in
        let there : exists (calls.temp_file name w).1 f ≡ true =
          o.made name f w e f ∙ rw ((eq_iff f f).1 refl) refl in
        rw e (
          after_write secret url ca k f (exists w k) (calls.temp_file name w).1 there
            (o.made name f w e k) (again k f w new)
            (calls.write_file f ca (calls.temp_file name w).1).0 refl)
    after_temp (err x) e = rw e (o.not_made name w (rw e refl) k)
    after_temp panic e = rw e (o.not_made name w (rw e refl) k)

  same_there :
      (k : String) (secret : Option GoMap) (url : Option Url) (w : W)
      → exists (connect calls d queries name p secret url "" w).1 k ≡ exists w k
  same_there k secret url w = (connect-Keeps k (exists w k) secret url "").at w refl

  -- Whatever its outcome, after `Bind` the files are those that were there before it, but for the
  -- temporary file of the certificate where that was made and writing it or removing it failed: this
  -- one stays.
  pub ldap_bind_files :
      (secret : Option GoMap) (url : Option Url) (ca : Option String) (w : W) (k : String)
      → exists (ldap_bind calls d queries name p secret url ca w).1 k
        ≡ (holds k (left_behind calls d queries name p secret url ca w) || exists w k)
  unfolding ldap_bind
  ldap_bind_files secret url none w k = same_there k secret url w
  ldap_bind_files secret url (some ca) w k = elim (Bool-cases (ca == "")) [
    | inl y ↦ rw y (same_there k secret url w)
    | inr n ↦ rw n (after_temp secret url ca k w (calls.temp_file name w).0 refl)
  ]
