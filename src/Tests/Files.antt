-- ===== src/Tests/Files.antt =====
-- The temporary file of the LDAP provider, where there is one name for a temporary file.
use group_sync_operator.Prelude.{
  String, ◌≡◌, ◌==◌, refl, sym, Bool, true, false, not, ◌||◌, ◌&&◌, Option, none, some, [], ◌∷◌, ok,
  raise, failure, if◌then◌else◌, is_ok, Exec, pure, ok-injective, Bool-cases, inl, inr, arith,
  eq_of_==, holds,
}
use group_sync_operator.Prelude.Dict.{GoMap}
use group_sync_operator.Ldap.Provider.{get_ldap_credential_value}
use group_sync_operator.Credentials.{Url}
use group_sync_operator.Ldap.Connection.{Bound, LdapCalls, ldap_bind}
use group_sync_operator.Ldap.Directory.Memory.{Entry}
use group_sync_operator.Ldap.Validation.Accepted.{ldap_validate_iff}
use group_sync_operator.Ldap.Connection.Works.{found_key}
use group_sync_operator.Ldap.Connection.Interfaces.{BoundFor}
use group_sync_operator.Ldap.Connection.Opened.{with_file, ldap_validate-ldap_bind}
use group_sync_operator.Ldap.Connection.Files.{OnFiles, left_behind, ldap_bind_files}
use group_sync_operator.Tests.Provider.{
  checks, queries-Accepts, provider_is_accepted, provider, directory, queries,
}

-- The state says whether the file is there.
abbrev temporary : String
temporary = "/tmp/ca.crt"

abbrev temp_file : String → Exec Bool String
temp_file name true = raise (failure "no name is left" []) true
temp_file name false = pure temporary true

abbrev write_to : Bool → Bool → LdapCalls Bool
write_to full held = record {
  temp_file = temp_file;
  write_file =
      λ f text w. if full then raise (failure "no space left on device" []) w else pure tt w;
  remove = λ f w.
      if held
      then raise (failure "permission denied" []) w
      else pure tt (w && not (f == temporary));
  new_client_config = λ url user password file insecure w. pure "ldap.example.com" w;
}

abbrev exists : Bool → String → Bool
exists w k = w && (temporary == k)

removed_lem :
    (f k : String) (w : Bool)
    → ((w && not (f == temporary)) && (temporary == k)) ≡ ((w && (temporary == k)) && not (f == k))
removed_lem f k w = elim (Bool-cases (temporary == k)) [
  | inl y ↦ rw (sym (eq_of_== temporary k y)) (ground arith)
  | inr n ↦ rw n (ground arith)
]

made_lem :
    (name f : String) (w : Bool)
    → (temp_file name w).0 ≡ ok f
    → (k : String) → exists (temp_file name w).1 k ≡ (f == k || exists w k)
made_lem name f true h k = absurd (cc)
made_lem name f false h k = rw (sym (ok-injective h)) (ground arith)

fresh_lem : (name f : String) (w : Bool) → (temp_file name w).0 ≡ ok f → exists w f ≡ false
fresh_lem name f true h = absurd (cc)
fresh_lem name f false h = refl

not_made_lem :
    (name : String) (w : Bool)
    → is_ok (temp_file name w).0 ≡ false
    → (k : String) → exists (temp_file name w).1 k ≡ exists w k
not_made_lem name true h k = refl
not_made_lem name false h k = absurd (cc)

written_lem :
    (full held : Bool) (f text : String) (w : Bool) (k : String)
    → exists ((write_to full held).write_file f text w).1 k ≡ exists w k
written_lem true held f text w k = refl
written_lem false held f text w k = refl

write_to-OnFiles : (full held : Bool) → OnFiles (write_to full held) exists
write_to-OnFiles full true = record {
  fresh = fresh_lem;
  made = made_lem;
  not_made = not_made_lem;
  written = λ f text w there. written_lem full true f text w;
  removed = λ f w h k. absurd (cc);
  not_removed = λ f w h k. refl;
  configured = λ url user password file insecure w k. refl;
}
write_to-OnFiles full false = record {
  fresh = fresh_lem;
  made = made_lem;
  not_made = not_made_lem;
  written = λ f text w there. written_lem full false f text w;
  removed = λ f w h k. removed_lem f k w;
  not_removed = λ f w h k. absurd (cc);
  configured = λ url user password file insecure w k. refl;
}

abbrev url : Option Url
url = some (record { host = "ldap.example.com"; text = "ldaps://ldap.example.com" })

abbrev secret : Option GoMap
secret = some (some [])

ldap_bind_files_example :
    exists
      (ldap_bind
        (write_to false true)
        directory
        queries
        "ldap"
        provider
        secret
        url
        (some "PEM")
        false).1
      temporary
    ≡ (holds temporary (
          left_behind
            (write_to false true)
            directory
            queries
            "ldap"
            provider
            secret
            url
            (some "PEM")
            false)
        || exists false temporary)
ldap_bind_files_example =
    ldap_bind_files (write_to false true) directory queries "ldap" provider exists
      (write_to-OnFiles false true) secret url (some "PEM") false temporary

-- The file stays where the disk is full or its removal is denied, and is removed where neither is.
left_on_full_disk :
    left_behind
      (write_to true false)
      directory
      queries
      "ldap"
      provider
      secret
      url
      (some "PEM")
      false
    ≡ some temporary
left_on_full_disk = refl

left_where_denied :
    left_behind
      (write_to false true)
      directory
      queries
      "ldap"
      provider
      secret
      url
      (some "PEM")
      false
    ≡ some temporary
left_where_denied = refl

removed_at_the_end :
    left_behind
      (write_to false false)
      directory
      queries
      "ldap"
      provider
      secret
      url
      (some "PEM")
      false
    ≡ none
unfolding get_ldap_credential_value
removed_at_the_end = refl

abbrev location : Url
location = record { host = "ldap.example.com"; text = "ldaps://ldap.example.com" }

abbrev credentials : Option GoMap
credentials = some (some (("username", "sync") ∷ ("password", "pass") ∷ []))

ldap_validate-ldap_bind_example :
    (b : Bound Entry) × ((ldap_bind
        (write_to false false)
        directory
        queries
        "ldap"
        provider
        credentials
        (some location)
        (some "PEM")
        false).0
      ≡ ok (record { host = "ldap.example.com"; bound = b }))
    × BoundFor directory queries provider b
ldap_validate-ldap_bind_example =
    ldap_validate-ldap_bind (write_to false false) directory queries "ldap" provider credentials
      location "sync" "pass" (found_key _ _ _ _ refl) (found_key _ _ _ _ refl) checks (some "PEM")
      false "ldap.example.com" queries-Accepts
      ((ldap_validate_iff checks provider).1 provider_is_accepted)
      (with_file "PEM" temporary false "ldap.example.com" refl refl refl refl)
