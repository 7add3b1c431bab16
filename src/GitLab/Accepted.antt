-- ===== src/GitLab/Accepted.antt =====
-- Which GitLab providers pass the validation, and how `Bind` authenticates then.
use group_sync_operator.Prelude.{
  String, ◌≡◌, ◌↔◌, refl, ap, ◌∙◌, Exec, Bool, true, ◌&&◌, Option, none, some, ok, is_some,
  Bool-cases, inl, inr, arith, &&-eq_true, if◌then◌else◌,
}
use group_sync_operator.Prelude.Dict.{GoMap}
use group_sync_operator.Api.{GitLabProvider, ObjectRef}
use group_sync_operator.Syncer.{determine_from_deprecated_object_ref}
use group_sync_operator.Certificates.Found.{no_errors, certificate_is_found}
use group_sync_operator.Credentials.{Lookups, Fields, has, token_key, username_key, password_key}
use group_sync_operator.Credentials.Passed.{
  Described, both-Described, report-Described, holds_keys, holds_keys-eq_true, found, read_secret,
  secret_kept, check_secret-Described, certificate_kept, certificate_kept-credentials_secret,
  check_certificate-Described, keep_url_lem, keep_url-fields,
}
use group_sync_operator.GitLab.Connection.{
  has_gitlab_keys, check_gitlab_url, gitlab_checks, gitlab_validate, GitLabCalls, Options, options,
  bind_oauth, bind_basic, bind_kept, gitlab_bind,
}

module _ (c : Lookups) where
  abbrev pub gitlab_url_is_valid : Option String → Bool
  gitlab_url_is_valid none = true
  gitlab_url_is_valid (some url) = is_some (c.parse_url url)

  abbrev pub gitlab_url_kept : Option String → Fields → Fields
  gitlab_url_kept none s = s
  gitlab_url_kept (some url) s = record s { url = c.parse_url url }

  check_gitlab_url_lem :
      (o : Option String) (s : Fields)
      → (no_errors (check_gitlab_url c o s).0 ≡ gitlab_url_is_valid o)
        × ((check_gitlab_url c o s).1 ≡ gitlab_url_kept o s)
  unfolding check_gitlab_url
  check_gitlab_url_lem none s = (refl, refl)
  check_gitlab_url_lem (some url) s = (keep_url_lem c _ _ url s, keep_url-fields c _ _ url s)

  check_gitlab_url-Described :
      (o : Option String)
      → Described (check_gitlab_url c o) (gitlab_url_is_valid o) (gitlab_url_kept o)
  check_gitlab_url-Described o = record {
    passes = λ s. (check_gitlab_url_lem o s).0;
    leaves = λ s h. (check_gitlab_url_lem o s).1;
  }

  abbrev pub gitlab_ca_source : GitLabProvider → Option ObjectRef
  gitlab_ca_source p = determine_from_deprecated_object_ref p.ca p.ca_secret

  abbrev pub gitlab_is_valid : GitLabProvider → Bool
  gitlab_is_valid p =
      holds_keys has_gitlab_keys (read_secret c p.credentials_secret)
      && (certificate_is_found c.config_map c.secret (gitlab_ca_source p)
          && gitlab_url_is_valid p.url)

  abbrev pub gitlab_fields : GitLabProvider → Fields → Fields
  gitlab_fields p s =
      gitlab_url_kept p.url
        (certificate_kept c (gitlab_ca_source p) (secret_kept c p.credentials_secret s))

  -- A GitLab provider passes the validation, with no error and no panic, exactly if its secret is
  -- read and has a token or both a user name and a password, its certificate is found if it names a
  -- source for it, and its URL is parsed if it is given; then the syncer keeps the secret, the
  -- certificate and the URL.
  pub gitlab_validate_iff :
      (p : GitLabProvider) (s t : Fields)
      → (gitlab_validate c p s ≡ (ok tt, t))
        ↔ ((gitlab_is_valid p ≡ true) × (t ≡ gitlab_fields p s))
  unfolding gitlab_validate gitlab_checks
  gitlab_validate_iff p s t = report-Described s t (
      both-Described (check_secret-Described c has_gitlab_keys _ p.credentials_secret) (
        both-Described (check_certificate-Described c (gitlab_ca_source p))
          (check_gitlab_url-Described p.url)))

  kept_url :
      (o : Option String) (s : Fields)
      → (gitlab_url_kept o s).credentials_secret ≡ s.credentials_secret
  kept_url none s = refl
  kept_url (some url) s = refl

  module _ {W Client : Type 0} (calls : GitLabCalls W Client) where
    abbrev pub bind_token_first : Options → GoMap → Exec W (Option Client)
    bind_token_first o m = if has token_key m then bind_oauth calls o m else bind_basic calls o m

    bind_kept_lem :
        (p : GitLabProvider) (o : Options) (m : GoMap)
        → has_gitlab_keys m ≡ true
        → bind_kept calls p o (some m) ≡ bind_token_first o m
    bind_kept_lem p o m h = elim (Bool-cases (has token_key m)) [
      | inl e ↦ rw e refl
      | inr e ↦
          let b : (has username_key m && has password_key m) ≡ true = ground arith in rw (e, b) refl
    ]

    -- After a validation that passes, `Bind` authenticates with the token of the secret if it has
    -- one, and with its user name and its password, which are there, if not.
    pub gitlab_bind-gitlab_validate :
        (p : GitLabProvider) (s t : Fields)
        → gitlab_validate c p s ≡ (ok tt, t)
        → (m : GoMap) × (read_secret c p.credentials_secret ≡ ok m)
          × (has_gitlab_keys m ≡ true)
          × (gitlab_bind calls p t ≡ bind_token_first (options p t) m)
    unfolding gitlab_bind
    gitlab_bind-gitlab_validate p s t h =
        let v : _ = (gitlab_validate_iff p s t).0 h in
        let read : _ =
          holds_keys-eq_true has_gitlab_keys (read_secret c p.credentials_secret)
            (&&-eq_true _ _ v.0).0 in
        let kept : t.credentials_secret ≡ some (read.0) =
          ap (λ (u : Fields). u.credentials_secret) v.1
          ∙ (kept_url p.url _
              ∙ (certificate_kept-credentials_secret c (gitlab_ca_source p) _ ∙ ap found read.1)) in
        (
          read.0,
          read.1,
          read.2,
          ap (λ o. bind_kept calls p (options p t) o) kept
              ∙ bind_kept_lem p (options p t) read.0 read.2,
        )
