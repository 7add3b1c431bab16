-- ===== src/GitHub/Accepted.antt =====
-- Which GitHub providers pass the validation, and what the validation leaves for `Bind`.
use group_sync_operator.Prelude.{
  String, ◌==◌, ◌≡◌, ◌↔◌, refl, ◌∙◌, Bool, true, not, ◌&&◌, Option, none, some, ok, is_some,
  Bool-cases, inl, inr,
}
use group_sync_operator.Prelude.Text.{last}
use group_sync_operator.Api.{GitHubProvider, ObjectRef}
use group_sync_operator.Syncer.{determine_from_deprecated_object_ref}
use group_sync_operator.Certificates.Found.{is_empty-required, no_errors, certificate_is_found}
use group_sync_operator.Credentials.{Lookups, Fields}
use group_sync_operator.Credentials.Passed.{
  Described, both-Described, required-Described, report-Described, holds_keys, read_secret,
  secret_kept, check_secret-Described, certificate_kept, check_certificate-Described, keep_url_lem,
  keep_url-fields,
}
use group_sync_operator.GitHub.Connection.{
  has_github_keys, check_github_url, github_checks, github_validate,
}

module _ (c : Lookups) where
  abbrev pub github_url_is_valid : Option String → Bool
  github_url_is_valid none = true
  github_url_is_valid (some url) =
      not (url == "") && ((last url == "/") && is_some (c.parse_url url))

  abbrev pub url_kept : Option String → Fields → Fields
  url_kept none s = s
  url_kept (some url) s = record s { url = c.parse_url url }

  check_github_url_lem :
      (o : Option String) (s : Fields)
      → (no_errors (check_github_url c o s).0 ≡ github_url_is_valid o)
        × (github_url_is_valid o ≡ true → (check_github_url c o s).1 ≡ url_kept o s)
  unfolding check_github_url
  check_github_url_lem none s = (refl, λ h. refl)
  check_github_url_lem (some url) s = elim (Bool-cases (url == "")) [
    | inl e ↦ rw e (refl, λ h. absurd (cc))
    | inr e ↦
        rw e (
          keep_url_lem c _ _ url s ∙ simp (is_empty-required) refl,
          λ h. keep_url-fields c _ _ url s,
        )
  ]

  check_github_url-Described :
      (o : Option String) → Described (check_github_url c o) (github_url_is_valid o) (url_kept o)
  check_github_url-Described o = record {
    passes = λ s. (check_github_url_lem o s).0;
    leaves = λ s. (check_github_url_lem o s).1;
  }

  abbrev pub ca_source : GitHubProvider → Option ObjectRef
  ca_source p = determine_from_deprecated_object_ref p.ca p.ca_secret

  abbrev pub github_is_valid : GitHubProvider → Bool
  github_is_valid p =
      holds_keys has_github_keys (read_secret c p.credentials_secret)
      && (not (p.organization == "")
          && (certificate_is_found c.config_map c.secret (ca_source p)
              && github_url_is_valid p.url))

  -- What the validation keeps.
  abbrev pub github_fields : GitHubProvider → Fields → Fields
  github_fields p s =
      url_kept p.url (certificate_kept c (ca_source p) (secret_kept c p.credentials_secret s))

  -- A GitHub provider passes the validation, with no error and no panic, exactly if its secret is
  -- read and has a token or both a private key and an app ID, its organization is not empty, its
  -- certificate is found if it names a source for it, and its URL, if it is given, is not empty, ends
  -- with a slash and is parsed; then the syncer keeps the secret, the certificate and the URL.
  pub github_validate_iff :
      (p : GitHubProvider) (s t : Fields)
      → (github_validate c p s ≡ (ok tt, t))
        ↔ ((github_is_valid p ≡ true) × (t ≡ github_fields p s))
  unfolding github_validate github_checks
  github_validate_iff p s t = report-Described s t (
      both-Described (check_secret-Described c has_github_keys _ p.credentials_secret) (
        both-Described (required-Described _ _) (
          both-Described (check_certificate-Described c (ca_source p))
            (check_github_url-Described p.url))))
