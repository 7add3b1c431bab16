-- ===== src/Tests/GitLab.antt =====
-- Pages of GitLab.
use group_sync_operator.Prelude.{
  ℕ, eqb, ◌+◌, String, ◌≡◌, refl, true, false, none, some, [], ◌∷◌, map, Result, ok, arith,
  if◌then◌else◌,
}
use group_sync_operator.Prelude.Int.{ℤ, pos}
use group_sync_operator.Prelude.Dict.{GoMap}
use group_sync_operator.Api.{GitLabProvider, some_ref}
use group_sync_operator.Syncer.{is_group_allowed, determine_from_deprecated_object_ref}
use group_sync_operator.Credentials.{Url, Lookups, Fields, no_fields, username_key, password_key}
use group_sync_operator.Credentials.Passed.{read_secret}
use group_sync_operator.Collect.Collected.{kept}
use group_sync_operator.GitLab.{Answer}
use group_sync_operator.GitLab.Pages.{concat}
use group_sync_operator.GitLab.Connection.{
  has_gitlab_keys, gitlab_validate, GitLabCalls, options, gitlab_bind,
}
use group_sync_operator.GitLab.Accepted.{
  gitlab_fields, gitlab_validate_iff, bind_token_first, gitlab_bind-gitlab_validate,
}
use group_sync_operator.GitLab.Groups.{GitLabGroup, GitLabServer, gitlab_group, gitlab_sync}
use group_sync_operator.GitLab.Synced.{gitlab_is_allowed, gitlab_sync_result, gitlab_sync_diverges}

abbrev first_page : Answer String
first_page = record { items = "a" ∷ "b" ∷ []; current_page = 1; total_pages = 2; next_page = 2 }

abbrev second_page : Answer String
second_page = record { items = "c" ∷ []; current_page = 2; total_pages = 2; next_page = 3 }

abbrev request : ℕ → Result (Answer String)
request page = ok (if eqb page 1 then first_page else second_page)

abbrev url : Url
url = record { host = "gitlab.example"; text = "https://gitlab.example" }

abbrev lookups : Lookups
lookups = record {
  secret = λ namespace name. ok (some ((username_key, "u") ∷ (password_key, "p") ∷ []));
  config_map = λ namespace name. ok none;
  parse_url = λ s. some url;
  request_uri_error = λ s. none;
}

abbrev provider : GitLabProvider
provider = record {
  ca = none;
  ca_secret = none;
  credentials_secret = some_ref;
  insecure = true;
  groups = "dev" ∷ "ops" ∷ [];
  url = some "https://gitlab.example";
  prune = false;
}

abbrev bound : Fields
bound = gitlab_fields lookups provider no_fields

validates : gitlab_validate lookups provider no_fields ≡ (ok tt, bound)
unfolding determine_from_deprecated_object_ref
validates = (gitlab_validate_iff lookups provider no_fields _).1 (refl, refl)

abbrev calls : GitLabCalls ℕ String
calls = record {
  new_oauth_client = λ token o w. (ok token, w);
  new_basic_auth_client = λ user password o w. (ok user, w);
}

gitlab_bind-gitlab_validate_example :
    (m : GoMap) × (read_secret lookups provider.credentials_secret ≡ ok m)
    × (has_gitlab_keys m ≡ true)
    × (gitlab_bind calls provider bound ≡ bind_token_first lookups calls (options provider bound) m)
gitlab_bind-gitlab_validate_example =
    gitlab_bind-gitlab_validate lookups calls provider no_fields bound validates

abbrev developers : GitLabGroup
developers = record { id = pos 1; name = "dev" }

abbrev operators : GitLabGroup
operators = record { id = pos 2; name = "ops" }

-- One page of groups; the members of the group of this ID are on as many pages.
abbrev served_members : ℤ → Answer String
served_members (pos n) = record {
  items = "ann" ∷ "bob" ∷ [];
  current_page = 1;
  total_pages = n;
  next_page = 2;
}
served_members _ = record { items = []; current_page = 1; total_pages = 1; next_page = 0 }

abbrev serving : GitLabGroup → GitLabServer
serving g = record {
  list_groups = λ i. ok (record {
    items = developers ∷ g ∷ [];
    current_page = i;
    total_pages = 1;
    next_page = i + 1;
  });
  list_group_members = λ id i. ok (served_members id);
}

gitlab_sync_result_example :
    gitlab_sync (serving developers) 1 provider bound
    ≡ some (
        ok (
          map
            (λ g. gitlab_group url g ("ann" ∷ "bob" ∷ []))
            (kept
              (gitlab_is_allowed (serving developers) provider)
              (concat (serving developers).list_groups ((developers ∷ developers ∷ []) ∷ [])))))
unfolding determine_from_deprecated_object_ref is_group_allowed
gitlab_sync_result_example =
    gitlab_sync_result (serving developers) provider 0 bound url (developers ∷ developers ∷ []) []
      (λ g. "ann" ∷ "bob" ∷ []) refl (refl, tt) (omega arith)
      (
        (λ h. (served_members (pos 1), refl, refl, refl)),
        ((λ h. (served_members (pos 1), refl, refl, refl)), tt),
      )

gitlab_sync_diverges_example : gitlab_sync (serving operators) 100 provider bound ≡ none
unfolding determine_from_deprecated_object_ref is_group_allowed
gitlab_sync_diverges_example =
    gitlab_sync_diverges (serving operators) provider 99 bound url (developers ∷ operators ∷ []) []
      (developers ∷ []) [] operators (λ g. "ann" ∷ "bob" ∷ []) (served_members (pos 2)) refl
      (refl, tt) (omega arith) refl ((served_members (pos 1), refl, refl, refl), tt) refl refl refl
