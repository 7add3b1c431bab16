-- ===== src/Tests/Okta.antt =====
-- The retrieval of groups of Okta.
use group_sync_operator.Prelude.{
  String, Bool, Option, ◌≡◌, refl, ◌==◌, ◌||◌, arith, true, false, none, some, List, [], ◌∷◌,
  Result, ok, if◌then◌else◌,
}
use group_sync_operator.Prelude.Int.{pos}
use group_sync_operator.Prelude.Text.{before_at}
use group_sync_operator.Api.{OktaProvider, some_ref}
use group_sync_operator.Okta.{
  OktaGroup, OktaUser, OktaCache, retrieved, okta_groups, okta_usernames,
}
use group_sync_operator.GitHub.Paged.{concat}
use group_sync_operator.Okta.Users.{has_allowed}
use group_sync_operator.Okta.Listing.{OktaServer, okta_sync}
use group_sync_operator.Okta.Synced.{okta_sync_result}
use group_sync_operator.Prelude.Dict.{contains}
use group_sync_operator.Syncer.{is_group_allowed}
use mathlib.Core.List.Perm

abbrev pub provider : OktaProvider
provider = record {
  credentials_secret = some_ref;
  groups = "dev" ∷ [];
  url = "https://example.okta.com";
  app_id = "app";
  extract_login_username = true;
  profile_key = "login";
  group_limit = pos 1000;
  prune = false;
}

abbrev dev : OktaGroup
dev = record {
  id = "1";
  name = "dev";
  description = "";
  created = "";
  last_updated = "";
  last_membership_updated = "";
  object_class = [];
  type = "OKTA_GROUP";
}

abbrev in_order : List OktaGroup → List OktaGroup
in_order xs = xs

abbrev ops : OktaGroup
ops = record dev { id = "2"; name = "ops" }

abbrev users : List OktaUser
users =
    (record { status = "ACTIVE"; profile = ("login", "ann@example.com") ∷ [] })
    ∷ (record { status = "SUSPENDED"; profile = ("login", "bob@example.com") ∷ [] })
    ∷ []

active_logins : okta_usernames provider users ≡ "ann" ∷ []
unfolding okta_usernames before_at
active_logins = refl

abbrev list_users : String → Option (List OktaUser)
list_users id = some users

abbrev no_cache : OktaCache
no_cache = record { groups = []; members = [] }

-- Two assigned groups, on two pages.
abbrev server : OktaServer
server = record {
  list_application_group_assignments =
      λ app limit. ok (record { apps = "1" ∷ []; next_page = some "next" });
  next_page_of = λ link. ok (record { apps = "2" ∷ []; next_page = none });
  get_group = λ id. if id == "1" then some dev else some ops;
  list_group_users = list_users;
}

abbrev qualified : String → Bool
qualified key = true

abbrev host_of : String → Result String
host_of url = ok "example.okta.com"

okta_sync_result_example :
    (t : OktaCache) × (okta_sync server in_order qualified host_of 1 provider no_cache
      ≡ some (ok (t, okta_groups qualified provider t "example.okta.com" t.groups)))
    × ((k : String)
        → contains k t.groups ≡ (
            contains k no_cache.groups
            || has_allowed provider k (retrieved server.get_group ("1" ∷ "2" ∷ []))))
unfolding concat
okta_sync_result_example =
    okta_sync_result server in_order qualified host_of 1 provider no_cache "example.okta.com"
      ("1" ∷ []) (some "next") (("2" ∷ []) ∷ []) Perm.refl refl (none, refl, tt) (omega arith) refl
      refl

one_allowed : has_allowed provider "1" (retrieved server.get_group ("1" ∷ "2" ∷ [])) ≡ true
unfolding retrieved is_group_allowed
one_allowed = refl

other_not_allowed : has_allowed provider "2" (retrieved server.get_group ("1" ∷ "2" ∷ [])) ≡ false
unfolding retrieved is_group_allowed
other_not_allowed = refl
