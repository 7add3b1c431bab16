-- ===== src/Tests/Syncer.antt =====
-- The manager of the syncers on small resources.
use group_sync_operator.Prelude.{
  String, ◌≡◌, ◌↔◌, refl, false, none, some, List, [], ◌∷◌, ok, panic, pure, ◌==◌,
}
use group_sync_operator.Prelude.Int.{pos}
use group_sync_operator.Api.{GroupSync, KeycloakProvider, empty_provider_type, some_ref}
use group_sync_operator.Syncer.{
  keycloak, okta, GroupSyncer, get_group_sync_mgr, get_group_syncer_for_provider, choose,
  with_defaults, set_defaults, validate, init,
}
use group_sync_operator.Syncer.Manager.{
  Chosen, get_group_sync_mgr_iff, with_defaults_stable, AllValid, ScheduleAccepted, validate_iff,
}

abbrev pub keycloak_provider : KeycloakProvider
keycloak_provider = record {
  ca = none;
  ca_secret = none;
  credentials_secret = some_ref;
  groups = [];
  insecure = false;
  login_realm = "";
  realm = "ocp";
  scope = "";
  url = "https://sso.example.com";
  prune = false;
}

abbrev resource : GroupSync
resource = record {
  name = "sync";
  namespace = "ns";
  spec = record {
    providers =
        (record {
          name = "sso";
          provider_type = some (record empty_provider_type { keycloak = some keycloak_provider });
        })
        ∷ [];
    schedule = "@daily";
  };
  last_sync_success_time = none;
}

resource_syncers : get_group_sync_mgr resource ≡ ok (keycloak "sso" keycloak_provider ∷ [])
unfolding get_group_sync_mgr choose
resource_syncers = refl

-- A provider that has no more than a name.
bare_provider_panics :
    get_group_syncer_for_provider (record { name = "bare"; provider_type = none }) ≡ panic
unfolding get_group_syncer_for_provider
bare_provider_panics = refl

-- The limit of an Okta provider is defaulted, and the change is not reported.
limit_unreported :
    (init (
      okta "okta" (record {
        credentials_secret = some_ref;
        groups = [];
        url = "";
        app_id = "";
        extract_login_username = false;
        profile_key = "login";
        group_limit = pos 0;
        prune = false;
      }))).1
    ≡ false
unfolding init
limit_unreported = refl

abbrev quiet : GroupSyncer (Unit {0})
quiet = record {
  provider_name = "sso";
  bind = pure tt;
  sync = pure [];
  validate = pure tt;
  prune = false;
}

get_group_sync_mgr_iff_example :
    (get_group_sync_mgr resource ≡ ok (keycloak "sso" keycloak_provider ∷ []))
    ↔ Chosen resource.spec.providers (keycloak "sso" keycloak_provider ∷ [])
get_group_sync_mgr_iff_example =
    get_group_sync_mgr_iff resource (keycloak "sso" keycloak_provider ∷ [])

with_defaults_stable_example :
    let ss = (set_defaults (keycloak "sso" keycloak_provider ∷ [])).0 in
    (get_group_sync_mgr (with_defaults resource ss) ≡ ok ss) × (set_defaults ss ≡ (ss, false))
with_defaults_stable_example =
    with_defaults_stable resource (keycloak "sso" keycloak_provider ∷ []) resource_syncers

validate_iff_example :
    ((validate (λ s. s == "@daily") "@daily" (quiet ∷ []) tt).0 ≡ ok tt)
    ↔ (ScheduleAccepted (λ s. s == "@daily") "@daily" × AllValid (quiet ∷ []) tt)
validate_iff_example = validate_iff (λ s. s == "@daily") "@daily" (quiet ∷ []) tt

abbrev allowed : List String
allowed = "dev" ∷ "ops" ∷ []
