-- ===== src/Syncer.antt =====
-- pkg/syncer/syncer.go: the syncers of a `GroupSync`, their defaults and their validation, and the
-- helpers that the providers share. The `Init` methods that change a provider are those of
-- pkg/syncer/okta.go and pkg/syncer/keycloak.go.
pub mod Defaults
pub mod Manager
use group_sync_operator.Prelude.{
  ℕ, String, ◌≡◌, Bool, true, false, not, ◌&&◌, ◌||◌, Option, none, some, List, [], ◌∷◌, ◌++◌, Exec,
  Result, ok, err, panic, Error, failure, new_aggregate, ◌==◌, member, is_empty, if◌then◌else◌,
  pure, raise, lift, ◌>>=◌,
}
use group_sync_operator.Prelude.Int.{ℤ, pos, is_zero}
use group_sync_operator.Prelude.Dict.{Dict}
use group_sync_operator.Api.{
  ObjectRef, config_map_kind, sub_sync_scope, Provider, ProviderType, GroupSync, OktaProvider,
  KeycloakProvider, GitHubProvider, GitLabProvider, AzureProvider, LdapProvider,
}
use group_sync_operator.Cluster.{Group}

-- The implementations of `GroupSyncer`, each with the name and the provider that it was made with.
pub data Syncer : Type 0 where
  okta : String → OktaProvider → Syncer
  keycloak : String → KeycloakProvider → Syncer
  github : String → GitHubProvider → Syncer
  gitlab : String → GitLabProvider → Syncer
  azure : String → AzureProvider → Syncer
  ldap : String → LdapProvider → Syncer

-- The interface `GroupSyncer`, on a state of the world; `Init` is `init` below.
pub record GroupSyncer (W : Type 0) : Type 0 where
  pub provider_name : String
  pub bind : Exec W (Unit {0})
  pub sync : Exec W (List Group)
  pub validate : Exec W (Unit {0})
  pub prune : Bool

abbrev pub no_syncer : String → Error
no_syncer name = failure "Could not find syncer for provider '%s'" (name ∷ [])

-- The `switch`, in its order. The fields are read through the embedded pointer, so a provider
-- with a nil `ProviderType` panics.
unfoldable pub choose : String → ProviderType → Result Syncer
choose name t = elim t.okta [
  | some p ↦ ok (okta name p)
  | none ↦ elim t.keycloak [
    | some p ↦ ok (keycloak name p)
    | none ↦ elim t.github [
      | some p ↦ ok (github name p)
      | none ↦ elim t.gitlab [
        | some p ↦ ok (gitlab name p)
        | none ↦ elim t.azure [
          | some p ↦ ok (azure name p)
          | none ↦ elim t.ldap [ some p ↦ ok (ldap name p) | none ↦ err (no_syncer name) ]
        ]
      ]
    ]
  ]
]

unfoldable pub get_group_syncer_for_provider : Provider → Result Syncer
unfolding choose
get_group_syncer_for_provider p = elim p.provider_type [ none ↦ panic | some t ↦ choose p.name t ]

-- `GetGroupSyncMgr`. The syncers of the manager are nil where an error was found; the reconciler
-- looks at them only if there is none.
pub record Found : Type 0 where
  pub syncers : List (Option Syncer)
  pub errors : List Error

abbrev pub note : Result Syncer → Result Found → Result Found
note panic rest = panic
note (ok s) (ok f) = ok (record { syncers = some s ∷ f.syncers; errors = f.errors })
note (err e) (ok f) = ok (record { syncers = none ∷ f.syncers; errors = e ∷ f.errors })
note _ rest = rest

pub collect_syncers : List Provider → Result Found
collect_syncers [] = ok (record { syncers = []; errors = [] })
collect_syncers (p ∷ ps) = note (get_group_syncer_for_provider p) (collect_syncers ps)

-- The syncers that are there.
abbrev pub present : List (Option Syncer) → List Syncer
present [] = []
present (none ∷ ss) = present ss
present (some s ∷ ss) = s ∷ present ss

abbrev pub managed : Found → Result (List Syncer)
managed f = elim (new_aggregate f.errors) [
  | ok _ ↦ ok (present f.syncers)
  | err e ↦ err e
  | panic ↦ panic
]

abbrev pub and_then : Result Found → Result (List Syncer)
and_then (ok f) = managed f
and_then (err e) = err e
and_then panic = panic

unfoldable pub get_group_sync_mgr : GroupSync → Result (List Syncer)
unfolding collect_syncers get_group_syncer_for_provider
get_group_sync_mgr i = and_then (collect_syncers i.spec.providers)

abbrev pub default_group_limit : ℤ
default_group_limit = pos 1000

-- A field that is empty is set to its default.
pub default_text : String → String → String
default_text d v = if v == "" then d else v

pub default_limit : ℤ → ℤ
default_limit n = if is_zero n then default_group_limit else n

-- `OktaSyncer.Init` on the provider: both fields are defaulted, and only the key is reported.
unfoldable pub okta_init : OktaProvider → OktaProvider × Bool
okta_init p = (
  record p {
    profile_key = default_text "login" p.profile_key;
    group_limit = default_limit p.group_limit;
  },
  p.profile_key == "",
)

abbrev pub master_realm : String
master_realm = "master"

-- `KeycloakSyncer.Init` on the provider.
unfoldable pub keycloak_init : KeycloakProvider → KeycloakProvider × Bool
keycloak_init p = (
  record p {
    login_realm = default_text master_realm p.login_realm;
    scope = default_text sub_sync_scope p.scope;
  },
  (p.login_realm == "") || (p.scope == ""),
)

-- `Init` of each syncer, as far as it changes the provider or asks for an update.
unfoldable pub init : Syncer → Syncer × Bool
unfolding okta_init keycloak_init
init (okta n p) = (okta n (okta_init p).0, (okta_init p).1)
init (keycloak n p) = (keycloak n (keycloak_init p).0, (keycloak_init p).1)
init (github n p) = (github n p, false)
init (gitlab n p) = (gitlab n p, false)
init (azure n p) = (azure n p, false)
init (ldap n p) = (ldap n p, false)

unfoldable pub set_defaults : List Syncer → List Syncer × Bool
unfolding init
set_defaults [] = ([], false)
set_defaults (s ∷ ss) = ((init s).0 ∷ (set_defaults ss).0, (init s).1 || (set_defaults ss).1)

-- The providers are shared by pointer: what `Init` wrote is in the instance that is updated.
unfoldable pub write_back : Syncer → Provider → Provider
write_back s p = elim p.provider_type [
  | none ↦ p
  | some t ↦ record p {
    provider_type = some (elim s [
      | okta _ c ↦ record t { okta = some c }
      | keycloak _ c ↦ record t { keycloak = some c }
      | github _ c ↦ record t { github = some c }
      | gitlab _ c ↦ record t { gitlab = some c }
      | azure _ c ↦ record t { azure = some c }
      | ldap _ c ↦ record t { ldap = some c }
    ]);
  }
]

unfoldable pub write_all : List Syncer → List Provider → List Provider
unfolding write_back
write_all (s ∷ ss) (p ∷ ps) = write_back s p ∷ write_all ss ps
write_all ss ps = ps

unfoldable pub with_defaults : GroupSync → List Syncer → GroupSync
unfolding write_all
with_defaults i ss = record i {
  spec = record (i.spec) { providers = write_all ss i.spec.providers };
}

abbrev pub prepend_error : Error → Result (List Error) → Result (List Error)
prepend_error e (ok es) = ok (e ∷ es)
prepend_error e rest = rest

abbrev pub schedule_errors : (String → Bool) → String → List Error
schedule_errors parses schedule =
    if schedule == ""
    then []
    else if parses schedule
    then []
    else failure "Failed to validate cron schedule: %s" (schedule ∷ []) ∷ []

module _ {W : Type 0} where
  abbrev pub after_validation :
      Result (Unit {0}) → W → Result (List Error) × W → Result (List Error) × W
  after_validation (ok _) w rest = rest
  after_validation (err e) w rest = (prepend_error e rest.0, rest.1)
  after_validation panic w rest = (panic, w)

  -- Each syncer is validated, also after an error, and the errors are collected; a panic ends it.
  unfoldable pub validate_all : List (GroupSyncer W) → Exec W (List Error)
  validate_all [] w = (ok [], w)
  validate_all (s ∷ ss) w =
      after_validation (s.validate w).0 (s.validate w).1 (validate_all ss (s.validate w).1)

  -- `GroupSyncMgr.Validate`
  unfoldable pub validate : (String → Bool) → String → List (GroupSyncer W) → Exec W (Unit {0})
  unfolding validate_all
  validate parses schedule ss = do
    es ← validate_all ss
    lift (new_aggregate (schedule_errors parses schedule ++ es))

unfoldable pub is_group_allowed : String → List String → Bool
is_group_allowed name allowed = is_empty allowed || member name allowed

unfoldable pub determine_from_deprecated_object_ref :
    Option ObjectRef → Option ObjectRef → Option ObjectRef
determine_from_deprecated_object_ref none deprecated = deprecated
determine_from_deprecated_object_ref (some r) deprecated = some r

-- `getObjectRefData` over the two reads of the cluster: the data of a ConfigMap or of a Secret,
-- where `none` is the nil map.
unfoldable pub get_object_ref_data :
    (String → String → Result (Option (Dict String)))
    → (String → String → Result (Option (Dict String)))
    → ObjectRef
    → Result (Option (Dict String))
get_object_ref_data config_map secret r =
    if not (r.kind == "") && (r.kind == config_map_kind)
    then config_map r.namespace r.name
    else if not (r.kind == "")
    then secret r.namespace r.name
    else ok none
