-- ===== src/Lib.antt =====
-- A model of the group-sync-operator, which keeps OpenShift groups in step with the groups of
-- identity providers, and the theorems about it.
--
-- The parts and how they interact. A reconciliation reads a `GroupSync` resource, makes a syncer for
-- each of its providers, sets their defaults, validates them, and then for each provider in turn
-- binds, syncs, writes the groups that the provider returned, prunes the stale ones and counts. The
-- LDAP provider has an interface to the directory for each of its schemas, with listers, mappers and
-- error handlers around it, and a syncer that makes the groups.
--
-- The files, with the code that each is about (paths from the repository's root):
-- - Prelude and its children: names of the libraries, results with a panic as a third outcome,
--   state-passing computations (`Exec`), Go maps (`GoMap`, none for nil), signed numbers, and the
--   rules for what a computation keeps.
-- - Decimal: the printing of numbers by strconv and fmt. Timestamp: `ISO8601` of
--   controllers/groupsync_controller.go.
-- - Api: api/v1alpha1/groupsync_types.go. Constants: pkg/constants/constants.go and
--   pkg/provider/ldap/helpers/consts.go.
-- - Cluster: the Kubernetes API and operator-utils as a record of operations with laws, since this is
--   code of libraries, and the updates of the metrics of controllers/groupsync_controller_metrics.go,
--   whose names and registration are in Metrics.
--   Cluster.Memory is an instance that meets the laws.
-- - Syncer: pkg/syncer/syncer.go, with the two `Init` methods that change a provider, of
--   pkg/syncer/okta.go and pkg/syncer/keycloak.go. Syncer.Defaults and Syncer.Manager have the proofs.
-- - Controller: controllers/groupsync_controller.go. `Reconcile` is `reconcile`, its parts are
--   `reconcile_instance`, `reconcile_with`, `sync_providers`, `sync_with`, `sync_group` and `finish`;
--   `pruneGroups` is `prune_groups`, `mergeMap` is `merge_map`.
-- - Ldap.Directory: what the code uses of the LDAP libraries, a record of operations;
--   Ldap.Directory.Memory is an instance.
-- - Ldap.Handlers, Ldap.Detectors, Ldap.Mappers, Ldap.Listers, Ldap.Ad, Ldap.AugmentedAd,
--   Ldap.Rfc2307 and Ldap.GroupSyncer: pkg/provider/ldap/helpers with the files and folders of like
--   names, and `CreateErrorHandler` of pkg/syncer/ldap.go. The modules below them have the proofs.
-- - Certificates and Credentials: what the `Validate` methods of pkg/syncer share, the reading of a
--   certificate authority and of the secret with the credentials. Certificates.Found and
--   Credentials.Passed say when a validation passes and what it leaves in the fields of the syncer.
-- - Ldap.Builders: pkg/provider/ldap/builders, the parts of the group syncer for each schema.
-- - Ldap.Validation, Ldap.Connection and Ldap.Provider: `Validate`, `Bind` and the rest of
--   pkg/syncer/ldap.go. Ldap.Connection.Assembled is the group syncer that `Bind` makes.
-- - Paging and Keycloak: the loops over pages and the rest of `Sync` of pkg/syncer/keycloak.go.
--   `processGroupsAndMembers` is `process_group`, the OpenShift groups are made in Keycloak.Groups,
--   `Validate` and `Bind` are in Keycloak.Connection.
-- - Okta: the `Sync` of pkg/syncer/okta.go, with the order in which groups arrive on the channel of
--   `fetchGroupsAsync` as a parameter; `getGroups` is in Okta.Listing, `Validate` and `Bind` are in
--   Okta.Connection.
-- - Collect: the loop over the groups of a provider that GitHub, GitLab and Azure share.
-- - GitLab: the loops over pages of pkg/syncer/gitlab.go; GitLab.Connection: `Validate` and `Bind`;
--   GitLab.Groups: `Sync`.
-- - GitHub.Connection and GitHub.Teams: pkg/syncer/github.go. Azure.Connection and Azure.Groups:
--   pkg/syncer/azure.go; Azure.Described describes what its `Sync` is to return.
-- - Tests: runs on concrete inputs.
--
-- What the model leaves out or fixes. The state of the world is abstract, and every call of the API
-- server takes and returns it; answers of the directory are a function of the request, so the
-- directory does not change during a sync. Entries of the directory are never nil, as the libraries
-- return them. Logging, the kind and version of objects, and the label values of metrics other than
-- the provider's name are left out. The loops are over finite lists, by recursion on the list; the
-- only fuel is that of the decimal printing in Decimal, where a number has fewer digits than the
-- number plus one, and that of the loops over pages, which have no result where the fuel ends before
-- the loop. The clients of the providers answer a function of the request too (for the identities of
-- GitHub also of what the shared `scimQuery` holds before), an answer of nothing standing for an error
-- that the code only logs or drops, and the syncers' fields are the record `Fields`, in which
-- `Validate` leaves what `Bind` and `Sync` read. A Go map is an association list, read through
-- `lookup`, and the order of a loop over a map is that of the list.
-- Errors are values (`Error`), with what the predicates of the libraries answer on an error that
-- comes from outside (`Fault`). The reconciler takes the providers as a record of the methods of
-- `GroupSyncer`, which Ldap.Provider fills for LDAP. Not modelled: main.go and `SetupWithManager`,
-- which only wire the parts together; the generated code of api/v1alpha1; pkg/validation and
-- pkg/provider/ldap/ldap.go, which hold no logic.
pub mod Prelude
pub mod Timestamp
pub mod Api
pub mod Cluster
pub mod Constants
pub mod Syncer
pub mod Controller
pub mod Ldap
pub mod Azure
pub mod Certificates
pub mod Collect
pub mod Credentials
pub mod Decimal
pub mod GitHub
pub mod GitLab
pub mod Keycloak
pub mod Metrics
pub mod Okta
pub mod Paging
pub mod Tests
