-- ===== src/Tests.antt =====
-- Runs of the definitions on concrete inputs, and the theorems at inputs that meet their hypotheses.
mod Controller
mod Syncer
mod Ldap
mod GroupSyncer
mod Provider
mod Keycloak
mod Okta
mod Files
mod GitLab
mod GitHub
mod Connections
mod Azure
mod Settled
