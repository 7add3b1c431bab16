-- ===== src/Ldap.antt =====
-- pkg/provider/ldap: the LDAP synchronisation, over a directory server that is a parameter.
pub mod Directory
pub mod Handlers
pub mod Mappers
pub mod Listers
pub mod Detectors
pub mod Ad
pub mod Rfc2307
pub mod GroupSyncer
pub mod Validation
pub mod Provider
pub mod Builders
pub mod Connection
pub mod AugmentedAd
