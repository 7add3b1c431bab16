-- ===== src/Azure.antt =====
-- pkg/syncer/azure.go: Connection has `Init`, `Validate` and `Bind`, Groups has `Sync`;
-- the other modules have the proofs.
pub mod Connection
pub mod Accepted
pub mod Groups
pub mod Synced
pub mod Described
