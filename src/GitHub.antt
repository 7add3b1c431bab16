-- ===== src/GitHub.antt =====
-- pkg/syncer/github.go: Connection has `Init`, `Validate` and `Bind`, Teams has `Sync`; the other
-- modules have the proofs.
pub mod Connection
pub mod Accepted
pub mod Bound
pub mod Teams
pub mod Paged
pub mod Synced
