-- ===== src/DirectByLeaf/StateDb/Rollback.antt =====
-- statedb.go and journal.go: that the journal takes back what was done since a snapshot.
pub mod Steps
pub mod Valid
pub mod Snapshot
pub mod Plain
pub mod Access
pub mod Accounts
pub mod Writes
pub mod Create
pub mod Dirties
pub mod Frames
pub mod Fresh
