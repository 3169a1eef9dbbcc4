-- ===== src/DirectByLeaf/StateDb/Transaction.antt =====
-- statedb.go: the steps around a transaction.
pub mod Create
pub mod Finalise
pub mod Prepare
