-- ===== src/DirectByLeaf.antt =====
-- The package `direct_by_leaf`: a state database that reads accounts and slots by leaf key.
pub mod Types
pub mod Env
pub mod Database
pub mod AccessList
pub mod TransientStorage
pub mod StateObject
pub mod StateDb
pub mod Tests
