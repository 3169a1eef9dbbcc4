-- ===== src/TrieByCid/State.antt =====
-- trie_by_cid/state: the state package.
pub mod Env
pub mod StorageTrie
pub mod StateObject
