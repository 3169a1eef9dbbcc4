-- ===== src/TrieByCid.antt =====
-- trie_by_cid: the state database that reads its tries node by node.
pub mod Trie
pub mod State
