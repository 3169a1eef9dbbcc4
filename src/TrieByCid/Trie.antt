-- ===== src/TrieByCid/Trie.antt =====
-- trie_by_cid/trie: the trie package.
pub mod Encoding
pub mod Node
pub mod Tracer
pub mod Trie
pub mod Content
pub mod SecureTrie
pub mod Tests
