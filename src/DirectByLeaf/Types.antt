-- ===== src/DirectByLeaf/Types.antt =====
-- The go-ethereum types of fixed size that the package stores, as numbers and byte lists.
use ipld_eth_statedb.Base.{ℕ, List, Map}

-- A big-endian number of 20 and of 32 bytes.
abbrev pub Address : Type 0
Address = ℕ

abbrev pub Hash : Type 0
Hash = ℕ

-- common.Hash{}
abbrev pub zero_hash : Hash
zero_hash = 0

abbrev pub Bytes : Type 0
Bytes = List ℕ

-- type Storage map[common.Hash]common.Hash
abbrev pub Storage : Type 0
Storage = Map Hash
