-- ===== src/Lib.antt =====
-- The state databases of ipld-eth-statedb: go-ethereum's vm.StateDB on top of an IPLD store in
-- Postgres. direct_by_leaf reads accounts and slots by their leaf keys; trie_by_cid walks the tries
-- node by node.
--
-- Base: tests, maps as functions into Option, lists over the native numbers, integers.
--
-- DirectByLeaf: the package direct_by_leaf.
--   Types, Env: addresses, hashes and bytes; what the package calls and does not implement (the
--     interface of state_database.go, keccak, rlp.Split) as a record that the definitions take.
--   Database (state_database.go, sql.go): the reads of code, accounts and slots, with the caches of code
--     as an interface with laws. Child Cached: the answers are those of a `StateDatabase` of Env.
--   AccessList (access_list.go): the list, its operations by name; child Contents: validity; child
--     Undo: what the journal does for an addition.
--   TransientStorage (transient_storage.go): Set, Get, Copy.
--   StateObject (state_object.go): an account with its caches of slots and code. The methods that
--     journal stand in StateDb/Setters as object_...: they take the object and the database, since
--     in Go the object holds a pointer to it.
--   StateDb (statedb.go, journal.go): the record StateDB, the journal and its kinds of entry.
--     Access: the getters; a getter returns its result and the state, in which an account, a slot or
--       a code may have been loaded. Revert: the journal. Setters: the methods that journal.
--     Lifecycle: Snapshot, RevertToSnapshot, Prepare, Finalise, SetTxContext, Copy.
--     Calls: the methods between a snapshot and its revert as data, `perform`, and `Run`: executions
--       with nested snapshots that are kept or reverted.
--     View: what a caller can read, the specification. Rollback: that reverting restores it.
--     Transaction: CreateAccount, Finalise and the access list of Prepare.
--   Tests: the theorems at concrete states.
-- TrieByCid: the package trie_by_cid.
--   Trie/Encoding (trie_by_cid/trie/encoding.go): key bytes, nibbles, compact paths;
--     child InPlace: hexToCompactInPlace.
--   Trie/Node, Trie/Tracer (node.go, tracer.go in trie_by_cid/trie): the nodes, and what was read,
--     inserted and deleted.
--   Trie/Trie (trie_by_cid/trie/trie.go, with nodeBlob and newTrieReader of trie_reader.go): children
--     Lookup, Insert, Delete and Update: tryGet, tryGetNode, insert and delete, New and the methods.
--     A function on nodes is one step that takes its own recursive calls, and a recursion on fuel: a
--     step shortens the key or loads a node. How a blob decodes, and the database below the reader,
--     are fields of the reader. Fuel: more fuel changes no result. The height of a trie, with the
--     nodes still to be loaded, is enough for a lookup and a deletion, one more for an insertion,
--     after which the height is at most two more.
--   Trie/Content: the specification: the map that a node holds below a path. Its children follow
--     the functions (Lookup; Plant and Insert; Reduce and Delete) and then the methods (Methods) and
--     sequences of calls from New on (Runs).
--
--   Trie/SecureTrie (secure_trie.go): the trie with hashed keys.
--   State/Env (trie_by_cid/state/database.go): the interfaces Database and Trie as an object uses them,
--     and what a trie promises while no node is missing from the database.
--   State/StorageTrie: OpenStorageTrie, and that the tries of SecureTrie keep these laws, where the hash
--     of keys has no collision. Each trie carries its fuel; a call that would panic, or not end within
--     the fuel, counts as one that returns an error, and the laws say that none does.
--   State/StateObject (state_object.go and, of journal.go, the entries of an object, in
--     trie_by_cid/state): the fields and their setters; child Slots: getTrie, GetState,
--     GetCommittedState, SetState, updateTrie. The loop over the pending map takes the order of its
--     keys as an argument. Child Stored: the slots by the specification; children Reads, Writes, Order
--     and Flush: that the methods follow it; child Block: and any sequence of them; child Fresh:
--     and with the storage tries of StorageTrie. The prefetcher is the function that hands out a
--     trie; what it loads in the background is its own.
--
-- A panic of the code is `none`. The journal holds copies of what it restores, as the code's big.Int
-- and slices are not changed in place; a live object is stored back in the map where Go writes
-- through a pointer. The journal's list starts with the newest entry. Loops are recursion on lists;
-- the revert of the journal counts down from its length. The database gives the same answer to the
-- same question for as long as a state lives.
--
-- Not modelled: the SQL of the queries and the libraries behind the caches; timers and metrics;
-- ForEachStorage, which panics; the iteration order of Go's maps, on which nothing modelled depends,
-- but for updateTrie, which takes it; trie_by_cid but for the files named above. Hash of trie.go is a
-- parameter where updateRoot calls it.
pub mod Base
pub mod DirectByLeaf
pub mod TrieByCid
