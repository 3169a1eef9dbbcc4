-- ===== src/TrieByCid/State/StateObject/Fresh.antt =====
-- state_object.go: an object with empty storage, whose trie is a trie.StateTrie that New opens.
use ipld_eth_statedb.Base.{
  ℕ, ◌<◌, ◌≡◌, ◌≢◌, refl, ap, ◌∙◌, true, Option, none, some, List, [], ◌⊎◌, inl, inr, ◌==◌,
  if◌then◌else◌,
}
use ipld_eth_statedb.DirectByLeaf.Types.{Address, Hash, zero_hash}
use ipld_eth_statedb.DirectByLeaf.Env.{StateAccount}
use ipld_eth_statedb.DirectByLeaf.StateObject.{empty_root}
use ipld_eth_statedb.TrieByCid.Trie.Encoding.RoundTrips.{AllBelow}
use ipld_eth_statedb.TrieByCid.Trie.Trie.Update
use ipld_eth_statedb.TrieByCid.Trie.Trie.Update.{has_reader}
use ipld_eth_statedb.TrieByCid.State.Env.{Env}
use ipld_eth_statedb.TrieByCid.State.StorageTrie.{
  Below, Fuelled, with_storage_tries, storage_laws, open_storage_trie-OpensEmpty,
}
use ipld_eth_statedb.TrieByCid.State.StateObject.{StateDb, new_object, from_prefetcher}
use ipld_eth_statedb.TrieByCid.State.StateObject.Slots.{value_of}
use ipld_eth_statedb.TrieByCid.State.StateObject.Stored.{Stored, first_trie}
use ipld_eth_statedb.TrieByCid.State.StateObject.Block.{SlotEvent, Steps, Follows, Steps-Follows}

no_prefetch :
    {T : Type 0} (p : Option (Hash → Hash → Option T)) (addr_hash root : Hash)
    → root ≡ empty_root
    → from_prefetcher p addr_hash root ≡ none
no_prefetch none addr_hash root e = refl
no_prefetch (some f) addr_hash root e = ap (λ x. if x == empty_root then none else f addr_hash x) e

abbrev pub no_slots : Hash → Hash
no_slots k = zero_hash

module _ (b : Below) (base : Env Fuelled) (fuel : ℕ)
    (hash_bytes : (k : Hash) → AllBelow 256 (b.hash_key (b.key_bytes k)))
    (hash_inj : (j k : Hash)
      → b.hash_key (b.key_bytes j) ≡ b.hash_key (b.key_bytes k)
      → j ≡ k) where
  new_object_root :
      (a : Address) (data' : StateAccount)
      → (data'.root ≡ zero_hash) ⊎ (data'.root ≡ empty_root)
      → (new_object (with_storage_tries b fuel base) a data').account.root ≡ empty_root
  unfolding new_object
  new_object_root a data' (inl e) = ap (λ x. if x == zero_hash then empty_root else x) e
  new_object_root a data' (inr e) = ap (λ x. if x == zero_hash then empty_root else x) e

  -- An object of an account whose root is zero or that of the empty trie, in a database that has a reader
  -- for its trie and no snapshot, stores the value zero in every slot.
  pub new_object-Stored :
      (a : Address) (data' : StateAccount) (d : StateDb Fuelled)
      → (data'.root ≡ zero_hash) ⊎ (data'.root ≡ empty_root)
      → b.root_bytes empty_root ≡ Update.empty_root
      → has_reader (b.reader d.original_root (base.keccak_address a)).reader ≡ true
      → d.snap ≡ none
      → 1 < fuel
      → Stored
          (with_storage_tries b fuel base)
          (storage_laws b hash_bytes hash_inj)
          (new_object (with_storage_tries b fuel base) a data')
          d
          no_slots
  unfolding new_object
  new_object-Stored a data' d e r h n l =
      let addr_hash = base.keccak_address a in
      let root = (new_object (with_storage_tries b fuel base) a data').account.root in
      let q = new_object_root a data' e in
      let o =
        open_storage_trie-OpensEmpty b fuel d.original_root addr_hash root l h
          (ap b.root_bytes q ∙ r) in
      record {
        trie = o.trie;
        trie_eq =
            ap
              (λ p.
                first_trie none p (
                  (with_storage_tries b fuel base).open_storage_trie d.original_root addr_hash
                    root))
              (no_prefetch d.prefetcher addr_hash root q)
            ∙ o.result_eq;
        stored = record { blobs = λ k. []; holds = o.holds; value_eq = λ k. refl };
        origin_eq = λ k v w. absurd (cc (w));
        destruct_eq = λ k w x. refl;
        snap_eq = λ f k enc w x y. absurd (cc (n, w));
        pending_eq = λ k v w x. refl;
        dirty_eq = λ k v w x. refl;
      }

  -- For an object of an account whose root is zero or that of the empty trie, with the tries of
  -- secure_trie.go and trie.go and fuel of two or more to open one, in a database that has a
  -- reader for its trie and no snapshot, where the hash of a key consists of bytes, no two keys
  -- have the same hash, and RLP gives back each value other than zero that it encoded: in any
  -- sequence of GetState, GetCommittedState, SetState, finalise and updateTrie, each updateTrie in
  -- any order of the pending keys, no updateTrie fails, and the reads answer as two maps would
  -- that start at zero: SetState writes to the current one, and finalise and updateTrie make it
  -- the committed one.
  pub new_object-Follows :
      (a : Address) (data' : StateAccount) (d : StateDb Fuelled) (es : List SlotEvent)
      → (data'.root ≡ zero_hash) ⊎ (data'.root ≡ empty_root)
      → b.root_bytes empty_root ≡ Update.empty_root
      → has_reader (b.reader d.original_root (base.keccak_address a)).reader ≡ true
      → d.snap ≡ none
      → 1 < fuel
      → ((v : Hash) → v ≢ zero_hash → value_of base (base.encode_value v) ≡ (v, none))
      → Steps
          (with_storage_tries b fuel base)
          (new_object (with_storage_tries b fuel base) a data')
          d
          es
      → Follows no_slots no_slots es
  unfolding new_object
  new_object-Follows a data' d es e r h n l c t =
      Steps-Follows (with_storage_tries b fuel base) (storage_laws b hash_bytes hash_inj) c
        (new_object (with_storage_tries b fuel base) a data') d no_slots es
        (new_object-Stored a data' d e r h n l) t
