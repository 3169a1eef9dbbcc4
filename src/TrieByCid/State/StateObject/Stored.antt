-- ===== src/TrieByCid/State/StateObject/Stored.antt =====
-- state_object.go: what an object's slots are, by the specification.
use ipld_eth_statedb.Base.{ℕ, ◌≡◌, refl, ap, ap₂, ◌∙◌, true, Option, none, some, or_zero}
use ipld_eth_statedb.DirectByLeaf.Types.{Hash, Bytes, zero_hash}
use ipld_eth_statedb.TrieByCid.State.Env.{Env, TrieLaws, Blobs, OrError, ok}
use ipld_eth_statedb.TrieByCid.State.StateObject.{StateDb, StateObject, from_prefetcher, opened}
use ipld_eth_statedb.TrieByCid.State.StateObject.Slots.{
  trie_or_open, loaded_trie, get_trie, value_of,
}

-- The trie of an object, of the prefetcher, or of the database.
abbrev pub first_trie : {T : Type 0} → Option T → Option T → OrError T → OrError T
first_trie (some t) p r = ok t
first_trie none (some t) r = ok t
first_trie none none r = r

-- The slots of an object, given those of its trie.
abbrev pub committed : {T : Type 0} → StateObject T → (Hash → Hash) → Hash → Hash
committed s slots k = or_zero (s.pending_storage k) (slots k)

abbrev pub current : {T : Type 0} → StateObject T → (Hash → Hash) → Hash → Hash
current s slots k = or_zero (s.dirty_storage k) (committed s slots k)

module _ {T : Type 0} (env : Env T) (laws : TrieLaws env.tries) where
  -- The trie holds the slots, encoded.
  pub record StoredIn (t : T) (slots : Hash → Hash) : Type 0 where
    pub blobs : Blobs
    pub holds : laws.Holds t blobs
    pub value_eq : (k : Hash) → value_of env (blobs k) ≡ (slots k, none)

  -- The object's trie, loaded or not, holds the slots, and the caches agree with them: a slot that is
  -- cached is cached with its value; one that is not is zero in a destructed object, and where it was
  -- written; and a snapshot that answers for it answers with its value.
  pub record Stored (s : StateObject T) (d : StateDb T) (slots : Hash → Hash) : Type 0 where
    pub trie : T
    pub trie_eq :
        first_trie s.trie
          (from_prefetcher d.prefetcher s.addr_hash s.account.root)
          (env.open_storage_trie d.original_root s.addr_hash s.account.root)
        ≡ ok trie
    pub stored : StoredIn trie slots
    pub origin_eq : (k v : Hash) → s.origin_storage k ≡ some v → slots k ≡ v
    pub destruct_eq :
        (k : Hash)
        → d.state_objects_destruct s.address ≡ true
        → s.origin_storage k ≡ none
        → slots k ≡ zero_hash
    pub snap_eq :
        (storage : Hash → Hash → Bytes × Option ℕ) (k : Hash) (enc : Bytes)
        → d.snap ≡ some storage
        → storage s.addr_hash (env.keccak_key k) ≡ (enc, none)
        → s.origin_storage k ≡ none
        → value_of env enc ≡ (slots k, none)
    pub pending_eq :
        (k v : Hash)
        → s.pending_storage k ≡ some v
        → s.origin_storage k ≡ none
        → slots k ≡ zero_hash
    pub dirty_eq :
        (k v : Hash) → s.dirty_storage k ≡ some v → s.origin_storage k ≡ none → slots k ≡ zero_hash

  pub get_trie_eq :
      (s : StateObject T) (d : StateDb T) (t : T)
      → first_trie s.trie
          (from_prefetcher d.prefetcher s.addr_hash s.account.root)
          (env.open_storage_trie d.original_root s.addr_hash s.account.root)
        ≡ ok t
      → get_trie env s d ≡ (ok t, record s { trie = some t })
  unfolding get_trie
  get_trie_eq s d t e =
      from s.trie (from_prefetcher d.prefetcher s.addr_hash s.account.root)
        (env.open_storage_trie d.original_root s.addr_hash s.account.root) refl refl refl e
    where
      from :
          (o p : Option T) (r : OrError T)
          → s.trie ≡ o
          → from_prefetcher d.prefetcher s.addr_hash s.account.root ≡ p
          → env.open_storage_trie d.original_root s.addr_hash s.account.root ≡ r
          → first_trie o p r ≡ ok t
          → loaded_trie env s d o ≡ (ok t, record s { trie = some t })
      from (some u) p r a b c w =
          let q : u ≡ t = cc (w) in ap₂ (λ x o. (ok x, record s { trie = o })) q (a ∙ ap some q)
      from none (some u) r a b c w = ap (trie_or_open env s d) b ∙ ap (opened s) w
      from none none r a b c w = ap (trie_or_open env s d) b ∙ ap (opened s) (c ∙ w)
