-- ===== src/TrieByCid/State/StateObject/Slots.antt =====
-- state_object.go: the slots of an object: dirty, pending, cached, and in the storage trie.
use ipld_eth_statedb.Base.{
  ℕ, ◌+◌, Option, none, some, List, [], ◌∷◌, Map, empty_map, insert, get_or, ◌==◌, if◌then◌else◌,
}
use ipld_eth_statedb.DirectByLeaf.Types.{Hash, Bytes, zero_hash}
use ipld_eth_statedb.TrieByCid.State.Env.{Env, OrError, ok, failed}
use ipld_eth_statedb.TrieByCid.State.StateObject.{
  StateDb, StateObject, load_storage, split_slot, update_storage, storage_change, set_error,
  note_error, journalled, set_state_field, finalise, from_prefetcher, opened,
}

module _ {T : Type 0} (env : Env T) where
  abbrev pub trie_or_open : StateObject T → StateDb T → Option T → OrError T × StateObject T
  trie_or_open s d (some t) = opened s (ok t)
  trie_or_open s d none =
      opened s (env.open_storage_trie d.original_root s.addr_hash s.account.root)

  abbrev pub loaded_trie : StateObject T → StateDb T → Option T → OrError T × StateObject T
  loaded_trie s d (some t) = (ok t, s)
  loaded_trie s d none = trie_or_open s d (from_prefetcher d.prefetcher s.addr_hash s.account.root)

  unfoldable pub get_trie : StateObject T → StateDb T → OrError T × StateObject T
  get_trie s d = loaded_trie s d s.trie

  -- What a load gives: the encoded slot, unless there was an error, which is noted.
  abbrev pub Loaded : Type 0
  Loaded = Option Bytes × StateObject T × StateDb T

  abbrev pub tried : StateObject T → StateDb T → (Bytes × Option ℕ) × T → Loaded
  tried s d ((enc, some e), t) = (none, record s { trie = some t }, set_error d (load_storage e))
  tried s d ((enc, none), t) = (some enc, record s { trie = some t }, d)

  abbrev pub load_with : StateDb T → Hash → OrError T × StateObject T → Loaded
  load_with d key (failed e, s) = (none, s, set_error d (load_storage e))
  load_with d key (ok t, s) = tried s d (env.tries.try_get t key)

  abbrev pub load_from_trie : StateObject T → StateDb T → Hash → Loaded
  load_from_trie s d key = load_with d key (get_trie s d)

  -- A snapshot that fails is passed over.
  abbrev pub snap_or_trie : StateObject T → StateDb T → Hash → Bytes × Option ℕ → Loaded
  snap_or_trie s d key (enc, none) = (some enc, s, d)
  snap_or_trie s d key (enc, some e) = load_from_trie s d key

  abbrev pub load_by :
      StateObject T → StateDb T → Hash → Option (Hash → Hash → Bytes × Option ℕ) → Loaded
  load_by s d key none = load_from_trie s d key
  load_by s d key (some storage) = snap_or_trie s d key (storage s.addr_hash (env.keccak_key key))

  abbrev pub load_slot : StateObject T → StateDb T → Hash → Loaded
  load_slot s d key = load_by s d key d.snap

  -- The value of an encoded slot, and the error of splitting it.
  abbrev pub value_of : Bytes → Hash × Option ℕ
  value_of [] = (zero_hash, none)
  value_of (b ∷ bs) = let r = env.rlp_split (b ∷ bs) in (env.bytes_to_hash r.0, r.1)

  abbrev pub cache_loaded : Hash → Loaded → Hash × StateObject T × StateDb T
  cache_loaded key (none, s, d) = (zero_hash, s, d)
  cache_loaded key (some enc, s, d) =
      let r = value_of enc in
      (
        r.0,
        record s { origin_storage = insert s.origin_storage key r.0 },
        note_error d r.1 split_slot,
      )

  abbrev pub cached_or_load :
      StateObject T → StateDb T → Hash → Option Hash → Hash × StateObject T × StateDb T
  cached_or_load s d key (some value) = (value, s, d)
  cached_or_load s d key none =
      if d.state_objects_destruct s.address
      then (zero_hash, s, d)
      else cache_loaded key (load_slot s d key)

  abbrev pub pending_or_cached :
      StateObject T → StateDb T → Hash → Option Hash → Hash × StateObject T × StateDb T
  pending_or_cached s d key (some value) = (value, s, d)
  pending_or_cached s d key none = cached_or_load s d key (s.origin_storage key)

  unfoldable pub get_committed_state :
      StateObject T → StateDb T → Hash → Hash × StateObject T × StateDb T
  get_committed_state s d key = pending_or_cached s d key (s.pending_storage key)

  abbrev pub dirty_or_committed :
      StateObject T → StateDb T → Hash → Option Hash → Hash × StateObject T × StateDb T
  dirty_or_committed s d key (some value) = (value, s, d)
  dirty_or_committed s d key none = get_committed_state s d key

  unfoldable pub get_state : StateObject T → StateDb T → Hash → Hash × StateObject T × StateDb T
  get_state s d key = dirty_or_committed s d key (s.dirty_storage key)

  abbrev pub set_if_new : Hash → Hash → Hash × StateObject T × StateDb T → StateObject T × StateDb T
  set_if_new key value (prev, s, d) =
      if prev == value
      then (s, d)
      else (set_state_field s key value, journalled d (storage_change s.address key prev))

  unfoldable pub set_state : StateObject T → StateDb T → Hash → Hash → StateObject T × StateDb T
  set_state s d key value = set_if_new key value (get_state s d key)

  -- The snapshot's map of the account gets the value under the hash of the key.
  abbrev pub snap_storage_with :
      Option (Hash → Hash → Bytes × Option ℕ)
      → Map (Map Bytes)
      → Hash
      → Hash
      → Bytes
      → Map (Map Bytes)
  snap_storage_with none m addr_hash key v = m
  snap_storage_with (some storage) m addr_hash key v =
      insert m addr_hash (insert (get_or m addr_hash empty_map) (env.keccak_key key) v)

  abbrev pub keep_for_snap : Hash → Hash → Bytes → StateDb T → StateDb T
  keep_for_snap addr_hash key v d = record d {
    snap_storage = snap_storage_with d.snap d.snap_storage addr_hash key v;
  }

  -- An update that runs: the trie, the object and the database, or the error that stopped it.
  abbrev pub Updating : Type 0
  Updating = OrError T × StateObject T × StateDb T

  abbrev pub deleted_slot : Hash → StateObject T → StateDb T → Option ℕ × T → Updating
  deleted_slot key s d (some e, t) =
      (failed e, record s { trie = some t }, set_error d (update_storage e))
  deleted_slot key s d (none, t) = (
    ok t,
    record s { trie = some t },
    keep_for_snap s.addr_hash key [] (record d { storage_deleted = d.storage_deleted + 1 }),
  )

  abbrev pub updated_slot : Hash → Bytes → StateObject T → StateDb T → Option ℕ × T → Updating
  updated_slot key v s d (some e, t) =
      (failed e, record s { trie = some t }, set_error d (update_storage e))
  updated_slot key v s d (none, t) = (
    ok t,
    record s { trie = some t },
    keep_for_snap s.addr_hash key v (record d { storage_updated = d.storage_updated + 1 }),
  )

  -- One pending entry, `value` at `key`.
  abbrev pub update_slot : Hash → Hash → T → StateObject T → StateDb T → Updating
  update_slot key value t s d =
      if value == get_or s.origin_storage key zero_hash
      then (ok t, s, d)
      else (let s' : StateObject T = record s {
        origin_storage = insert s.origin_storage key value;
      } in
          if value == zero_hash
          then deleted_slot key s' d (env.tries.try_delete t key)
          else updated_slot key (env.encode_value value) s' d
              (env.tries.try_update t key (env.encode_value value)))

  abbrev pub unless_failed : (T → StateObject T → StateDb T → Updating) → Updating → Updating
  unless_failed f (failed e, s, d) = (failed e, s, d)
  unless_failed f (ok t, s, d) = f t s d

  -- The loop over the pending storage, in the order of `keys`.
  unfoldable pub update_slots : List Hash → T → StateObject T → StateDb T → Updating
  update_slots [] t s d = (ok t, s, d)
  update_slots (key ∷ keys) t s d =
      unless_failed (update_slots keys)
        (update_slot key (get_or s.pending_storage key zero_hash) t s d)

  -- The trie, `none` where it is nil.
  abbrev pub UpdatedTrie : Type 0
  UpdatedTrie = OrError (Option T) × StateObject T × StateDb T

  abbrev pub all_written : Updating → UpdatedTrie
  all_written (failed e, s, d) = (failed e, s, d)
  all_written (ok t, s, d) = (ok (some t), record s { pending_storage = empty_map }, d)

  abbrev pub write_with : List Hash → StateDb T → OrError T × StateObject T → UpdatedTrie
  write_with keys d (failed e, s) = (failed e, s, set_error d (update_storage e))
  write_with keys d (ok t, s) = all_written (update_slots keys t s d)

  abbrev pub write_pending : List Hash → StateObject T → StateDb T → UpdatedTrie
  write_pending [] s d = (ok s.trie, s, d)
  write_pending (key ∷ keys) s d = write_with (key ∷ keys) d (get_trie s d)

  -- `keys` are the keys of the pending storage after finalise, in the order in which Go's loop over
  -- the map meets them.
  unfoldable pub update_trie : List Hash → StateObject T → StateDb T → UpdatedTrie
  unfolding finalise
  update_trie keys s d = write_pending keys (finalise s) d

  abbrev pub with_hash : StateObject T → StateDb T → Hash × T → StateObject T × StateDb T
  with_hash s d (root, t) =
      (record s { trie = some t; account = record (s.account) { root = root } }, d)

  abbrev pub hash_trie : UpdatedTrie → StateObject T × StateDb T
  hash_trie (failed e, s, d) = (s, d)
  hash_trie (ok none, s, d) = (s, d)
  hash_trie (ok (some t), s, d) = with_hash s d (env.tries.hash t)

  unfoldable pub update_root : List Hash → StateObject T → StateDb T → StateObject T × StateDb T
  update_root keys s d = hash_trie (update_trie keys s d)
