-- ===== src/TrieByCid/State/StateObject/Tests.antt =====
-- state_object.go with the storage tries of an empty database, at a new account and at an object with one
-- dirty slot.
use ipld_eth_statedb.Base.{
  zero, suc, ◌≡◌, refl, sym, ap, ap₂, ◌∙◌, subst, true, false, Option, none, some, List, [], ◌∷◌,
  pos, ◌⊎◌, inl, inr, insert, empty_map, no_keys, Bool-cases, ==_iff, ◌==◌, length, arith,
}
use ipld_eth_statedb.DirectByLeaf.Types.{Hash, Bytes, Storage}
use ipld_eth_statedb.DirectByLeaf.Env.{StateAccount}
use ipld_eth_statedb.DirectByLeaf.StateObject.{merge}
use ipld_eth_statedb.TrieByCid.Trie.Encoding.RoundTrips.{AllBelow}
use ipld_eth_statedb.TrieByCid.Trie.Trie.Update
use ipld_eth_statedb.TrieByCid.Trie.Trie.Lookup
use ipld_eth_statedb.TrieByCid.Trie.SecureTrie
use ipld_eth_statedb.TrieByCid.State.Env.{TrieLaws, Env, OrError, failed}
use ipld_eth_statedb.TrieByCid.State.StorageTrie.{
  Below, Fuelled, storage_tries, storage_laws, with_storage_tries, open_storage_trie,
}
use ipld_eth_statedb.TrieByCid.State.StateObject.{
  StateDb, StateObject, finalise, new_object, set_state_field,
}
use ipld_eth_statedb.TrieByCid.State.StateObject.Slots.{
  get_trie, get_committed_state, get_state, set_state, update_trie,
}
use ipld_eth_statedb.TrieByCid.State.StateObject.Stored.{committed, current, Stored}
use ipld_eth_statedb.TrieByCid.State.StateObject.Reads.{
  Reads, get_committed_state-Reads, get_state-Reads,
}
use ipld_eth_statedb.TrieByCid.State.StateObject.Writes.{
  Writes, Finalised, set_state-Writes, finalise-Finalised,
}
use ipld_eth_statedb.TrieByCid.State.StateObject.Flush.{Flushed, update_trie-Flushed}
use ipld_eth_statedb.TrieByCid.State.StateObject.Order.{KeysOf}
use ipld_eth_statedb.TrieByCid.State.StateObject.Block.{
  SlotEvent, state_read, state_write, committed_read, transaction_end, flush, error_of, Follows,
  Steps, done, read, read_committed, write, end_transaction, update, Steps-Follows,
}
use ipld_eth_statedb.TrieByCid.State.StateObject.Fresh.{
  no_slots, new_object-Stored, new_object-Follows,
}

-- A key of as many zeros as the slot's number, hashed to itself.
abbrev zeros : Hash → Bytes
zeros zero = []
zeros (suc k) = 0 ∷ zeros k

zeros-AllBelow : (k : Hash) → AllBelow 256 (zeros k)
zeros-AllBelow zero = tt
zeros-AllBelow (suc k) = (omega arith, zeros-AllBelow k)

length-zeros : (k : Hash) → length (zeros k) ≡ k
length-zeros zero = refl
length-zeros (suc k) = ap suc (length-zeros k)

zeros_inj : (j k : Hash) → zeros j ≡ zeros k → j ≡ k
zeros_inj j k e = sym (length-zeros j) ∙ ap length e ∙ length-zeros k

-- A database without a node.
abbrev toy_below : Below
toy_below = record {
  reader = λ state_root owner. record {
    banned = λ p. false;
    reader = some (λ p h. ([], some 1));
    decode = λ h b. none;
  };
  preimages = none;
  hash_key = λ b. b;
  key_bytes = zeros;
  root_bytes = λ r. Update.empty_root;
  error_number = λ e. 1;
  root_hash = λ t. (1, t);
}

abbrev toy_laws : TrieLaws (storage_tries toy_below)
toy_laws = storage_laws toy_below zeros-AllBelow zeros_inj

abbrev first_byte : Bytes → Hash
first_byte [] = 0
first_byte (b ∷ bs) = b

abbrev toy_base : Env Fuelled
toy_base = record {
  tries = storage_tries toy_below;
  open_storage_trie = λ state_root addr_hash root. failed 1;
  contract_code = λ h. (none, some 1);
  contract_code_size = λ h. (0, some 1);
  keccak_address = λ a. a;
  keccak_key = λ k. k;
  keccak_code = λ c. 4;
  rlp_split = λ b. (b, none);
  bytes_to_hash = first_byte;
  encode_value = λ v. v ∷ [];
}

abbrev toy_env : Env Fuelled
toy_env = with_storage_tries toy_below 2 toy_base

abbrev toy_account : StateAccount
toy_account = record { nonce = 1; balance = some (pos 0); root = 0; code_hash = some 4 }

abbrev toy_db : StateDb Fuelled
toy_db = record {
  original_root = 1;
  prefetcher = none;
  snap = none;
  snap_storage = empty_map;
  state_objects_destruct = no_keys;
  db_err = none;
  journal = record { entries = []; dirties = empty_map };
  storage_updated = 0;
  storage_deleted = 0;
}

abbrev toy_dirty : Storage
toy_dirty = insert empty_map 6 3

toy_dirty_missing : (k : Hash) → ((6 == k) ≡ false) → toy_dirty k ≡ none
toy_dirty_missing k x = rw x refl

abbrev new_account : StateObject Fuelled
new_account = new_object toy_env 2 toy_account

-- The slot 6 is dirty with 3.
abbrev toy_object : StateObject Fuelled
toy_object = record new_account { dirty_storage = toy_dirty }

new_account-Stored : Stored toy_env toy_laws new_account toy_db no_slots
new_account-Stored =
    new_object-Stored toy_below toy_base 2 zeros-AllBelow zeros_inj 2 toy_account toy_db (inl refl)
      refl refl refl (omega arith)

toy-Stored : Stored toy_env toy_laws toy_object toy_db no_slots
toy-Stored =
    let a = new_account-Stored in
    record {
      trie = a.trie;
      trie_eq = a.trie_eq;
      stored = a.stored;
      origin_eq = a.origin_eq;
      destruct_eq = a.destruct_eq;
      snap_eq = a.snap_eq;
      pending_eq = a.pending_eq;
      dirty_eq = λ k v e n. refl;
    }

committed_example :
    Reads toy_env toy_laws toy_object toy_db no_slots 5
      (committed toy_object no_slots 5)
      (get_committed_state toy_env toy_object toy_db 5)
committed_example =
    get_committed_state-Reads toy_env toy_laws toy_object toy_db no_slots 5 toy-Stored

state_example :
    Reads toy_env toy_laws toy_object toy_db no_slots 6
      (current toy_object no_slots 6)
      (get_state toy_env toy_object toy_db 6)
state_example = get_state-Reads toy_env toy_laws toy_object toy_db no_slots 6 toy-Stored

set_state_example :
    Writes toy_env toy_laws toy_object no_slots 5 0 (set_state toy_env toy_object toy_db 5 0)
set_state_example = set_state-Writes toy_env toy_laws toy_object toy_db no_slots 5 0 toy-Stored

finalise_example : Finalised toy_env toy_laws toy_object toy_db no_slots (finalise toy_object)
finalise_example = finalise-Finalised toy_env toy_laws toy_object toy_db no_slots toy-Stored

toy-KeysOf : KeysOf (finalise toy_object).pending_storage (6 ∷ [])
unfolding finalise new_object
toy-KeysOf = record { all_in = ((3, refl), tt); listed = λ j v. by_key j v (Bool-cases (6 == j)) }
  where
    over : Option Hash → Option Hash
    over o = elim o [ none ↦ none | some value ↦ some value ]

    missing : (j : Hash) → ((6 == j) ≡ false) → (finalise toy_object).pending_storage j ≡ none
    missing j x = ap over (toy_dirty_missing j x)

    by_key :
        (j v : Hash)
        → ((6 == j) ≡ true) ⊎ ((6 == j) ≡ false)
        → (finalise toy_object).pending_storage j ≡ some v
        → (6 ≡ j) ⊎ ⊥
    by_key j v (inl x) w = inl ((==_iff 6 j).0 x)
    by_key j v (inr x) w = absurd (cc (w, missing j x))

update_trie_example :
    Flushed toy_env toy_laws
      (λ v n. refl)
      (current toy_object no_slots)
      (update_trie toy_env (6 ∷ []) toy_object toy_db)
update_trie_example =
    update_trie-Flushed toy_env toy_laws (λ v n. refl) (6 ∷ []) toy_object toy_db no_slots
      toy-Stored toy-KeysOf

-- The slot 6 is flushed, read, and cleared.
abbrev flushed : OrError (Option Fuelled) × StateObject Fuelled × StateDb Fuelled
flushed = update_trie toy_env (6 ∷ []) toy_object toy_db

abbrev after_read : Hash × StateObject Fuelled × StateDb Fuelled
after_read = get_state toy_env flushed.1 flushed.2 6

abbrev after_write : StateObject Fuelled × StateDb Fuelled
after_write = set_state toy_env after_read.1 after_read.2 6 0

abbrev some_events : List SlotEvent
some_events =
    flush (error_of flushed.0) ∷ state_read 6 after_read.0 ∷ state_write 6 0 ∷ transaction_end ∷ []

some-Steps : Steps toy_env toy_object toy_db some_events
some-Steps = update (6 ∷ []) toy-KeysOf refl (read refl (write refl (end_transaction done)))

block_example : Follows (current toy_object no_slots) (committed toy_object no_slots) some_events
block_example =
    Steps-Follows toy_env toy_laws (λ v n. refl) toy_object toy_db no_slots some_events toy-Stored
      some-Steps

-- A new account writes the slot 6, in a transaction, and flushes it.
abbrev first_write : StateObject Fuelled × StateDb Fuelled
first_write = set_state toy_env new_account toy_db 6 3

first_dirty : first_write.0.dirty_storage ≡ toy_dirty
unfolding set_state get_state get_committed_state get_trie new_object set_state_field
    open_storage_trie SecureTrie.new_state_trie Update.new SecureTrie.try_get Update.try_get_value
    Lookup.try_get
first_dirty = refl

first_pending : first_write.0.pending_storage ≡ empty_map
unfolding set_state get_state get_committed_state get_trie new_object set_state_field
    open_storage_trie SecureTrie.new_state_trie Update.new SecureTrie.try_get Update.try_get_value
    Lookup.try_get
first_pending = refl

first-KeysOf : KeysOf (finalise first_write.0).pending_storage (6 ∷ [])
unfolding finalise new_object
first-KeysOf =
    subst (λ p. KeysOf p (6 ∷ [])) (ap₂ merge (sym first_pending) (sym first_dirty)) toy-KeysOf

abbrev first_flush : OrError (Option Fuelled) × StateObject Fuelled × StateDb Fuelled
first_flush = update_trie toy_env (6 ∷ []) first_write.0 first_write.1

abbrev last_read : Hash × StateObject Fuelled × StateDb Fuelled
last_read = get_committed_state toy_env first_flush.1 first_flush.2 6

abbrev new_events : List SlotEvent
new_events = state_write 6 3 ∷ flush (error_of first_flush.0) ∷ committed_read 6 last_read.0 ∷ []

new_events-Steps : Steps toy_env new_account toy_db new_events
new_events-Steps = write refl (update (6 ∷ []) first-KeysOf refl (read_committed refl done))

new_object_example : Follows no_slots no_slots new_events
new_object_example =
    new_object-Follows toy_below toy_base 2 zeros-AllBelow zeros_inj 2 toy_account toy_db new_events
      (inl refl) refl refl refl (omega arith) (λ v n. refl) new_events-Steps

-- What was written is what is read.
last_value : last_read.0 ≡ 3
last_value =
    (new_object-Follows toy_below toy_base 2 zeros-AllBelow zeros_inj 2 toy_account toy_db
      new_events (inl refl) refl refl refl (omega arith) (λ v n. refl) new_events-Steps).1.0
