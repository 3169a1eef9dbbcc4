-- ===== src/DirectByLeaf/StateDb/Revert.antt =====
-- direct_by_leaf/journal.go: appending an entry, undoing one, and undoing down to a snapshot.
-- `none` is a panic: a nil object, an index out of range, or an unknown address.
use ipld_eth_statedb.Base.{
  ℕ, zero, suc, ◌+◌, ◌-◌, ◌%◌, Option, none, some, List, [], ◌∷◌, insert, delete, without_key,
  get_or, Map, length, drop, ◌==◌, if◌then◌else◌,
}
use ipld_eth_statedb.DirectByLeaf.Types.{Address, Hash}
use ipld_eth_statedb.DirectByLeaf.Env.{Env}
use ipld_eth_statedb.DirectByLeaf.AccessList
use ipld_eth_statedb.DirectByLeaf.AccessList.{AccessList}
use ipld_eth_statedb.DirectByLeaf.TransientStorage
use ipld_eth_statedb.DirectByLeaf.StateObject
use ipld_eth_statedb.DirectByLeaf.StateObject.{StateObject}
use ipld_eth_statedb.DirectByLeaf.StateDb.{
  StateDb, Journal, JournalEntry, Log, create_object_change, reset_object_change, suicide_change,
  balance_change, nonce_change, storage_change, code_change, refund_change, add_log_change,
  add_preimage_change, touch_change, access_list_add_account_change, access_list_add_slot_change,
  transient_storage_change, word,
}
use ipld_eth_statedb.DirectByLeaf.StateDb.Access.{get_state_object, set_state_object}

abbrev pub dirtied : JournalEntry → Option Address
dirtied (create_object_change a) = some a
dirtied (suicide_change a prev prevbalance) = some a
dirtied (balance_change a prev) = some a
dirtied (nonce_change a prev) = some a
dirtied (storage_change a key prevalue) = some a
dirtied (code_change a prevcode prevhash) = some a
dirtied (touch_change a) = some a
dirtied _ = none

abbrev pub count_up : Map ℕ → Option Address → Map ℕ
count_up dirties none = dirties
count_up dirties (some a) = insert dirties a (get_or dirties a 0 + 1)

-- Go's map holds 0 - 1 here for a missing key, which `revert` never meets, the address RIPEMD aside:
-- see `journal_revert-Counts`.
abbrev pub count_down : Map ℕ → Option Address → Map ℕ
count_down dirties none = dirties
count_down dirties (some a) =
    if get_or dirties a 0 - 1 == 0
    then delete dirties a
    else insert dirties a (get_or dirties a 0 - 1)

unfoldable pub append : Journal → JournalEntry → Journal
append j entry = record {
  entries = entry ∷ j.entries;
  dirties = count_up j.dirties (dirtied entry);
}

unfoldable pub dirty : Journal → Address → Journal
dirty j addr = record j { dirties = count_up j.dirties (some addr) }

unfoldable pub journal_length : Journal → ℕ
journal_length j = length j.entries

unfoldable pub journal_append : StateDb → JournalEntry → StateDb
unfolding append
journal_append s entry = record s { journal = append s.journal entry }

-- Without its last element; on the empty list Go would panic at a slice bound of -1.
abbrev pub drop_last : List Log → Option (List Log)
drop_last [] = none
drop_last (l ∷ []) = some []
drop_last (l ∷ m ∷ ls) = elim (drop_last (m ∷ ls)) [ none ↦ none | some r ↦ some (l ∷ r) ]

abbrev pub logs_without_last : Map (List Log) → Hash → List Log → Option (Map (List Log))
logs_without_last logs txhash (l ∷ []) = some (delete logs txhash)
logs_without_last logs txhash ls = elim (drop_last ls) [
  | none ↦ none
  | some r ↦ some (insert logs txhash r)
]

-- The object of an address, nil where there is none, written on by `write`.
abbrev pub write_live : (StateObject → StateObject) → Option StateObject × StateDb → Option StateDb
write_live write (none, s) = none
write_live write (some obj, s) = some (set_state_object s (write obj))

-- suicideChange alone tests for nil.
abbrev pub write_if_live : (StateObject → StateObject) → Option StateObject × StateDb → StateDb
write_if_live write (none, s) = s
write_if_live write (some obj, s) = set_state_object s (write obj)

abbrev pub drop_dirty : JournalEntry → Option StateDb → Option StateDb
drop_dirty entry none = none
drop_dirty entry (some t) = some (record t {
  journal = record (t.journal) { dirties = count_down t.journal.dirties (dirtied entry) };
})

abbrev pub with_entries : List JournalEntry → Option StateDb → Option StateDb
with_entries entries none = none
with_entries entries (some t) =
    some (record t { journal = record (t.journal) { entries = entries } })

module _ (env : Env) where
  -- journalEntry.revert
  unfoldable pub revert_entry : JournalEntry → StateDb → Option StateDb
  revert_entry (create_object_change a) s = some (record s {
    state_objects = delete s.state_objects a;
    state_objects_dirty = without_key s.state_objects_dirty a;
  })
  revert_entry (reset_object_change prev prevdestruct) s = some (set_state_object s prev)
  revert_entry (suicide_change a prev prevbalance) s = some (
      write_if_live
        (λ obj. StateObject.set_balance_field (record obj { suicided = prev }) prevbalance)
        (get_state_object env s a))
  revert_entry (balance_change a prev) s =
      write_live (λ obj. StateObject.set_balance_field obj prev) (get_state_object env s a)
  revert_entry (nonce_change a prev) s =
      write_live (λ obj. StateObject.set_nonce_field obj prev) (get_state_object env s a)
  revert_entry (storage_change a key prevalue) s =
      write_live (λ obj. StateObject.set_state_field obj key prevalue) (get_state_object env s a)
  revert_entry (code_change a prevcode prevhash) s =
      write_live (λ obj. StateObject.set_code_field obj prevhash prevcode)
        (get_state_object env s a)
  revert_entry (refund_change prev) s = some (record s { refund = prev })
  revert_entry (add_log_change txhash) s =
      elim (logs_without_last s.logs txhash (get_or s.logs txhash [])) [
        | none ↦ none
        | some logs' ↦ some (record s { logs = logs'; log_size = (s.log_size + word - 1) % word })
      ]
  revert_entry (add_preimage_change hash) s =
      some (record s { preimages = delete s.preimages hash })
  revert_entry (touch_change a) s = some s
  revert_entry (access_list_add_account_change a) s =
      some (record s { access_list = AccessList.delete_address s.access_list a })
  revert_entry (access_list_add_slot_change a slot) s =
      elim (AccessList.delete_slot s.access_list a slot) [
        | none ↦ none
        | some al ↦ some (record s { access_list = al })
      ]
  revert_entry (transient_storage_change a key prevalue) s =
      some
        (record s { transient_storage = TransientStorage.set s.transient_storage a key prevalue })

  -- One round of the loop of journal.revert: undo the entry, drop its dirty mark.
  unfoldable pub revert_round : JournalEntry → StateDb → Option StateDb
  revert_round entry s = drop_dirty entry (revert_entry entry s)

  -- The loop over the entries from the newest on, `n` of them.
  unfoldable pub revert_entries : ℕ → List JournalEntry → StateDb → Option StateDb
  unfolding revert_round
  revert_entries zero es s = some s
  revert_entries (suc n) [] s = some s
  revert_entries (suc n) (e ∷ es) s = elim (revert_round e s) [
    | none ↦ none
    | some t ↦ revert_entries n es t
  ]

  -- The loop, and then the truncation; `snapshot` is at most the length.
  unfoldable pub journal_revert : StateDb → ℕ → Option StateDb
  unfolding revert_entries
  journal_revert s snapshot =
      let n = length s.journal.entries - snapshot in
      with_entries (drop n s.journal.entries) (revert_entries n s.journal.entries s)
