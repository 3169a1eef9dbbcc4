-- ===== src/DirectByLeaf/Tests.antt =====
-- The package on a toy database, in which account 1007 has balance 50 and slots that hold 9.
use ipld_eth_statedb.Base.{
  ◌+◌, ◌+ℤ◌, ◌≡◌, ◌↔◌, inl, inr, refl, true, false, ◌&&◌, Option, none, some, [], ◌∷◌, pos, ◌==◌,
  if◌then◌else◌, insert, empty_map,
}
use ipld_eth_statedb.Base.{List}
use ipld_eth_statedb.DirectByLeaf.Types.{Hash}
use ipld_eth_statedb.DirectByLeaf.Env.{Env, StateDatabase, StateAccount}
use ipld_eth_statedb.DirectByLeaf.AccessList.{AccessList, new_access_list, add_slot}
use ipld_eth_statedb.DirectByLeaf.AccessList.Contents.{
  new_access_list-IsValid, add_slot-IsValid, IsValidResult,
}
use ipld_eth_statedb.DirectByLeaf.AccessList.Undo.{undo_add_slot, undo_add_slot-add_slot}
use ipld_eth_statedb.DirectByLeaf.TransientStorage.{new_transient_storage, set, get, get-set}
use ipld_eth_statedb.DirectByLeaf.StateObject
use ipld_eth_statedb.DirectByLeaf.StateObject.{StateObject}
use ipld_eth_statedb.DirectByLeaf.StateDb.{StateDb, Journal, JournalEntry, new, new_journal}
use ipld_eth_statedb.DirectByLeaf.StateDb.Access.{
  exist, get_balance, get_state, get_committed_state, get_state_object, get_deleted_state_object,
  set_state_object,
}
use ipld_eth_statedb.DirectByLeaf.StateDb.Revert.{append, journal_revert, revert_entry}
use ipld_eth_statedb.DirectByLeaf.StateDb.Setters.{
  set_state, add_balance, create_account, create_object, object_add_balance,
  get_or_new_state_object, add_slot_to_access_list,
}
use ipld_eth_statedb.DirectByLeaf.StateDb.Lifecycle.{snapshot, revert_to_snapshot, finalise}
use ipld_eth_statedb.DirectByLeaf.StateDb.Calls.{Call, Run, perform, start, called}
use ipld_eth_statedb.DirectByLeaf.StateDb.View.{view, map_option}
use ipld_eth_statedb.DirectByLeaf.StateDb.View.Undo.{undo_view, view-revert_entry}
use ipld_eth_statedb.DirectByLeaf.StateDb.View.Getters.{Answers, getters-view}
use ipld_eth_statedb.DirectByLeaf.StateDb.Rollback.Snapshot.{Restores, AllBelow}
use ipld_eth_statedb.DirectByLeaf.StateDb.Rollback.Valid.{IsValid, Safe}
use ipld_eth_statedb.DirectByLeaf.StateDb.Rollback.Plain.{SafeResult}
use ipld_eth_statedb.DirectByLeaf.StateDb.Rollback.Access.{add_slot_to_access_list-Safe}
use ipld_eth_statedb.DirectByLeaf.StateDb.Rollback.Dirties.{
  Counts, append-Counts, journal_revert-Counts,
}
use ipld_eth_statedb.DirectByLeaf.StateDb.Rollback.Frames.{perform-Safe, revert_to_snapshot-Run}
use ipld_eth_statedb.DirectByLeaf.StateDb.Rollback.Fresh.{
  new-IsValid, new-Run, new-Run-revert_to_snapshot,
}
use ipld_eth_statedb.DirectByLeaf.StateDb.Transaction.Finalise.{
  Gone, finalise_removed, finalise_forgets,
}
use ipld_eth_statedb.DirectByLeaf.StateDb.Transaction.Create.{Carries, create_account-Carries}
use ipld_eth_statedb.DirectByLeaf.StateDb.Lifecycle.{Rules, AccessTuple, prepare}
use ipld_eth_statedb.DirectByLeaf.StateDb.Transaction.Prepare.{Warms, prepare-Warms}

abbrev account_at : Hash → Option StateAccount
account_at h =
    if h == 1007
    then some (record { nonce = 1; balance = some (pos 50); root = 3; code_hash = none })
    else none

abbrev toy_db : StateDatabase
toy_db = record {
  contract_code = λ h. (none, some 1);
  contract_code_size = λ h. (0, some 1);
  state_account = λ h block. (account_at h, none);
  storage_value = λ a slot block. (9 ∷ [], none);
}

abbrev toy : Env
toy = record {
  db = toy_db;
  keccak_address = λ a. a + 1000;
  keccak_key = λ k. k + 2000;
  keccak_code = λ code. 77;
  rlp_split = λ bytes. (bytes, none);
  bytes_to_hash = λ bytes. elim bytes [ [] ↦ 0 | b ∷ bs ↦ b ];
}

-- The account with balance 60 and then slot 4 set to 2.
abbrev paid : StateDb
paid = add_balance toy (new 5) 7 (pos 10)

abbrev stored : StateDb
stored = set_state toy (snapshot paid).1 7 4 2

paid-Run : Run toy (new 5) paid
unfolding perform
paid-Run = called (start (new 5)) (Call.add_balance 7 (pos 10)) refl

stored-Run : Run toy (snapshot paid).1 stored
unfolding perform
stored-Run = called (start (snapshot paid).1) (Call.set_state 7 4 2) refl

fresh_example : Restores toy paid stored (revert_to_snapshot toy stored (snapshot paid).0)
fresh_example = new-Run-revert_to_snapshot toy 5 paid stored paid-Run stored-Run

new_run_example : IsValid (view toy paid)
new_run_example = new-Run toy 5 paid paid-Run

no_revisions : AllBelow (new 5).next_revision_id (new 5).valid_revisions
unfolding new
no_revisions = tt

abbrev stored_first : StateDb
stored_first = set_state toy (snapshot (new 5)).1 7 4 2

stored_first-Run : Run toy (snapshot (new 5)).1 stored_first
unfolding perform
stored_first-Run = called (start (snapshot (new 5)).1) (Call.set_state 7 4 2) refl

revert_example :
    Restores toy (new 5) stored_first (revert_to_snapshot toy stored_first (snapshot (new 5)).0)
revert_example =
    revert_to_snapshot-Run toy (new 5) stored_first (new-IsValid toy 5) no_revisions
      stored_first-Run

perform_example : SafeResult toy paid (perform toy (Call.suicide 7) paid)
perform_example = perform-Safe toy (Call.suicide 7) paid (new-Run toy 5 paid paid-Run)

undo_entry_example :
    map_option (view toy) (revert_entry toy (JournalEntry.balance_change 7 (pos 50)) paid)
    ≡ undo_view toy (JournalEntry.balance_change 7 (pos 50)) (view toy paid)
undo_entry_example = view-revert_entry toy (JournalEntry.balance_change 7 (pos 50)) paid

getters_example : Answers toy paid 7 4
getters_example = getters-view toy paid 7 4

add_slot_example :
    (t : StateDb) × (add_slot_to_access_list (new 5) 7 4 ≡ some t) × Safe toy (new 5) t
add_slot_example = add_slot_to_access_list-Safe toy (new 5) (new-IsValid toy 5) 7 4

create_example : Carries toy paid 7 (create_account toy paid 7)
create_example = create_account-Carries toy paid 7

-- The balance that is carried over: 50 and 10.
carried_balance : (get_balance toy (create_account toy paid 7) 7).0 ≡ pos 60
unfolding create_account add_balance get_balance ◌+ℤ◌ get_state_object get_deleted_state_object
    create_object object_add_balance set_state_object StateObject.set_balance_field
    get_or_new_state_object new StateObject.new_object
carried_balance = refl

-- Account 7 with two changes in the journal, between them one that names no account.
abbrev noted_journal : Journal
noted_journal =
    append
      (append (append new_journal (JournalEntry.balance_change 7 (pos 40)))
        (JournalEntry.refund_change 3))
      (JournalEntry.nonce_change 7 0)

abbrev noted : StateDb
noted = record (new 5) {
  state_objects = insert empty_map 7 (
      StateObject.new_object toy 7
        (record { nonce = 1; balance = some (pos 50); root = 3; code_hash = none }) 5);
  journal = noted_journal;
}

noted-Counts : Counts noted.journal
noted-Counts =
    append-Counts
      (append (append new_journal (JournalEntry.balance_change 7 (pos 40)))
        (JournalEntry.refund_change 3))
      (JournalEntry.nonce_change 7 0)
      (append-Counts (append new_journal (JournalEntry.balance_change 7 (pos 40)))
        (JournalEntry.refund_change 3)
        (append-Counts new_journal (JournalEntry.balance_change 7 (pos 40)) (λ a n. refl)))

abbrev unnoted : StateDb
unnoted = elim (journal_revert toy noted 2) [ none ↦ noted | some t ↦ t ]

unnoted_eq : journal_revert toy noted 2 ≡ some unnoted
unfolding journal_revert append revert_entry get_state_object get_deleted_state_object
    StateObject.new_object
unnoted_eq = refl

-- The count of account 7 goes from two to one.
noted_count : noted.journal.dirties 7 ≡ some 2
unfolding append
noted_count = refl

unnoted_count : unnoted.journal.dirties 7 ≡ some 1
unfolding journal_revert append revert_entry get_state_object get_deleted_state_object
    StateObject.new_object set_state_object
unnoted_count = refl

dirties_example : Counts unnoted.journal
dirties_example = journal_revert-Counts toy noted unnoted 2 noted-Counts unnoted_eq

-- A live account 7 that the journal dirtied.
abbrev obj : StateObject
obj =
    StateObject.new_object toy 7
      (record { nonce = 1; balance = some (pos 50); root = 3; code_hash = none }) 5

abbrev dirtied_with : StateObject → StateDb
dirtied_with o = record (new 5) {
  state_objects = insert empty_map 7 o;
  journal = record { entries = JournalEntry.touch_change 7 ∷ []; dirties = insert empty_map 7 1 };
}

-- An account of which nothing is left.
abbrev blank : StateObject
blank = record obj { account = record { nonce = 0; balance = pos 0; root = 3; code_hash = 77 } }

blank_alive : blank.deleted ≡ false
unfolding StateObject.new_object
blank_alive = refl

removed_example :
    ((exist toy (finalise toy (dirtied_with blank) true) 7).0 ≡ false)
    ↔ Gone toy (dirtied_with blank) true 7 blank refl refl
removed_example = finalise_removed toy (dirtied_with blank) true 7 blank refl refl blank_alive

blank_removed : (exist toy (finalise toy (dirtied_with blank) true) 7).0 ≡ false
blank_removed =
    (finalise_removed toy (dirtied_with blank) true 7 blank refl refl blank_alive).1
      (inr (refl, refl, refl, refl))

abbrev written : StateObject
written = record obj { dirty_storage = insert empty_map 4 2 }

not_gone : Gone toy (dirtied_with written) false 7 written refl refl → ⊥
unfolding StateObject.new_object
not_gone (inl e) = absurd (cc (e))
not_gone (inr e) = absurd (cc (e.0))

forgets_example :
    (get_state toy (finalise toy (dirtied_with written) false) 7 4).0
    ≡ (get_committed_state toy (dirtied_with written) 7 4).0
unfolding StateObject.new_object
forgets_example = finalise_forgets toy (dirtied_with written) false 7 written refl refl 4 not_gone

abbrev one_slot : AccessList
one_slot = record { addresses = insert empty_map 7 (pos 0); slots = (4 ∷ []) ∷ [] }

slot_added : add_slot new_access_list 7 4 ≡ some (one_slot, true, true)
unfolding add_slot
slot_added = refl

undo_slot_example : undo_add_slot one_slot 7 4 true true ≡ some new_access_list
undo_slot_example =
    undo_add_slot-add_slot new_access_list 7 4 (one_slot, true, true) new_access_list-IsValid
      slot_added

slot_valid_example :
    IsValidResult new_access_list new_access_list-IsValid 7 (add_slot new_access_list 7 4)
slot_valid_example = add_slot-IsValid new_access_list new_access_list-IsValid 7 4

transient_example :
    get (set new_transient_storage 7 4 2) 7 4
    ≡ (if (7 == 7) && (4 == 4) then 2 else get new_transient_storage 7 4)
transient_example = get-set new_transient_storage 7 7 4 4 2

abbrev shanghai_rules : Rules
shanghai_rules = record { is_berlin = true; is_shanghai = true }

abbrev one_tuple : List AccessTuple
one_tuple = record { address = 7; storage_keys = 4 ∷ 5 ∷ [] } ∷ []

prepare_example :
    (t : StateDb) × (prepare (new 5) shanghai_rules 1 2 (some 3) (9 ∷ 10 ∷ []) one_tuple ≡ some t)
    × Warms 1 (9 ∷ 10 ∷ []) one_tuple t
prepare_example = prepare-Warms (new 5) shanghai_rules 1 2 (some 3) (9 ∷ 10 ∷ []) one_tuple refl
