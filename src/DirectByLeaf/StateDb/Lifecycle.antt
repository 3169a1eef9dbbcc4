-- ===== src/DirectByLeaf/StateDb/Lifecycle.antt =====
-- direct_by_leaf/statedb.go: snapshots, the steps around a transaction, and Copy. A loop over a Go
-- map whose rounds touch their own key alone is written for one key: `finalise` and `copy`, where a
-- live object is taken to stand at its own address (`keyed` of Rollback/Valid).
use ipld_eth_statedb.Base.{
  ℕ, ◌+◌, Bool, true, false, ◌&&◌, ◌||◌, Option, none, some, List, [], ◌∷◌, ◌++◌, has, ◌==◌, leb,
  if◌then◌else◌, get_elem?, take, suc,
}
use ipld_eth_statedb.DirectByLeaf.Types.{Address, Hash}
use ipld_eth_statedb.DirectByLeaf.Env.{Env}
use ipld_eth_statedb.DirectByLeaf.AccessList
use ipld_eth_statedb.DirectByLeaf.AccessList.{AccessList, new_access_list}
use ipld_eth_statedb.DirectByLeaf.TransientStorage
use ipld_eth_statedb.DirectByLeaf.TransientStorage.{new_transient_storage}
use ipld_eth_statedb.DirectByLeaf.StateObject
use ipld_eth_statedb.DirectByLeaf.StateObject.{StateObject}
use ipld_eth_statedb.DirectByLeaf.StateDb.{StateDb, Revision, JournalEntry, Log, new_journal, new}
use ipld_eth_statedb.DirectByLeaf.StateDb.Revert.{journal_length, journal_revert}

unfoldable pub snapshot : StateDb → ℕ × StateDb
unfolding journal_length
snapshot s =
    let id = s.next_revision_id in
    (
      id,
      record s {
        next_revision_id = id + 1;
        valid_revisions =
            s.valid_revisions ++ record { id = id; journal_index = journal_length s.journal } ∷ [];
      },
    )

-- sort.Search: the first index at which the test holds, and the length where there is none. The ids
-- grow along the list, so the test, once true, stays true.
abbrev pub search_revision : List Revision → ℕ → ℕ
search_revision [] revid = 0
search_revision (r ∷ rs) revid = if leb revid r.id then 0 else suc (search_revision rs revid)

unfoldable pub set_tx_context : StateDb → Hash → ℕ → StateDb
set_tx_context s thash ti = record s { thash = thash; tx_index = ti }

abbrev pub journal_or_new : List JournalEntry → StateDb → StateDb
journal_or_new [] s = s
journal_or_new (e ∷ es) s = record s { journal = new_journal; refund = 0 }

unfoldable pub clear_journal_and_refund : StateDb → StateDb
clear_journal_and_refund s = record (journal_or_new s.journal.entries s) { valid_revisions = [] }

-- params.Rules: the two forks that Prepare asks for.
pub record Rules : Type 0 where
  pub is_berlin : Bool
  pub is_shanghai : Bool

pub record AccessTuple : Type 0 where
  pub address : Address
  pub storage_keys : List Hash

abbrev pub with_address : AccessList → Address → AccessList
with_address al addr = (AccessList.add_address al addr).0

unfoldable pub with_addresses : AccessList → List Address → AccessList
with_addresses al [] = al
with_addresses al (addr ∷ rest) = with_addresses (with_address al addr) rest

unfoldable pub with_slots : AccessList → Address → List Hash → Option AccessList
with_slots al addr [] = some al
with_slots al addr (key ∷ keys) = elim (AccessList.add_slot al addr key) [
  | none ↦ none
  | some (al', addr_mod, slot_mod) ↦ with_slots al' addr keys
]

unfoldable pub with_tuples : AccessList → List AccessTuple → Option AccessList
unfolding with_slots
with_tuples al [] = some al
with_tuples al (el ∷ rest) =
    elim (with_slots (with_address al el.address) el.address el.storage_keys) [
      | none ↦ none
      | some al' ↦ with_tuples al' rest
    ]

abbrev pub with_destination : AccessList → Option Address → AccessList
with_destination al none = al
with_destination al (some dst) = with_address al dst

unfoldable pub berlin_access_list :
    Bool → Address → Address → Option Address → List Address → List AccessTuple → Option AccessList
unfolding with_addresses with_tuples
berlin_access_list is_shanghai sender coinbase dst precompiles list =
    let al = with_destination (with_address new_access_list sender) dst in
    elim (with_tuples (with_addresses al precompiles) list) [
      | none ↦ none
      | some al' ↦ some (if is_shanghai then with_address al' coinbase else al')
    ]

unfoldable pub prepare :
    StateDb
    → Rules
    → Address
    → Address
    → Option Address
    → List Address
    → List AccessTuple
    → Option StateDb
unfolding berlin_access_list
prepare s rules sender coinbase dst precompiles list =
    elim (if rules.is_berlin
      then berlin_access_list rules.is_shanghai sender coinbase dst precompiles list
      else some s.access_list) [
        | none ↦ none
        | some al ↦ some (record s { access_list = al; transient_storage = new_transient_storage })
      ]

abbrev pub with_revisions : List Revision → Option StateDb → Option StateDb
with_revisions revisions none = none
with_revisions revisions (some t) = some (record t { valid_revisions = revisions })

module _ (env : Env) where
  abbrev pub revert_to_revision : StateDb → ℕ → ℕ → Option Revision → Option StateDb
  revert_to_revision s revid idx none = none
  revert_to_revision s revid idx (some r) =
      if r.id == revid
      then with_revisions (take idx s.valid_revisions) (journal_revert env s r.journal_index)
      else none

  -- `none` is the panic on a revision that is not there.
  unfoldable pub revert_to_snapshot : StateDb → ℕ → Option StateDb
  unfolding journal_revert
  revert_to_snapshot s revid =
      let idx = search_revision s.valid_revisions revid in
      revert_to_revision s revid idx (get_elem? s.valid_revisions idx)

  abbrev pub is_removed : Bool → StateObject → Bool
  is_removed delete_empty obj = obj.suicided || (delete_empty && StateObject.empty env obj)

  abbrev pub finalise_object : Bool → StateObject → StateObject
  finalise_object delete_empty obj =
      if is_removed delete_empty obj
      then record obj { deleted = true }
      else StateObject.finalise obj

  -- One round: the address, whether the journal dirtied it, and its live object.
  abbrev pub finalise_live : Bool → Bool → Option StateObject → Option StateObject
  finalise_live delete_empty dirtied none = none
  finalise_live delete_empty false (some obj) = some obj
  finalise_live delete_empty true (some obj) = some (finalise_object delete_empty obj)

  abbrev pub is_removed_live : Bool → Option StateObject → Bool
  is_removed_live delete_empty none = false
  is_removed_live delete_empty (some obj) = is_removed delete_empty obj

  unfoldable pub finalise : StateDb → Bool → StateDb
  unfolding clear_journal_and_refund
  finalise s delete_empty =
      let dirtied = λ (a : Address). has s.journal.dirties a in
      let touched = λ (a : Address). dirtied a && has s.state_objects a in
      clear_journal_and_refund (record s {
        state_objects = λ a. finalise_live delete_empty (dirtied a) (s.state_objects a);
        state_objects_destruct = λ a.
            (dirtied a && is_removed_live delete_empty (s.state_objects a))
            || s.state_objects_destruct a;
        state_objects_pending = λ a. touched a || s.state_objects_pending a;
        state_objects_dirty = λ a. touched a || s.state_objects_dirty a;
      })

  abbrev pub copied : Bool → Option StateObject → Option StateObject
  copied marked none = none
  copied false (some obj) = none
  copied true (some obj) = some (StateObject.deep_copy env obj)

  unfoldable pub copy_logs : List Log → List Log
  copy_logs [] = []
  copy_logs (l ∷ ls) = l ∷ copy_logs ls

  -- The objects that the journal dirtied, and those pending or dirty from before, are copied; the
  -- journal, the snapshots, the error and the transaction's context are not. Where an address is
  -- pending or dirty without an object, Go panics; the copy has no object there either.
  unfoldable pub copy : StateDb → StateDb
  unfolding copy_logs
  copy s =
      let touched = λ (a : Address). has s.journal.dirties a && has s.state_objects a in
      record (new s.origin_block_hash) {
        state_objects = λ a.
            copied (touched a || s.state_objects_pending a || s.state_objects_dirty a)
              (s.state_objects a);
        state_objects_pending = λ a. touched a || s.state_objects_pending a;
        state_objects_dirty = λ a. touched a || s.state_objects_dirty a;
        state_objects_destruct = λ a. s.state_objects_destruct a;
        refund = s.refund;
        logs = λ h. elim (s.logs h) [ none ↦ none | some ls ↦ some (copy_logs ls) ];
        log_size = s.log_size;
        preimages = λ h. s.preimages h;
        access_list = AccessList.copy s.access_list;
        transient_storage = TransientStorage.copy s.transient_storage;
      }
