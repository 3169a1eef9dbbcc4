-- ===== src/DirectByLeaf/StateDb/Rollback/Steps.antt =====
-- Steps that the journal can take back, and the loop of journal.revert over their entries.
use ipld_eth_statedb.Base.{
  ◌+◌, ◌-◌, ◌≤◌, ◌≡◌, refl, ap, ◌∙◌, sym, Bool, Option, none, some, some_inj, List, [], ◌∷◌, ◌++◌,
  arith,
}
use mathlib.Core.List.{append_assoc, append-nil}
use ipld_eth_statedb.DirectByLeaf.Env.{Env}
use ipld_eth_statedb.DirectByLeaf.StateObject.{StateObject}
use ipld_eth_statedb.DirectByLeaf.AccessList
use ipld_eth_statedb.DirectByLeaf.AccessList.{AccessList}
use ipld_eth_statedb.DirectByLeaf.Types.{Address}
use ipld_eth_statedb.DirectByLeaf.StateDb.{
  StateDb, JournalEntry, Revision, Log, suicide_change, balance_change, nonce_change,
  storage_change, code_change, add_log_change, access_list_add_slot_change,
}
use ipld_eth_statedb.Base.{Map, get_or, ◌%◌, if◌then◌else◌, true, false}
use ipld_eth_statedb.DirectByLeaf.StateDb.{word}
use ipld_eth_statedb.DirectByLeaf.StateDb.Access.{
  get_deleted_state_object, get_state_object, set_state_object, alive,
}
use ipld_eth_statedb.DirectByLeaf.StateDb.Revert.{
  revert_entry, write_live, write_if_live, logs_without_last,
}
use ipld_eth_statedb.DirectByLeaf.StateDb.View.{StateView, view, bind_option}
use ipld_eth_statedb.DirectByLeaf.StateDb.View.Find.{get_deleted_state_object-Finds}
use ipld_eth_statedb.DirectByLeaf.StateDb.View.Undo.{undo_view}

-- Undoing an entry leaves the snapshots' counter and the journal alone.
abbrev pub Keeps : StateDb → StateDb → Type 0
Keeps s t = (t.next_revision_id ≡ s.next_revision_id) × (t.journal ≡ s.journal)

abbrev pub KeepsNext : StateDb → Option StateDb → Type 0
KeepsNext s none = Unit {0}
KeepsNext s (some t) = Keeps s t

module _ (env : Env) where
  abbrev pub undo_views : List JournalEntry → StateView → Option StateView
  undo_views [] v = some v
  undo_views (e ∷ es) v = bind_option (undo_view env e v) (λ w. undo_views es w)

  undo_views-append :
      (es fs : List JournalEntry) (v w : StateView)
      → undo_views es v ≡ some w
      → undo_views (es ++ fs) v ≡ undo_views fs w
  undo_views-append [] fs v w h = ap (undo_views fs) (some_inj h)
  undo_views-append (e ∷ es) fs v w h =
      undone (undo_view env e v) (λ x q. undo_views-append es fs x w q) h
    where
      undone :
          (o : Option StateView)
          → ((x : StateView) → undo_views es x ≡ some w → undo_views (es ++ fs) x ≡ undo_views fs w)
          → bind_option o (undo_views es) ≡ some w
          → bind_option o (undo_views (es ++ fs)) ≡ undo_views fs w
      undone none ih q = cc
      undone (some x) ih q = ih x q

  -- From `s` to `t` the journal grew by entries that, undone on the view of `t`, give the view of
  -- `s`; snapshots were only added.
  pub record Undoes (s t : StateDb) : Type 0 where
    pub undone : List JournalEntry
    pub entries_eq : t.journal.entries ≡ undone ++ s.journal.entries
    pub view_back : undo_views undone (view env t) ≡ some (view env s)
    pub more : List Revision
    pub revisions_eq : t.valid_revisions ≡ s.valid_revisions ++ more
    pub next_le : s.next_revision_id ≤ t.next_revision_id

  pub Undoes-refl : (s : StateDb) → Undoes s s
  Undoes-refl s = record {
    undone = [];
    entries_eq = refl;
    view_back = refl;
    more = [];
    revisions_eq = sym (append-nil s.valid_revisions);
    next_le = omega arith;
  }

  pub Undoes-trans : {s t u : StateDb} → Undoes s t → Undoes t u → Undoes s u
  Undoes-trans {s} {t} {u} p q = record {
    undone = q.undone ++ p.undone;
    entries_eq =
        q.entries_eq
        ∙ ap (◌++◌ q.undone) p.entries_eq
        ∙ sym (append_assoc q.undone p.undone s.journal.entries);
    view_back =
        undo_views-append q.undone p.undone (view env u) (view env t) q.view_back ∙ p.view_back;
    more = p.more ++ q.more;
    revisions_eq =
        q.revisions_eq
        ∙ ap (λ r. r ++ q.more) p.revisions_eq
        ∙ append_assoc s.valid_revisions p.more q.more;
    next_le = omega (arith, p.next_le, q.next_le);
  }

  written_next :
      (w : StateObject → StateObject) (s t : StateDb) (o : Option StateObject)
      → Keeps s t
      → KeepsNext s (write_live w (alive o, t))
  unfolding set_state_object
  written_next w s t none h = tt
  written_next w s t (some o) h = if_deleted o.deleted
    where
      if_deleted : (d : Bool) → KeepsNext s (write_live w ((if d then none else some o), t))
      if_deleted true = tt
      if_deleted false = h

  written_if_next :
      (w : StateObject → StateObject) (s t : StateDb) (o : Option StateObject)
      → Keeps s t
      → Keeps s (write_if_live w (alive o, t))
  unfolding set_state_object
  written_if_next w s t none h = h
  written_if_next w s t (some o) h = if_deleted o.deleted
    where
      if_deleted : (d : Bool) → Keeps s (write_if_live w ((if d then none else some o), t))
      if_deleted true = h
      if_deleted false = h

  found-Keeps : (s : StateDb) (a : Address) → Keeps s (get_deleted_state_object env s a).1
  found-Keeps s a = let f = get_deleted_state_object-Finds env s a in (f.next_eq, f.journal_eq)

  found_next :
      (w : StateObject → StateObject) (s : StateDb) (a : Address)
      → KeepsNext s (write_live w (get_state_object env s a))
  unfolding get_state_object
  found_next w s a =
      written_next w s (get_deleted_state_object env s a).1 (get_deleted_state_object env s a).0
        (found-Keeps s a)

  logs_next :
      (s : StateDb) (r : Option (Map (List Log)))
      → KeepsNext s (elim r [
        | none ↦ none
        | some logs' ↦ some (record s { logs = logs'; log_size = (s.log_size + word - 1) % word })
      ])
  logs_next s none = tt
  logs_next s (some l) = (refl, refl)

  slots_next :
      (s : StateDb) (r : Option AccessList)
      → KeepsNext s (elim r [ none ↦ none | some al ↦ some (record s { access_list = al }) ])
  slots_next s none = tt
  slots_next s (some l) = (refl, refl)

  pub revert_entry-KeepsNext : (e : JournalEntry) (s : StateDb) → KeepsNext s (revert_entry env e s)
  unfolding revert_entry set_state_object get_state_object
  revert_entry-KeepsNext (suicide_change a prev prevbalance) s =
      written_if_next _ s (get_deleted_state_object env s a).1 (get_deleted_state_object env s a).0
        (found-Keeps s a)
  revert_entry-KeepsNext (balance_change a prev) s = found_next _ s a
  revert_entry-KeepsNext (nonce_change a prev) s = found_next _ s a
  revert_entry-KeepsNext (storage_change a key prevalue) s = found_next _ s a
  revert_entry-KeepsNext (code_change a prevcode prevhash) s = found_next _ s a
  revert_entry-KeepsNext (add_log_change txhash) s =
      logs_next s (logs_without_last s.logs txhash (get_or s.logs txhash []))
  revert_entry-KeepsNext (access_list_add_slot_change a slot) s =
      slots_next s (AccessList.delete_slot s.access_list a slot)
  revert_entry-KeepsNext _ s = (refl, refl)
