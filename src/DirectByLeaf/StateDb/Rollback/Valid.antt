-- ===== src/DirectByLeaf/StateDb/Rollback/Valid.antt =====
-- The states that the methods keep, and what a method guarantees from such a state.
use ipld_eth_statedb.Base.{
  ◌<◌, ◌≡◌, ◌∙◌, sym, Bool, true, false, none, some, List, [], ◌∷◌, ◌++◌, arith,
}
use mathlib.Core.List.{append-nil}
use ipld_eth_statedb.DirectByLeaf.Types.{Address, Hash}
use ipld_eth_statedb.DirectByLeaf.Env.{Env}
use ipld_eth_statedb.DirectByLeaf.AccessList
use ipld_eth_statedb.DirectByLeaf.AccessList.{AccessList}
use ipld_eth_statedb.DirectByLeaf.StateDb.{StateDb, JournalEntry, Log, word}
use ipld_eth_statedb.DirectByLeaf.StateDb.View.{StateView, AccountView, view}
use ipld_eth_statedb.DirectByLeaf.StateDb.Rollback.Steps
use ipld_eth_statedb.DirectByLeaf.StateDb.Rollback.Steps.{Undoes, Undoes-refl, Undoes-trans}
use ipld_eth_statedb.DirectByLeaf.StateDb.Rollback.Snapshot.{AllBelow}

abbrev pub filled : List Log → Bool
filled [] = false
filled (l ∷ ls) = true

-- Accounts stand at their addresses and have no fake storage (SetStorage, which debuggers call, is
-- not journalled), the access list is valid, no list of logs is empty, and the
-- count of logs is a 64-bit word.
pub record IsValid (v : StateView) : Type 0 where
  pub keyed : (a : Address) (x : AccountView) → v.accounts a ≡ some x → x.address ≡ a
  pub no_fake : (a : Address) (x : AccountView) → v.accounts a ≡ some x → x.fake ≡ none
  pub access : AccessList.IsValid v.access_list
  pub logs_filled : (h : Hash) (ls : List Log) → v.logs h ≡ some ls → filled ls ≡ true
  pub log_size_fits : v.log_size < word

module _ (env : Env) where
  -- A step that the journal takes back, from a valid state to a valid state.
  pub record Safe (s t : StateDb) : Type 0 where
    pub undoes : Undoes env s t
    pub valid : IsValid (view env t)
    pub revisions_below :
        AllBelow s.next_revision_id s.valid_revisions
        → AllBelow t.next_revision_id t.valid_revisions

  pub Safe-refl : (s : StateDb) → IsValid (view env s) → Safe s s
  Safe-refl s v = record { undoes = Undoes-refl env s; valid = v; revisions_below = λ b. b }

  pub Safe-trans : {s t u : StateDb} → Safe s t → Safe t u → Safe s u
  Safe-trans p q = record {
    undoes = Undoes-trans env p.undoes q.undoes;
    valid = q.valid;
    revisions_below = λ b. q.revisions_below (p.revisions_below b);
  }

  -- What a method leaves alone: the snapshots.
  pub record SameRevisions (s t : StateDb) : Type 0 where
    pub revisions_eq : t.valid_revisions ≡ s.valid_revisions
    pub next_eq : t.next_revision_id ≡ s.next_revision_id

  pub Safe-of_entries :
      (s t : StateDb) (es : List JournalEntry)
      → IsValid (view env t)
      → SameRevisions s t
      → t.journal.entries ≡ es ++ s.journal.entries
      → Steps.undo_views env es (view env t) ≡ some (view env s)
      → Safe s t
  Safe-of_entries s t es v r e u = record {
    undoes = record {
      undone = es;
      entries_eq = e;
      view_back = u;
      more = [];
      revisions_eq = r.revisions_eq ∙ sym (append-nil s.valid_revisions);
      next_le = omega (arith, r.next_eq);
    };
    valid = v;
    revisions_below = λ b. rw (r.next_eq, r.revisions_eq) b;
  }
