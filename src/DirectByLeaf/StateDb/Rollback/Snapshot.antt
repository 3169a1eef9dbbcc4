-- ===== src/DirectByLeaf/StateDb/Rollback/Snapshot.antt =====
-- statedb.go: RevertToSnapshot after Snapshot and steps that the journal can take back.
use ipld_eth_statedb.Base.{
  ℕ, ◌-◌, ◌≤◌, ◌<◌, ◌≡◌, refl, ap, ap₂, ◌∙◌, sym, subst, Option, none, some, some_inj, List, [],
  ◌∷◌, ◌++◌, length, length-append, drop, take, take-append_self, get_elem?, get_elem?-append_self,
  arith, ==_refl, if◌then◌else◌,
}
use mathlib.Core.List.{append_assoc}
use ipld_eth_statedb.DirectByLeaf.Env.{Env}
use ipld_eth_statedb.DirectByLeaf.StateDb.{StateDb, JournalEntry, Revision}
use ipld_eth_statedb.DirectByLeaf.StateDb.Revert.{
  revert_entry, revert_entries, journal_revert, dirtied, count_down, drop_dirty, with_entries,
}
use ipld_eth_statedb.DirectByLeaf.StateDb.Lifecycle.{
  snapshot, revert_to_snapshot, revert_to_revision, search_revision, with_revisions,
}
use ipld_eth_statedb.DirectByLeaf.StateDb.View.{StateView, view, map_option, bind_option}
use ipld_eth_statedb.DirectByLeaf.StateDb.View.Undo.{view-revert_entry}
use ipld_eth_statedb.DirectByLeaf.StateDb.Rollback.Steps.{
  Undoes, undo_views, KeepsNext, revert_entry-KeepsNext,
}

-- Every snapshot in the list is older than the next one.
abbrev pub AllBelow : ℕ → List Revision → Type 0
AllBelow n [] = Unit {0}
AllBelow n (r ∷ rs) = (r.id < n) × AllBelow n rs

pub AllBelow-mono : (m n : ℕ) (rs : List Revision) → m ≤ n → AllBelow m rs → AllBelow n rs
AllBelow-mono m n [] h b = tt
AllBelow-mono m n (r ∷ rs) h b = (omega arith, AllBelow-mono m n rs h b.1)

search-append :
    (rs : List Revision) (r : Revision) (rest : List Revision)
    → AllBelow r.id rs
    → search_revision (rs ++ r ∷ rest) r.id ≡ length rs
search-append [] r rest b = ground arith
search-append (x ∷ rs) r rest b = ground (arith, search-append rs r rest b.1)

drop-append {ℓ} : {A : Type ℓ} (xs ys : List A) → drop (length xs) (xs ++ ys) ≡ ys
drop-append [] ys = refl
drop-append (x ∷ xs) ys = drop-append xs ys

module _ (env : Env) where
  -- What the loop of journal.revert reaches: a state of the given view.
  pub record Reverted (s : StateDb) (w : StateView) (o : Option StateDb) : Type 0 where
    pub after : StateDb
    pub result_eq : o ≡ some after
    pub view_eq : view env after ≡ w
    pub next_eq : after.next_revision_id ≡ s.next_revision_id

  revert_entries-Reverted :
      (es rest : List JournalEntry) (s : StateDb) (w : StateView)
      → undo_views env es (view env s) ≡ some w
      → Reverted s w (revert_entries env (length es) (es ++ rest) s)
  unfolding revert_entries
  revert_entries-Reverted [] rest s w h = record {
    after = s;
    result_eq = refl;
    view_eq = some_inj h;
    next_eq = refl;
  }
  revert_entries-Reverted (e ∷ es) rest s w h =
      round (revert_entry env e s) (revert_entry-KeepsNext env e s)
        (subst (λ u. bind_option u (undo_views env es) ≡ some w) (sym (view-revert_entry env e s))
          h)
        (λ t q. revert_entries-Reverted es rest (dropped t) w q)
    where
      dropped : StateDb → StateDb
      dropped t = record t {
        journal = record (t.journal) { dirties = count_down t.journal.dirties (dirtied e) };
      }

      round :
          (o : Option StateDb)
          → KeepsNext s o
          → bind_option (map_option (view env) o) (undo_views env es) ≡ some w
          → ((t : StateDb)
              → undo_views env es (view env t) ≡ some w
              → Reverted (dropped t) w (revert_entries env (length es) (es ++ rest) (dropped t)))
          → Reverted s w (elim (drop_dirty e o) [
            | none ↦ none
            | some t ↦ revert_entries env (length es) (es ++ rest) t
          ])
      round none k q ih = cc
      round (some t) k q ih =
          let r = ih t q in
          record {
            after = r.after;
            result_eq = r.result_eq;
            view_eq = r.view_eq;
            next_eq = r.next_eq ∙ k.0;
          }

  -- journal.revert down to the length from before the entries `es` were added.
  journal_revert-Reverted :
      (es rest : List JournalEntry) (s : StateDb) (w : StateView)
      → s.journal.entries ≡ es ++ rest
      → undo_views env es (view env s) ≡ some w
      → (t : StateDb) × (journal_revert env s (length rest) ≡ some t)
        × (view env t ≡ w)
        × (t.journal.entries ≡ rest)
        × (t.next_revision_id ≡ s.next_revision_id)
  unfolding journal_revert
  journal_revert-Reverted es rest s w e h =
      let r = revert_entries-Reverted es rest s w h in
      let n : length s.journal.entries - length rest ≡ length es =
        ap (λ l. length l - length rest) e ∙ omega (arith, length-append {0} es rest) in
      (
        record (r.after) { journal = record (r.after.journal) { entries = rest } },
        ap (λ k. with_entries (drop k s.journal.entries) (revert_entries env k s.journal.entries s))
              n
            ∙ ap (λ l. with_entries (drop (length es) l) (revert_entries env (length es) l s)) e
            ∙ ap₂ with_entries (drop-append es rest) r.result_eq,
        r.view_eq,
        refl,
        r.next_eq,
      )

  -- After Snapshot and steps that the journal takes back, RevertToSnapshot succeeds with the view,
  -- the journal's entries and the snapshots from before.
  pub record Restores (s t : StateDb) (o : Option StateDb) : Type 0 where
    pub after : StateDb
    pub result_eq : o ≡ some after
    pub view_eq : view env after ≡ view env s
    pub entries_eq : after.journal.entries ≡ s.journal.entries
    pub revisions_eq : after.valid_revisions ≡ s.valid_revisions
    pub next_eq : after.next_revision_id ≡ t.next_revision_id

  restored :
      (t : StateDb) (revs more : List Revision) (r : Revision)
      → AllBelow r.id revs
      → t.valid_revisions ≡ (revs ++ r ∷ []) ++ more
      → (u : StateDb) → journal_revert env t r.journal_index ≡ some u
      → revert_to_snapshot env t r.id ≡ some (record u { valid_revisions = revs })
  unfolding revert_to_snapshot
  restored t revs more r b e u j =
      let l = e ∙ append_assoc revs (r ∷ []) more in
      ap (λ k. revert_to_revision env t r.id k (get_elem? t.valid_revisions k))
        (ap (λ rs. search_revision rs r.id) l ∙ search-append revs r more b)
      ∙ ap (revert_to_revision env t r.id (length revs))
          (ap (λ rs. get_elem? rs (length revs)) l ∙ get_elem?-append_self revs more r)
      ∙ ap
          (λ c.
            if c
            then with_revisions (take (length revs) t.valid_revisions)
                (journal_revert env t r.journal_index)
            else none)
          (==_refl r.id)
      ∙ ap₂ with_revisions (ap (take (length revs)) l ∙ take-append_self revs (r ∷ more)) j

  pub revert_to_snapshot-Restores :
      (s t : StateDb)
      → AllBelow s.next_revision_id s.valid_revisions
      → Undoes env (snapshot s).1 t
      → Restores s t (revert_to_snapshot env t (snapshot s).0)
  unfolding snapshot
  revert_to_snapshot-Restores s t b p =
      let (u, j, v, e, n) =
        journal_revert-Reverted p.undone s.journal.entries t (view env s) p.entries_eq
          p.view_back in
      record {
        after = record u { valid_revisions = s.valid_revisions };
        result_eq = restored t s.valid_revisions p.more _ b p.revisions_eq u j;
        view_eq = v;
        entries_eq = e;
        revisions_eq = refl;
        next_eq = n;
      }
