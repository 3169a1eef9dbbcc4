-- ===== src/DirectByLeaf/StateDb/Rollback/Fresh.antt =====
-- statedb.go: executions that start at the state that New returns, for which nothing is assumed.
use ipld_eth_statedb.Base.{ℕ, ◌≡◌, sym, ap, Option, none, some, some_inj, arith}
use ipld_eth_statedb.DirectByLeaf.Types.{Address, Hash}
use ipld_eth_statedb.DirectByLeaf.Env.{Env, StateAccount}
use ipld_eth_statedb.DirectByLeaf.AccessList.Contents.{new_access_list-IsValid}
use ipld_eth_statedb.DirectByLeaf.StateObject.{new_object}
use ipld_eth_statedb.DirectByLeaf.StateDb.{StateDb, new}
use ipld_eth_statedb.DirectByLeaf.StateDb.Calls.{Run}
use ipld_eth_statedb.DirectByLeaf.StateDb.Lifecycle.{snapshot, revert_to_snapshot}
use ipld_eth_statedb.DirectByLeaf.StateDb.View.{
  AccountView, view, object_view, loaded_from, map_option,
}
use ipld_eth_statedb.DirectByLeaf.StateDb.Rollback.Snapshot.{AllBelow, Restores}
use ipld_eth_statedb.DirectByLeaf.StateDb.Rollback.Valid.{IsValid}
use ipld_eth_statedb.DirectByLeaf.StateDb.Rollback.Frames.{Run-Safe, revert_to_snapshot-Run}

module _ (env : Env) where
  -- An account as it is loaded stands at its address and has no fake storage.
  loaded_account :
      (a : Address) (bh : Hash) (r : Option StateAccount × Option ℕ) (x : AccountView)
      → map_option (object_view env) (loaded_from env a bh r) ≡ some x
      → (x.address ≡ a) × (x.fake ≡ none)
  unfolding new_object
  loaded_account a bh (d, some e) x h = absurd (cc)
  loaded_account a bh (none, none) x h = absurd (cc)
  loaded_account a bh (some d, none) x h =
      (sym (ap (λ y. y.address) (some_inj h)), sym (ap (λ y. y.fake) (some_inj h)))

  -- New returns a valid state.
  pub new-IsValid : (bh : Hash) → IsValid (view env (new bh))
  unfolding new
  new-IsValid bh = record {
    keyed = λ a x h. (loaded_account a bh _ x h).0;
    no_fake = λ a x h. (loaded_account a bh _ x h).1;
    access = new_access_list-IsValid;
    logs_filled = λ h ls e. absurd (cc);
    log_size_fits = omega arith;
  }

  new-AllBelow : (bh : Hash) → AllBelow (new bh).next_revision_id (new bh).valid_revisions
  unfolding new
  new-AllBelow bh = tt

  -- Every state that an execution reaches from New is valid: accounts stand at their addresses, the
  -- access list is valid, no list of logs is empty and the count of logs is a 64-bit word.
  pub new-Run : (bh : Hash) (t : StateDb) → Run env (new bh) t → IsValid (view env t)
  new-Run bh t r = (Run-Safe env (new-IsValid bh) (new-AllBelow bh) r).valid

  -- In every execution that starts at New: after a snapshot and any further execution,
  -- RevertToSnapshot does not panic, and all that can be read, the journal's entries and the earlier
  -- snapshots are those from before the snapshot.
  pub new-Run-revert_to_snapshot :
      (bh : Hash) (s t : StateDb)
      → Run env (new bh) s
      → Run env (snapshot s).1 t
      → Restores env s t (revert_to_snapshot env t (snapshot s).0)
  new-Run-revert_to_snapshot bh s t r r' =
      let p = Run-Safe env (new-IsValid bh) (new-AllBelow bh) r in
      revert_to_snapshot-Run env s t p.valid (p.revisions_below (new-AllBelow bh)) r'
