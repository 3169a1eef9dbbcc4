-- ===== src/DirectByLeaf/StateDb/Rollback/Frames.antt =====
-- statedb.go: RevertToSnapshot gives back the state from before the snapshot, whatever calls and
-- nested snapshots and reverts stand between.
use ipld_eth_statedb.Base.{
  ℕ, ◌+◌, ◌≤◌, ◌≡◌, refl, ap, ◌∙◌, sym, subst, Bool, true, false, Option, none, some, some_inj,
  List, [], ◌∷◌, ◌++◌, arith, if◌then◌else◌,
}
use mathlib.Core.List.{append-nil}
use ipld_eth_statedb.DirectByLeaf.Types.{Address}
use ipld_eth_statedb.DirectByLeaf.Env.{Env}
use ipld_eth_statedb.DirectByLeaf.StateObject
use ipld_eth_statedb.DirectByLeaf.StateObject.{StateObject}
use ipld_eth_statedb.DirectByLeaf.StateDb.{StateDb, Revision}
use ipld_eth_statedb.DirectByLeaf.StateDb.Access.{
  exist, empty, get_balance, get_nonce, get_code_hash, has_suicided, get_code, get_state,
  get_committed_state, get_state_object, get_deleted_state_object, alive, field_of, answer_of,
}
use ipld_eth_statedb.DirectByLeaf.StateDb.Setters.{
  add_balance, sub_balance, set_balance, set_nonce, set_code, set_state, suicide, suicide_found,
  on_object, get_or_new_state_object,
}
use ipld_eth_statedb.DirectByLeaf.StateDb.Lifecycle.{snapshot, revert_to_snapshot}
use ipld_eth_statedb.DirectByLeaf.StateDb.Calls.{Call, Run, perform, start, called, kept, reverted}
use ipld_eth_statedb.DirectByLeaf.StateDb.View.{view, object_view, map_option}
use ipld_eth_statedb.DirectByLeaf.StateDb.View.Objects.{
  Reads, get_code-Reads, get_state-Reads, get_committed_state-Reads,
}
use ipld_eth_statedb.DirectByLeaf.StateDb.Rollback.Snapshot.{
  AllBelow, AllBelow-mono, Restores, revert_to_snapshot-Restores,
}
use ipld_eth_statedb.DirectByLeaf.StateDb.Rollback.Valid.{IsValid, Safe, Safe-refl, Safe-trans}
use ipld_eth_statedb.DirectByLeaf.StateDb.Rollback.Accounts.{
  Holds, object_set_balance-Safe, object_set_nonce-Safe, object_suicide-Safe,
  object_sub_balance-Safe, object_add_balance-Safe,
}
use ipld_eth_statedb.DirectByLeaf.StateDb.Rollback.Writes.{
  cached-Safe, object_set_code-Safe, object_set_state-Safe, Holds-Reads,
}
use ipld_eth_statedb.DirectByLeaf.StateDb.Rollback.Create.{
  found-Safe, found-account, create_account-Safe, get_or_new_state_object-GotOrNew,
}
use ipld_eth_statedb.DirectByLeaf.StateDb.Rollback.Plain.{
  SafeResult, add_log-Safe, add_preimage-Safe, add_refund-Safe, sub_refund-Safe,
  set_transient_state-Safe,
}
use ipld_eth_statedb.DirectByLeaf.StateDb.Rollback.Access.{
  add_address_to_access_list-Safe, add_slot_to_access_list-Safe,
}

module _ (env : Env) where
  on_object-Safe :
      (act : StateObject → StateDb → StateDb) (s : StateDb) (a : Address)
      → ((t : StateDb) (obj : StateObject)
          → IsValid (view env t)
          → Holds env t obj
          → Safe env t (act obj t))
      → IsValid (view env s)
      → Safe env s (on_object env act (get_or_new_state_object env s a))
  on_object-Safe act s a f v =
      let g = get_or_new_state_object-GotOrNew env s a v in
      let r = get_or_new_state_object env s a in
      Safe-trans env g.safe (f r.1 r.0 g.safe.valid g.holds)

  -- A live object that was found is the account of its address.
  live-Holds :
      (t : StateDb) (a : Address) (obj : StateObject)
      → IsValid (view env t)
      → (view env t).accounts a ≡ some (object_view env obj)
      → obj.deleted ≡ false
      → Holds env t obj
  live-Holds t a obj v e d = record {
    held = ap (view env t).accounts (v.keyed a (object_view env obj) e) ∙ e;
    is_alive = d;
  }

  -- A property of the object that getStateObject gives, where there is one.
  on_alive :
      (P : Option StateObject → Type 0) (t : StateDb) (a : Address) (o : Option StateObject)
      → IsValid (view env t)
      → (view env t).accounts a ≡ map_option (object_view env) o
      → P none
      → ((obj : StateObject) → Holds env t obj → P (some obj))
      → P (alive o)
  on_alive P t a none v e n f = n
  on_alive P t a (some obj) v e n f = if_deleted obj.deleted refl
    where
      if_deleted : (d : Bool) → obj.deleted ≡ d → P (if d then none else some obj)
      if_deleted true q = n
      if_deleted false q = f obj (live-Holds t a obj v e q)

  field_of-Safe :
      {A : Type 0} (missing : A) (read : StateObject → A) (s : StateDb) (a : Address)
      → IsValid (view env s)
      → Safe env s (field_of env missing read (get_state_object env s a)).1
  unfolding get_state_object
  field_of-Safe missing read s a v = same (alive (get_deleted_state_object env s a).0)
    where
      same :
          (o : Option StateObject)
          → Safe env s (field_of env missing read (o, (get_deleted_state_object env s a).1)).1
      same none = found-Safe env s a v
      same (some obj) = found-Safe env s a v

  answer_of-Safe :
      {A : Type 0} (missing : A) (read : StateObject → A × StateObject) (value : StateObject → A)
      (s : StateDb) (a : Address)
      → ((obj : StateObject) → Reads env obj (value obj) (read obj))
      → IsValid (view env s)
      → Safe env s (answer_of env missing read (get_state_object env s a)).1
  unfolding get_state_object
  answer_of-Safe missing read value s a reads v =
      let p = found-Safe env s a v in
      let t = (get_deleted_state_object env s a).1 in
      Safe-trans env p (
        on_alive (λ o. Safe env t (answer_of env missing read (o, t)).1) t a
          (get_deleted_state_object env s a).0 p.valid (found-account env s a)
          (Safe-refl env t p.valid)
          (λ obj h.
            cached-Safe env t (read obj).1 p.valid
              (Holds-Reads env t obj (value obj) (read obj) h (reads obj))))

  suicide-Safe : (s : StateDb) (a : Address) → IsValid (view env s) → Safe env s (suicide env s a).1
  unfolding suicide get_state_object
  suicide-Safe s a v =
      let p = found-Safe env s a v in
      let t = (get_deleted_state_object env s a).1 in
      Safe-trans env p (
        on_alive (λ o. Safe env t (suicide_found env (o, t)).1) t a
          (get_deleted_state_object env s a).0 p.valid (found-account env s a)
          (Safe-refl env t p.valid) (λ obj h. object_suicide-Safe env t obj p.valid h))

  -- From a valid state, each call that returns leaves a valid state, and undoing the entries that it
  -- journalled gives back all that could be read before, with the snapshots as they were.
  pub perform-Safe :
      (c : Call) (s : StateDb) → IsValid (view env s) → SafeResult env s (perform env c s)
  unfolding perform exist empty get_balance get_nonce get_code_hash has_suicided get_code get_state
      get_committed_state add_balance sub_balance set_balance set_nonce set_code set_state
  perform-Safe (Call.exist a) s v = field_of-Safe _ _ s a v
  perform-Safe (Call.empty a) s v = field_of-Safe _ _ s a v
  perform-Safe (Call.get_balance a) s v = field_of-Safe _ _ s a v
  perform-Safe (Call.get_nonce a) s v = field_of-Safe _ _ s a v
  perform-Safe (Call.get_code_hash a) s v = field_of-Safe _ _ s a v
  perform-Safe (Call.has_suicided a) s v = field_of-Safe _ _ s a v
  perform-Safe (Call.get_code a) s v = answer_of-Safe _ _ _ s a (get_code-Reads env) v
  perform-Safe (Call.get_state a key) s v =
      answer_of-Safe _ _ _ s a (λ o. get_state-Reads env o key) v
  perform-Safe (Call.get_committed_state a key) s v =
      answer_of-Safe _ _ _ s a (λ o. get_committed_state-Reads env o key) v
  perform-Safe (Call.add_balance a amount) s v =
      on_object-Safe _ s a (λ t o. object_add_balance-Safe env t o amount) v
  perform-Safe (Call.sub_balance a amount) s v =
      on_object-Safe _ s a (λ t o. object_sub_balance-Safe env t o amount) v
  perform-Safe (Call.set_balance a amount) s v =
      on_object-Safe _ s a (λ t o. object_set_balance-Safe env t o amount) v
  perform-Safe (Call.set_nonce a nonce) s v =
      on_object-Safe _ s a (λ t o. object_set_nonce-Safe env t o nonce) v
  perform-Safe (Call.set_code a code) s v =
      on_object-Safe _ s a
        (λ t o. object_set_code-Safe env t o (env.keccak_code (StateObject.or_else code [])) code) v
  perform-Safe (Call.set_state a key value) s v =
      on_object-Safe _ s a (λ t o. object_set_state-Safe env t o key value) v
  perform-Safe (Call.set_transient_state a key value) s v =
      set_transient_state-Safe env s a key value v
  perform-Safe (Call.suicide a) s v = suicide-Safe s a v
  perform-Safe (Call.create_account a) s v = create_account-Safe env s a v
  perform-Safe (Call.add_address_to_access_list a) s v = add_address_to_access_list-Safe env s v a
  perform-Safe (Call.add_slot_to_access_list a slot) s v =
      let (t, e, p) = add_slot_to_access_list-Safe env s v a slot in
      subst (SafeResult env s) (sym e) p
  perform-Safe (Call.add_log log) s v = add_log-Safe env s log v
  perform-Safe (Call.add_preimage hash preimage) s v = add_preimage-Safe env s hash preimage v
  perform-Safe (Call.add_refund gas) s v = add_refund-Safe env s gas v
  perform-Safe (Call.sub_refund gas) s v = sub_refund-Safe env s gas v

  AllBelow-snapshot :
      (n : ℕ) (rs : List Revision) (i : ℕ)
      → AllBelow n rs
      → AllBelow (n + 1) (rs ++ record { id = n; journal_index = i } ∷ [])
  AllBelow-snapshot n rs i b = grow rs b
    where
      grow :
          (l : List Revision)
          → AllBelow n l
          → AllBelow (n + 1) (l ++ record { id = n; journal_index = i } ∷ [])
      grow [] b' = (omega arith, tt)
      grow (r ∷ l) b' = (omega arith, grow l b'.1)

  -- Taking a snapshot changes nothing that can be read.
  snapshot-Safe : (s : StateDb) → IsValid (view env s) → Safe env s (snapshot s).1
  unfolding snapshot
  snapshot-Safe s v = record {
    undoes = record {
      undone = [];
      entries_eq = refl;
      view_back = refl;
      more = _;
      revisions_eq = refl;
      next_le = omega arith;
    };
    valid = record {
      keyed = v.keyed;
      no_fake = v.no_fake;
      access = v.access;
      logs_filled = v.logs_filled;
      log_size_fits = v.log_size_fits;
    };
    revisions_below = λ b. AllBelow-snapshot s.next_revision_id s.valid_revisions _ b;
  }

  result-Safe :
      (s t : StateDb) (o : Option StateDb) → SafeResult env s o → o ≡ some t → Safe env s t
  result-Safe s t none p e = absurd (cc)
  result-Safe s t (some u) p e = subst (Safe env s) (some_inj e) p

  reverted-Safe :
      (s t u : StateDb)
      → IsValid (view env s)
      → AllBelow s.next_revision_id s.valid_revisions
      → Safe env (snapshot s).1 t
      → revert_to_snapshot env t (snapshot s).0 ≡ some u
      → Safe env s u
  unfolding snapshot
  reverted-Safe s t u v b p e =
      let r = revert_to_snapshot-Restores env s t b p.undoes in
      let up : s.next_revision_id ≤ r.after.next_revision_id =
        omega (arith, p.undoes.next_le, r.next_eq) in
      subst (Safe env s) (some_inj (sym r.result_eq ∙ e)) (record {
        undoes = record {
          undone = [];
          entries_eq = r.entries_eq;
          view_back = ap some r.view_eq;
          more = [];
          revisions_eq = r.revisions_eq ∙ sym (append-nil s.valid_revisions);
          next_le = up;
        };
        valid = subst IsValid (sym r.view_eq) v;
        revisions_below = λ b'.
            subst (AllBelow r.after.next_revision_id) (sym r.revisions_eq)
              (AllBelow-mono s.next_revision_id r.after.next_revision_id s.valid_revisions up b');
      })

  pub Run-Safe :
      {s t : StateDb}
      → IsValid (view env s)
      → AllBelow s.next_revision_id s.valid_revisions
      → Run env s t
      → Safe env s t
  Run-Safe v b (start s) = Safe-refl env s v
  Run-Safe v b (called {t = t} {u = u} r c e) =
      let p = Run-Safe v b r in
      Safe-trans env p (result-Safe t u (perform env c t) (perform-Safe c t p.valid) e)
  Run-Safe v b (kept {t = t} r) =
      let p = Run-Safe v b r in Safe-trans env p (snapshot-Safe t p.valid)
  Run-Safe v b (reverted {t = t} {u = u} {w = w} r r' e) =
      let p = Run-Safe v b r in
      let q = snapshot-Safe t p.valid in
      Safe-trans env p (
        reverted-Safe t u w p.valid (p.revisions_below b)
          (Run-Safe q.valid (q.revisions_below (p.revisions_below b)) r') e)

  -- From a valid state whose snapshot ids lie below the next one: after a snapshot and any execution
  -- of calls, with nested snapshots kept or reverted, RevertToSnapshot does not panic; all that can
  -- be read (accounts, code, slots, refund, logs, preimages, access list, transient storage), the
  -- journal's entries and the earlier snapshots are those from before the snapshot.
  pub revert_to_snapshot-Run :
      (s t : StateDb)
      → IsValid (view env s)
      → AllBelow s.next_revision_id s.valid_revisions
      → Run env (snapshot s).1 t
      → Restores env s t (revert_to_snapshot env t (snapshot s).0)
  revert_to_snapshot-Run s t v b r =
      let q = snapshot-Safe s v in
      revert_to_snapshot-Restores env s t b (Run-Safe q.valid (q.revisions_below b) r).undoes
