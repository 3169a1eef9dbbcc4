-- ===== src/DirectByLeaf/StateDb/Rollback/Plain.antt =====
-- statedb.go: the journal takes back AddLog, AddPreimage, AddRefund, SubRefund, SetTransientState
-- and the additions to the access list.
use ipld_eth_statedb.Base.{
  ℕ, ◌+◌, ◌-◌, ◌%◌, ◌<◌, ◌≡◌, refl, ap, ap₂, ◌∙◌, subst, fun_ext, Bool, true, false, false≢true,
  Option, none, some, some_inj, List, [], ◌∷◌, ◌++◌, Map, insert, delete-insert, insert-insert,
  insert_self, get_or, or_zero, ◌==◌, ==_refl, ==_iff, ltb, ◌&&◌, if◌then◌else◌, arith,
}
use ipld_eth_statedb.DirectByLeaf.Types.{Address, Hash, Bytes}
use ipld_eth_statedb.DirectByLeaf.Env.{Env}
use ipld_eth_statedb.DirectByLeaf.TransientStorage
use ipld_eth_statedb.DirectByLeaf.StateDb.{
  StateDb, Log, add_log_change, word, refund_change, add_preimage_change, transient_storage_change,
}
use ipld_eth_statedb.DirectByLeaf.StateDb.Access.{get_transient_state}
use ipld_eth_statedb.DirectByLeaf.StateDb.Revert.{journal_append, logs_without_last, drop_last}
use ipld_eth_statedb.DirectByLeaf.StateDb.Setters.{
  add_log, add_preimage, add_refund, sub_refund, set_transient_state, set_transient_state_field,
}
use ipld_eth_statedb.DirectByLeaf.StateDb.View.{StateView, view, map_option, bind_option}
use ipld_eth_statedb.DirectByLeaf.StateDb.Rollback.Steps
use ipld_eth_statedb.DirectByLeaf.StateDb.Rollback.Valid.{
  IsValid, Safe, Safe-refl, Safe-of_entries, filled,
}

drop_last-append : (ls : List Log) (l : Log) → drop_last (ls ++ l ∷ []) ≡ some ls
drop_last-append [] l = refl
drop_last-append (x ∷ []) l = refl
drop_last-append (x ∷ y ∷ ls) l =
    ap (λ o. elim o [ none ↦ none | some r ↦ some (x ∷ r) ]) (drop_last-append (y ∷ ls) l)

logs_long :
    (m : Map (List Log)) (h : Hash) (x : Log) (ls : List Log) (l : Log)
    → logs_without_last m h (x ∷ ls ++ l ∷ []) ≡ some (insert m h (x ∷ ls))
logs_long m h x [] l = refl
logs_long m h x (y ∷ ls) l =
    ap (λ o. elim o [ none ↦ none | some r ↦ some (insert m h r) ])
      (drop_last-append (x ∷ y ∷ ls) l)

logs_restored :
    (m : Map (List Log)) (h : Hash) (l : Log) (old : Option (List Log))
    → m h ≡ old
    → ((ls : List Log) → m h ≡ some ls → filled ls ≡ true)
    → logs_without_last (insert m h (or_zero old [] ++ l ∷ [])) h (or_zero old [] ++ l ∷ [])
      ≡ some m
logs_restored m h l none e f = ap some (delete-insert m h (l ∷ []) e)
logs_restored m h l (some []) e f = absurd (false≢true (f [] e))
logs_restored m h l (some (x ∷ ls)) e f =
    logs_long (insert m h (x ∷ ls ++ l ∷ [])) h x ls l
    ∙ ap some (insert-insert m h (x ∷ ls ++ l ∷ []) (x ∷ ls) ∙ insert_self m h (x ∷ ls) e)

filled-append : (ls : List Log) (l : Log) → filled (ls ++ l ∷ []) ≡ true
filled-append [] l = refl
filled-append (x ∷ ls) l = refl

-- AddLog adds one to the 64-bit count of logs, and the journal takes it off.
log_size_back : (n : ℕ) → n < word → ((n + 1) % word + word - 1) % word ≡ n
log_size_back n h = omega arith

transient_back :
    (g : Address → Hash → Hash) (a b : Address) (key k value x : Hash) (c d : Bool)
    → x ≡ (if c && d then value else g b k)
    → (c ≡ true → a ≡ b)
    → (d ≡ true → key ≡ k)
    → (if c && d then g a key else x) ≡ g b k
transient_back g a b key k value x true true h e f = ap₂ g (e refl) (f refl)
transient_back g a b key k value x true false h e f = h
transient_back g a b key k value x false d h e f = h

module _ (env : Env) where
  abbrev pub SafeResult : StateDb → Option StateDb → Type 0
  SafeResult s none = Unit {0}
  SafeResult s (some t) = Safe env s t

  pub add_log-Safe : (s : StateDb) (log : Log) → IsValid (view env s) → Safe env s (add_log s log)
  unfolding add_log
  add_log-Safe s log v =
      Safe-of_entries env s (add_log s log) (add_log_change s.thash ∷ [])
        (record {
          keyed = v.keyed;
          no_fake = v.no_fake;
          access = v.access;
          logs_filled = λ h ls e. filled_at (s.thash == h) h ls e;
          log_size_fits = omega arith;
        })
        (record { revisions_eq = refl; next_eq = refl }) refl back
    where
      l : Log
      l = record log { tx_hash = s.thash; tx_index = s.tx_index; index = s.log_size }

      filled_at :
          (c : Bool) (h : Hash) (ls : List Log)
          → (if c then some (get_or s.logs s.thash [] ++ l ∷ []) else s.logs h) ≡ some ls
          → filled ls ≡ true
      filled_at true h ls e =
          subst (λ x. filled x ≡ true) (some_inj e) (filled-append (get_or s.logs s.thash []) l)
      filled_at false h ls e = v.logs_filled h ls e

      added : List Log
      added = get_or s.logs s.thash [] ++ l ∷ []

      undone : Option (Map (List Log)) → ℕ → Option StateView
      undone r n =
          bind_option (map_option (λ logs'. record (view env s) { logs = logs'; log_size = n }) r)
            some

      back :
          Steps.undo_views env (add_log_change s.thash ∷ []) (view env (add_log s log))
          ≡ some (view env s)
      back =
          ap
            (λ x.
              undone (logs_without_last (insert s.logs s.thash added) s.thash x)
                (((s.log_size + 1) % word + word - 1) % word))
            (ap (λ c. or_zero (if c then some added else s.logs s.thash) []) (==_refl s.thash))
          ∙ ap₂ undone
              (logs_restored s.logs s.thash l (s.logs s.thash) refl (v.logs_filled s.thash))
              (log_size_back s.log_size v.log_size_fits)

  pub add_preimage-Safe :
      (s : StateDb) (hash : Hash) (preimage : Bytes)
      → IsValid (view env s)
      → Safe env s (add_preimage s hash preimage)
  unfolding add_preimage
  add_preimage-Safe s hash preimage v = recorded (s.preimages hash) refl
    where
      recorded :
          (o : Option Bytes)
          → s.preimages hash ≡ o
          → Safe env s (
              if (elim o [ none ↦ false | some x ↦ true ])
              then s
              else (let t = journal_append s (add_preimage_change hash) in
                  record t { preimages = insert t.preimages hash preimage }))
      recorded (some x) e = Safe-refl env s v
      recorded none e =
          Safe-of_entries env s _ (add_preimage_change hash ∷ [])
            (record {
              keyed = v.keyed;
              no_fake = v.no_fake;
              access = v.access;
              logs_filled = v.logs_filled;
              log_size_fits = v.log_size_fits;
            })
            (record { revisions_eq = refl; next_eq = refl }) refl
            (ap (λ m. some (let w : StateView = record (view env s) { preimages = m } in w))
              (delete-insert s.preimages hash preimage e))

  pub add_refund-Safe :
      (s : StateDb) (gas : ℕ) → IsValid (view env s) → Safe env s (add_refund s gas)
  unfolding add_refund
  add_refund-Safe s gas v =
      Safe-of_entries env s (add_refund s gas) (refund_change s.refund ∷ [])
        (record {
          keyed = v.keyed;
          no_fake = v.no_fake;
          access = v.access;
          logs_filled = v.logs_filled;
          log_size_fits = v.log_size_fits;
        })
        (record { revisions_eq = refl; next_eq = refl }) refl refl

  pub sub_refund-Safe :
      (s : StateDb) (gas : ℕ) → IsValid (view env s) → SafeResult s (sub_refund s gas)
  unfolding sub_refund
  sub_refund-Safe s gas v = enough (ltb s.refund gas)
    where
      enough :
          (c : Bool)
          → SafeResult s (
              if c
              then none
              else (let t = journal_append s (refund_change s.refund) in
                  some (record t { refund = t.refund - gas })))
      enough true = tt
      enough false =
          Safe-of_entries env s _ (refund_change s.refund ∷ [])
            (record {
              keyed = v.keyed;
              no_fake = v.no_fake;
              access = v.access;
              logs_filled = v.logs_filled;
              log_size_fits = v.log_size_fits;
            })
            (record { revisions_eq = refl; next_eq = refl }) refl refl

  pub set_transient_state-Safe :
      (s : StateDb) (a : Address) (key value : Hash)
      → IsValid (view env s)
      → Safe env s (set_transient_state s a key value)
  unfolding set_transient_state get_transient_state
  set_transient_state-Safe s a key value v = changed (get_transient_state s a key == value)
    where
      g : Address → Hash → Hash
      g b k = TransientStorage.get s.transient_storage b k

      changed :
          (c : Bool)
          → Safe env s (
              if c
              then s
              else set_transient_state_field
                  (journal_append s (transient_storage_change a key (g a key)))
                  a
                  key
                  value)
      changed true = Safe-refl env s v
      changed false =
          Safe-of_entries env s _ (transient_storage_change a key (g a key) ∷ [])
            (record {
              keyed = v.keyed;
              no_fake = v.no_fake;
              access = v.access;
              logs_filled = v.logs_filled;
              log_size_fits = v.log_size_fits;
            })
            (record { revisions_eq = refl; next_eq = refl }) refl
            (ap (λ m. some (let w : StateView = record (view env s) { transient = m } in w))
              (fun_ext λ b. fun_ext λ k.
                transient_back g a b key k value
                  (TransientStorage.get (TransientStorage.set s.transient_storage a key value) b k)
                  (a == b) (key == k) (TransientStorage.get-set s.transient_storage a b key k value)
                  (λ e. (==_iff a b).0 e) (λ e. (==_iff key k).0 e)))
