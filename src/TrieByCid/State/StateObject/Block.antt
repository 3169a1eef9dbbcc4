-- ===== src/TrieByCid/State/StateObject/Block.antt =====
-- state_object.go: the slots of an object over a block: transactions that read and write, and that
-- updateTrie flushes.
use ipld_eth_statedb.Base.{
  ℕ, ◌≡◌, ◌≢◌, sym, ap, ap₂, ◌∙◌, subst, fun_ext, Option, none, some, List, [], ◌∷◌, or_zero,
}
use ipld_eth_statedb.DirectByLeaf.Types.{Hash, zero_hash}
use ipld_eth_statedb.TrieByCid.State.Env.{Env, TrieLaws, OrError, ok, failed}
use ipld_eth_statedb.TrieByCid.State.StateObject.{StateDb, StateObject, finalise}
use ipld_eth_statedb.TrieByCid.State.StateObject.Slots.{
  value_of, get_state, get_committed_state, set_state, update_trie,
}
use ipld_eth_statedb.TrieByCid.State.StateObject.Stored.{committed, current, Stored}
use ipld_eth_statedb.TrieByCid.State.StateObject.Reads.{
  Reads, get_state-Reads, get_committed_state-Reads,
}
use ipld_eth_statedb.TrieByCid.State.StateObject.Writes.{set_state-Writes, finalise-Finalised}
use ipld_eth_statedb.TrieByCid.State.StateObject.Flush.{update_trie-Flushed}
use ipld_eth_statedb.TrieByCid.State.StateObject.Order.{set_slot, KeysOf}

-- A call with what it answered.
pub data SlotEvent : Type 0 where
  state_read committed_read state_write : Hash → Hash → SlotEvent
  transaction_end : SlotEvent
  flush : Option ℕ → SlotEvent

abbrev pub error_of : {A : Type 0} → OrError A → Option ℕ
error_of (ok a) = none
error_of (failed e) = some e

-- What two maps from slots to values would do: the current one and the committed one.
abbrev pub Follows : (Hash → Hash) → (Hash → Hash) → List SlotEvent → Type 0
Follows cur old [] = Unit {0}
Follows cur old (state_read k v ∷ es) = (v ≡ cur k) × Follows cur old es
Follows cur old (committed_read k v ∷ es) = (v ≡ old k) × Follows cur old es
Follows cur old (state_write k v ∷ es) = Follows (set_slot cur k v) old es
Follows cur old (transaction_end ∷ es) = Follows cur cur es
Follows cur old (flush err ∷ es) = (err ≡ none) × Follows cur cur es

-- The calls in turn. A flush goes over the pending keys in any order.
pub data Steps {T : Type 0} (env : Env T)
    : StateObject T → StateDb T → List SlotEvent → Type 0 where
  done : {s : StateObject T} {d : StateDb T} → Steps env s d []
  read :
      {s s' : StateObject T} {d d' : StateDb T} {k v : Hash} {es : List SlotEvent}
      → get_state env s d k ≡ (v, s', d')
      → Steps env s' d' es
      → Steps env s d (state_read k v ∷ es)
  read_committed :
      {s s' : StateObject T} {d d' : StateDb T} {k v : Hash} {es : List SlotEvent}
      → get_committed_state env s d k ≡ (v, s', d')
      → Steps env s' d' es
      → Steps env s d (committed_read k v ∷ es)
  write :
      {s s' : StateObject T} {d d' : StateDb T} {k v : Hash} {es : List SlotEvent}
      → set_state env s d k v ≡ (s', d')
      → Steps env s' d' es
      → Steps env s d (state_write k v ∷ es)
  end_transaction :
      {s : StateObject T} {d : StateDb T} {es : List SlotEvent}
      → Steps env (finalise s) d es
      → Steps env s d (transaction_end ∷ es)
  update :
      {s s' : StateObject T} {d d' : StateDb T} {o : OrError (Option T)} {es : List SlotEvent}
      (keys : List Hash)
      → KeysOf (finalise s).pending_storage keys
      → update_trie env keys s d ≡ (o, s', d')
      → Steps env s' d' es
      → Steps env s d (flush (error_of o) ∷ es)

module _ {T : Type 0} (env : Env T) (laws : TrieLaws env.tries)
    (encode_value-value_of : (v : Hash)
      → v ≢ zero_hash
      → value_of env (env.encode_value v) ≡ (v, none)) where
  with_views :
      (cur cur' old old' : Hash → Hash) (es : List SlotEvent)
      → ((k : Hash) → cur k ≡ cur' k)
      → ((k : Hash) → old k ≡ old' k)
      → Follows cur old es
      → Follows cur' old' es
  with_views cur cur' old old' es x y f =
      subst (λ c. Follows c old' es) (fun_ext x) (subst (λ c. Follows cur c es) (fun_ext y) f)

  -- After a read.
  Reads-Follows :
      (s s' : StateObject T) (d d' : StateDb T) (slots : Hash → Hash) (k value v : Hash)
      (es : List SlotEvent) (r : Hash × StateObject T × StateDb T)
      → Reads env laws s d slots k value r
      → r ≡ (v, s', d')
      → (Stored env laws s' d' slots → Follows (current s' slots) (committed s' slots) es)
      → (v ≡ value) × Follows (current s slots) (committed s slots) es
  Reads-Follows s s' d d' slots k value v es r a e f =
      let q = sym e ∙ a.result_eq in
      let p = ap (λ y. y.1.pending_storage) q ∙ a.pending_eq in
      let w = ap (λ y. y.1.dirty_storage) q ∙ a.dirty_eq in
      (
        ap (λ y. y.0) q,
        with_views (current s' slots) (current s slots) (committed s' slots) (committed s slots) es
            (λ j. ap₂ (λ x y. or_zero (x j) (or_zero (y j) (slots j))) w p)
            (λ j. ap (λ x. or_zero (x j) (slots j)) p)
            (f (subst (λ y. Stored env laws y.1 y.2 slots) (sym q) a.stored)),
      )

  -- For storage tries that keep TrieLaws (they act as maps and return no error, as a StateTrie
  -- does while no node is missing and no key hashes collide: see storage_laws): where an object's
  -- trie holds its slots and the caches agree with them, and RLP gives back each value other than
  -- zero that it encoded: in any sequence of GetState, GetCommittedState, SetState, finalise and
  -- updateTrie, each updateTrie in any order of the pending keys, no updateTrie fails, and the
  -- reads answer as two maps would: SetState writes to the current one, and finalise and
  -- updateTrie make it the committed one.
  pub Steps-Follows :
      (s : StateObject T) (d : StateDb T) (slots : Hash → Hash) (es : List SlotEvent)
      → Stored env laws s d slots
      → Steps env s d es
      → Follows (current s slots) (committed s slots) es
  Steps-Follows s d slots es a done = tt
  Steps-Follows s d slots (_ ∷ es) a (read {s' = s'} {d' = d'} {k = k} {v = v} e n) =
      Reads-Follows s s' d d' slots k (current s slots k) v es _
        (get_state-Reads env laws s d slots k a) e (λ b. Steps-Follows s' d' slots es b n)
  Steps-Follows s d slots (_ ∷ es) a (read_committed {s' = s'} {d' = d'} {k = k} {v = v} e n) =
      Reads-Follows s s' d d' slots k (committed s slots k) v es _
        (get_committed_state-Reads env laws s d slots k a) e (λ b. Steps-Follows s' d' slots es b n)
  Steps-Follows s d slots (_ ∷ es) a (write {s' = s'} {d' = d'} {k = k} {v = v} e n) =
      let w = set_state-Writes env laws s d slots k v a in
      with_views (current s' slots) (set_slot (current s slots) k v) (committed s' slots)
        (committed s slots) es (λ j. ap (λ y. current y.0 slots j) (sym e) ∙ w.current_eq j)
        (λ j. ap (λ y. committed y.0 slots j) (sym e) ∙ w.committed_eq j)
        (Steps-Follows s' d' slots es (subst (λ y. Stored env laws y.0 y.1 slots) e w.stored) n)
  Steps-Follows s d slots (_ ∷ es) a (end_transaction n) =
      let f = finalise-Finalised env laws s d slots a in
      with_views (current (finalise s) slots) (current s slots) (committed (finalise s) slots)
        (current s slots) es f.current_eq f.committed_eq
        (Steps-Follows (finalise s) d slots es f.stored n)
  Steps-Follows s d slots (_ ∷ es) a (update {s' = s'} {d' = d'} {o = o} keys h e n) =
      let u = update_trie-Flushed env laws encode_value-value_of keys s d slots a h in
      let q = sym e ∙ u.result_eq in
      let p : (j : Hash) → s'.pending_storage j ≡ none =
        λ j. ap (λ y. y.1.pending_storage j) q ∙ u.pending_eq j in
      let w : (j : Hash) → s'.dirty_storage j ≡ none =
        λ j. ap (λ y. y.1.dirty_storage j) q ∙ u.dirty_eq j in
      let b : (j : Hash) → committed s' (current s slots) j ≡ current s slots j =
        λ j. ap (λ x. or_zero x (current s slots j)) (p j) in
      (
        ap (λ y. error_of y.0) q,
        with_views (current s' (current s slots)) (current s slots) (committed s' (current s slots))
            (current s slots) es
            (λ j. ap (λ x. or_zero x (committed s' (current s slots) j)) (w j) ∙ b j) b
            (Steps-Follows s' d' (current s slots) es
              (subst (λ y. Stored env laws y.1 y.2 (current s slots)) (sym q) u.stored) n),
      )
