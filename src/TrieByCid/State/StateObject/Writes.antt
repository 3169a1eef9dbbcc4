-- ===== src/TrieByCid/State/StateObject/Writes.antt =====
-- state_object.go: SetState and finalise follow the specification of the slots.
use ipld_eth_statedb.Base.{
  ◌≡◌, refl, sym, ap, ap₂, ◌∙◌, subst, true, false, Option, none, some, ◌⊎◌, inl, inr, insert,
  or_zero, Bool-cases, ==_iff, ◌==◌, if◌then◌else◌,
}
use ipld_eth_statedb.DirectByLeaf.Types.{Hash, zero_hash}
use ipld_eth_statedb.TrieByCid.State.Env.{Env, TrieLaws}
use ipld_eth_statedb.TrieByCid.State.StateObject.{StateDb, StateObject, set_state_field, finalise}
use ipld_eth_statedb.TrieByCid.State.StateObject.Slots.{get_state, set_if_new, set_state}
use ipld_eth_statedb.TrieByCid.State.StateObject.Stored.{committed, current, Stored}
use ipld_eth_statedb.TrieByCid.State.StateObject.Reads.{Reads, get_state-Reads}

module _ {T : Type 0} (env : Env T) (laws : TrieLaws env.tries) where
  -- What SetState gives: the slot with the value, all other slots and all committed ones as they were.
  pub record Writes (s : StateObject T) (slots : Hash → Hash) (k value : Hash)
      (r : StateObject T × StateDb T) : Type 0 where
    pub stored : Stored env laws r.0 r.1 slots
    pub current_eq :
        (j : Hash) → current r.0 slots j ≡ (if k == j then value else current s slots j)
    pub committed_eq : (j : Hash) → committed r.0 slots j ≡ committed s slots j

  Stored-dirty :
      (s : StateObject T) (d : StateDb T) (slots : Hash → Hash) (k value : Hash)
      → Stored env laws s d slots
      → (s.origin_storage k ≡ none → slots k ≡ zero_hash)
      → Stored env laws (record s { dirty_storage = insert s.dirty_storage k value }) d slots
  Stored-dirty s d slots k value a w = record {
    trie = a.trie;
    trie_eq = a.trie_eq;
    stored = a.stored;
    origin_eq = a.origin_eq;
    destruct_eq = a.destruct_eq;
    snap_eq = a.snap_eq;
    pending_eq = a.pending_eq;
    dirty_eq = λ j v. by_key j v (Bool-cases (k == j));
  }
    where
      by_key :
          (j v : Hash)
          → ((k == j) ≡ true) ⊎ ((k == j) ≡ false)
          → insert s.dirty_storage k value j ≡ some v
          → s.origin_storage j ≡ none
          → slots j ≡ zero_hash
      by_key j v (inl e) x =
          subst (λ i. s.origin_storage i ≡ none → slots i ≡ zero_hash) ((==_iff k j).0 e) w
      by_key j v (inr e) x =
          a.dirty_eq j v (subst (λ b. (if b then some value else s.dirty_storage j) ≡ some v) e x)

  Stored-journal :
      (s : StateObject T) (d d' : StateDb T) (slots : Hash → Hash)
      → Stored env laws s d slots
      → d' ≡ record d { journal = d'.journal }
      → Stored env laws s d' slots
  Stored-journal s d d' slots a e =
      subst (λ x. Stored env laws s x slots) (sym e)
        (record {
          trie = a.trie;
          trie_eq = a.trie_eq;
          stored = a.stored;
          origin_eq = a.origin_eq;
          destruct_eq = a.destruct_eq;
          snap_eq = a.snap_eq;
          pending_eq = a.pending_eq;
          dirty_eq = a.dirty_eq;
        })

  -- For storage tries that keep TrieLaws (they act as maps and return no error, as a StateTrie
  -- does while no node is missing and no key hashes collide: see storage_laws): where an object's
  -- trie holds its slots and the caches agree with them, SetState gives the slot the value, leaves
  -- all other slots and all committed ones as they were, and the caches agree still.
  pub set_state-Writes :
      (s : StateObject T) (d : StateDb T) (slots : Hash → Hash) (k value : Hash)
      → Stored env laws s d slots
      → Writes s slots k value (set_state env s d k value)
  unfolding set_state set_state_field
  set_state-Writes s d slots k value a =
      let r = get_state-Reads env laws s d slots k a in
      let prev = current s slots k in
      subst (λ x. Writes s slots k value (set_if_new env k value x)) (sym r.result_eq)
        (by_test r (Bool-cases (prev == value)))
    where
      same_view :
          (u : StateObject T) (j : Hash)
          → u.pending_storage ≡ s.pending_storage
          → u.dirty_storage ≡ s.dirty_storage
          → current u slots j ≡ current s slots j
      same_view u j p q = ap₂ (λ x y. or_zero (x j) (or_zero (y j) (slots j))) q p

      by_test :
          (r : Reads env laws s d slots k (current s slots k) (get_state env s d k))
          → ((current s slots k == value) ≡ true) ⊎ ((current s slots k == value) ≡ false)
          → Writes s slots k value (set_if_new env k value (current s slots k, r.object, d))
      by_test r (inl e) = rw e (record {
        stored = r.stored;
        current_eq =
            λ j. same_view r.object j r.pending_eq r.dirty_eq ∙ at_key j (Bool-cases (k == j));
        committed_eq = λ j. ap (λ x. or_zero (x j) (slots j)) r.pending_eq;
      })
        where
          at_key :
              (j : Hash)
              → ((k == j) ≡ true) ⊎ ((k == j) ≡ false)
              → current s slots j ≡ (if k == j then value else current s slots j)
          at_key j (inl x) = rw x (
              ap (current s slots) (sym ((==_iff k j).0 x))
              ∙ (==_iff (current s slots k) value).0 e)
          at_key j (inr x) = rw x refl
      by_test r (inr e) = rw e (record {
        stored =
            Stored-journal _ d _ slots (Stored-dirty r.object d slots k value r.stored r.known)
              refl;
        current_eq = λ j. at_key j (Bool-cases (k == j));
        committed_eq = λ j. ap (λ x. or_zero (x j) (slots j)) r.pending_eq;
      })
        where
          at_key :
              (j : Hash)
              → ((k == j) ≡ true) ⊎ ((k == j) ≡ false)
              → or_zero (insert r.object.dirty_storage k value j) (committed r.object slots j)
                ≡ (if k == j then value else current s slots j)
          at_key j (inl x) = rw x refl
          at_key j (inr x) = rw x (same_view r.object j r.pending_eq r.dirty_eq)

  -- What finalise gives: nothing dirty, and the slots of before as the committed ones.
  pub record Finalised (s : StateObject T) (d : StateDb T) (slots : Hash → Hash)
      (s' : StateObject T) : Type 0 where
    pub stored : Stored env laws s' d slots
    pub committed_eq : (j : Hash) → committed s' slots j ≡ current s slots j
    pub current_eq : (j : Hash) → current s' slots j ≡ current s slots j

  -- For storage tries that keep TrieLaws (they act as maps and return no error, as a StateTrie
  -- does while no node is missing and no key hashes collide: see storage_laws): where an object's
  -- trie holds its slots and the caches agree with them, finalise makes the slots the committed
  -- ones and changes none, and the caches agree still.
  pub finalise-Finalised :
      (s : StateObject T) (d : StateDb T) (slots : Hash → Hash)
      → Stored env laws s d slots
      → Finalised s d slots (finalise s)
  unfolding finalise
  finalise-Finalised s d slots a = record {
    stored = record {
      trie = a.trie;
      trie_eq = a.trie_eq;
      stored = a.stored;
      origin_eq = a.origin_eq;
      destruct_eq = a.destruct_eq;
      snap_eq = a.snap_eq;
      pending_eq = λ k v. from k v (s.dirty_storage k) refl;
      dirty_eq = λ k v e. absurd (cc (e));
    };
    committed_eq = λ j. view j (s.dirty_storage j);
    current_eq = λ j. view j (s.dirty_storage j);
  }
    where
      from :
          (k v : Hash) (o : Option Hash)
          → s.dirty_storage k ≡ o
          → elim o [ none ↦ s.pending_storage k | some value ↦ some value ] ≡ some v
          → s.origin_storage k ≡ none
          → slots k ≡ zero_hash
      from k v none e w = a.pending_eq k v w
      from k v (some u) e w = a.dirty_eq k u e

      view :
          (j : Hash) (o : Option Hash)
          → or_zero (elim o [ none ↦ s.pending_storage j | some value ↦ some value ]) (slots j)
            ≡ or_zero o (or_zero (s.pending_storage j) (slots j))
      view j none = refl
      view j (some u) = refl
