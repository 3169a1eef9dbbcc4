-- ===== src/TrieByCid/State/StateObject/Reads.antt =====
-- state_object.go: GetCommittedState and GetState follow the specification of the slots.
use ipld_eth_statedb.Base.{
  ℕ, ◌≡◌, refl, sym, ap, ◌∙◌, subst, true, false, Option, none, some, some_inj, ◌⊎◌, inl, inr,
  insert, or_zero, Bool-cases, ==_iff, ==_refl, ◌==◌, if◌then◌else◌,
}
use ipld_eth_statedb.DirectByLeaf.Types.{Hash, Bytes, zero_hash}
use ipld_eth_statedb.TrieByCid.State.Env.{Env, TrieLaws}
use ipld_eth_statedb.TrieByCid.State.StateObject.{StateDb, StateObject}
use ipld_eth_statedb.TrieByCid.State.StateObject.Slots.{
  tried, load_with, load_from_trie, snap_or_trie, load_by, load_slot, value_of, cache_loaded,
  cached_or_load, pending_or_cached, get_committed_state, dirty_or_committed, get_state,
}
use ipld_eth_statedb.TrieByCid.State.StateObject.Stored.{
  committed, current, StoredIn, Stored, get_trie_eq,
}

module _ {T : Type 0} (env : Env T) (laws : TrieLaws env.tries) where
  -- What a read gives: the value, and the object and the database with nothing but the caches changed.
  pub record Reads (s : StateObject T) (d : StateDb T) (slots : Hash → Hash) (k value : Hash)
      (r : Hash × StateObject T × StateDb T) : Type 0 where
    pub object : StateObject T
    pub result_eq : r ≡ (value, object, d)
    pub stored : Stored env laws object d slots
    pub pending_eq : object.pending_storage ≡ s.pending_storage
    pub dirty_eq : object.dirty_storage ≡ s.dirty_storage
    pub known : object.origin_storage k ≡ none → slots k ≡ zero_hash

  -- The value that was loaded is cached.
  Stored-cached :
      (s : StateObject T) (d : StateDb T) (slots : Hash → Hash) (k : Hash)
      → Stored env laws s d slots
      → Stored env laws (record s { origin_storage = insert s.origin_storage k (slots k) }) d slots
  Stored-cached s d slots k a = record {
    trie = a.trie;
    trie_eq = a.trie_eq;
    stored = a.stored;
    origin_eq = λ j v. origin j v (Bool-cases (k == j));
    destruct_eq = λ j x e. a.destruct_eq j x (not_cached j (Bool-cases (k == j)) e);
    snap_eq = λ f j enc x y e. a.snap_eq f j enc x y (not_cached j (Bool-cases (k == j)) e);
    pending_eq = λ j v x e. a.pending_eq j v x (not_cached j (Bool-cases (k == j)) e);
    dirty_eq = λ j v x e. a.dirty_eq j v x (not_cached j (Bool-cases (k == j)) e);
  }
    where
      origin :
          (j v : Hash)
          → ((k == j) ≡ true) ⊎ ((k == j) ≡ false)
          → insert s.origin_storage k (slots k) j ≡ some v
          → slots j ≡ v
      origin j v (inl e) = rw e (λ w. sym (ap slots ((==_iff k j).0 e)) ∙ some_inj w)
      origin j v (inr e) = rw e (a.origin_eq j v)

      not_cached :
          (j : Hash)
          → ((k == j) ≡ true) ⊎ ((k == j) ≡ false)
          → insert s.origin_storage k (slots k) j ≡ none
          → s.origin_storage j ≡ none
      not_cached j (inl e) = rw e (λ w. absurd (cc (w)))
      not_cached j (inr e) = rw e (λ w. w)

  Stored-loaded :
      (s : StateObject T) (d : StateDb T) (slots : Hash → Hash) (t : T)
      → Stored env laws s d slots
      → StoredIn env laws t slots
      → Stored env laws (record s { trie = some t }) d slots
  Stored-loaded s d slots t a b = record {
    trie = t;
    trie_eq = refl;
    stored = b;
    origin_eq = a.origin_eq;
    destruct_eq = a.destruct_eq;
    snap_eq = a.snap_eq;
    pending_eq = a.pending_eq;
    dirty_eq = a.dirty_eq;
  }

  cached_slot :
      (s s' : StateObject T) (d : StateDb T) (slots : Hash → Hash) (k : Hash) (enc : Bytes)
      → Stored env laws s' d slots
      → s'.pending_storage ≡ s.pending_storage
      → s'.dirty_storage ≡ s.dirty_storage
      → value_of env enc ≡ (slots k, none)
      → Reads s d slots k (slots k) (cache_loaded env k (some enc, s', d))
  cached_slot s s' d slots k enc a p q e = record {
    object = record s' { origin_storage = insert s'.origin_storage k (slots k) };
    result_eq = rw e refl;
    stored = Stored-cached s' d slots k a;
    pending_eq = p;
    dirty_eq = q;
    known = rw (==_refl k) (λ w. absurd (cc (w)));
  }

  trie_slot :
      (s : StateObject T) (d : StateDb T) (slots : Hash → Hash) (k : Hash)
      → Stored env laws s d slots
      → Reads s d slots k (slots k) (cache_loaded env k (load_from_trie env s d k))
  trie_slot s d slots k a =
      let g = laws.get-Holds a.trie a.stored.blobs k a.stored.holds in
      let u : StoredIn env laws g.0 slots = record {
        blobs = a.stored.blobs;
        holds = g.2;
        value_eq = a.stored.value_eq;
      } in
      let e : load_from_trie env s d k
          ≡ (some (a.stored.blobs k), record s { trie = some g.0 }, d) =
        ap (load_with env d k) (get_trie_eq env laws s d a.trie a.trie_eq)
        ∙ ap (tried env (record s { trie = some a.trie }) d) g.1 in
      subst (λ l. Reads s d slots k (slots k) (cache_loaded env k l)) (sym e)
        (cached_slot s (record s { trie = some g.0 }) d slots k (a.stored.blobs k)
          (Stored-loaded s d slots g.0 a u) refl refl (a.stored.value_eq k))

  snap_slot :
      (s : StateObject T) (d : StateDb T) (slots : Hash → Hash) (k : Hash) (a : Bytes × Option ℕ)
      → Stored env laws s d slots
      → ((enc : Bytes) → a ≡ (enc, none) → value_of env enc ≡ (slots k, none))
      → Reads s d slots k (slots k) (cache_loaded env k (snap_or_trie env s d k a))
  snap_slot s d slots k (enc, none) a w = cached_slot s s d slots k enc a refl refl (w enc refl)
  snap_slot s d slots k (enc, some e) a w = trie_slot s d slots k a

  loaded_slot :
      (s : StateObject T) (d : StateDb T) (slots : Hash → Hash) (k : Hash)
      → Stored env laws s d slots
      → s.origin_storage k ≡ none
      → Reads s d slots k (slots k) (cache_loaded env k (load_slot env s d k))
  loaded_slot s d slots k a e = by_snap d.snap refl
    where
      by_snap :
          (o : Option (Hash → Hash → Bytes × Option ℕ))
          → d.snap ≡ o
          → Reads s d slots k (slots k) (cache_loaded env k (load_by env s d k o))
      by_snap none w = trie_slot s d slots k a
      by_snap (some f) w =
          snap_slot s d slots k (f s.addr_hash (env.keccak_key k)) a
            (λ enc x. a.snap_eq f k enc w x e)

  unchanged :
      (s : StateObject T) (d : StateDb T) (slots : Hash → Hash) (k value : Hash)
      → Stored env laws s d slots
      → (s.origin_storage k ≡ none → slots k ≡ zero_hash)
      → Reads s d slots k value (value, s, d)
  unchanged s d slots k value a w = record {
    object = s;
    result_eq = refl;
    stored = a;
    pending_eq = refl;
    dirty_eq = refl;
    known = w;
  }

  cached_or_load-Reads :
      (s : StateObject T) (d : StateDb T) (slots : Hash → Hash) (k : Hash) (o : Option Hash)
      → Stored env laws s d slots
      → s.origin_storage k ≡ o
      → Reads s d slots k (slots k) (cached_or_load env s d k o)
  cached_or_load-Reads s d slots k (some v) a e =
      subst (λ x. Reads s d slots k x (v, s, d)) (sym (a.origin_eq k v e))
        (unchanged s d slots k v a (λ w. absurd (cc (w, e))))
  cached_or_load-Reads s d slots k none a e =
      by_mark (Bool-cases (d.state_objects_destruct s.address))
    where
      by_mark :
          (d.state_objects_destruct s.address ≡ true) ⊎ (d.state_objects_destruct s.address ≡ false)
          → Reads s d slots k (slots k) (cached_or_load env s d k none)
      by_mark (inl x) =
          subst
            (λ b.
              Reads s d slots k (slots k)
                (if b then (zero_hash, s, d) else cache_loaded env k (load_slot env s d k)))
            (sym x)
            (subst (λ v. Reads s d slots k v (zero_hash, s, d)) (sym (a.destruct_eq k x e))
              (unchanged s d slots k zero_hash a (a.destruct_eq k x)))
      by_mark (inr x) =
          subst
            (λ b.
              Reads s d slots k (slots k)
                (if b then (zero_hash, s, d) else cache_loaded env k (load_slot env s d k)))
            (sym x) (loaded_slot s d slots k a e)

  -- For storage tries that keep TrieLaws (they act as maps and return no error, as a StateTrie
  -- does while no node is missing and no key hashes collide: see storage_laws): where an object's
  -- trie holds its slots and the caches agree with them, GetCommittedState returns the pending
  -- value of the slot, or the stored one where none is pending, from the caches, a snapshot or the
  -- trie, with no error; the database, the pending and the dirty slots stay, and the caches agree
  -- still.
  pub get_committed_state-Reads :
      (s : StateObject T) (d : StateDb T) (slots : Hash → Hash) (k : Hash)
      → Stored env laws s d slots
      → Reads s d slots k (committed s slots k) (get_committed_state env s d k)
  unfolding get_committed_state
  get_committed_state-Reads s d slots k a = by_pending (s.pending_storage k) refl
    where
      by_pending :
          (o : Option Hash)
          → s.pending_storage k ≡ o
          → Reads s d slots k (or_zero o (slots k)) (pending_or_cached env s d k o)
      by_pending (some v) e = unchanged s d slots k v a (a.pending_eq k v e)
      by_pending none e = cached_or_load-Reads s d slots k (s.origin_storage k) a refl

  -- For storage tries that keep TrieLaws (they act as maps and return no error, as a StateTrie
  -- does while no node is missing and no key hashes collide: see storage_laws): where an object's
  -- trie holds its slots and the caches agree with them, GetState returns the dirty value of the
  -- slot, or the committed one, with no error; the database, the pending and the dirty slots stay,
  -- and the caches agree still.
  pub get_state-Reads :
      (s : StateObject T) (d : StateDb T) (slots : Hash → Hash) (k : Hash)
      → Stored env laws s d slots
      → Reads s d slots k (current s slots k) (get_state env s d k)
  unfolding get_state
  get_state-Reads s d slots k a = by_dirty (s.dirty_storage k) refl
    where
      by_dirty :
          (o : Option Hash)
          → s.dirty_storage k ≡ o
          → Reads s d slots k (or_zero o (committed s slots k)) (dirty_or_committed env s d k o)
      by_dirty (some v) e = unchanged s d slots k v a (a.dirty_eq k v e)
      by_dirty none e = get_committed_state-Reads s d slots k a
