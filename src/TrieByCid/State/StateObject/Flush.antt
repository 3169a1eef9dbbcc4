-- ===== src/TrieByCid/State/StateObject/Flush.antt =====
-- state_object.go: updateTrie writes the slots of an object into its trie.
use ipld_eth_statedb.Base.{
  ◌≡◌, ◌≢◌, ◌+◌, refl, sym, ap, ◌∙◌, subst, fun_ext, true, false, Option, none, some, some_inj,
  List, [], ◌∷◌, ◌⊎◌, inl, inr, insert, empty_map, or_zero, get_or, Bool-cases, ==_iff, ◌==◌,
}
use ipld_eth_statedb.DirectByLeaf.Types.{Hash, Bytes, Storage, zero_hash}
use ipld_eth_statedb.TrieByCid.State.Env.{Env, TrieLaws, Blobs, put, ok}
use ipld_eth_statedb.TrieByCid.State.StateObject.{StateDb, StateObject, finalise}
use ipld_eth_statedb.TrieByCid.State.StateObject.Slots.{
  value_of, keep_for_snap, Updating, deleted_slot, updated_slot, update_slot, unless_failed,
  update_slots, UpdatedTrie, all_written, write_with, write_pending, update_trie,
}
use ipld_eth_statedb.TrieByCid.State.StateObject.Stored.{
  committed, current, StoredIn, Stored, get_trie_eq,
}
use ipld_eth_statedb.TrieByCid.State.StateObject.Order.{
  set_slot, set_slot_cases, AllIn, KeysOf, written, written-KeysOf,
}
use ipld_eth_statedb.TrieByCid.State.StateObject.Writes.{finalise-Finalised}

module _ {T : Type 0} (env : Env T) (laws : TrieLaws env.tries)
    (encode_value-value_of : (v : Hash)
      → v ≢ zero_hash
      → value_of env (env.encode_value v) ≡ (v, none)) where
  -- An update that did not fail.
  pub record Updated (s : StateObject T) (slots : Hash → Hash) (r : Updating env) : Type 0 where
    pub trie : T
    pub object : StateObject T
    pub db : StateDb T
    pub result_eq : r ≡ (ok trie, object, db)
    pub trie_eq : object.trie ≡ some trie
    pub stored_in : StoredIn env laws trie slots
    pub stored : Stored env laws object db slots
    pub pending_eq : object.pending_storage ≡ s.pending_storage
    pub dirty_eq : object.dirty_storage ≡ s.dirty_storage

  -- A slot that the trie has now, and the cache with it.
  Stored-written :
      (s : StateObject T) (d d' : StateDb T) (slots : Hash → Hash) (k v : Hash) (t : T)
      → Stored env laws s d slots
      → d'.state_objects_destruct ≡ d.state_objects_destruct
      → d'.snap ≡ d.snap
      → StoredIn env laws t (set_slot slots k v)
      → Stored env laws
          (record s { origin_storage = insert s.origin_storage k v; trie = some t })
          d'
          (set_slot slots k v)
  Stored-written s d d' slots k v t a x y b = record {
    trie = t;
    trie_eq = refl;
    stored = b;
    origin_eq = λ j u e. origin j u (Bool-cases (k == j)) e;
    destruct_eq = λ j m e.
        let n = other j (Bool-cases (k == j)) e in
        n.1 ∙ a.destruct_eq j (ap (λ f. f s.address) (sym x) ∙ m) n.0;
    snap_eq = λ f j enc m w e.
        let n = other j (Bool-cases (k == j)) e in
        a.snap_eq f j enc (sym y ∙ m) w n.0 ∙ ap (λ u. (u, none)) (sym n.1);
    pending_eq = λ j u m e. let n = other j (Bool-cases (k == j)) e in n.1 ∙ a.pending_eq j u m n.0;
    dirty_eq = λ j u m e. let n = other j (Bool-cases (k == j)) e in n.1 ∙ a.dirty_eq j u m n.0;
  }
    where
      origin :
          (j u : Hash)
          → ((k == j) ≡ true) ⊎ ((k == j) ≡ false)
          → insert s.origin_storage k v j ≡ some u
          → set_slot slots k v j ≡ u
      origin j u (inl e) = rw e some_inj
      origin j u (inr e) = rw e (a.origin_eq j u)

      other :
          (j : Hash)
          → ((k == j) ≡ true) ⊎ ((k == j) ≡ false)
          → insert s.origin_storage k v j ≡ none
          → (s.origin_storage j ≡ none) × (set_slot slots k v j ≡ slots j)
      other j (inl e) = rw e (λ w. absurd (cc (w)))
      other j (inr e) = rw e (λ w. (w, refl))

  put_value :
      (blobs : Blobs) (slots : Hash → Hash) (k v : Hash) (enc : Bytes)
      → ((j : Hash) → value_of env (blobs j) ≡ (slots j, none))
      → value_of env enc ≡ (v, none)
      → (j : Hash) → value_of env (put blobs k enc j) ≡ (set_slot slots k v j, none)
  put_value blobs slots k v enc a e j = by_key (Bool-cases (k == j))
    where
      by_key :
          ((k == j) ≡ true) ⊎ ((k == j) ≡ false)
          → value_of env (put blobs k enc j) ≡ (set_slot slots k v j, none)
      by_key (inl x) = rw x e
      by_key (inr x) = rw x (a j)

  -- One pending entry.
  update_slot-Updated :
      (s : StateObject T) (d : StateDb T) (slots : Hash → Hash) (k v : Hash) (t : T)
      → Stored env laws s d slots
      → s.trie ≡ some t
      → StoredIn env laws t slots
      → (s.origin_storage k ≡ none → slots k ≡ zero_hash)
      → Updated s (set_slot slots k v) (update_slot env k v t s d)
  update_slot-Updated s d slots k v t a q b w =
      by_test (Bool-cases (v == get_or s.origin_storage k zero_hash)) (Bool-cases (v == zero_hash))
    where
      s' : StateObject T
      s' = record s { origin_storage = insert s.origin_storage k v }

      kept_value :
          (o : Option Hash) → s.origin_storage k ≡ o → v ≡ or_zero o zero_hash → slots k ≡ v
      kept_value none e x = w e ∙ sym x
      kept_value (some u) e x = a.origin_eq k u e ∙ sym x

      kept : v ≡ get_or s.origin_storage k zero_hash → slots ≡ set_slot slots k v
      kept x = fun_ext λ j. elim (set_slot_cases slots k v j) [
        | inl y ↦ ap slots (sym y.0) ∙ kept_value (s.origin_storage k) refl x ∙ sym y.1
        | inr y ↦ sym y.1
      ]

      by_test :
          ((v == get_or s.origin_storage k zero_hash) ≡ true)
            ⊎ ((v == get_or s.origin_storage k zero_hash) ≡ false)
          → ((v == zero_hash) ≡ true) ⊎ ((v == zero_hash) ≡ false)
          → Updated s (set_slot slots k v) (update_slot env k v t s d)
      by_test (inl e) z =
          let x = kept ((==_iff v _).0 e) in
          record {
            trie = t;
            object = s;
            db = d;
            result_eq = rw e refl;
            trie_eq = q;
            stored_in = subst (StoredIn env laws t) x b;
            stored = subst (Stored env laws s d) x a;
            pending_eq = refl;
            dirty_eq = refl;
          }
      by_test (inr e) (inl z) =
          let g = laws.delete-Holds t b.blobs k b.holds in
          let n : StoredIn env laws g.0 (set_slot slots k v) = record {
            blobs = put b.blobs k [];
            holds = g.2;
            value_eq =
                put_value b.blobs slots k v [] b.value_eq
                  (ap (λ u. (u, none)) (sym ((==_iff v zero_hash).0 z)));
          } in
          record {
            trie = g.0;
            object = record s' { trie = some g.0 };
            db =
                keep_for_snap env s.addr_hash k []
                  (record d { storage_deleted = d.storage_deleted + 1 });
            result_eq = rw (e, z) (ap (deleted_slot env k s' d) g.1);
            trie_eq = refl;
            stored_in = n;
            stored = Stored-written s d _ slots k v g.0 a refl refl n;
            pending_eq = refl;
            dirty_eq = refl;
          }
      by_test (inr e) (inr z) =
          let enc = env.encode_value v in
          let g = laws.update-Holds t b.blobs k enc b.holds in
          let n : StoredIn env laws g.0 (set_slot slots k v) = record {
            blobs = put b.blobs k enc;
            holds = g.2;
            value_eq =
                put_value b.blobs slots k v enc b.value_eq
                  (encode_value-value_of v (λ y. absurd (cc (z, (==_iff v zero_hash).1 y))));
          } in
          record {
            trie = g.0;
            object = record s' { trie = some g.0 };
            db =
                keep_for_snap env s.addr_hash k enc
                  (record d { storage_updated = d.storage_updated + 1 });
            result_eq = rw (e, z) (ap (updated_slot env k enc s' d) g.1);
            trie_eq = refl;
            stored_in = n;
            stored = Stored-written s d _ slots k v g.0 a refl refl n;
            pending_eq = refl;
            dirty_eq = refl;
          }

  update_slots-Updated :
      (keys : List Hash) (s : StateObject T) (d : StateDb T) (slots : Hash → Hash) (t : T)
      (p : Storage)
      → Stored env laws s d slots
      → s.trie ≡ some t
      → StoredIn env laws t slots
      → s.pending_storage ≡ p
      → AllIn p keys
      → Updated s (written p keys slots) (update_slots env keys t s d)
  unfolding update_slots
  update_slots-Updated [] s d slots t p a q b e l = record {
    trie = t;
    object = s;
    db = d;
    result_eq = refl;
    trie_eq = q;
    stored_in = b;
    stored = a;
    pending_eq = refl;
    dirty_eq = refl;
  }
  update_slots-Updated (k ∷ ks) s d slots t p a q b e l =
      let v = get_or p k zero_hash in
      let u =
        update_slot-Updated s d slots k v t a q b
          (a.pending_eq k l.0.0 (ap (λ m. m k) e ∙ l.0.1)) in
      let n =
        update_slots-Updated ks u.object u.db (set_slot slots k v) u.trie p u.stored u.trie_eq
          u.stored_in (u.pending_eq ∙ e) l.1 in
      record {
        trie = n.trie;
        object = n.object;
        db = n.db;
        result_eq =
            ap
              (λ m.
                unless_failed env (update_slots env ks)
                  (update_slot env k (get_or m k zero_hash) t s d))
              e
            ∙ ap (unless_failed env (update_slots env ks)) u.result_eq
            ∙ n.result_eq;
        trie_eq = n.trie_eq;
        stored_in = n.stored_in;
        stored = n.stored;
        pending_eq = n.pending_eq ∙ u.pending_eq;
        dirty_eq = n.dirty_eq ∙ u.dirty_eq;
      }

  -- What updateTrie gives: no error, and the slots in the trie, with nothing dirty or pending.
  pub record Flushed (slots : Hash → Hash) (r : UpdatedTrie env) : Type 0 where
    pub trie : Option T
    pub object : StateObject T
    pub db : StateDb T
    pub result_eq : r ≡ (ok trie, object, db)
    pub trie_eq : object.trie ≡ trie
    pub stored : Stored env laws object db slots
    pub pending_eq : (k : Hash) → object.pending_storage k ≡ none
    pub dirty_eq : (k : Hash) → object.dirty_storage k ≡ none

  write_pending-Flushed :
      (keys : List Hash) (s : StateObject T) (d : StateDb T) (slots slots' : Hash → Hash)
      → Stored env laws s d slots
      → KeysOf s.pending_storage keys
      → ((k : Hash) → s.dirty_storage k ≡ none)
      → ((k : Hash) → committed s slots k ≡ slots' k)
      → Flushed slots' (write_pending env keys s d)
  write_pending-Flushed [] s d slots slots' a h e w = record {
    trie = s.trie;
    object = s;
    db = d;
    result_eq = refl;
    trie_eq = refl;
    stored =
        subst (Stored env laws s d)
          (fun_ext
            λ k. ap (λ o. or_zero o (slots k)) (sym (missing k (s.pending_storage k) refl)) ∙ w k)
          a;
    pending_eq = λ k. missing k (s.pending_storage k) refl;
    dirty_eq = e;
  }
    where
      missing : (k : Hash) (o : Option Hash) → s.pending_storage k ≡ o → s.pending_storage k ≡ none
      missing k none x = x
      missing k (some v) x = absurd (h.listed k v x)
  write_pending-Flushed (key ∷ keys) s d slots slots' a h e w =
      let s' : StateObject T = record s { trie = some a.trie } in
      let a' : Stored env laws s' d slots = record {
        trie = a.trie;
        trie_eq = refl;
        stored = a.stored;
        origin_eq = a.origin_eq;
        destruct_eq = a.destruct_eq;
        snap_eq = a.snap_eq;
        pending_eq = a.pending_eq;
        dirty_eq = a.dirty_eq;
      } in
      let u =
        update_slots-Updated (key ∷ keys) s' d slots a.trie s.pending_storage a' refl a.stored refl
          h.all_in in
      let q : written s.pending_storage (key ∷ keys) slots ≡ slots' =
        fun_ext λ k. written-KeysOf s.pending_storage (key ∷ keys) slots k h ∙ w k in
      record {
        trie = some u.trie;
        object = record (u.object) { pending_storage = empty_map };
        db = u.db;
        result_eq =
            ap (write_with env (key ∷ keys) d) (get_trie_eq env laws s d a.trie a.trie_eq)
            ∙ ap (all_written env) u.result_eq;
        trie_eq = u.trie_eq;
        stored =
            subst (Stored env laws (record (u.object) { pending_storage = empty_map }) u.db) q
              (record {
                trie = u.stored.trie;
                trie_eq = u.stored.trie_eq;
                stored = u.stored.stored;
                origin_eq = u.stored.origin_eq;
                destruct_eq = u.stored.destruct_eq;
                snap_eq = u.stored.snap_eq;
                pending_eq = λ k v m. absurd (cc (m));
                dirty_eq = u.stored.dirty_eq;
              });
        pending_eq = λ k. refl;
        dirty_eq = λ k. ap (λ m. m k) u.dirty_eq ∙ e k;
      }

  -- For storage tries that keep TrieLaws (they act as maps and return no error, as a StateTrie
  -- does while no node is missing and no key hashes collide: see storage_laws): where an object's
  -- trie holds its slots and the caches agree with them, and RLP gives back each value other than
  -- zero that it encoded: whatever the order in which the loop meets the pending keys, updateTrie
  -- returns no error and leaves nothing dirty or pending; its trie, the one it returns, then holds
  -- the slots as GetState gave them before, and the caches agree with it.
  pub update_trie-Flushed :
      (keys : List Hash) (s : StateObject T) (d : StateDb T) (slots : Hash → Hash)
      → Stored env laws s d slots
      → KeysOf (finalise s).pending_storage keys
      → Flushed (current s slots) (update_trie env keys s d)
  unfolding update_trie finalise
  update_trie-Flushed keys s d slots a h =
      let f = finalise-Finalised env laws s d slots a in
      write_pending-Flushed keys (finalise s) d slots (current s slots) f.stored h (λ k. refl)
        f.committed_eq
