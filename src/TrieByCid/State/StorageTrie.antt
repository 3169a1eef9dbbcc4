-- ===== src/TrieByCid/State/StorageTrie.antt =====
-- trie_by_cid/state/database.go: the storage tries that OpenStorageTrie gives, trie.StateTrie behind the
-- interface Trie, and that they keep its laws.
use ipld_eth_statedb.Base.{
  ℕ, suc, ◌<◌, ◌≡◌, refl, sym, ap, ◌∙◌, subst, Bool, true, false, ◌||◌, Option, none, some, [], ◌∷◌,
  ◌⊎◌, inl, inr, Bool-cases, ◌==◌, ==_iff, if◌then◌else◌, arith,
}
use ipld_eth_statedb.DirectByLeaf.Types.{Hash, Bytes}
use ipld_eth_statedb.DirectByLeaf.Database.{value_or_nil}
use ipld_eth_statedb.TrieByCid.Trie.Encoding.RoundTrips.{AllBelow}
use ipld_eth_statedb.TrieByCid.Trie.Tracer.{same, same_refl, same_eq}
use ipld_eth_statedb.TrieByCid.Trie.Trie
use ipld_eth_statedb.TrieByCid.Trie.Trie.{
  Trie, TrieReader, TrieError, Outcome, returns, panics, out_of_fuel, and_then,
}
use ipld_eth_statedb.TrieByCid.Trie.Trie.Update
use ipld_eth_statedb.TrieByCid.Trie.Trie.Update.{
  try_get_value, has_reader, empty_root, zero_root, new,
}
use ipld_eth_statedb.TrieByCid.Trie.Content.Methods.{
  ValueMap, value_of, Refines, Refines-le, try_get_value-Got, try_update-Edited, try_delete-Edited,
}
use ipld_eth_statedb.TrieByCid.Trie.Content.Methods
use ipld_eth_statedb.TrieByCid.Trie.Content.Runs.{new-Opened_empty}
use ipld_eth_statedb.TrieByCid.Trie.SecureTrie
use ipld_eth_statedb.TrieByCid.Trie.SecureTrie.{
  StateTrie, state_trie_of, updated, new_state_trie, get_sec_key_cache,
}
use ipld_eth_statedb.TrieByCid.State.Env.{
  Env, TrieMethods, TrieLaws, OrError, ok, failed, Blobs, put,
}

-- What stands below the tries: the reader for a state root and an owner, the preimages, Keccak256, the
-- bytes of a key and of a root, and the number of an error; `root_hash` is Hash of trie.go.
pub record Below : Type 0 where
  pub reader : Hash → Hash → TrieReader
  pub preimages : Option (Bytes → Option Bytes)
  pub hash_key : Bytes → Bytes
  pub key_bytes : Hash → Bytes
  pub root_bytes : Hash → Bytes
  pub error_number : TrieError → ℕ
  pub root_hash : Trie → Hash × Trie

-- A trie with the fuel for its calls, two more after each update. A call that panics, or does not end
-- within the fuel, is answered with this error; where no call returns an error, none does.
abbrev pub ended : ℕ
ended = 0

pub record Fuelled : Type 0 where
  pub fuel : ℕ
  pub trie : StateTrie

module _ (b : Below) where
  abbrev pub numbered : Option TrieError → Option ℕ
  numbered none = none
  numbered (some e) = some (suc (b.error_number e))

  abbrev pub got :
      Fuelled → Outcome (Option Bytes × StateTrie × Option TrieError) → (Bytes × Option ℕ) × Fuelled
  got h (returns (v, t, err) u) = ((value_or_nil v, numbered err), record h { trie = t })
  got h panics = (([], some ended), h)
  got h out_of_fuel = (([], some ended), h)

  abbrev pub edited_with : ℕ → Fuelled → Outcome (StateTrie × Option TrieError) → Option ℕ × Fuelled
  edited_with fuel h (returns (t, err) u) = (numbered err, record { fuel = fuel; trie = t })
  edited_with fuel h panics = (some ended, h)
  edited_with fuel h out_of_fuel = (some ended, h)

  abbrev pub hashed : Fuelled → Hash × Trie → Hash × Fuelled
  hashed h (root, t) = (root, record h { trie = record (h.trie) { trie = t } })

  abbrev pub storage_tries : TrieMethods Fuelled
  storage_tries = record {
    try_get = λ h k. got h (SecureTrie.try_get b.hash_key h.fuel h.trie (b.key_bytes k));
    try_update = λ h k v.
        edited_with (suc (suc h.fuel)) h
          (SecureTrie.try_update b.hash_key h.fuel h.trie (b.key_bytes k) v);
    try_delete = λ h k.
        edited_with h.fuel h (SecureTrie.try_delete b.hash_key h.fuel h.trie (b.key_bytes k));
    hash = λ h. hashed h (b.root_hash h.trie.trie);
    copy = λ h. record h { trie = SecureTrie.copy h.trie };
  }

  abbrev pub opened_with : ℕ → Outcome (Option StateTrie × Option TrieError) → OrError Fuelled
  opened_with fuel (returns (some t, none) u) = ok (record { fuel = fuel; trie = t })
  opened_with fuel (returns (none, none) u) = failed ended
  opened_with fuel (returns (t, some e) u) = failed (suc (b.error_number e))
  opened_with fuel panics = failed ended
  opened_with fuel out_of_fuel = failed ended

  -- The fuel is above the height of the trie that is opened.
  unfoldable pub open_storage_trie : ℕ → Hash → Hash → Hash → OrError Fuelled
  open_storage_trie fuel state_root addr_hash root =
      opened_with fuel
        (new_state_trie (b.reader state_root addr_hash) b.preimages addr_hash (b.root_bytes root))

  -- The trie holds the blobs of the slots at the hashes of their keys.
  pub record HoldsBlobs (h : Fuelled) (m : Blobs) : Type 0 where
    pub height : ℕ
    pub values : ValueMap
    pub refines : Refines height h.trie.trie values
    pub enough : height < h.fuel
    pub value_eq : (k : Hash) → values (b.hash_key (b.key_bytes k)) ≡ value_of (m k)

  value_or_nil-value_of : (v : Bytes) → value_or_nil (value_of v) ≡ v
  value_or_nil-value_of [] = refl
  value_or_nil-value_of (x ∷ xs) = refl

  module _ (hash_bytes : (k : Hash) → AllBelow 256 (b.hash_key (b.key_bytes k)))
      (hash_inj : (j k : Hash)
        → b.hash_key (b.key_bytes j) ≡ b.hash_key (b.key_bytes k)
        → j ≡ k) where
    put_value_eq :
        (values : ValueMap) (m : Blobs) (k : Hash) (v : Bytes)
        → ((j : Hash) → values (b.hash_key (b.key_bytes j)) ≡ value_of (m j))
        → (j : Hash)
        → Methods.put values (b.hash_key (b.key_bytes k)) (value_of v) (b.hash_key (b.key_bytes j))
          ≡ value_of (put m k v j)
    put_value_eq values m k v e j = by_key (Bool-cases (k == j))
      where
        hk : Hash → Bytes
        hk i = b.hash_key (b.key_bytes i)

        differ : (k == j) ≡ false → same (hk k) (hk j) ≡ false
        differ x = elim (Bool-cases (same (hk k) (hk j))) [
          | inl s ↦ absurd (cc (x, (==_iff k j).1 (hash_inj k j (same_eq (hk k) (hk j) s))))
          | inr s ↦ s
        ]

        by_key :
            ((k == j) ≡ true) ⊎ ((k == j) ≡ false)
            → Methods.put values (hk k) (value_of v) (hk j) ≡ value_of (put m k v j)
        by_key (inl x) =
            ap (λ s. if s then value_of v else values (hk j))
              (ap (λ i. same (hk k) (hk i)) (sym ((==_iff k j).0 x)) ∙ same_refl (hk k))
            ∙ ap (λ c. value_of (if c then v else m j)) (sym x)
        by_key (inr x) =
            ap (λ s. if s then value_of v else values (hk j)) (differ x)
            ∙ e j
            ∙ ap (λ c. value_of (if c then v else m j)) (sym x)

    pub storage_get :
        (h : Fuelled) (m : Blobs) (k : Hash)
        → HoldsBlobs h m
        → (h' : Fuelled) × (storage_tries.try_get h k ≡ ((m k, none), h')) × HoldsBlobs h' m
    unfolding SecureTrie.try_get
    storage_get h m k a =
        let g =
          try_get_value-Got a.height h.fuel h.trie.trie a.values (b.hash_key (b.key_bytes k))
            a.refines (hash_bytes k) (omega (arith, a.enough)) in
        let h' : Fuelled = record h { trie = record (h.trie) { trie = g.trie } } in
        (
          h',
          ap (λ o. got h (and_then o (λ x u. returns (x.0, record (h.trie) { trie = x.1 }, x.2) u)))
                g.result_eq
              ∙ ap (λ v. ((v, none), h'))
                  (ap value_or_nil (a.value_eq k) ∙ value_or_nil-value_of (m k)),
          record {
            height = a.height;
            values = a.values;
            refines = g.refines;
            enough = a.enough;
            value_eq = a.value_eq;
          },
        )

    -- The cache of the keys does not touch the trie.
    get_sec_key_cache-trie : (t : StateTrie) → (get_sec_key_cache t).trie ≡ t.trie
    unfolding get_sec_key_cache
    get_sec_key_cache-trie t = by_owner t.owns_cache
      where
        by_owner :
            (c : Bool)
            → (if c
                then t
                else record t { sec_key_cache = SecureTrie.no_entries; owns_cache = true }).trie
              ≡ t.trie
        by_owner true = refl
        by_owner false = refl

    pub storage_update :
        (h : Fuelled) (m : Blobs) (k : Hash) (v : Bytes)
        → HoldsBlobs h m
        → (h' : Fuelled) × (storage_tries.try_update h k v ≡ (none, h')) × HoldsBlobs h' (put m k v)
    unfolding SecureTrie.try_update
    storage_update h m k v a =
        let hk = b.hash_key (b.key_bytes k) in
        let g =
          try_update-Edited a.height h.fuel h.trie.trie a.values hk v a.refines (hash_bytes k)
            a.enough in
        let t : StateTrie = record (h.trie) { trie = g.trie } in
        let c = get_sec_key_cache t in
        let h' : Fuelled = record {
          fuel = suc (suc h.fuel);
          trie = record c {
            sec_key_cache = SecureTrie.with_entry c.sec_key_cache hk (some (b.key_bytes k));
          };
        } in
        (
          h',
          ap
              (λ o.
                edited_with (suc (suc h.fuel)) h
                  (and_then o (updated b.hash_key h.trie (b.key_bytes k))))
              g.result_eq,
          record {
            height = suc (suc a.height);
            values = Methods.put a.values hk (value_of v);
            refines =
                subst (λ u. Refines (suc (suc a.height)) u (Methods.put a.values hk (value_of v)))
                  (sym (get_sec_key_cache-trie t)) g.refines;
            enough = omega (arith, a.enough);
            value_eq = put_value_eq a.values m k v a.value_eq;
          },
        )

    pub storage_delete :
        (h : Fuelled) (m : Blobs) (k : Hash)
        → HoldsBlobs h m
        → (h' : Fuelled) × (storage_tries.try_delete h k ≡ (none, h')) × HoldsBlobs h' (put m k [])
    unfolding SecureTrie.try_delete
    storage_delete h m k a =
        let hk = b.hash_key (b.key_bytes k) in
        let g =
          try_delete-Edited a.height h.fuel h.trie.trie a.values hk a.refines (hash_bytes k)
            (omega (arith, a.enough)) in
        let c = get_sec_key_cache h.trie in
        let forgot : StateTrie = record c {
          sec_key_cache = SecureTrie.with_entry c.sec_key_cache hk none;
        } in
        let start : Outcome (Trie × Option TrieError) = Update.try_delete h.fuel h.trie.trie hk in
        let finish : Outcome (Trie × Option TrieError) → Option ℕ × Fuelled = λ o.
          edited_with h.fuel h
            (and_then o (λ r u. returns (record forgot { trie = r.0 }, r.1) u)) in
        (
          record { fuel = h.fuel; trie = record forgot { trie = g.trie } },
          ap finish g.result_eq,
          record {
            height = a.height;
            values = Methods.put a.values hk none;
            refines = g.refines;
            enough = a.enough;
            value_eq = put_value_eq a.values m k [] a.value_eq;
          },
        )

    pub storage_copy :
        (h : Fuelled) (m : Blobs) → HoldsBlobs h m → HoldsBlobs (storage_tries.copy h) m
    unfolding SecureTrie.copy Trie.copy
    storage_copy h m a = record {
      height = a.height;
      values = a.values;
      refines = record {
        content = a.refines.content;
        holds = a.refines.holds;
        content_eq = a.refines.content_eq;
      };
      enough = a.enough;
      value_eq = a.value_eq;
    }

    abbrev pub storage_laws : TrieLaws storage_tries
    storage_laws = record {
      Holds = HoldsBlobs;
      get-Holds = storage_get;
      update-Holds = storage_update;
      delete-Holds = storage_delete;
      copy-Holds = storage_copy;
    }

  -- A trie that is opened at the root of the empty trie holds nothing.
  pub record OpensEmpty (o : OrError Fuelled) : Type 0 where
    pub trie : Fuelled
    pub result_eq : o ≡ ok trie
    pub holds : HoldsBlobs trie (λ k. [])

  pub open_storage_trie-OpensEmpty :
      (fuel : ℕ) (state_root addr_hash root : Hash)
      → 1 < fuel
      → has_reader (b.reader state_root addr_hash).reader ≡ true
      → b.root_bytes root ≡ empty_root
      → OpensEmpty (open_storage_trie fuel state_root addr_hash root)
  unfolding open_storage_trie new_state_trie
  open_storage_trie-OpensEmpty fuel state_root addr_hash root l h e =
      let r = b.reader state_root addr_hash in
      let o =
        new-Opened_empty r addr_hash (b.root_bytes root) h
          (ap (λ x. same x zero_root || same x empty_root) e) in
      record {
        trie = record {
          fuel = fuel;
          trie = record {
            trie = o.trie;
            preimages = b.preimages;
            sec_key_cache = SecureTrie.no_entries;
            owns_cache = false;
          };
        };
        result_eq = ap (λ x. opened_with fuel (and_then x (state_trie_of b.preimages))) o.result_eq;
        holds = record {
          height = 1;
          values = λ k. none;
          refines = o.refines;
          enough = l;
          value_eq = λ k. refl;
        };
      }

-- A database whose storage tries are these.
abbrev pub with_storage_tries : Below → ℕ → Env Fuelled → Env Fuelled
with_storage_tries b fuel env = record env {
  tries = storage_tries b;
  open_storage_trie = open_storage_trie b fuel;
}
