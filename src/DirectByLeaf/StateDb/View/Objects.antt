-- ===== src/DirectByLeaf/StateDb/View/Objects.antt =====
-- state_object.go: reading an object answers from its view and leaves the view as it is.
use ipld_eth_statedb.Base.{
  ℕ, ◌≡◌, refl, ap, ◌∙◌, sym, fun_ext, Bool, true, false, Option, none, some, ◌==◌, if◌then◌else◌,
  length, get_or, or_zero, insert, subst, ==_iff,
}
use ipld_eth_statedb.DirectByLeaf.Types.{Hash, Bytes, Storage, zero_hash}
use ipld_eth_statedb.DirectByLeaf.Env.{Env}
use ipld_eth_statedb.DirectByLeaf.StateObject.{
  StateObject, get_state, get_committed_state, get_code, set_error, committed_or_load,
  load_slot_value, load_slot_answer, load_code_value, note_error, empty_code_hash, DbError,
}
use ipld_eth_statedb.DirectByLeaf.StateDb.View.{
  AccountView, object_view, committed_value, slot_answer, code_value,
}

-- The value of a slot that the view gives, through the fake storage where there is one.
abbrev pub through : Option Storage → Hash → Hash → Hash
through none key value = value
through (some fake) key value = get_or fake key zero_hash

module _ (env : Env) where
  -- An answer of an object's method: a value, and an object of the same view.
  pub record Reads {ℓ} {A : Type ℓ} (o : StateObject) (value : A) (r : A × StateObject)
      : Type ℓ where
    pub value_eq : r.0 ≡ value
    pub view_eq : object_view env r.1 ≡ object_view env o
    pub address_eq : r.1.address ≡ o.address

  cached-view :
      (o : StateObject) (key value : Hash)
      → committed_value env o.addr_hash o.block_hash (o.origin_storage key) key ≡ value
      → object_view env (record o { origin_storage = insert o.origin_storage key value })
        ≡ object_view env o
  cached-view o key value h =
      ap
        (λ (c : Hash → Hash).
          let v : AccountView = record (object_view env o) {
            committed = c;
            stored = λ k. or_zero (o.dirty_storage k) (c k);
          } in
          v)
        (fun_ext λ k. committed_insert (key == k) k (λ e. (==_iff key k).0 e))
    where
      committed_insert :
          (c : Bool) (k : Hash)
          → (c ≡ true → key ≡ k)
          → committed_value env o.addr_hash o.block_hash
              (if c then some value else o.origin_storage k)
              k
            ≡ committed_value env o.addr_hash o.block_hash (o.origin_storage k) k
      committed_insert false k e = refl
      committed_insert true k e =
          sym h
          ∙ ap (λ j. committed_value env o.addr_hash o.block_hash (o.origin_storage j) j) (e refl)

  decoded-Reads :
      (o : StateObject) (key x : Hash) (blank : Bool) (err : Option ℕ)
      → committed_value env o.addr_hash o.block_hash (o.origin_storage key) key
        ≡ (if blank then zero_hash else x)
      → Reads o (if blank then zero_hash else x) (
          let r : Hash × StateObject =
            if blank then (zero_hash, o) else (x, note_error o err DbError.split_slot) in
          (r.0, record (r.1) { origin_storage = insert r.1.origin_storage key r.0 }))
  unfolding set_error
  decoded-Reads o key x true err h = record {
    value_eq = refl;
    view_eq = cached-view o key zero_hash h;
    address_eq = refl;
  }
  decoded-Reads o key x false none h = record {
    value_eq = refl;
    view_eq = cached-view o key x h;
    address_eq = refl;
  }
  decoded-Reads o key x false (some e) h = record {
    value_eq = refl;
    view_eq = cached-view o key x h;
    address_eq = refl;
  }

  loaded-Reads :
      (o : StateObject) (key : Hash) (answer : Bytes × Option ℕ)
      → committed_value env o.addr_hash o.block_hash (o.origin_storage key) key
        ≡ slot_answer env answer
      → Reads o (slot_answer env answer) (load_slot_answer env o key answer)
  unfolding set_error
  loaded-Reads o key (enc, some e) h = record { value_eq = refl; view_eq = refl; address_eq = refl }
  loaded-Reads o key (enc, none) h =
      decoded-Reads o key (env.bytes_to_hash (env.rlp_split enc).0) (length enc == 0)
        (env.rlp_split enc).1 h

  committed-Reads :
      (o : StateObject) (key : Hash) (v : Option Hash)
      → o.origin_storage key ≡ v
      → Reads o
          (committed_value env o.addr_hash o.block_hash v key)
          (elim v [ some value ↦ (value, o) | none ↦ load_slot_value env o key ])
  committed-Reads o key (some v) e = record { value_eq = refl; view_eq = refl; address_eq = refl }
  committed-Reads o key none e =
      loaded-Reads o key (env.db.storage_value o.addr_hash (env.keccak_key key) o.block_hash)
        (ap (λ v. committed_value env o.addr_hash o.block_hash v key) e)

  through-Reads :
      (o : StateObject) (key value : Hash) (fake : Option Storage) (r : Hash × StateObject)
      → Reads o value r
      → Reads o
          (through fake key value)
          (elim fake [ some fake' ↦ (get_or fake' key zero_hash, o) | none ↦ r ])
  through-Reads o key value none r h = h
  through-Reads o key value (some fake) r h = record {
    value_eq = refl;
    view_eq = refl;
    address_eq = refl;
  }

  -- GetCommittedState answers from the view, which it keeps.
  pub get_committed_state-Reads :
      (o : StateObject) (key : Hash)
      → Reads o
          (through o.fake_storage key ((object_view env o).committed key))
          (get_committed_state env o key)
  unfolding get_committed_state
  get_committed_state-Reads o key =
      through-Reads o key _ o.fake_storage (committed_or_load env o key)
        (committed-Reads o key (o.origin_storage key) refl)

  through_twice :
      (fake : Option Storage) (key : Hash) (value : Hash)
      → through fake key (through fake key value) ≡ through fake key value
  through_twice none key value = refl
  through_twice (some fake) key value = refl

  dirty-Reads :
      (o : StateObject) (key : Hash) (v : Option Hash)
      → Reads o
          (or_zero v (through o.fake_storage key ((object_view env o).committed key)))
          (elim v [ some value ↦ (value, o) | none ↦ get_committed_state env o key ])
  dirty-Reads o key (some v) = record { value_eq = refl; view_eq = refl; address_eq = refl }
  dirty-Reads o key none = get_committed_state-Reads o key

  through-dirty :
      (fake : Option Storage) (key c : Hash) (v : Option Hash)
      → through fake key (or_zero v (through fake key c)) ≡ through fake key (or_zero v c)
  through-dirty none key c v = refl
  through-dirty (some fake) key c v = refl

  -- GetState answers from the view, which it keeps.
  pub get_state-Reads :
      (o : StateObject) (key : Hash)
      → Reads o (through o.fake_storage key ((object_view env o).stored key)) (get_state env o key)
  unfolding get_state
  get_state-Reads o key =
      subst (λ value. Reads o value (get_state env o key))
        (through-dirty o.fake_storage key ((object_view env o).committed key) (o.dirty_storage key))
        (through-Reads o key _ o.fake_storage _ (dirty-Reads o key (o.dirty_storage key)))

  code_settles :
      (code : Option Bytes) (h : Hash)
      → code_value env none h ≡ code
      → code_value env code h ≡ code_value env none h
  code_settles none h e = refl
  code_settles (some c) h e = sym e

  with_code : (o : StateObject) (c : Option Bytes) → AccountView
  with_code o c = record (object_view env o) { code = c }

  coded-view :
      (o : StateObject) (code : Option Bytes)
      → o.code ≡ none
      → code_value env none o.account.code_hash ≡ code
      → object_view env (record o { code = code }) ≡ object_view env o
  unfolding with_code
  coded-view o code e h = ap (with_code o) (
      code_settles code o.account.code_hash h
      ∙ ap (λ c. code_value env c o.account.code_hash) (sym e))

  coded-Reads :
      (o : StateObject) (blank : Bool) (answer : Option Bytes × Option ℕ)
      → o.code ≡ none
      → code_value env none o.account.code_hash ≡ (if blank then none else answer.0)
      → Reads o
          (if blank then none else answer.0)
          (if blank then (none, o) else load_code_value env o answer)
  unfolding set_error
  coded-Reads o true answer e h = record { value_eq = refl; view_eq = refl; address_eq = refl }
  coded-Reads o false (code, none) e h = record {
    value_eq = refl;
    view_eq = coded-view o code e h;
    address_eq = refl;
  }
  coded-Reads o false (code, some err) e h = record {
    value_eq = refl;
    view_eq = coded-view o code e h;
    address_eq = refl;
  }

  get_code_at :
      (o : StateObject) (c : Option Bytes)
      → o.code ≡ c
      → Reads o (code_value env c o.account.code_hash) (elim c [
        | some code ↦ (some code, o)
        | none ↦
            if o.account.code_hash == empty_code_hash env
            then (none, o)
            else load_code_value env o (env.db.contract_code o.account.code_hash)
      ])
  get_code_at o (some c) e = record { value_eq = refl; view_eq = refl; address_eq = refl }
  get_code_at o none e =
      coded-Reads o (o.account.code_hash == empty_code_hash env)
        (env.db.contract_code o.account.code_hash) e refl

  -- Code answers from the view, which it keeps.
  pub get_code-Reads : (o : StateObject) → Reads o (object_view env o).code (get_code env o)
  unfolding get_code
  get_code-Reads o = get_code_at o o.code refl

  -- The code that the view gives is settled: writing it back gives it again.
  pub code_value_twice :
      (c : Option Bytes) (h : Hash) → code_value env (code_value env c h) h ≡ code_value env c h
  code_value_twice (some c) h = refl
  code_value_twice none h = code_settles (code_value env none h) h refl
