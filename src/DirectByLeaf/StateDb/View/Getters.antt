-- ===== src/DirectByLeaf/StateDb/View/Getters.antt =====
-- statedb.go: what the getters answer, read off the view.
use ipld_eth_statedb.Base.{
  ◌≡◌, refl, ap, ◌∙◌, Bool, true, false, Option, none, some, if◌then◌else◌, pos,
}
use ipld_eth_statedb.DirectByLeaf.Types.{Address, Hash, zero_hash}
use ipld_eth_statedb.DirectByLeaf.Env.{Env}
use ipld_eth_statedb.DirectByLeaf.StateObject.{StateObject}
use ipld_eth_statedb.DirectByLeaf.StateDb.{StateDb}
use ipld_eth_statedb.DirectByLeaf.StateDb.Access.{
  exist, get_balance, get_nonce, get_code_hash, has_suicided, get_code, get_state,
  get_committed_state, get_state_object, get_deleted_state_object, alive, field_of, answer_of,
}
use ipld_eth_statedb.DirectByLeaf.StateDb.View.{AccountView, view, object_view, map_option}
use ipld_eth_statedb.DirectByLeaf.StateDb.View.Objects.{
  Reads, through, get_code-Reads, get_state-Reads, get_committed_state-Reads,
}
use ipld_eth_statedb.DirectByLeaf.StateDb.View.Find.{get_deleted_state_object-Finds}

-- What a reading of the account at an address gives: `missing` where none is there or it was deleted.
abbrev pub read_account {ℓ} : {A : Type ℓ} → A → (AccountView → A) → Option AccountView → A
read_account missing f none = missing
read_account missing f (some x) = if x.deleted then missing else f x

module _ (env : Env) where
  abbrev pub reading {ℓ} : {A : Type ℓ} → A → (AccountView → A) → StateDb → Address → A
  reading missing f s a = read_account missing f ((view env s).accounts a)

  field_of-reading :
      {A : Type 0} (missing : A) (f : AccountView → A) (s : StateDb) (a : Address)
      → (field_of env missing (λ o. f (object_view env o)) (get_state_object env s a)).0
        ≡ reading missing f s a
  unfolding get_state_object
  field_of-reading missing f s a =
      at_found (get_deleted_state_object env s a).0
      ∙ ap (λ o. read_account missing f (map_option (object_view env) o))
          (get_deleted_state_object-Finds env s a).object_eq
    where
      at_found :
          (o : Option StateObject)
          → (field_of env missing
              (λ o. f (object_view env o))
              (alive o, (get_deleted_state_object env s a).1)).0
            ≡ read_account missing f (map_option (object_view env) o)
      at_found none = refl
      at_found (some o) = if_deleted o.deleted
        where
          if_deleted :
              (d : Bool)
              → (field_of env missing
                  (λ o. f (object_view env o))
                  ((if d then none else some o), (get_deleted_state_object env s a).1)).0
                ≡ (if d then missing else f (object_view env o))
          if_deleted true = refl
          if_deleted false = refl

  answer_of-reading :
      {A : Type 0} (missing : A) (read : StateObject → A × StateObject) (f : AccountView → A)
      (s : StateDb) (a : Address)
      → ((o : StateObject) → Reads env o (f (object_view env o)) (read o))
      → (answer_of env missing read (get_state_object env s a)).0 ≡ reading missing f s a
  unfolding get_state_object
  answer_of-reading missing read f s a reads =
      at_found (get_deleted_state_object env s a).0
      ∙ ap (λ o. read_account missing f (map_option (object_view env) o))
          (get_deleted_state_object-Finds env s a).object_eq
    where
      at_found :
          (o : Option StateObject)
          → (answer_of env missing read (alive o, (get_deleted_state_object env s a).1)).0
            ≡ read_account missing f (map_option (object_view env) o)
      at_found none = refl
      at_found (some o) = if_deleted o.deleted
        where
          if_deleted :
              (d : Bool)
              → (answer_of env missing read
                  ((if d then none else some o), (get_deleted_state_object env s a).1)).0
                ≡ (if d then missing else f (object_view env o))
          if_deleted true = refl
          if_deleted false = (reads o).value_eq

  pub record Answers (s : StateDb) (a : Address) (key : Hash) : Type 0 where
    pub exist_eq : (exist env s a).0 ≡ reading false (λ x. true) s a
    pub balance_eq : (get_balance env s a).0 ≡ reading (pos 0) (λ x. x.account.balance) s a
    pub nonce_eq : (get_nonce env s a).0 ≡ reading 0 (λ x. x.account.nonce) s a
    pub code_hash_eq : (get_code_hash env s a).0 ≡ reading zero_hash (λ x. x.account.code_hash) s a
    pub suicided_eq : (has_suicided env s a).0 ≡ reading false (λ x. x.suicided) s a
    pub code_eq : (get_code env s a).0 ≡ reading none (λ x. x.code) s a
    pub state_eq :
        (get_state env s a key).0 ≡ reading zero_hash (λ x. through x.fake key (x.stored key)) s a
    pub committed_eq :
        (get_committed_state env s a key).0
        ≡ reading zero_hash (λ x. through x.fake key (x.committed key)) s a

  -- Every getter answers from the view alone: existence, balance, nonce, code hash, the suicide mark,
  -- code, current and committed slots, with the zero value for an account that is missing or deleted.
  pub getters-view : (s : StateDb) (a : Address) (key : Hash) → Answers s a key
  unfolding exist get_balance get_nonce get_code_hash has_suicided get_code get_state
      get_committed_state
  getters-view s a key = record {
    exist_eq = field_of-reading false (λ x. true) s a;
    balance_eq = field_of-reading (pos 0) (λ x. x.account.balance) s a;
    nonce_eq = field_of-reading 0 (λ x. x.account.nonce) s a;
    code_hash_eq = field_of-reading zero_hash (λ x. x.account.code_hash) s a;
    suicided_eq = field_of-reading false (λ x. x.suicided) s a;
    code_eq = answer_of-reading none _ (λ x. x.code) s a (get_code-Reads env);
    state_eq =
        answer_of-reading zero_hash _ (λ x. through x.fake key (x.stored key)) s a
          (λ o. get_state-Reads env o key);
    committed_eq =
        answer_of-reading zero_hash _ (λ x. through x.fake key (x.committed key)) s a
          (λ o. get_committed_state-Reads env o key);
  }
