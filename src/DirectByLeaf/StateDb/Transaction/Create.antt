-- ===== src/DirectByLeaf/StateDb/Transaction/Create.antt =====
-- statedb.go: what a caller reads of an account after CreateAccount.
use ipld_eth_statedb.Base.{
  [], ◌≡◌, ◌≢◌, refl, ap, ◌∙◌, sym, subst, Bool, true, false, Option, none, some, pos, ℤ, ◌==◌,
  ==_iff, ==_refl, if◌then◌else◌, Bool-cases, ◌⊎◌, inl, inr, insert, Map,
}
use ipld_eth_statedb.DirectByLeaf.Types.{Address, zero_hash}
use ipld_eth_statedb.DirectByLeaf.Env.{Env}
use ipld_eth_statedb.DirectByLeaf.StateObject.{StateObject, new_object, set_balance_field}
use ipld_eth_statedb.DirectByLeaf.StateDb.{StateDb}
use ipld_eth_statedb.DirectByLeaf.StateDb.Access.{
  exist, get_balance, get_nonce, get_code_hash, get_deleted_state_object, set_state_object,
}
use ipld_eth_statedb.DirectByLeaf.StateDb.Revert.{journal_append}
use ipld_eth_statedb.DirectByLeaf.StateDb.Setters.{
  create_account, create_object, create_over, carry_balance, no_account,
}
use ipld_eth_statedb.DirectByLeaf.StateDb.View.{
  AccountView, StateView, view, object_view, found, map_option,
}
use ipld_eth_statedb.DirectByLeaf.StateDb.View.Find.{get_deleted_state_object-Finds}
use ipld_eth_statedb.DirectByLeaf.StateDb.View.Getters.{getters-view, read_account}

module _ (env : Env) where
  -- The account is there, with the balance and nothing else of the one before, and all other accounts
  -- are as they were.
  pub record Carries (s : StateDb) (a : Address) (t : StateDb) : Type 0 where
    pub exist_eq : (exist env t a).0 ≡ true
    pub balance_eq : (get_balance env t a).0 ≡ (get_balance env s a).0
    pub nonce_eq : (get_nonce env t a).0 ≡ 0
    pub code_hash_eq : (get_code_hash env t a).0 ≡ env.keccak_code []
    pub others_eq : (b : Address) → b ≢ a → (view env t).accounts b ≡ (view env s).accounts b

  abbrev balance_in : Option AccountView → ℤ
  balance_in o = read_account (pos 0) (λ x. x.account.balance) o

  -- A state with the new object at its address, and the balance that stood there.
  record Stands (v : StateView) (a : Address) (t : StateDb) : Type 0 where
    object : StateObject
    object_eq : t.state_objects a ≡ some object
    alive_eq : object.deleted ≡ false
    nonce_eq : object.account.nonce ≡ 0
    code_hash_eq : object.account.code_hash ≡ env.keccak_code []
    balance_eq : object.account.balance ≡ balance_in (v.accounts a)
    others_eq : (b : Address) → b ≢ a → (view env t).accounts b ≡ v.accounts b

  Stands-Carries : (s t : StateDb) (a : Address) → Stands (view env s) a t → Carries s a t
  Stands-Carries s t a m =
      let g = getters-view env t a zero_hash in
      record {
        exist_eq = g.exist_eq ∙ reads false (λ x. true);
        balance_eq =
            g.balance_eq
            ∙ reads (pos 0) (λ x. x.account.balance)
            ∙ m.balance_eq
            ∙ sym (getters-view env s a zero_hash).balance_eq;
        nonce_eq = g.nonce_eq ∙ reads 0 (λ x. x.account.nonce) ∙ m.nonce_eq;
        code_hash_eq = g.code_hash_eq ∙ reads zero_hash (λ x. x.account.code_hash) ∙ m.code_hash_eq;
        others_eq = m.others_eq;
      }
    where
      reads :
          {A : Type 0} (missing : A) (f : AccountView → A)
          → read_account missing f ((view env t).accounts a) ≡ f (object_view env m.object)
      reads missing f =
          ap
            (λ o.
              read_account missing f
                (map_option (object_view env) (found env a t.origin_block_hash o)))
            m.object_eq
          ∙ ap (λ d. if d then missing else f (object_view env m.object)) m.alive_eq

  at_own : {V : Type 0} (m : Map V) (a : Address) (v : V) → insert m a v a ≡ some v
  at_own m a v = rw (==_refl a) refl

  at_other : {V : Type 0} (m : Map V) (a b : Address) (v : V) → b ≢ a → insert m a v b ≡ m b
  at_other m a b v n = by_test (Bool-cases (a == b))
    where
      by_test : ((a == b) ≡ true) ⊎ ((a == b) ≡ false) → insert m a v b ≡ m b
      by_test (inl e) = absurd (n (sym ((==_iff a b).0 e)))
      by_test (inr e) = rw e refl

  view_at :
      (s : StateDb) (b : Address) (o : Option StateObject)
      → o ≡ s.state_objects b
      → map_option (object_view env) (found env b s.origin_block_hash o) ≡ (view env s).accounts b
  view_at s b o e = ap (λ x. map_option (object_view env) (found env b s.origin_block_hash x)) e

  created-Stands :
      (o : Option StateObject) (s : StateDb) (a : Address)
      → (view env s).accounts a ≡ map_option (object_view env) o
      → Stands (view env s) a (carry_balance env (create_over env a (o, s)))
  unfolding journal_append new_object set_state_object set_balance_field
  created-Stands none s a e =
      let obj = new_object env a (no_account env) s.origin_block_hash in
      record {
        object = obj;
        object_eq = at_own s.state_objects a obj;
        alive_eq = refl;
        nonce_eq = refl;
        code_hash_eq = refl;
        balance_eq = ap balance_in (sym e);
        others_eq = λ b n. view_at s b _ (at_other s.state_objects a b obj n);
      }
  created-Stands (some prev) s a e = by_mark prev.deleted refl
    where
      by_mark :
          (d : Bool)
          → prev.deleted ≡ d
          → Stands (view env s) a (
              carry_balance env (
                (create_over env a (some prev, s)).0,
                (if d then none else some prev),
                (create_over env a (some prev, s)).2,
              ))
      by_mark true q =
          let obj = new_object env a (no_account env) s.origin_block_hash in
          record {
            object = obj;
            object_eq = at_own s.state_objects a obj;
            alive_eq = refl;
            nonce_eq = refl;
            code_hash_eq = refl;
            balance_eq =
                sym (ap balance_in e ∙ ap (λ d. if d then pos 0 else prev.account.balance) q);
            others_eq = λ b n. view_at s b _ (at_other s.state_objects a b obj n);
          }
      by_mark false q =
          let obj = new_object env a (no_account env) s.origin_block_hash in
          let rich = set_balance_field obj prev.account.balance in
          record {
            object = rich;
            object_eq = at_own (insert s.state_objects a obj) a rich;
            alive_eq = refl;
            nonce_eq = refl;
            code_hash_eq = refl;
            balance_eq =
                sym (ap balance_in e ∙ ap (λ d. if d then pos 0 else prev.account.balance) q);
            others_eq = λ b n. view_at s b _ (
                at_other (insert s.state_objects a obj) a b rich n
                ∙ at_other s.state_objects a b obj n);
          }

  -- After CreateAccount the account exists, with the balance that GetBalance gave before, the nonce 0 and
  -- the hash of the empty code, and all other accounts are as they were; an account that was deleted, or
  -- is missing, gives the balance 0.
  pub create_account-Carries : (s : StateDb) (a : Address) → Carries s a (create_account env s a)
  unfolding create_account create_object
  create_account-Carries s a =
      let r = get_deleted_state_object env s a in
      let f = get_deleted_state_object-Finds env s a in
      Stands-Carries s (create_account env s a) a (
        subst (λ v. Stands v a (create_account env s a)) f.view_eq
          (created-Stands r.0 r.1 a (
            ap (λ (v : StateView). v.accounts a) f.view_eq
            ∙ ap (map_option (object_view env)) (sym f.object_eq))))
