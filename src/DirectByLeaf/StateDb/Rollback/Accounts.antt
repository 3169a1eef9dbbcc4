-- ===== src/DirectByLeaf/StateDb/Rollback/Accounts.antt =====
-- state_object.go: the journal takes back a write on a live object.
use ipld_eth_statedb.Base.{
  ℕ, ◌≡◌, refl, ap, ap₂, ◌∙◌, sym, subst, Bool, true, false, none, some, some_inj, [], ◌∷◌,
  insert-insert, insert_self, ◌==◌, ==_refl, ==_iff, if◌then◌else◌, ℤ, pos, is_zero, ◌+ℤ◌, ◌-ℤ◌,
}
use ipld_eth_statedb.DirectByLeaf.Types.{Address}
use ipld_eth_statedb.DirectByLeaf.Env.{Env}
use ipld_eth_statedb.DirectByLeaf.StateObject
use ipld_eth_statedb.DirectByLeaf.StateObject.{StateObject}
use ipld_eth_statedb.DirectByLeaf.StateDb.{StateDb, JournalEntry, touch_change}
use ipld_eth_statedb.DirectByLeaf.StateDb.Access.{set_state_object}
use ipld_eth_statedb.DirectByLeaf.StateDb.Revert.{journal_append, dirty}
use ipld_eth_statedb.DirectByLeaf.StateDb.Setters.{
  object_set_balance, object_set_nonce, object_sub_balance, object_add_balance, object_suicide,
  touch, ripemd,
}
use ipld_eth_statedb.DirectByLeaf.StateDb.View.{
  AccountView, StateView, view, object_view, bind_option,
}
use ipld_eth_statedb.DirectByLeaf.StateDb.View.Find.{view-set_state_object}
use ipld_eth_statedb.DirectByLeaf.StateDb.View.Undo.{
  undo_view, write_account, write_account_if, set_view,
}
use ipld_eth_statedb.DirectByLeaf.StateDb.Rollback.Valid.{IsValid, Safe, Safe-refl, Safe-of_entries}

module _ (env : Env) where
  -- The view's account at the object's address is the object's, and it is not deleted.
  pub record Holds (s : StateDb) (obj : StateObject) : Type 0 where
    pub held : (view env s).accounts obj.address ≡ some (object_view env obj)
    pub is_alive : obj.deleted ≡ false

  pub set_view-IsValid :
      (v : StateView) (a : Address) (x : AccountView)
      → IsValid v
      → x.address ≡ a
      → x.fake ≡ none
      → IsValid (set_view env v a x)
  set_view-IsValid v a x w e f = record {
    keyed = λ b y h. keyed_at (a == b) b y (λ c. (==_iff a b).0 c) h;
    no_fake = λ b y h. no_fake_at (a == b) b y h;
    access = w.access;
    logs_filled = w.logs_filled;
    log_size_fits = w.log_size_fits;
  }
    where
      keyed_at :
          (c : Bool) (b : Address) (y : AccountView)
          → (c ≡ true → a ≡ b)
          → (if c then some x else v.accounts b) ≡ some y
          → y.address ≡ b
      keyed_at true b y i h = ap (λ (z : AccountView). z.address) (sym (some_inj h)) ∙ e ∙ i refl
      keyed_at false b y i h = w.keyed b y h

      no_fake_at :
          (c : Bool) (b : Address) (y : AccountView)
          → (if c then some x else v.accounts b) ≡ some y
          → y.fake ≡ none
      no_fake_at true b y h = ap (λ (z : AccountView). z.fake) (sym (some_inj h)) ∙ f
      no_fake_at false b y h = w.no_fake b y h

  -- The account `x` at its address `a`, written over by `x'`, and written back.
  written_back :
      (v : StateView) (a : Address) (x x' : AccountView) (u : AccountView → AccountView)
      → v.accounts a ≡ some x
      → x'.address ≡ a
      → u x' ≡ x
      → set_view env (set_view env v a x') x'.address (u x') ≡ v
  written_back v a x x' u h e q =
      ap₂ (set_view env (set_view env v a x')) e q
      ∙ ap (λ m. let w : StateView = record v { accounts = m } in w)
          (insert-insert v.accounts a x' x ∙ insert_self v.accounts a x h)

  pub account_back :
      (v : StateView) (a : Address) (x x' : AccountView) (u : AccountView → AccountView)
      → v.accounts a ≡ some x
      → x'.address ≡ a
      → x'.deleted ≡ false
      → u x' ≡ x
      → write_account u (set_view env v a x') ((set_view env v a x').accounts a) ≡ some v
  account_back v a x x' u h e d q =
      ap (write_account u (set_view env v a x'))
        (ap (λ c. if c then some x' else v.accounts a) (==_refl a))
      ∙ ap (λ c. if c then none else some (set_view env (set_view env v a x') x'.address (u x'))) d
      ∙ ap some (written_back v a x x' u h e q)

  account_back_if :
      (v : StateView) (a : Address) (x x' : AccountView) (u : AccountView → AccountView)
      → v.accounts a ≡ some x
      → x'.address ≡ a
      → x'.deleted ≡ false
      → u x' ≡ x
      → write_account_if u (set_view env v a x') ((set_view env v a x').accounts a) ≡ v
  account_back_if v a x x' u h e d q =
      ap (write_account_if u (set_view env v a x'))
        (ap (λ c. if c then some x' else v.accounts a) (==_refl a))
      ∙ ap
          (λ c.
            if c then set_view env v a x' else set_view env (set_view env v a x') x'.address (u x'))
          d
      ∙ written_back v a x x' u h e q

  -- A method that journals `e` and writes `obj'` back in place of `obj`, where undoing `e` takes the
  -- new account back.
  pub written-Safe :
      (s : StateDb) (obj obj' : StateObject) (e : JournalEntry)
      → IsValid (view env s)
      → Holds s obj
      → obj'.address ≡ obj.address
      → obj'.fake_storage ≡ obj.fake_storage
      → undo_view env e (set_view env (view env s) obj.address (object_view env obj'))
        ≡ some (view env s)
      → Safe env s (set_state_object (journal_append s e) obj')
  unfolding journal_append
  written-Safe s obj obj' e v h a f q =
      let shown =
        view-set_state_object env (journal_append s e) obj'
        ∙ ap (λ b. set_view env (view env s) b (object_view env obj')) a in
      Safe-of_entries env s _ (e ∷ [])
        (subst IsValid (sym shown) (
          set_view-IsValid (view env s) obj.address (object_view env obj') v a
            (f ∙ v.no_fake obj.address (object_view env obj) h.held)))
        (unfold set_state_object in record { revisions_eq = refl; next_eq = refl })
        (unfold set_state_object in refl)
        (ap (λ w. bind_option (undo_view env e w) some) shown ∙ ap (λ o. bind_option o some) q)

  pub object_set_balance-Safe :
      (s : StateDb) (obj : StateObject) (amount : ℤ)
      → IsValid (view env s)
      → Holds s obj
      → Safe env s (object_set_balance obj amount s)
  unfolding object_set_balance StateObject.set_balance_field
  object_set_balance-Safe s obj amount v h =
      written-Safe s obj (StateObject.set_balance_field obj amount) _ v h refl refl (
        account_back (view env s) obj.address (object_view env obj) _ _ h.held refl h.is_alive refl)

  pub object_set_nonce-Safe :
      (s : StateDb) (obj : StateObject) (nonce : ℕ)
      → IsValid (view env s)
      → Holds s obj
      → Safe env s (object_set_nonce obj nonce s)
  unfolding object_set_nonce StateObject.set_nonce_field
  object_set_nonce-Safe s obj nonce v h =
      written-Safe s obj (StateObject.set_nonce_field obj nonce) _ v h refl refl (
        account_back (view env s) obj.address (object_view env obj) _ _ h.held refl h.is_alive refl)

  pub object_suicide-Safe :
      (s : StateDb) (obj : StateObject)
      → IsValid (view env s)
      → Holds s obj
      → Safe env s (object_suicide obj s)
  unfolding StateObject.set_balance_field StateObject.mark_suicided journal_append
  object_suicide-Safe s obj v h =
      written-Safe s obj (StateObject.set_balance_field (StateObject.mark_suicided obj) (pos 0)) _ v
        h refl refl
        (ap some (
          account_back_if (view env s) obj.address (object_view env obj) _ _ h.held refl h.is_alive
            refl))

  pub object_sub_balance-Safe :
      (s : StateDb) (obj : StateObject) (amount : ℤ)
      → IsValid (view env s)
      → Holds s obj
      → Safe env s (object_sub_balance obj amount s)
  unfolding object_sub_balance
  object_sub_balance-Safe s obj amount v h = if_zero (is_zero amount)
    where
      if_zero :
          (c : Bool)
          → Safe env s (if c then s else object_set_balance obj (obj.account.balance -ℤ amount) s)
      if_zero true = Safe-refl env s v
      if_zero false = object_set_balance-Safe s obj (obj.account.balance -ℤ amount) v h

  touch-Safe : (s : StateDb) (obj : StateObject) → IsValid (view env s) → Safe env s (touch obj s)
  unfolding touch
  touch-Safe s obj v = if_ripemd (obj.address == ripemd)
    where
      t : StateDb
      t = journal_append s (touch_change obj.address)

      valid : IsValid (view env t)
      valid = record {
        keyed = v.keyed;
        no_fake = v.no_fake;
        access = v.access;
        logs_filled = v.logs_filled;
        log_size_fits = v.log_size_fits;
      }

      if_ripemd :
          (c : Bool)
          → Safe env s (if c then record t { journal = dirty t.journal obj.address } else t)
      if_ripemd true =
          unfold dirty in
          Safe-of_entries env s _ (touch_change obj.address ∷ []) valid
            (record { revisions_eq = refl; next_eq = refl }) refl refl
      if_ripemd false =
          Safe-of_entries env s _ (touch_change obj.address ∷ []) valid
            (record { revisions_eq = refl; next_eq = refl }) refl refl

  pub object_add_balance-Safe :
      (s : StateDb) (obj : StateObject) (amount : ℤ)
      → IsValid (view env s)
      → Holds s obj
      → Safe env s (object_add_balance env obj amount s)
  unfolding object_add_balance
  object_add_balance-Safe s obj amount v h = if_zero (is_zero amount) (StateObject.empty env obj)
    where
      if_zero :
          (c d : Bool)
          → Safe env s (
              if c
              then (if d then touch obj s else s)
              else object_set_balance obj (obj.account.balance +ℤ amount) s)
      if_zero true true = touch-Safe s obj v
      if_zero true false = Safe-refl env s v
      if_zero false d = object_set_balance-Safe s obj (obj.account.balance +ℤ amount) v h
