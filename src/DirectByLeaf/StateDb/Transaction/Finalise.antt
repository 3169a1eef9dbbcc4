-- ===== src/DirectByLeaf/StateDb/Transaction/Finalise.antt =====
-- statedb.go: what Finalise does to an account that the journal dirtied.
use ipld_eth_statedb.Base.{
  ◌≡◌, refl, ap, ap₂, ◌∙◌, sym, Bool, true, false, ◌&&◌, ◌||◌, not, ◌⊎◌, ◌↔◌, inl, inr, pos, negsuc,
  ℤ, is_zero, ==_iff, ==_refl, Bool-cases, some, List, [], ◌∷◌, has, Map, if◌then◌else◌,
}
use ipld_eth_statedb.DirectByLeaf.Types.{Address, Hash, zero_hash}
use ipld_eth_statedb.DirectByLeaf.Env.{Env}
use ipld_eth_statedb.DirectByLeaf.StateObject
use ipld_eth_statedb.DirectByLeaf.StateObject.{StateObject}
use ipld_eth_statedb.DirectByLeaf.StateDb.{StateDb, JournalEntry}
use ipld_eth_statedb.DirectByLeaf.StateDb.Access.{exist, get_state, get_committed_state}
use ipld_eth_statedb.DirectByLeaf.StateDb.Lifecycle.{
  finalise, finalise_live, finalise_object, is_removed, is_removed_live, journal_or_new,
  clear_journal_and_refund,
}
use ipld_eth_statedb.DirectByLeaf.StateDb.View.{view, object_view, found, map_option}
use ipld_eth_statedb.DirectByLeaf.StateDb.View.Objects.{through}
use ipld_eth_statedb.DirectByLeaf.StateDb.View.Getters.{getters-view, read_account}

-- The parts of the state that clearing the journal leaves alone.
pub record SameObjects (s t : StateDb) : Type 0 where
  pub objects_eq : t.state_objects ≡ s.state_objects
  pub destruct_eq : t.state_objects_destruct ≡ s.state_objects_destruct
  pub pending_eq : t.state_objects_pending ≡ s.state_objects_pending
  pub origin_eq : t.origin_block_hash ≡ s.origin_block_hash

cleared-SameObjects :
    (s : StateDb) (es : List JournalEntry)
    → SameObjects s (record (journal_or_new es s) { valid_revisions = [] })
cleared-SameObjects s [] = record {
  objects_eq = refl;
  destruct_eq = refl;
  pending_eq = refl;
  origin_eq = refl;
}
cleared-SameObjects s (e ∷ es) = record {
  objects_eq = refl;
  destruct_eq = refl;
  pending_eq = refl;
  origin_eq = refl;
}

or_cases : (x y : Bool) → (x || y) ≡ true → (x ≡ true) ⊎ (y ≡ true)
or_cases true y h = inl refl
or_cases false y h = inr h

or_true : (x : Bool) → (x || true) ≡ true
or_true true = refl
or_true false = refl

and_true : (x y : Bool) → (x && y) ≡ true → (x ≡ true) × (y ≡ true)
and_true true y h = (refl, h)
and_true false y h = absurd (cc (h))

is_zero_pos : (x : ℤ) → is_zero x ≡ true → x ≡ pos 0
is_zero_pos (pos n) h = ap pos ((==_iff n 0).0 h)
is_zero_pos (negsuc n) h = absurd (cc (h))

module _ (env : Env) (s : StateDb) (d : Bool) (a : Address) (obj : StateObject)
    (dirtied : has s.journal.dirties a ≡ true) (live : s.state_objects a ≡ some obj) where
  -- The account that Finalise leaves.
  finalised-account :
      (view env (finalise env s d)).accounts a ≡ some (object_view env (finalise_object env d obj))
  unfolding finalise clear_journal_and_refund
  finalised-account =
      let same =
        cleared-SameObjects
          (record s {
            state_objects = λ b. finalise_live env d (has s.journal.dirties b) (s.state_objects b);
            state_objects_destruct = λ b.
                (has s.journal.dirties b && is_removed_live env d (s.state_objects b))
                || s.state_objects_destruct b;
            state_objects_pending =
                λ b. has s.journal.dirties b && has s.state_objects b || s.state_objects_pending b;
            state_objects_dirty =
                λ b. has s.journal.dirties b && has s.state_objects b || s.state_objects_dirty b;
          })
          s.journal.entries in
      ap₂ (λ h (m : Map StateObject). map_option (object_view env) (found env a h (m a)))
        same.origin_eq same.objects_eq
      ∙ ap₂
          (λ c o.
            map_option (object_view env)
              (found env a s.origin_block_hash (finalise_live env d c o)))
          dirtied live

  -- Whether Finalise has a reason to remove the account: it was suicided, or it is empty (no nonce, no
  -- balance and no code) and empty accounts are deleted.
  abbrev pub Gone : Type 0
  Gone =
      (obj.suicided ≡ true)
      ⊎ ((d ≡ true)
          × (obj.account.nonce ≡ 0)
          × (obj.account.balance ≡ pos 0)
          × (obj.account.code_hash ≡ env.keccak_code []))

  removed-Gone : is_removed env d obj ≡ true → Gone
  unfolding StateObject.empty
  removed-Gone h = elim (or_cases obj.suicided _ h) [
    | inl e ↦ inl e
    | inr e ↦
        let x = and_true _ _ e in
        let y = and_true _ _ x.1 in
        let z = and_true _ _ y.1 in
        inr (x.0, (==_iff _ _).0 y.0, is_zero_pos obj.account.balance z.0, (==_iff _ _).0 z.1)
  ]

  Gone-removed : Gone → is_removed env d obj ≡ true
  unfolding StateObject.empty
  Gone-removed (inl e) = ap (λ b. b || (d && StateObject.empty env obj)) e
  Gone-removed (inr (x, y, z, w)) =
      rw (x, y, z, w, ==_refl (env.keccak_code [])) (or_true obj.suicided)

  exist_finalised :
      (c : Bool)
      → is_removed env d obj ≡ c
      → obj.deleted ≡ false
      → (exist env (finalise env s d) a).0 ≡ not c
  unfolding StateObject.finalise
  exist_finalised c h n =
      (getters-view env (finalise env s d) a zero_hash).exist_eq
      ∙ ap (read_account false (λ x. true)) finalised-account
      ∙ ap
          (λ b.
            read_account false (λ x. true)
              (some (
                object_view env
                  (if b then record obj { deleted = true } else StateObject.finalise obj))))
          h
      ∙ by_mark c
    where
      by_mark :
          (b : Bool)
          → read_account false
              (λ x. true)
              (some (
                object_view env
                  (if b then record obj { deleted = true } else StateObject.finalise obj)))
            ≡ not b
      by_mark true = refl
      by_mark false = ap (λ e. if e then false else true) n

  -- A live account that the journal dirtied, and that is not deleted yet, is missing after Finalise
  -- exactly if it was suicided, or has no nonce, no balance and no code and empty accounts are deleted.
  pub finalise_removed : obj.deleted ≡ false → ((exist env (finalise env s d) a).0 ≡ false) ↔ Gone
  finalise_removed n = (
    λ e. elim (Bool-cases (is_removed env d obj)) [
      | inl h ↦ removed-Gone h
      | inr h ↦ absurd (cc (e, exist_finalised false h n))
    ],
    λ g. exist_finalised true (Gone-removed g) n,
  )

  stays : (Gone → ⊥) → is_removed env d obj ≡ false
  stays k = elim (Bool-cases (is_removed env d obj)) [
    | inl h ↦ absurd (k (removed-Gone h))
    | inr h ↦ h
  ]

  -- A live account that the journal dirtied and that Finalise has no reason to remove reads after
  -- it, at each slot, what GetCommittedState gave before: a slot that the transaction wrote reads
  -- its old value. The comment in GetCommittedState (direct_by_leaf/state_object.go, line 156),
  -- that a pending write is returned, says otherwise.
  pub finalise_forgets :
      (key : Hash)
      → (Gone → ⊥)
      → (get_state env (finalise env s d) a key).0 ≡ (get_committed_state env s a key).0
  unfolding StateObject.finalise
  finalise_forgets key k =
      let h = stays k in
      (getters-view env (finalise env s d) a key).state_eq
      ∙ ap (read_account zero_hash (λ x. through x.fake key (x.stored key))) finalised-account
      ∙ ap
          (λ c.
            read_account zero_hash (λ x. through x.fake key (x.stored key))
              (some (
                object_view env
                  (if c then record obj { deleted = true } else StateObject.finalise obj))))
          h
      ∙ sym (
          (getters-view env s a key).committed_eq
          ∙ ap
              (λ o.
                read_account zero_hash (λ x. through x.fake key (x.committed key))
                  (map_option (object_view env) (found env a s.origin_block_hash o)))
              live)
