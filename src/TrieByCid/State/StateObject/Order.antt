-- ===== src/TrieByCid/State/StateObject/Order.antt =====
-- state_object.go: the entries of a map of slots, written in the order in which a loop meets them.
use ipld_eth_statedb.Base.{
  ◌≡◌, ◌≢◌, refl, ap, ◌∙◌, Option, none, some, List, [], ◌∷◌, ◌⊎◌, inl, inr, or_zero, get_or,
  Bool-cases, ==_iff, ◌==◌, if◌then◌else◌,
}
use ipld_eth_statedb.DirectByLeaf.Types.{Hash, Storage, zero_hash}

abbrev pub set_slot : (Hash → Hash) → Hash → Hash → Hash → Hash
set_slot m k v j = if k == j then v else m j

-- The keys are those of a map, in some order.
abbrev pub AllIn : Storage → List Hash → Type 0
AllIn p [] = Unit {0}
AllIn p (k ∷ ks) = ((v : Hash) × (p k ≡ some v)) × AllIn p ks

abbrev pub Listed : List Hash → Hash → Type 0
Listed [] j = ⊥
Listed (k ∷ ks) j = (k ≡ j) ⊎ Listed ks j

pub record KeysOf (p : Storage) (keys : List Hash) : Type 0 where
  pub all_in : AllIn p keys
  pub listed : (j v : Hash) → p j ≡ some v → Listed keys j

-- The slots after the entries of the keys are written in turn.
abbrev pub written : Storage → List Hash → (Hash → Hash) → Hash → Hash
written p [] m = m
written p (k ∷ ks) m = written p ks (set_slot m k (get_or p k zero_hash))

pub set_slot_cases :
    (m : Hash → Hash) (k v j : Hash)
    → ((k ≡ j) × (set_slot m k v j ≡ v)) ⊎ ((k ≢ j) × (set_slot m k v j ≡ m j))
set_slot_cases m k v j = elim (Bool-cases (k == j)) [
  | inl e ↦ inl ((==_iff k j).0 e, rw e refl)
  | inr e ↦ inr (λ q. absurd (cc (e, (==_iff k j).1 q)), rw e refl)
]

written-missing :
    (p : Storage) (keys : List Hash) (m : Hash → Hash) (j : Hash)
    → AllIn p keys
    → p j ≡ none
    → written p keys m j ≡ m j
written-missing p [] m j a e = refl
written-missing p (k ∷ ks) m j a e =
    written-missing p ks (set_slot m k (get_or p k zero_hash)) j a.1 e
    ∙ elim (set_slot_cases m k (get_or p k zero_hash) j) [
      | inl x ↦ absurd (cc (x.0, a.0.1, e))
      | inr x ↦ x.1
    ]

written-done :
    (p : Storage) (keys : List Hash) (m : Hash → Hash) (j v : Hash)
    → p j ≡ some v
    → m j ≡ v
    → written p keys m j ≡ v
written-done p [] m j v e w = w
written-done p (k ∷ ks) m j v e w =
    written-done p ks (set_slot m k (get_or p k zero_hash)) j v e
      (elim (set_slot_cases m k (get_or p k zero_hash) j) [
        | inl x ↦ x.1 ∙ ap (λ i. get_or p i zero_hash) x.0 ∙ ap (λ o. or_zero o zero_hash) e
        | inr x ↦ x.1 ∙ w
      ])

written-Listed :
    (p : Storage) (keys : List Hash) (m : Hash → Hash) (j v : Hash)
    → p j ≡ some v
    → Listed keys j
    → written p keys m j ≡ v
written-Listed p [] m j v e l = absurd l
written-Listed p (k ∷ ks) m j v e (inr l) = written-Listed p ks _ j v e l
written-Listed p (k ∷ ks) m j v e (inl q) =
    written-done p ks (set_slot m k (get_or p k zero_hash)) j v e
      (elim (set_slot_cases m k (get_or p k zero_hash) j) [
        | inl x ↦ x.1 ∙ ap (λ i. get_or p i zero_hash) q ∙ ap (λ o. or_zero o zero_hash) e
        | inr x ↦ absurd (x.0 q)
      ])

pub written-KeysOf :
    (p : Storage) (keys : List Hash) (m : Hash → Hash) (j : Hash)
    → KeysOf p keys
    → written p keys m j ≡ or_zero (p j) (m j)
written-KeysOf p keys m j h = by_entry (p j) refl
  where
    by_entry : (o : Option Hash) → p j ≡ o → written p keys m j ≡ or_zero o (m j)
    by_entry none e = written-missing p keys m j h.all_in e
    by_entry (some v) e = written-Listed p keys m j v e (h.listed j v e)
