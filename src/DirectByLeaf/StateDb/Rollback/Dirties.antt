-- ===== src/DirectByLeaf/StateDb/Rollback/Dirties.antt =====
-- journal.go: the count of changes by address agrees with the entries, but for the RIPEMD address,
-- whose touch is counted twice and undone once.
use ipld_eth_statedb.Base.{
  ℕ, zero, suc, ◌+◌, ◌-◌, ◌≡◌, ◌≢◌, refl, ap, ◌∙◌, subst, Bool, true, false, Option, none, some,
  some_inj, List, [], ◌∷◌, Map, insert, delete, get_or, or_zero, ◌==◌, ==_iff, if◌then◌else◌, arith,
  length, drop,
}
use ipld_eth_statedb.DirectByLeaf.Types.{Address}
use ipld_eth_statedb.DirectByLeaf.Env.{Env}
use ipld_eth_statedb.DirectByLeaf.StateDb.{
  StateDb, Journal, JournalEntry, create_object_change, reset_object_change, suicide_change,
  balance_change, nonce_change, storage_change, code_change, refund_change, add_log_change,
  add_preimage_change, touch_change, access_list_add_account_change, access_list_add_slot_change,
  transient_storage_change,
}
use ipld_eth_statedb.DirectByLeaf.StateDb.Revert.{
  append, dirtied, count_up, count_down, revert_entry, revert_entries, drop_dirty, journal_revert,
  with_entries,
}
use ipld_eth_statedb.DirectByLeaf.StateDb.Setters.{ripemd}
use ipld_eth_statedb.DirectByLeaf.StateDb.Rollback.Steps.{KeepsNext, revert_entry-KeepsNext}

-- The account that a kind of entry counts for: that of a change to an account, the creation and the
-- touch of one included, and none for the replacement of an object, the refund, the logs, the
-- preimages, the access list and the transient storage.
abbrev pub names : JournalEntry → Option Address
names (create_object_change a) = some a
names (reset_object_change prev prevdestruct) = none
names (suicide_change a prev prevbalance) = some a
names (balance_change a prev) = some a
names (nonce_change a prev) = some a
names (storage_change a key prevalue) = some a
names (code_change a prevcode prevhash) = some a
names (refund_change prev) = none
names (add_log_change txhash) = none
names (add_preimage_change hash) = none
names (touch_change a) = some a
names (access_list_add_account_change a) = none
names (access_list_add_slot_change a slot) = none
names (transient_storage_change a key prevalue) = none

dirtied-names : (e : JournalEntry) → dirtied e ≡ names e
dirtied-names (create_object_change a) = refl
dirtied-names (reset_object_change prev prevdestruct) = refl
dirtied-names (suicide_change a prev prevbalance) = refl
dirtied-names (balance_change a prev) = refl
dirtied-names (nonce_change a prev) = refl
dirtied-names (storage_change a key prevalue) = refl
dirtied-names (code_change a prevcode prevhash) = refl
dirtied-names (refund_change prev) = refl
dirtied-names (add_log_change txhash) = refl
dirtied-names (add_preimage_change hash) = refl
dirtied-names (touch_change a) = refl
dirtied-names (access_list_add_account_change a) = refl
dirtied-names (access_list_add_slot_change a slot) = refl
dirtied-names (transient_storage_change a key prevalue) = refl

-- The number of entries that name an address.
abbrev pub marks : Address → Option Address → ℕ
marks a none = 0
marks a (some b) = if b == a then 1 else 0

abbrev pub changes : Address → List JournalEntry → ℕ
changes a [] = 0
changes a (e ∷ es) = marks a (names e) + changes a es

-- The map entry for a count: missing at 0.
abbrev pub counted : ℕ → Option ℕ
counted zero = none
counted (suc n) = some (suc n)

abbrev pub CountsOf : Map ℕ → List JournalEntry → Type 0
CountsOf d es = (a : Address) → a ≢ ripemd → d a ≡ counted (changes a es)

abbrev pub Counts : Journal → Type 0
Counts j = CountsOf j.dirties j.entries

or_zero-counted : (n : ℕ) → or_zero (counted n) 0 ≡ n
or_zero-counted zero = refl
or_zero-counted (suc n) = refl

counted_up :
    (same : Bool) (n : ℕ) (c : Option ℕ) (m : ℕ)
    → c ≡ counted n
    → (same ≡ true → m ≡ n)
    → (if same then some (m + 1) else c) ≡ counted ((if same then 1 else 0) + n)
counted_up true n c m e h = rw (h refl) (ground arith)
counted_up false n c m e h = e ∙ ap counted (omega arith)

count_up-counted :
    (d : Map ℕ) (o : Option Address) (a : Address) (n : ℕ)
    → d a ≡ counted n
    → count_up d o a ≡ counted (marks a o + n)
count_up-counted d none a n e = e ∙ ap counted (omega arith)
count_up-counted d (some b) a n e = counted_up (b == a) n (d a) (get_or d b 0) e (λ s.
    ap (λ x. or_zero (d x) 0) ((==_iff b a).0 s) ∙ ap (λ x. or_zero x 0) e ∙ or_zero-counted n)

-- Appending an entry keeps the counts.
pub append-Counts : (j : Journal) (e : JournalEntry) → Counts j → Counts (append j e)
unfolding append
append-Counts j e h a n =
    ap (λ o. count_up j.dirties o a) (dirtied-names e)
    ∙ count_up-counted j.dirties (names e) a (changes a j.entries) (h a n)

counted_down :
    (same : Bool) (n : ℕ) (c : Option ℕ) (m : ℕ)
    → c ≡ counted ((if same then 1 else 0) + n)
    → (same ≡ true → m ≡ n)
    → (if m == 0 then (if same then none else c) else (if same then some m else c)) ≡ counted n
counted_down true zero c m e h = rw (h refl) refl
counted_down true (suc n) c m e h = rw (h refl) (ground arith)
counted_down false n c m e h = either (m == 0) ∙ e ∙ ap counted (omega arith)
  where
    either : (b : Bool) → (if b then c else c) ≡ c
    either true = refl
    either false = refl

if_map : (b : Bool) (x y : Map ℕ) (a : ℕ) → (if b then x else y) a ≡ (if b then x a else y a)
if_map true x y a = refl
if_map false x y a = refl

count_down-counted :
    (d : Map ℕ) (o : Option Address) (a : Address) (n : ℕ)
    → d a ≡ counted (marks a o + n)
    → count_down d o a ≡ counted n
count_down-counted d none a n e = e ∙ ap counted (omega arith)
count_down-counted d (some b) a n e =
    if_map (get_or d b 0 - 1 == 0) (delete d b) (insert d b (get_or d b 0 - 1)) a
    ∙ counted_down (b == a) n (d a) (get_or d b 0 - 1) e (λ s.
      ap (λ x. or_zero (d x) 0 - 1) ((==_iff b a).0 s)
      ∙ ap (λ x. or_zero x 0 - 1) e
      ∙ ap (λ x. x - 1) (or_zero-counted _)
      ∙ ap (λ t. (if t then 1 else 0) + n - 1) s
      ∙ omega arith)

module _ (env : Env) where
  revert_entries-Counts :
      (n : ℕ) (es : List JournalEntry) (s t : StateDb)
      → CountsOf s.journal.dirties es
      → revert_entries env n es s ≡ some t
      → CountsOf t.journal.dirties (drop n es)
  unfolding revert_entries
  revert_entries-Counts zero es s t h q =
      subst (λ (u : StateDb). CountsOf u.journal.dirties es) (some_inj q) h
  revert_entries-Counts (suc n) [] s t h q =
      subst (λ (u : StateDb). CountsOf u.journal.dirties []) (some_inj q) h
  revert_entries-Counts (suc n) (e ∷ es) s t h q =
      round (revert_entry env e s) (revert_entry-KeepsNext env e s)
        (λ u k r. revert_entries-Counts n es u t k r) q
    where
      round :
          (o : Option StateDb)
          → KeepsNext s o
          → ((u : StateDb)
              → CountsOf u.journal.dirties es
              → revert_entries env n es u ≡ some t
              → CountsOf t.journal.dirties (drop n es))
          → (elim (drop_dirty e o) [ none ↦ none | some u ↦ revert_entries env n es u ]) ≡ some t
          → CountsOf t.journal.dirties (drop n es)
      round none k ih r = absurd (cc)
      round (some u) k ih r =
          ih _
            (λ a i.
              ap (λ (j : Journal). count_down j.dirties (dirtied e) a) k.1
              ∙ ap (λ o. count_down s.journal.dirties o a) (dirtied-names e)
              ∙ count_down-counted s.journal.dirties (names e) a (changes a es) (h a i))
            r

  -- If the counts of dirty addresses agree with the entries of the journal and the revert of the journal
  -- to a length returns, they agree with the entries that are left: an address other than RIPEMD is in
  -- `dirties` exactly if an entry that is left changes its account, with the number of those entries.
  pub journal_revert-Counts :
      (s t : StateDb) (n : ℕ)
      → Counts s.journal
      → journal_revert env s n ≡ some t
      → Counts t.journal
  unfolding journal_revert
  journal_revert-Counts s t n h q =
      let k = length s.journal.entries - n in
      cut k (revert_entries env k s.journal.entries s)
        (λ u r. revert_entries-Counts k s.journal.entries s u h r) q
    where
      cut :
          (k : ℕ) (o : Option StateDb)
          → ((u : StateDb) → o ≡ some u → CountsOf u.journal.dirties (drop k s.journal.entries))
          → with_entries (drop k s.journal.entries) o ≡ some t
          → Counts t.journal
      cut k none f r = absurd (cc)
      cut k (some u) f r = subst (λ (w : StateDb). Counts w.journal) (some_inj r) (f u refl)
