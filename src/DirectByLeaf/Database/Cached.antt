-- ===== src/DirectByLeaf/Database/Cached.antt =====
-- state_database.go: what the caches change, and what they do not.
use ipld_eth_statedb.Base.{
  ℕ, ◌≡◌, ◌≢◌, refl, sym, ap, ap₂, ◌∙◌, Option, none, some, some_inj, List, [], ◌∷◌, ◌⊎◌, inl, inr,
  length,
}
use ipld_eth_statedb.DirectByLeaf.Types.{Hash, Bytes}
use ipld_eth_statedb.DirectByLeaf.Env.{StateAccount, StateDatabase}
use ipld_eth_statedb.DirectByLeaf.Database.{
  Cache, Queries, keccak256_to_cid, state_account, storage_value, StateDatabaseCaches, value_or_nil,
  new_state_database, code_of_row, code_of_cid, cached_or_code, contract_code, size_of_code,
  cached_or_size, contract_code_size,
}

-- The reads without caches.
abbrev pub stored_of_row : Queries → Bytes × Option ℕ → Option Bytes × Option ℕ
stored_of_row q (code, some e) = (none, some e)
stored_of_row q ([], none) = (none, some q.err_not_found)
stored_of_row q (b ∷ bs, none) = (some (b ∷ bs), none)

abbrev pub stored_of_cid : Queries → Bytes × Option ℕ → Option Bytes × Option ℕ
stored_of_cid q (cid, some e) = (none, some (q.cannot_derive_cid e))
stored_of_cid q (cid, none) = stored_of_row q (q.contract_code_row cid)

abbrev pub stored_code : Queries → Hash → Option Bytes × Option ℕ
stored_code q h = stored_of_cid q (keccak256_to_cid q h)

-- The database as direct_by_leaf reads it: the same answer to the same question.
abbrev pub uncached : Queries → StateDatabase
uncached q = record {
  contract_code = stored_code q;
  contract_code_size = λ h. size_of_code (stored_code q h);
  state_account = state_account q;
  storage_value = storage_value q;
}

pub data Read : Type 0 where
  code_read : Hash → Read
  size_read : Hash → Read
  account_read : Hash → Hash → Read
  slot_read : Hash → Hash → Hash → Read

pub data Answer : Type 0 where
  code_answer : Option Bytes × Option ℕ → Answer
  size_answer : ℕ × Option ℕ → Answer
  account_answer : Option StateAccount × Option ℕ → Answer
  slot_answer : Bytes × Option ℕ → Answer

abbrev pub answer_of : StateDatabase → Read → Answer
answer_of db (code_read h) = code_answer (db.contract_code h)
answer_of db (size_read h) = size_answer (db.contract_code_size h)
answer_of db (account_read a b) = account_answer (db.state_account a b)
answer_of db (slot_read a s b) = slot_answer (db.storage_value a s b)

abbrev pub answers : StateDatabase → List Read → List Answer
answers db [] = []
answers db (r ∷ rs) = answer_of db r ∷ answers db rs

module _ {C S : Type 0} (codes : Cache C Bytes) (sizes : Cache S ℕ) (q : Queries) where
  abbrev pub read : StateDatabaseCaches C S → Read → Answer × StateDatabaseCaches C S
  read s (code_read h) = let r = contract_code codes sizes q s h in (code_answer r.0, r.1)
  read s (size_read h) = let r = contract_code_size codes sizes q s h in (size_answer r.0, r.1)
  read s (account_read a b) = (account_answer (state_account q a b), s)
  read s (slot_read a k b) = (slot_answer (storage_value q a k b), s)

  unfoldable pub reads : StateDatabaseCaches C S → List Read → List Answer
  reads s [] = []
  reads s (r ∷ rs) = let a = read s r in a.0 ∷ reads a.1 rs

  -- Each entry of the caches is what the rows say.
  pub record Agrees (s : StateDatabaseCaches C S) : Type 0 where
    pub code_eq :
        (h : Hash) (code : Bytes)
        → (codes.get s.code_cache h).0 ≡ some code
        → code ≢ []
        → stored_code q h ≡ (some code, none)
    pub size_eq :
        (h : Hash) (size : ℕ)
        → (sizes.get s.code_size_cache h).0 ≡ some size
        → size_of_code (stored_code q h) ≡ (size, none)

  pub Agrees-new : Agrees (new_state_database codes sizes q)
  unfolding new_state_database
  Agrees-new = record {
    code_eq = λ h code e n. absurd (cc (codes.get-fresh h, e));
    size_eq = λ h size e. absurd (cc (sizes.get-fresh h, e));
  }

  -- Looking up changes no entry, though it may drop some.
  Agrees-get_code :
      (s : StateDatabaseCaches C S) (h : Hash)
      → Agrees s
      → Agrees (record s { code_cache = (codes.get s.code_cache h).1 })
  Agrees-get_code s h a = record {
    code_eq = λ j code e n. from_old j code e n (codes.get-get s.code_cache h j);
    size_eq = a.size_eq;
  }
    where
      from_old :
          (j : Hash) (code : Bytes)
          → (codes.get (codes.get s.code_cache h).1 j).0 ≡ some code
          → code ≢ []
          → ((codes.get (codes.get s.code_cache h).1 j).0 ≡ none)
            ⊎ ((codes.get (codes.get s.code_cache h).1 j).0 ≡ (codes.get s.code_cache j).0)
          → stored_code q j ≡ (some code, none)
      from_old j code e n (inl d) = absurd (cc (d, e))
      from_old j code e n (inr d) = a.code_eq j code (sym d ∙ e) n

  Agrees-get_size :
      (s : StateDatabaseCaches C S) (h : Hash)
      → Agrees s
      → Agrees (record s { code_size_cache = (sizes.get s.code_size_cache h).1 })
  Agrees-get_size s h a = record {
    code_eq = a.code_eq;
    size_eq = λ j size e. from_old j size e (sizes.get-get s.code_size_cache h j);
  }
    where
      from_old :
          (j : Hash) (size : ℕ)
          → (sizes.get (sizes.get s.code_size_cache h).1 j).0 ≡ some size
          → ((sizes.get (sizes.get s.code_size_cache h).1 j).0 ≡ none)
            ⊎ ((sizes.get (sizes.get s.code_size_cache h).1 j).0
                ≡ (sizes.get s.code_size_cache j).0)
          → size_of_code (stored_code q j) ≡ (size, none)
      from_old j size e (inl d) = absurd (cc (d, e))
      from_old j size e (inr d) = a.size_eq j size (sym d ∙ e)

  -- Storing what the rows say.
  Agrees-set :
      (s : StateDatabaseCaches C S) (h : Hash) (code : Bytes)
      → Agrees s
      → stored_code q h ≡ (some code, none)
      → Agrees (record {
        code_cache = codes.set s.code_cache h code;
        code_size_cache = sizes.set s.code_size_cache h (length code);
      })
  Agrees-set s h code a w = record {
    code_eq = λ j c e n. code_from j c e n (codes.get-set s.code_cache h j code);
    size_eq = λ j n e. size_from j n e (sizes.get-set s.code_size_cache h j (length code));
  }
    where
      code_from :
          (j : Hash) (c : Bytes)
          → (codes.get (codes.set s.code_cache h code) j).0 ≡ some c
          → c ≢ []
          → ((codes.get (codes.set s.code_cache h code) j).0 ≡ none)
            ⊎ (((codes.get (codes.set s.code_cache h code) j).0 ≡ (codes.get s.code_cache j).0)
                ⊎ ((h ≡ j) × ((codes.get (codes.set s.code_cache h code) j).0 ≡ some code)))
          → stored_code q j ≡ (some c, none)
      code_from j c e n (inl d) = absurd (cc (d, e))
      code_from j c e n (inr (inl d)) = a.code_eq j c (sym d ∙ e) n
      code_from j c e n (inr (inr (d, d'))) =
          sym (ap (stored_code q) d) ∙ w ∙ ap (λ x. (x, none)) (sym d' ∙ e)

      size_from :
          (j : Hash) (n : ℕ)
          → (sizes.get (sizes.set s.code_size_cache h (length code)) j).0 ≡ some n
          → ((sizes.get (sizes.set s.code_size_cache h (length code)) j).0 ≡ none)
            ⊎ (((sizes.get (sizes.set s.code_size_cache h (length code)) j).0
                  ≡ (sizes.get s.code_size_cache j).0)
                ⊎ ((h ≡ j)
                    × ((sizes.get (sizes.set s.code_size_cache h (length code)) j).0
                        ≡ some (length code))))
          → size_of_code (stored_code q j) ≡ (n, none)
      size_from j n e (inl d) = absurd (cc (d, e))
      size_from j n e (inr (inl d)) = a.size_eq j n (sym d ∙ e)
      size_from j n e (inr (inr (d, d'))) =
          ap (λ k. size_of_code (stored_code q k)) (sym d)
          ∙ ap size_of_code w
          ∙ ap (λ x. (x, none)) (some_inj (sym d' ∙ e))

  -- A read that answers as the rows do, and leaves caches that agree with them.
  pub record Answers {A : Type 0} (a : A) (r : A × StateDatabaseCaches C S) : Type 0 where
    pub answer_eq : r.0 ≡ a
    pub agrees : Agrees r.1

  row-Answers :
      (s : StateDatabaseCaches C S) (h : Hash) (row : Bytes × Option ℕ)
      → Agrees s
      → stored_code q h ≡ stored_of_row q row
      → Answers (stored_code q h) (code_of_row codes sizes q s h row)
  row-Answers s h (code, some e) a w = record { answer_eq = sym w; agrees = a }
  row-Answers s h ([], none) a w = record { answer_eq = sym w; agrees = a }
  row-Answers s h (b ∷ bs, none) a w = record {
    answer_eq = sym w;
    agrees = Agrees-set s h (b ∷ bs) a w;
  }

  cid-Answers :
      (s : StateDatabaseCaches C S) (h : Hash) (cid : Bytes × Option ℕ)
      → Agrees s
      → stored_code q h ≡ stored_of_cid q cid
      → Answers (stored_code q h) (code_of_cid codes sizes q s h cid)
  cid-Answers s h (cid, some e) a w = record { answer_eq = sym w; agrees = a }
  cid-Answers s h (cid, none) a w = row-Answers s h (q.contract_code_row cid) a w

  -- Where the caches agree with the rows, ContractCode answers as the rows do, whether the code was in
  -- the cache or not, and the caches after it agree with the rows.
  pub contract_code-Answers :
      (s : StateDatabaseCaches C S) (h : Hash)
      → Agrees s
      → Answers (stored_code q h) (contract_code codes sizes q s h)
  unfolding contract_code
  contract_code-Answers s h a =
      let g = codes.get s.code_cache h in
      found g.0 (record s { code_cache = g.1 }) (Agrees-get_code s h a)
        (λ code e n. a.code_eq h code e n)
    where
      found :
          (o : Option Bytes) (u : StateDatabaseCaches C S)
          → Agrees u
          → ((code : Bytes) → o ≡ some code → code ≢ [] → stored_code q h ≡ (some code, none))
          → Answers (stored_code q h) (cached_or_code codes sizes q u h (value_or_nil o))
      found none u b w = cid-Answers u h (keccak256_to_cid q h) b refl
      found (some []) u b w = cid-Answers u h (keccak256_to_cid q h) b refl
      found (some (x ∷ xs)) u b w = record { answer_eq = sym (w (x ∷ xs) refl (cc)); agrees = b }

  -- Where the caches agree with the rows, ContractCodeSize answers with the length of the code and the
  -- error that the rows give, and the caches after it agree with the rows.
  pub contract_code_size-Answers :
      (s : StateDatabaseCaches C S) (h : Hash)
      → Agrees s
      → Answers (size_of_code (stored_code q h)) (contract_code_size codes sizes q s h)
  unfolding contract_code_size
  contract_code_size-Answers s h a =
      let g = sizes.get s.code_size_cache h in
      found g.0 (record s { code_size_cache = g.1 }) (Agrees-get_size s h a)
        (λ n e. a.size_eq h n e)
    where
      found :
          (o : Option ℕ) (u : StateDatabaseCaches C S)
          → Agrees u
          → ((n : ℕ) → o ≡ some n → size_of_code (stored_code q h) ≡ (n, none))
          → Answers (size_of_code (stored_code q h)) (cached_or_size codes sizes q u h o)
      found (some n) u b w = record { answer_eq = sym (w n refl); agrees = b }
      found none u b w =
          let r = contract_code-Answers u h b in
          record { answer_eq = ap size_of_code r.answer_eq; agrees = r.agrees }

  read-Answers :
      (s : StateDatabaseCaches C S) (r : Read)
      → Agrees s
      → Answers (answer_of (uncached q) r) (read s r)
  read-Answers s (code_read h) a =
      let r = contract_code-Answers s h a in
      record { answer_eq = ap code_answer r.answer_eq; agrees = r.agrees }
  read-Answers s (size_read h) a =
      let r = contract_code_size-Answers s h a in
      record { answer_eq = ap size_answer r.answer_eq; agrees = r.agrees }
  read-Answers s (account_read x y) a = record { answer_eq = refl; agrees = a }
  read-Answers s (slot_read x y z) a = record { answer_eq = refl; agrees = a }

  reads-uncached :
      (s : StateDatabaseCaches C S) (rs : List Read)
      → Agrees s
      → reads s rs ≡ answers (uncached q) rs
  unfolding reads
  reads-uncached s [] a = refl
  reads-uncached s (r ∷ rs) a =
      let d = read-Answers s r a in ap₂ ◌∷◌ d.answer_eq (reads-uncached (read s r).1 rs d.agrees)

  -- From NewStateDatabase on, any reads of code, code sizes, accounts and slots, in any order, are
  -- answered as the rows say without caches, whatever the caches drop and when.
  pub reads-new_state_database :
      (rs : List Read) → reads (new_state_database codes sizes q) rs ≡ answers (uncached q) rs
  reads-new_state_database rs = reads-uncached (new_state_database codes sizes q) rs Agrees-new

  -- Where ContractCode returns an error, it returns no code, and it stores nothing: the code sizes are
  -- those from before and the codes those after the lookup.
  pub contract_code_error :
      (s : StateDatabaseCaches C S) (h : Hash) (code : Option Bytes) (e : ℕ)
      → (contract_code codes sizes q s h).0 ≡ (code, some e)
      → (code ≡ none)
        × ((contract_code codes sizes q s h).1
            ≡ record s { code_cache = (codes.get s.code_cache h).1 })
  unfolding contract_code
  contract_code_error s h code e =
      at_cached (record s { code_cache = (codes.get s.code_cache h).1 })
        (value_or_nil (codes.get s.code_cache h).0)
    where
      at_row :
          (u : StateDatabaseCaches C S) (row : Bytes × Option ℕ)
          → (code_of_row codes sizes q u h row).0 ≡ (code, some e)
          → (code ≡ none) × ((code_of_row codes sizes q u h row).1 ≡ u)
      at_row u (bs, some x) w = (cc (w), refl)
      at_row u ([], none) w = (cc (w), refl)
      at_row u (b ∷ bs, none) w = absurd (cc (w))

      at_cid :
          (u : StateDatabaseCaches C S) (cid : Bytes × Option ℕ)
          → (code_of_cid codes sizes q u h cid).0 ≡ (code, some e)
          → (code ≡ none) × ((code_of_cid codes sizes q u h cid).1 ≡ u)
      at_cid u (cid, some x) w = (cc (w), refl)
      at_cid u (cid, none) w = at_row u (q.contract_code_row cid) w

      at_cached :
          (u : StateDatabaseCaches C S) (found : Bytes)
          → (cached_or_code codes sizes q u h found).0 ≡ (code, some e)
          → (code ≡ none) × ((cached_or_code codes sizes q u h found).1 ≡ u)
      at_cached u [] w = at_cid u (keccak256_to_cid q h) w
      at_cached u (b ∷ bs) w = absurd (cc (w))
