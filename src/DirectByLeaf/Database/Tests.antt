-- ===== src/DirectByLeaf/Database/Tests.antt =====
-- state_database.go with caches that drop nothing, and one stored code.
use ipld_eth_statedb.Base.{
  ℕ, true, false, ◌≡◌, refl, ◌⊎◌, inl, inr, Option, none, some, List, [], ◌∷◌, pos, insert,
  empty_map, Map, Bool-cases, ==_iff, ◌==◌, if◌then◌else◌,
}
use ipld_eth_statedb.DirectByLeaf.Types.{Hash, Bytes}
use ipld_eth_statedb.DirectByLeaf.Database.{
  Cache, Queries, StateDatabaseCaches, new_state_database, contract_code, contract_code_size,
  size_of_code,
}
use ipld_eth_statedb.DirectByLeaf.Database.Cached.{
  Read, code_read, size_read, account_read, slot_read, reads, answers, uncached, stored_code,
  Agrees-new, Answers, contract_code-Answers, contract_code_size-Answers, reads-new_state_database,
  contract_code_error,
}

abbrev map_cache : {V : Type 0} → Cache (Map V) V
map_cache {V} = record {
  fresh = empty_map;
  get = λ c k. (c k, c);
  set = insert;
  get-fresh = λ k. refl;
  get-get = λ c k j. inr refl;
  get-set = λ c k j v. by_test c k j v (Bool-cases (k == j));
}
  where
    by_test :
        (c : Map V) (k j : Hash) (v : V)
        → ((k == j) ≡ true) ⊎ ((k == j) ≡ false)
        → ((insert c k v j) ≡ none)
          ⊎ (((insert c k v j) ≡ c j) ⊎ ((k ≡ j) × ((insert c k v j) ≡ some v)))
    by_test c k j v (inl e) = inr (inr ((==_iff k j).0 e, rw e refl))
    by_test c k j v (inr e) = inr (inl (rw e refl))

abbrev toy_row : Bytes → Bytes × Option ℕ
toy_row [] = ([], some 1)
toy_row (h ∷ t) = if h == 7 then (96 ∷ 1 ∷ [], none) else ([], some 1)

-- One code, of two bytes, at the hash 7.
abbrev toy_queries : Queries
toy_queries = record {
  encode_multihash = λ h. (h ∷ [], none);
  cid_v1 = λ b. b;
  contract_code_row = toy_row;
  state_account_row = λ a b. (
    record { balance = []; nonce = 1; code_hash = []; storage_root = []; removed = false },
    none,
  );
  storage_slot_row =
      λ a s b. (record { value = 5 ∷ []; removed = false; state_leaf_removed = true }, none);
  set_string = λ b. pos 0;
  hex_to_hash = λ b. 7;
  cannot_derive_cid = λ e. e;
  err_not_found = 2;
}

abbrev fresh_caches : StateDatabaseCaches (Map Bytes) (Map ℕ)
fresh_caches = new_state_database map_cache map_cache toy_queries

abbrev some_reads : List Read
some_reads =
    code_read 7 ∷ size_read 7 ∷ code_read 7 ∷ code_read 8 ∷ account_read 1 2 ∷ slot_read 1 2 3 ∷ []

reads_example :
    reads map_cache map_cache toy_queries
      (new_state_database map_cache map_cache toy_queries)
      some_reads
    ≡ answers (uncached toy_queries) some_reads
reads_example = reads-new_state_database map_cache map_cache toy_queries some_reads

contract_code_example :
    Answers map_cache map_cache toy_queries
      (stored_code toy_queries 7)
      (contract_code map_cache map_cache toy_queries fresh_caches 7)
contract_code_example =
    contract_code-Answers map_cache map_cache toy_queries fresh_caches 7
      (Agrees-new map_cache map_cache toy_queries)

contract_code_size_example :
    Answers map_cache map_cache toy_queries
      (size_of_code (stored_code toy_queries 7))
      (contract_code_size map_cache map_cache toy_queries fresh_caches 7)
contract_code_size_example =
    contract_code_size-Answers map_cache map_cache toy_queries fresh_caches 7
      (Agrees-new map_cache map_cache toy_queries)

missing_code : (contract_code map_cache map_cache toy_queries fresh_caches 8).0 ≡ (none, some 1)
unfolding contract_code new_state_database
missing_code = refl

missing_code_example :
    (◌≡◌ {A = Option Bytes} none none)
    × ((contract_code map_cache map_cache toy_queries fresh_caches 8).1 ≡ fresh_caches)
missing_code_example =
    contract_code_error map_cache map_cache toy_queries fresh_caches 8 none 1 missing_code
