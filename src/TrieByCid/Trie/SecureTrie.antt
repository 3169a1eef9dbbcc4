-- ===== src/TrieByCid/Trie/SecureTrie.antt =====
-- trie_by_cid/trie/secure_trie.go: a trie whose keys are hashed. The hash is what the definitions take.
-- A panic, and the end of the fuel, are those of the trie; the database is not nil.
use ipld_eth_statedb.Base.{ℕ, Bool, true, false, Option, none, some, if◌then◌else◌}
use ipld_eth_statedb.TrieByCid.Trie.Node.{Bytes}
use ipld_eth_statedb.TrieByCid.Trie.Tracer.{Tracer, same}
use ipld_eth_statedb.TrieByCid.Trie.Trie
use ipld_eth_statedb.TrieByCid.Trie.Trie.{Trie, TrieReader, TrieError, Outcome, returns, and_then}
use ipld_eth_statedb.TrieByCid.Trie.Trie.Update
use ipld_eth_statedb.TrieByCid.Trie.Trie.Update.{new, try_get_value}

-- A map with strings as keys.
abbrev pub ByteMap : Type 0
ByteMap = Bytes → Option Bytes

abbrev pub no_entries : ByteMap
no_entries k = none

abbrev pub with_entry : ByteMap → Bytes → Option Bytes → ByteMap
with_entry m key v k = if same key k then v else m k

-- `owns_cache` is whether secKeyCacheOwner points to the trie itself; `preimages` is the preimage method
-- of the store, `none` for a nil store.
pub record StateTrie : Type 0 where
  pub trie : Trie
  pub preimages : Option (Bytes → Option Bytes)
  pub sec_key_cache : ByteMap
  pub owns_cache : Bool

unfoldable pub get_sec_key_cache : StateTrie → StateTrie
get_sec_key_cache t =
    if t.owns_cache then t else record t { sec_key_cache = no_entries; owns_cache = true }

abbrev pub state_trie_of :
    Option (Bytes → Option Bytes)
    → Option Trie × Option TrieError
    → Tracer
    → Outcome (Option StateTrie × Option TrieError)
state_trie_of preimages (t, some err) u = returns (none, some err) u
state_trie_of preimages (none, none) u = returns (none, none) u
state_trie_of preimages (some t, none) u =
    returns
      (
        some (record {
          trie = t;
          preimages = preimages;
          sec_key_cache = no_entries;
          owns_cache = false;
        }),
        none,
      )
      u

unfoldable pub new_state_trie :
    TrieReader
    → Option (Bytes → Option Bytes)
    → ℕ
    → Bytes
    → Outcome (Option StateTrie × Option TrieError)
new_state_trie r preimages owner root = and_then (new r owner root) (state_trie_of preimages)

-- The copy shares the cache until it asks for it.
unfoldable pub copy : StateTrie → StateTrie
copy t = record {
  trie = Trie.copy t.trie;
  preimages = t.preimages;
  sec_key_cache = t.sec_key_cache;
  owns_cache = false;
}

abbrev pub key_or_preimage : Option (Bytes → Option Bytes) → Bytes → Option Bytes → Option Bytes
key_or_preimage preimages sha_key (some key) = some key
key_or_preimage none sha_key none = none
key_or_preimage (some preimage) sha_key none = preimage sha_key

unfoldable pub get_key : StateTrie → Bytes → Option Bytes × StateTrie
get_key t sha_key =
    let c = get_sec_key_cache t in
    (key_or_preimage c.preimages sha_key (c.sec_key_cache sha_key), c)

module _ (hash_key : Bytes → Bytes) where
  unfoldable pub try_get :
      ℕ → StateTrie → Bytes → Outcome (Option Bytes × StateTrie × Option TrieError)
  try_get fuel t key =
      and_then (try_get_value fuel t.trie (hash_key key))
        (λ g u. returns (g.0, record t { trie = g.1 }, g.2) u)

  abbrev pub updated :
      StateTrie → Bytes → Trie × Option TrieError → Tracer → Outcome (StateTrie × Option TrieError)
  updated t key (t', some err) u = returns (record t { trie = t' }, some err) u
  updated t key (t', none) u =
      let c = get_sec_key_cache (record t { trie = t' }) in
      returns
        (record c { sec_key_cache = with_entry c.sec_key_cache (hash_key key) (some key) }, none) u

  unfoldable pub try_update : ℕ → StateTrie → Bytes → Bytes → Outcome (StateTrie × Option TrieError)
  try_update fuel t key value =
      and_then (Update.try_update fuel t.trie (hash_key key) value) (updated t key)

  unfoldable pub try_delete : ℕ → StateTrie → Bytes → Outcome (StateTrie × Option TrieError)
  try_delete fuel t key =
      let c = get_sec_key_cache t in
      let forgot = record c { sec_key_cache = with_entry c.sec_key_cache (hash_key key) none } in
      and_then (Update.try_delete fuel t.trie (hash_key key))
        (λ r u. returns (record forgot { trie = r.0 }, r.1) u)
