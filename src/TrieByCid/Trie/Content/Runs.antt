-- ===== src/TrieByCid/Trie/Content/Runs.antt =====
-- trie.go: sequences of calls on a trie, from New on.
use ipld_eth_statedb.Base.{
  ℕ, suc, ◌+◌, ◌*◌, ◌<◌, ◌≤◌, ◌≡◌, refl, ap, ◌∙◌, subst, true, false, ◌||◌, Option, none, some,
  List, [], ◌∷◌, length, arith,
}
use ipld_eth_statedb.TrieByCid.Trie.Encoding.{keybytes_to_hex}
use ipld_eth_statedb.TrieByCid.Trie.Encoding.RoundTrips.{AllBelow}
use ipld_eth_statedb.TrieByCid.Trie.Node.{Bytes, Node}
use ipld_eth_statedb.TrieByCid.Trie.Tracer.{Tracer, same, new_tracer, on_read}
use ipld_eth_statedb.TrieByCid.Trie.Trie.{Trie, TrieReader, TrieError, Outcome, returns, and_then}
use ipld_eth_statedb.TrieByCid.Trie.Trie.Update.{
  try_delete, try_update, try_get_value, new, unloaded, has_reader, zero_root, empty_root,
  with_root,
}
use ipld_eth_statedb.TrieByCid.Trie.Content.{Content, Represents, Resolves, nothing}
use ipld_eth_statedb.TrieByCid.Trie.Content.Lookup.{resolve_and_track-Resolves}
use ipld_eth_statedb.TrieByCid.Trie.Content.Methods.{
  ValueMap, value_of, put, Refines, Refines-le, Edited, Got, try_get_value-Got, try_delete-Edited,
  try_update-Edited,
}

pub data TrieCall : Type 0 where
  get : Bytes → TrieCall
  update : Bytes → Bytes → TrieCall
  remove : Bytes → TrieCall

abbrev pub call_key : TrieCall → Bytes
call_key (get key) = key
call_key (update key value) = key
call_key (remove key) = key

-- What a call does to the map.
abbrev pub applied : TrieCall → ValueMap → ValueMap
applied (get key) m = m
applied (update key value) m = put m key (value_of value)
applied (remove key) m = put m key none

-- The map after the calls, the first of the list first.
abbrev pub after_calls : List TrieCall → ValueMap → ValueMap
after_calls [] m = m
after_calls (c ∷ cs) m = after_calls cs (applied c m)

abbrev pub trie_and_error :
    Option Bytes × Trie × Option TrieError → Tracer → Outcome (Trie × Option TrieError)
trie_and_error (value, t, err) u = returns (t, err) u

abbrev pub call : ℕ → TrieCall → Trie → Outcome (Trie × Option TrieError)
call f (get key) t = and_then (try_get_value f t key) trie_and_error
call f (update key value) t = try_update f t key value
call f (remove key) t = try_delete f t key

-- The calls in turn, as far as the first error.
abbrev pub unless_failed :
    (Trie → Outcome (Trie × Option TrieError))
    → Trie × Option TrieError
    → Tracer
    → Outcome (Trie × Option TrieError)
unless_failed f (t, none) u = f t
unless_failed f (t, some err) u = returns (t, some err) u

unfoldable pub calls : ℕ → List TrieCall → Trie → Outcome (Trie × Option TrieError)
calls f [] t = returns (t, none) t.tracer
calls f (c ∷ cs) t = and_then (call f c t) (unless_failed (calls f cs))

abbrev pub KeysOfBytes : List TrieCall → Type 0
KeysOfBytes [] = Unit {0}
KeysOfBytes (c ∷ cs) = AllBelow 256 (call_key c) × KeysOfBytes cs

call-Edited :
    (h f : ℕ) (c : TrieCall) (t : Trie) (m : ValueMap)
    → Refines h t m
    → AllBelow 256 (call_key c)
    → h < f
    → Edited (suc (suc h)) (applied c m) (call f c t)
call-Edited h f (update key value) t m s b l = try_update-Edited h f t m key value s b l
call-Edited h f (remove key) t m s b l =
    let g = try_delete-Edited h f t m key s b (omega (arith, l)) in
    record {
      trie = g.trie;
      result_eq = g.result_eq;
      refines = Refines-le h (suc (suc h)) g.trie (put m key none) (omega arith) g.refines;
    }
call-Edited h f (get key) t m s b l =
    let g = try_get_value-Got h f t m key s b (omega (arith, l)) in
    record {
      trie = g.trie;
      result_eq = ap (λ o. and_then o trie_and_error) g.result_eq;
      refines = Refines-le h (suc (suc h)) g.trie m (omega arith) g.refines;
    }

-- On a trie of height h that holds a map, any updates, deletes and lookups at keys of bytes return,
-- with fuel of h and 2 more for each call, without an error, and the trie after them holds, at that height, the
-- map with the writes and removals done in turn.
pub calls-Edited :
    (h f : ℕ) (cs : List TrieCall) (t : Trie) (m : ValueMap)
    → Refines h t m
    → KeysOfBytes cs
    → h + 2 * length cs ≤ f
    → Edited (h + 2 * length cs) (after_calls cs m) (calls f cs t)
unfolding calls
calls-Edited h f [] t m s b l = record {
  trie = t;
  result_eq = refl;
  refines = Refines-le h (h + 2 * 0) t m (omega arith) s;
}
calls-Edited h f (c ∷ cs) t m s b l =
    let g = call-Edited h f c t m s b.0 (omega (arith, l)) in
    let e : suc (suc h) + 2 * length cs ≡ h + 2 * suc (length cs) = omega arith in
    let n = calls-Edited (suc (suc h)) f cs g.trie (applied c m) g.refines b.1 (omega (arith, l)) in
    record {
      trie = n.trie;
      result_eq = ap (λ o. and_then o (unless_failed (calls f cs))) g.result_eq ∙ n.result_eq;
      refines = subst (λ k. Refines k n.trie (after_calls cs (applied c m))) e n.refines;
    }

-- What New gives: no error, and a trie that holds the map.
pub record Opened (h : ℕ) (m : ValueMap) (o : Outcome (Option Trie × Option TrieError))
    : Type 0 where
  pub trie : Trie
  pub result_eq : o ≡ returns (some trie, none) trie.tracer
  pub refines : Refines h trie m

pub new-Opened_empty :
    (r : TrieReader) (owner : ℕ) (root : Bytes)
    → has_reader r.reader ≡ true
    → (same root zero_root || same root empty_root) ≡ true
    → Opened 1 (λ k. none) (new r owner root)
unfolding new
new-Opened_empty r owner root h e = record {
  trie = unloaded r owner;
  result_eq = rw (h, e) refl;
  refines = record { content = nothing; holds = λ k. refl; content_eq = λ k b. refl };
}

new-Opened_root :
    (r : TrieReader) (owner : ℕ) (root : Bytes) (h : ℕ) (n : Node) (c : Content) (m : ValueMap)
    → has_reader r.reader ≡ true
    → (same root zero_root || same root empty_root) ≡ false
    → Resolves r [] root n
    → Represents r h [] false n c
    → ((key : Bytes) → AllBelow 256 key → c (keybytes_to_hex key) ≡ m key)
    → Opened h m (new r owner root)
unfolding new
new-Opened_root r owner root h n c m hr e s x q = record {
  trie = record (unloaded r owner) { root = n; tracer = on_read new_tracer [] s.blob };
  result_eq =
      rw (hr, e)
        (ap (λ o. and_then o (with_root r owner))
          (resolve_and_track-Resolves r [] root n new_tracer s));
  refines = record { content = c; holds = x; content_eq = q };
}

-- A session from New on: the trie that New gives, the trie after the calls, and what TryGet answers.
pub record Session (r : TrieReader) (owner f : ℕ) (cs : List TrieCall) (key : Bytes) : Type 0 where
  pub opened : Trie
  pub final : Trie
  pub new_eq : new r owner zero_root ≡ returns (some opened, none) opened.tracer
  pub calls_eq : calls f cs opened ≡ returns (final, none) final.tracer
  pub got : Got (1 + 2 * length cs) (after_calls cs (λ k. none)) key (try_get_value f final key)

-- On a trie that New opens at the zero root with a reader: after any updates, deletes and lookups at
-- keys of bytes, in any order, with fuel of 1 and 2 more for each call, no call has failed or panicked, and
-- TryGet returns for each key of bytes the value written last, or none where the key was never
-- written, or last deleted or written empty.
pub new-calls :
    (r : TrieReader) (owner f : ℕ) (cs : List TrieCall) (key : Bytes)
    → has_reader r.reader ≡ true
    → KeysOfBytes cs
    → AllBelow 256 key
    → 1 + 2 * length cs ≤ f
    → Session r owner f cs key
new-calls r owner f cs key h b d l =
    let o = new-Opened_empty r owner zero_root h refl in
    let g = calls-Edited 1 f cs o.trie (λ k. none) o.refines b l in
    record {
      opened = o.trie;
      final = g.trie;
      new_eq = o.result_eq;
      calls_eq = g.result_eq;
      got =
          try_get_value-Got (1 + 2 * length cs) f g.trie (after_calls cs (λ k. none)) key g.refines
            d l;
    }

-- A session on a trie that New opens at a root, which holds the map m to begin with.
pub record Reopened (r : TrieReader) (owner : ℕ) (root : Bytes) (h f : ℕ) (m : ValueMap)
    (cs : List TrieCall) (key : Bytes) : Type 0 where
  pub opened : Trie
  pub final : Trie
  pub new_eq : new r owner root ≡ returns (some opened, none) opened.tracer
  pub calls_eq : calls f cs opened ≡ returns (final, none) final.tracer
  pub got : Got (h + 2 * length cs) (after_calls cs m) key (try_get_value f final key)

-- On a trie that New opens, with a reader, at a root that is neither of the two for an empty trie, where
-- the nodes that the reader gives represent a map m, at height h: after any updates, deletes and lookups
-- at keys of bytes, in any order, with fuel of h and 2 more for each call, no call has failed or panicked,
-- and TryGet returns for each key of bytes the value of m with the writes and removals done in turn.
pub new_root-calls :
    (r : TrieReader) (owner : ℕ) (root : Bytes) (h f : ℕ) (n : Node) (c : Content) (m : ValueMap)
    (cs : List TrieCall) (key : Bytes)
    → has_reader r.reader ≡ true
    → (same root zero_root || same root empty_root) ≡ false
    → Resolves r [] root n
    → Represents r h [] false n c
    → ((k : Bytes) → AllBelow 256 k → c (keybytes_to_hex k) ≡ m k)
    → KeysOfBytes cs
    → AllBelow 256 key
    → h + 2 * length cs ≤ f
    → Reopened r owner root h f m cs key
new_root-calls r owner root h f n c m cs key hr e s x q b d l =
    let o = new-Opened_root r owner root h n c m hr e s x q in
    let g = calls-Edited h f cs o.trie m o.refines b l in
    record {
      opened = o.trie;
      final = g.trie;
      new_eq = o.result_eq;
      calls_eq = g.result_eq;
      got = try_get_value-Got (h + 2 * length cs) f g.trie (after_calls cs m) key g.refines d l;
    }
