-- ===== src/TrieByCid/Trie/Encoding/InPlace.antt =====
-- encoding.go: hexToCompactInPlace, and that it writes what hexToCompact returns.
use ipld_eth_statedb.Base.{
  ℕ, zero, suc, ◌+◌, ◌*◌, ◌/◌, ◌%◌, ◌-◌, ◌<◌, ◌≤◌, ◌≡◌, ◌≢◌, refl, sym, ap, ap₂, ◌∙◌, subst, ◌⊎◌,
  inl, inr, true, false, Option, none, some, List, [], ◌∷◌, ◌++◌, length, length-append, get_elem?,
  get_elem?-lt, set, take, drop, ◌==◌, ltb, if◌then◌else◌, Bool-cases, arith,
}
use ipld_eth_statedb.TrieByCid.Trie.Encoding.{
  bit_or, last_or, without_last, has_term, without_term, with_byte, decode_nibbles, compact_from,
  hex_to_compact,
}

-- hex[i] = b, which panics out of range.
abbrev pub write_at : List ℕ → ℕ → ℕ → Option (List ℕ)
write_at hex i b = elim (ltb i (length hex)) [ true ↦ some (set hex i b) | false ↦ none ]

abbrev pub or_panic : Option (List ℕ) → (List ℕ → Option (List ℕ)) → Option (List ℕ)
or_panic none f = none
or_panic (some hex) f = f hex

abbrev pub write_pair : List ℕ → ℕ → Option ℕ → Option ℕ → Option (List ℕ)
write_pair hex bi (some x) (some y) = write_at hex bi (bit_or 8 (x * 16 % 256) y)
write_pair hex bi (some x) none = none
write_pair hex bi none y = none

-- The loop, with `count` bytes left to write.
unfoldable pub pack_pairs : ℕ → List ℕ → ℕ → ℕ → Option (List ℕ)
pack_pairs zero hex bi ni = some hex
pack_pairs (suc count) hex bi ni =
    or_panic (write_pair hex bi (get_elem? hex ni) (get_elem? hex (suc ni)))
      (λ h. pack_pairs count h (suc bi) (suc (suc ni)))

-- The first byte, and the loop from index `ni` on up to the length without the terminator.
abbrev pub first_byte : ℕ → List ℕ → Option ℕ
first_byte flag [] = none
first_byte flag (x ∷ xs) = some (bit_or 8 (bit_or 8 flag 16) x)

abbrev pub write_first : Option ℕ → Option (List ℕ) → Option (List ℕ)
write_first none h = none
write_first (some b) none = none
write_first (some b) (some h) = write_at h 0 b

abbrev pub pack : ℕ → ℕ → List ℕ → Option (List ℕ)
pack flag len hex =
    if len % 2 == 1
    then write_first (first_byte flag hex) (pack_pairs ((len - 1 + 1) / 2) hex 1 1)
    else write_first (some flag) (pack_pairs ((len + 1) / 2) hex 1 0)

-- The length of the compact path, and the slice with it at the front.
unfoldable pub hex_to_compact_in_place : List ℕ → Option (ℕ × List ℕ)
hex_to_compact_in_place hex =
    let len = (if has_term hex then length hex - 1 else length hex) in
    elim (pack (if has_term hex then 32 else 0) len hex) [
      | none ↦ none
      | some h ↦ some (len / 2 + 1, h)
    ]

drop-get_elem? :
    (n : ℕ) (xs : List ℕ) (x : ℕ) (r : List ℕ)
    → drop n xs ≡ x ∷ r
    → (get_elem? xs n ≡ some x) × (drop (suc n) xs ≡ r)
drop-get_elem? zero [] x r e = absurd (cc (e))
drop-get_elem? zero (y ∷ ys) x r e = (cc (e), cc (e))
drop-get_elem? (suc n) [] x r e = absurd (cc (e))
drop-get_elem? (suc n) (y ∷ ys) x r e = drop-get_elem? n ys x r e

drop-set : (i n : ℕ) (xs : List ℕ) (v : ℕ) → i < n → drop n (set xs i v) ≡ drop n xs
drop-set i zero xs v l = absurd (omega (arith, l))
drop-set i (suc n) [] v l = refl
drop-set zero (suc n) (x ∷ xs) v l = refl
drop-set (suc i) (suc n) (x ∷ xs) v l = drop-set i n xs v (omega (arith, l))

take-set :
    (i : ℕ) (xs : List ℕ) (v : ℕ) → i < length xs → take (suc i) (set xs i v) ≡ take i xs ++ v ∷ []
take-set i [] v l = absurd (omega (arith, l))
take-set zero (x ∷ xs) v l = refl
take-set (suc i) (x ∷ xs) v l = ap (◌∷◌ x) (take-set i xs v (omega (arith, l)))

append_assoc : (xs : List ℕ) (v : ℕ) (ys : List ℕ) → (xs ++ v ∷ []) ++ ys ≡ xs ++ v ∷ ys
append_assoc [] v ys = refl
append_assoc (x ∷ xs) v ys = ap (◌∷◌ x) (append_assoc xs v ys)

write_at-in : (hex : List ℕ) (i b : ℕ) → i < length hex → write_at hex i b ≡ some (set hex i b)
write_at-in hex i b l = ground (arith, l)

-- What the loop gives: the bytes of the pairs behind what was written before.
record Packed (pairs hex : List ℕ) (bi count : ℕ) (o : Option (List ℕ)) : Type 0 where
  packed : List ℕ
  bytes : List ℕ
  result_eq : o ≡ some packed
  decode_eq : decode_nibbles pairs ≡ some bytes
  take_eq : take (bi + count) packed ≡ take bi hex ++ bytes

take_append_nil : (xs : List ℕ) → xs ++ [] ≡ xs
take_append_nil [] = refl
take_append_nil (x ∷ xs) = ap (◌∷◌ x) (take_append_nil xs)

pack_pairs-Packed :
    (count : ℕ) (pairs tail hex : List ℕ) (bi ni : ℕ)
    → length pairs ≡ 2 * count
    → drop ni hex ≡ pairs ++ tail
    → bi ≤ suc ni
    → Packed pairs hex bi count (pack_pairs count hex bi ni)
unfolding pack_pairs decode_nibbles
pack_pairs-Packed zero [] tail hex bi ni l d b = record {
  packed = hex;
  bytes = [];
  result_eq = refl;
  decode_eq = refl;
  take_eq = ap (λ n. take n hex) (omega arith) ∙ sym (take_append_nil (take bi hex));
}
pack_pairs-Packed zero (x ∷ xs) tail hex bi ni l d b = absurd (omega (arith, l))
pack_pairs-Packed (suc count) [] tail hex bi ni l d b = absurd (omega (arith, l))
pack_pairs-Packed (suc count) (x ∷ []) tail hex bi ni l d b = absurd (omega (arith, l))
pack_pairs-Packed (suc count) (x ∷ y ∷ pairs) tail hex bi ni l d b =
    let g = drop-get_elem? ni hex x (y ∷ pairs ++ tail) d in
    let g' = drop-get_elem? (suc ni) hex y (pairs ++ tail) g.1 in
    let v = bit_or 8 (x * 16 % 256) y in
    let m : bi < length hex = omega (arith, b, get_elem?-lt hex (suc ni) y g'.0) in
    let n =
      pack_pairs-Packed count pairs tail (set hex bi v) (suc bi) (suc (suc ni)) (omega (arith, l))
        (drop-set bi (suc (suc ni)) hex v (omega (arith, b)) ∙ g'.1) (omega (arith, b)) in
    let q : bi + suc count ≡ suc bi + count = omega arith in
    record {
      packed = n.packed;
      bytes = v ∷ n.bytes;
      result_eq =
          ap₂
            (λ o p.
              or_panic (write_pair hex bi o p) (λ h. pack_pairs count h (suc bi) (suc (suc ni))))
            g.0 g'.0
          ∙ ap (λ o. or_panic o (λ h. pack_pairs count h (suc bi) (suc (suc ni))))
              (write_at-in hex bi v m)
          ∙ n.result_eq;
      decode_eq = ap (with_byte v) n.decode_eq;
      take_eq =
          ap (λ k. take k n.packed) q
          ∙ n.take_eq
          ∙ ap (λ h. h ++ n.bytes) (take-set bi hex v m)
          ∙ append_assoc (take bi hex) v n.bytes;
    }

-- Writing the first byte over what stands there.
write_at-first :
    (count x b : ℕ) (packed bytes : List ℕ)
    → take (1 + count) packed ≡ x ∷ bytes
    → (write_at packed 0 b ≡ some (set packed 0 b))
      × (take (1 + count) (set packed 0 b) ≡ b ∷ bytes)
write_at-first count x b packed bytes = at_count (1 + count) (omega arith)
  where
    first_of :
        (p : List ℕ) (n : ℕ)
        → take (suc n) p ≡ x ∷ bytes
        → (write_at p 0 b ≡ some (set p 0 b)) × (take (suc n) (set p 0 b) ≡ b ∷ bytes)
    first_of [] n e = absurd (cc (e))
    first_of (y ∷ ys) n e = (write_at-in (y ∷ ys) 0 b (omega arith), cc (e))

    at_count :
        (k : ℕ)
        → k ≡ suc count
        → take k packed ≡ x ∷ bytes
        → (write_at packed 0 b ≡ some (set packed 0 b)) × (take k (set packed 0 b) ≡ b ∷ bytes)
    at_count k q =
        subst
          (λ n.
            take n packed ≡ x ∷ bytes
            → (write_at packed 0 b ≡ some (set packed 0 b)) × (take n (set packed 0 b) ≡ b ∷ bytes))
          (sym q) (first_of packed count)

-- What packing gives: the compact path at the front of the slice.
record InPlace (flag : ℕ) (rest hex : List ℕ) : Type 0 where
  packed : List ℕ
  result_eq : pack flag (length rest) hex ≡ some packed
  compact_eq : compact_from flag rest ≡ some (take (length rest / 2 + 1) packed)

-- A path of a terminator alone.
pack-terminator : (flag y : ℕ) (ys : List ℕ) → pack flag 0 (y ∷ ys) ≡ some (flag ∷ ys)
unfolding pack_pairs
pack-terminator flag y ys = write_at-in (y ∷ ys) 0 flag (omega arith)

pack-InPlace :
    (flag : ℕ) (rest tail : List ℕ) → rest ++ tail ≢ [] → InPlace flag rest (rest ++ tail)
pack-InPlace flag [] [] n = absurd (n refl)
pack-InPlace flag [] (y ∷ ys) n = record {
  packed = flag ∷ ys;
  result_eq = pack-terminator flag y ys;
  compact_eq = refl;
}
pack-InPlace flag (x ∷ xs) tail n = by_parity (Bool-cases (suc (length xs) % 2 == 1))
  where
    by_parity :
        ((suc (length xs) % 2 == 1) ≡ true) ⊎ ((suc (length xs) % 2 == 1) ≡ false)
        → InPlace flag (x ∷ xs) (x ∷ xs ++ tail)
    by_parity (inl e) =
        let count = (suc (length xs) - 1 + 1) / 2 in
        let b = bit_or 8 (bit_or 8 flag 16) x in
        let p =
          pack_pairs-Packed count xs tail (x ∷ xs ++ tail) 1 1 (ground (arith, e)) refl
            (omega arith) in
        let w = write_at-first count x b p.packed p.bytes p.take_eq in
        let k : suc (length xs) / 2 + 1 ≡ 1 + count = ground (arith, e) in
        record {
          packed = set p.packed 0 b;
          result_eq = rw e (ap (write_first (some b)) p.result_eq ∙ w.0);
          compact_eq = rw e (
              ap (with_byte b) p.decode_eq
              ∙ ap some (sym (ap (λ i. take i (set p.packed 0 b)) k ∙ w.1)));
        }
    by_parity (inr e) =
        let count = (suc (length xs) + 1) / 2 in
        let p =
          pack_pairs-Packed count (x ∷ xs) tail (x ∷ xs ++ tail) 1 0 (ground (arith, e)) refl
            (omega arith) in
        let w = write_at-first count x flag p.packed p.bytes p.take_eq in
        let k : suc (length xs) / 2 + 1 ≡ 1 + count = ground (arith, e) in
        record {
          packed = set p.packed 0 flag;
          result_eq = rw e (ap (write_first (some flag)) p.result_eq ∙ w.0);
          compact_eq = rw e (
              ap (with_byte flag) p.decode_eq
              ∙ ap some (sym (ap (λ i. take i (set p.packed 0 flag)) k ∙ w.1)));
        }

without_last-append :
    (x : ℕ) (xs : List ℕ) → without_last (x ∷ xs) ++ last_or 0 (x ∷ xs) ∷ [] ≡ x ∷ xs
without_last-append x [] = refl
without_last-append x (y ∷ ys) = ap (◌∷◌ x) (without_last-append y ys)

-- Either there is no terminator, or it is cut off.
term_cases :
    (hex : List ℕ)
    → hex ≢ []
    → (tail : List ℕ) × (hex ≡ without_term hex ++ tail)
      × (length (without_term hex) ≡ (if has_term hex then length hex - 1 else length hex))
term_cases hex n = by_term (Bool-cases (has_term hex))
  where
    cut :
        (xs : List ℕ)
        → xs ≢ []
        → (xs ≡ without_last xs ++ last_or 0 xs ∷ []) × (length (without_last xs) ≡ length xs - 1)
    cut [] m = absurd (m refl)
    cut (x ∷ xs) m =
        let e = without_last-append x xs in
        (
          sym e,
          omega
              (arith, ap length e, length-append (without_last (x ∷ xs)) (last_or 0 (x ∷ xs) ∷ [])),
        )

    by_term :
        (has_term hex ≡ true) ⊎ (has_term hex ≡ false)
        → (tail : List ℕ) × (hex ≡ without_term hex ++ tail)
          × (length (without_term hex) ≡ (if has_term hex then length hex - 1 else length hex))
    by_term (inl e) = rw e (last_or 0 hex ∷ [], (cut hex n).0, (cut hex n).1)
    by_term (inr e) = rw e ([], sym (take_append_nil hex), refl)

-- For a slice that is not empty, hexToCompactInPlace does not panic, and the bytes that it
-- leaves at the front of the slice, as many as it says, are those that hexToCompact returns.
pub hex_to_compact_in_place-hex_to_compact :
    (hex : List ℕ)
    → hex ≢ []
    → (n : ℕ) × (packed : List ℕ) × (hex_to_compact_in_place hex ≡ some (n, packed))
      × (hex_to_compact hex ≡ some (take n packed))
unfolding hex_to_compact_in_place hex_to_compact
hex_to_compact_in_place-hex_to_compact hex n =
    let t = term_cases hex n in
    let flag = (if has_term hex then 32 else 0) in
    let r =
      subst (InPlace flag (without_term hex)) (sym t.1)
        (pack-InPlace flag (without_term hex) t.0 (λ e. n (t.1 ∙ e))) in
    let q : pack flag (if has_term hex then length hex - 1 else length hex) hex ≡ some r.packed =
      ap (λ k. pack flag k hex) (sym t.2) ∙ r.result_eq in
    (
      length (without_term hex) / 2 + 1,
      r.packed,
      ap₂ (λ o k. elim o [ none ↦ none | some h ↦ some (k / 2 + 1, h) ]) q (sym t.2),
      r.compact_eq,
    )
