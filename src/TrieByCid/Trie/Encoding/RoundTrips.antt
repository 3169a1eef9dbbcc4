-- ===== src/TrieByCid/Trie/Encoding/RoundTrips.antt =====
-- encoding.go: keys and paths come back from their encodings.
use ipld_eth_statedb.Base.{
  ℕ, suc, ◌+◌, ◌*◌, ◌/◌, ◌%◌, ◌-◌, ◌<◌, ◌≡◌, refl, ap, ap₂, ◌∙◌, arith, Bool, true, false, ◌⊎◌,
  Bool-cases, inl, inr, Option, none, some, List, [], ◌∷◌, ◌++◌, length, ◌==◌, if◌then◌else◌, drop,
}
use ipld_eth_statedb.TrieByCid.Trie.Encoding.{
  bit_or, last_or, without_last, without_term, terminator, has_term, decode_nibbles, with_byte,
  compact_from, hex_to_compact, keybytes_to_hex, first, without_even_flag, compact_to_hex,
  hex_to_key_bytes,
}
use ipld_eth_statedb.TrieByCid.Trie.Encoding.Bits.{bit_or-nibbles}

abbrev pub AllBelow : ℕ → List ℕ → Type 0
AllBelow n [] = Unit {0}
AllBelow n (x ∷ xs) = (x < n) × AllBelow n xs

-- The nibbles of bytes, without the terminator.
abbrev pub nibbles : List ℕ → List ℕ
nibbles [] = []
nibbles (b ∷ bs) = b / 16 ∷ b % 16 ∷ nibbles bs

keybytes_to_hex-nibbles : (bs : List ℕ) → keybytes_to_hex bs ≡ nibbles bs ++ terminator ∷ []
unfolding keybytes_to_hex
keybytes_to_hex-nibbles [] = refl
keybytes_to_hex-nibbles (b ∷ bs) = ap (λ l. b / 16 ∷ b % 16 ∷ l) (keybytes_to_hex-nibbles bs)

last_or-append : (m x : ℕ) (xs : List ℕ) → last_or m (xs ++ x ∷ []) ≡ x
last_or-append m x [] = refl
last_or-append m x (y ∷ ys) = last_or-append y x ys

without_last-append : (x : ℕ) (xs : List ℕ) → without_last (xs ++ x ∷ []) ≡ xs
without_last-append x [] = refl
without_last-append x (y ∷ []) = refl
without_last-append x (y ∷ z ∷ zs) = ap (◌∷◌ y) (without_last-append x (z ∷ zs))

pub has_term-append : (xs : List ℕ) → has_term (xs ++ terminator ∷ []) ≡ true
unfolding has_term
has_term-append xs = ap (λ x. x == terminator) (last_or-append 0 terminator xs)

pub without_term-append : (xs : List ℕ) → without_term (xs ++ terminator ∷ []) ≡ xs
without_term-append xs =
    ap (λ c. if c then without_last (xs ++ terminator ∷ []) else xs ++ terminator ∷ [])
      (has_term-append xs)
    ∙ without_last-append terminator xs

-- A key whose nibbles are below 16 has no terminator.
last_or-AllBelow : (m : ℕ) (xs : List ℕ) → m < 16 → AllBelow 16 xs → last_or m xs < 16
last_or-AllBelow m [] h b = h
last_or-AllBelow m (x ∷ xs) h b = last_or-AllBelow x xs b.0 b.1

pub has_term-AllBelow : (xs : List ℕ) → AllBelow 16 xs → has_term xs ≡ false
unfolding has_term
has_term-AllBelow xs b = below (last_or 0 xs) (last_or-AllBelow 0 xs (omega arith) b)
  where
    below : (n : ℕ) → n < 16 → (n == 16) ≡ false
    below n h = ground arith

pub without_term-AllBelow : (xs : List ℕ) → AllBelow 16 xs → without_term xs ≡ xs
without_term-AllBelow xs b = ap (λ c. if c then without_last xs else xs) (has_term-AllBelow xs b)

nibbles-even : (bs : List ℕ) → length (nibbles bs) % 2 ≡ 0
nibbles-even [] = omega arith
nibbles-even (b ∷ bs) = omega (arith, nibbles-even bs)

-- Decoding the nibbles of bytes gives the bytes.
decode_nibbles-nibbles : (bs : List ℕ) → AllBelow 256 bs → decode_nibbles (nibbles bs) ≡ some bs
unfolding decode_nibbles
decode_nibbles-nibbles [] h = refl
decode_nibbles-nibbles (b ∷ bs) h =
    ap₂ with_byte
      (bit_or-nibbles (b / 16) (b % 16) (omega (arith, h.0)) (omega arith) ∙ omega arith)
      (decode_nibbles-nibbles bs h.1)

-- keybytesToHex followed by hexToKeyBytes gives the key back, without a panic, for any key of bytes.
pub hex_to_key_bytes-keybytes_to_hex :
    (key : List ℕ) → AllBelow 256 key → hex_to_key_bytes (keybytes_to_hex key) ≡ some key
unfolding hex_to_key_bytes
hex_to_key_bytes-keybytes_to_hex key h =
    let e : without_term (keybytes_to_hex key) ≡ nibbles key =
      ap without_term (keybytes_to_hex-nibbles key) ∙ without_term-append (nibbles key) in
    ap (λ l. if length l % 2 == 0 then decode_nibbles l else none) e
    ∙ ap (λ k. if k == 0 then decode_nibbles (nibbles key) else none) (nibbles-even key)
    ∙ decode_nibbles-nibbles key h

-- Nibbles that decode come back from the bytes that they decode to.
decoded :
    (xs : List ℕ)
    → AllBelow 16 xs
    → length xs % 2 ≡ 0
    → (bs : List ℕ) × (decode_nibbles xs ≡ some bs) × (nibbles bs ≡ xs)
unfolding decode_nibbles
decoded [] b e = ([], refl, refl)
decoded (x ∷ []) b e = absurd (omega (arith, e))
decoded (x ∷ y ∷ ys) b e =
    let (bs, d, n) = decoded ys b.1.1 (omega (arith, e)) in
    let q : bit_or 8 (x * 16 % 256) y ≡ 16 * x + y = bit_or-nibbles x y b.0 b.1.0 in
    let high : (16 * x + y) / 16 ≡ x = omega (arith, b.1.0) in
    let low : (16 * x + y) % 16 ≡ y = omega (arith, b.1.0) in
    ((16 * x + y) ∷ bs, ap₂ with_byte q d, ap₂ (λ u l. u ∷ l) high (ap₂ (λ u l. u ∷ l) low n))

-- compactToHex of a first byte, whose high nibble is f, and further bytes.
compact_read :
    (f x : ℕ) (bs xs : List ℕ)
    → nibbles bs ≡ xs
    → x < 16
    → compact_to_hex ((16 * f + x) ∷ bs) ≡ (
        let base = without_even_flag (f ∷ x ∷ (xs ++ terminator ∷ [])) in
        drop (2 - first base % 2) base)
unfolding compact_to_hex keybytes_to_hex
compact_read f x bs xs n h =
    let high : (16 * f + x) / 16 ≡ f = omega arith in
    let low : (16 * f + x) % 16 ≡ x = omega arith in
    ap (λ l. let base = without_even_flag l in drop (2 - first base % 2) base)
      (ap₂ (λ u l. u ∷ l) high
        (ap₂ (λ u l. u ∷ l) low (keybytes_to_hex-nibbles bs ∙ ap (λ l. l ++ terminator ∷ []) n)))

-- The flag byte of a path with a terminator and of one without.
abbrev flag_of : Bool → ℕ
flag_of t = if t then 32 else 0

abbrev with_term : Bool → List ℕ → List ℕ
with_term t xs = if t then xs ++ terminator ∷ [] else xs

even_read :
    (t : Bool) (bs xs : List ℕ) → nibbles bs ≡ xs → compact_to_hex (flag_of t ∷ bs) ≡ with_term t xs
even_read true bs xs n = compact_read 2 0 bs xs n (omega arith)
even_read false bs xs n =
    compact_read 0 0 bs xs n (omega arith)
    ∙ ap (drop 2) (without_last-append terminator (0 ∷ 0 ∷ xs))

odd_read :
    (t : Bool) (x : ℕ) (bs xs : List ℕ)
    → nibbles bs ≡ xs
    → x < 16
    → compact_to_hex (bit_or 8 (bit_or 8 (flag_of t) 16) x ∷ bs) ≡ with_term t (x ∷ xs)
odd_read true x bs xs n h =
    ap (λ b. compact_to_hex (b ∷ bs)) (bit_or-nibbles 3 x (omega arith) h)
    ∙ compact_read 3 x bs xs n h
odd_read false x bs xs n h =
    ap (λ b. compact_to_hex (b ∷ bs)) (bit_or-nibbles 1 x (omega arith) h)
    ∙ compact_read 1 x bs xs n h
    ∙ ap (drop 1) (without_last-append terminator (1 ∷ x ∷ xs))

abbrev ReadsBack : Option (List ℕ) → List ℕ → Type 0
ReadsBack o xs = (cs : List ℕ) × (o ≡ some cs) × (compact_to_hex cs ≡ xs)

compact_from-ReadsBack :
    (t : Bool) (xs : List ℕ)
    → AllBelow 16 xs
    → ReadsBack (compact_from (flag_of t) xs) (with_term t xs)
compact_from-ReadsBack t [] b = (flag_of t ∷ [], refl, even_read t [] [] refl)
compact_from-ReadsBack t (x ∷ xs) b = at_parity (Bool-cases (length (x ∷ xs) % 2 == 1))
  where
    even_length : (n : ℕ) → (n % 2 == 1) ≡ false → n % 2 ≡ 0
    even_length n e = ground arith

    odd_length : (n : ℕ) → (suc n % 2 == 1) ≡ true → n % 2 ≡ 0
    odd_length n e = ground arith

    at_parity :
        ((length (x ∷ xs) % 2 == 1) ≡ true) ⊎ ((length (x ∷ xs) % 2 == 1) ≡ false)
        → ReadsBack (compact_from (flag_of t) (x ∷ xs)) (with_term t (x ∷ xs))
    at_parity (inl e) =
        let (bs, d, n) = decoded xs b.1 (odd_length (length xs) e) in
        (
          bit_or 8 (bit_or 8 (flag_of t) 16) x ∷ bs,
          ap
                (λ c.
                  if c
                  then with_byte (bit_or 8 (bit_or 8 (flag_of t) 16) x) (decode_nibbles xs)
                  else with_byte (flag_of t) (decode_nibbles (x ∷ xs)))
                e
              ∙ ap (with_byte _) d,
          odd_read t x bs xs n b.0,
        )
    at_parity (inr e) =
        let (bs, d, n) = decoded (x ∷ xs) b (even_length (length (x ∷ xs)) e) in
        (
          flag_of t ∷ bs,
          ap
                (λ c.
                  if c
                  then with_byte (bit_or 8 (bit_or 8 (flag_of t) 16) x) (decode_nibbles xs)
                  else with_byte (flag_of t) (decode_nibbles (x ∷ xs)))
                e
              ∙ ap (with_byte _) d,
          even_read t bs (x ∷ xs) n,
        )

-- A path of nibbles, of even or odd length, with or without the terminator: HexToCompact does not
-- panic, and CompactToHex gives the path back.
pub compact_to_hex-hex_to_compact :
    (terminated : Bool) (path : List ℕ)
    → AllBelow 16 path
    → let hex = if terminated then path ++ terminator ∷ [] else path in
      (compact : List ℕ) × (hex_to_compact hex ≡ some compact) × (compact_to_hex compact ≡ hex)
unfolding hex_to_compact
compact_to_hex-hex_to_compact true path b =
    let (cs, e, r) = compact_from-ReadsBack true path b in
    (
      cs,
      ap₂ (λ c l. compact_from (if c then 32 else 0) l) (has_term-append path)
            (without_term-append path)
          ∙ e,
      r,
    )
compact_to_hex-hex_to_compact false path b =
    let (cs, e, r) = compact_from-ReadsBack false path b in
    (
      cs,
      ap₂ (λ c l. compact_from (if c then 32 else 0) l) (has_term-AllBelow path b)
            (without_term-AllBelow path b)
          ∙ e,
      r,
    )
