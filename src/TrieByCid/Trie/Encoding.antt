-- ===== src/TrieByCid/Trie/Encoding.antt =====
-- trie_by_cid/trie/encoding.go: keys as bytes, as nibbles with a terminator, and compact. A byte is
-- a number below 256 where it comes from Go; a slice that the code fills from the start is
-- the list of what it writes, and `none` is a panic.
pub mod Bits
pub mod RoundTrips
pub mod InPlace
use ipld_eth_statedb.Base.{
  ℕ, zero, suc, ◌+◌, ◌*◌, ◌/◌, ◌%◌, ◌-◌, Bool, true, false, not, Option, none, some, List, [], ◌∷◌,
  ◌++◌, length, ◌==◌, ltb, if◌then◌else◌, drop,
}

-- The terminator, 16.
abbrev pub terminator : ℕ
terminator = 16

-- a | b, on the lowest n bits
abbrev pub bit_or : ℕ → ℕ → ℕ → ℕ
bit_or zero a b = 0
bit_or (suc n) a b = (if a % 2 + b % 2 == 0 then 0 else 1) + 2 * bit_or n (a / 2) (b / 2)

-- s[len(s)-1], with 0 for the empty slice
abbrev pub last_or : ℕ → List ℕ → ℕ
last_or missing [] = missing
last_or missing (x ∷ xs) = last_or x xs

-- s[:len(s)-1]
abbrev pub without_last : List ℕ → List ℕ
without_last [] = []
without_last (x ∷ []) = []
without_last (x ∷ y ∷ ys) = x ∷ without_last (y ∷ ys)

unfoldable pub has_term : List ℕ → Bool
has_term s = last_or 0 s == terminator

abbrev pub without_term : List ℕ → List ℕ
without_term hex = if has_term hex then without_last hex else hex

abbrev pub with_byte : ℕ → Option (List ℕ) → Option (List ℕ)
with_byte b none = none
with_byte b (some bytes) = some (b ∷ bytes)

-- nibbles[ni]<<4 | nibbles[ni+1]; an odd number of nibbles is read out of range.
unfoldable pub decode_nibbles : List ℕ → Option (List ℕ)
decode_nibbles [] = some []
decode_nibbles (x ∷ []) = none
decode_nibbles (x ∷ y ∷ ys) = with_byte (bit_or 8 (x * 16 % 256) y) (decode_nibbles ys)

-- The first byte from the flag byte, and the odd nibble in it.
abbrev pub compact_from : ℕ → List ℕ → Option (List ℕ)
compact_from flag [] = with_byte flag (some [])
compact_from flag (x ∷ xs) =
    if length (x ∷ xs) % 2 == 1
    then with_byte (bit_or 8 (bit_or 8 flag 16) x) (decode_nibbles xs)
    else with_byte flag (decode_nibbles (x ∷ xs))

unfoldable pub hex_to_compact : List ℕ → Option (List ℕ)
hex_to_compact hex = compact_from (if has_term hex then 32 else 0) (without_term hex)

unfoldable pub keybytes_to_hex : List ℕ → List ℕ
keybytes_to_hex [] = terminator ∷ []
keybytes_to_hex (b ∷ bs) = b / 16 ∷ b % 16 ∷ keybytes_to_hex bs

-- base[0] of a slice that is not empty
abbrev pub first : List ℕ → ℕ
first [] = 0
first (x ∷ xs) = x

abbrev pub without_even_flag : List ℕ → List ℕ
without_even_flag base = if ltb (first base) 2 then without_last base else base

unfoldable pub compact_to_hex : List ℕ → List ℕ
compact_to_hex [] = []
compact_to_hex (c ∷ cs) =
    let base = without_even_flag (keybytes_to_hex (c ∷ cs)) in drop (2 - first base % 2) base

unfoldable pub hex_to_key_bytes : List ℕ → Option (List ℕ)
hex_to_key_bytes hex =
    if length (without_term hex) % 2 == 0 then decode_nibbles (without_term hex) else none

unfoldable pub prefix_len : List ℕ → List ℕ → ℕ
prefix_len [] b = 0
prefix_len (x ∷ xs) [] = 0
prefix_len (x ∷ xs) (y ∷ ys) = if x == y then suc (prefix_len xs ys) else 0
