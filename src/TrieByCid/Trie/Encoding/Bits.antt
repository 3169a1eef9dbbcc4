-- ===== src/TrieByCid/Trie/Encoding/Bits.antt =====
-- encoding.go: `|` of operands that have no bit in common.
use ipld_eth_statedb.Base.{
  ℕ, suc, ◌+◌, ◌*◌, ◌/◌, ◌%◌, ◌<◌, ◌≡◌, arith, ◌==◌, if◌then◌else◌, ap, ap₂, ◌∙◌,
}
use ipld_eth_statedb.TrieByCid.Trie.Encoding.{bit_or}

bit_of_sum : (x y : ℕ) → x < 2 → y < 2 → x + y < 2 → (if x + y == 0 then 0 else 1) ≡ x + y
bit_of_sum x y p q r = ground arith

-- The bits of a zero operand.
bit_or_zero : (n a : ℕ) → bit_or (suc n) a 0 ≡ a % 2 + 2 * bit_or n (a / 2) 0
bit_or_zero n a =
    ap (λ k. k + 2 * bit_or n (a / 2) 0)
      (bit_of_sum (a % 2) 0 (omega arith) (omega arith) (omega arith) ∙ omega arith)

-- A bit of an even operand.
bit_or_even : (n a b : ℕ) → bit_or (suc n) (2 * a) b ≡ b % 2 + 2 * bit_or n a (b / 2)
bit_or_even n a b =
    ap₂ (λ k m. k + 2 * bit_or n m (b / 2))
      (bit_of_sum ((2 * a) % 2) (b % 2) (omega arith) (omega arith) (omega arith) ∙ omega arith)
      (omega arith)

low_four : (a : ℕ) → a < 16 → bit_or 4 a 0 ≡ a
low_four a h = omega (
  arith,
  bit_or_zero 3 a,
  bit_or_zero 2 (a / 2),
  bit_or_zero 1 (a / 2 / 2),
  bit_or_zero 0 (a / 2 / 2 / 2),
)

-- The low four bits of an operand beside four zero bits.
high_four : (a b : ℕ) → a < 16 → b < 16 → bit_or 8 (2 * (2 * (2 * (2 * a)))) b ≡ 16 * a + b
high_four a b h k =
    let gone : b / 2 / 2 / 2 / 2 ≡ 0 = omega arith in
    let none_left : bit_or 4 a (b / 2 / 2 / 2 / 2) ≡ a = ap (bit_or 4 a) gone ∙ low_four a h in
    omega (
      arith,
      bit_or_even 7 (2 * (2 * (2 * a))) b,
      bit_or_even 6 (2 * (2 * a)) (b / 2),
      bit_or_even 5 (2 * a) (b / 2 / 2),
      bit_or_even 4 a (b / 2 / 2 / 2),
      none_left,
    )

-- A high nibble and a low nibble.
pub bit_or-nibbles : (a b : ℕ) → a < 16 → b < 16 → bit_or 8 (a * 16 % 256) b ≡ 16 * a + b
bit_or-nibbles a b h k = ap (λ x. bit_or 8 x b) (omega arith) ∙ high_four a b h k
