-- ===== src/Base/Maps.antt =====
-- Go's maps with keys of a fixed byte length, read as numbers: a map is a function into `Option`,
-- a set is a test, and the nil map is the empty one.
use Prim.Native.Nat.{ℕ}
use mathlib.Core.Path.{◌≡◌, refl, fun_ext}
use mathlib.Core.Logic.{inl, inr}
use mathlib.Core.Bool.{Bool, true, false}
use mathlib.Core.Option.{Option, none, some}
use native.Mathlib.Omega.{arith}
use ipld_eth_statedb.Base.Tests.{◌==◌, if◌then◌else◌, Bool-cases, ==_iff}

abbrev pub Map {ℓ} : Type ℓ → Type ℓ
Map V = ℕ → Option V

abbrev pub Keys : Type 0
Keys = ℕ → Bool

abbrev pub no_keys : Keys
no_keys k = false

abbrev pub with_key : Keys → ℕ → Keys
with_key s k j = if k == j then true else s j

abbrev pub without_key : Keys → ℕ → Keys
without_key s k j = if k == j then false else s j

module _ {ℓ} {V : Type ℓ} where
  abbrev pub empty_map : Map V
  empty_map k = none

  -- m[k] = v
  abbrev pub insert : Map V → ℕ → V → Map V
  insert m k v j = if k == j then some v else m j

  -- delete(m, k)
  abbrev pub delete : Map V → ℕ → Map V
  delete m k j = if k == j then none else m j

  -- m[k], with the zero value of the type where the key is missing
  abbrev pub or_zero : Option V → V → V
  or_zero none zero_value = zero_value
  or_zero (some v) zero_value = v

  abbrev pub get_or : Map V → ℕ → V → V
  get_or m k zero_value = or_zero (m k) zero_value

  pub or_zero-if :
      (c : Bool) (o : Option V) (v z : V)
      → or_zero (if c then some v else o) z ≡ (if c then v else or_zero o z)
  or_zero-if true o v z = refl
  or_zero-if false o v z = refl

  -- v, ok := m[k]
  abbrev pub has : Map V → ℕ → Bool
  has m k = elim (m k) [ none ↦ false | some v ↦ true ]

  pub insert-insert : (m : Map V) (k : ℕ) (v w : V) → insert (insert m k v) k w ≡ insert m k w
  insert-insert m k v w = fun_ext λ j. ground arith

  pub insert_self : (m : Map V) (k : ℕ) (v : V) → m k ≡ some v → insert m k v ≡ m
  insert_self m k v h = fun_ext λ j. elim (Bool-cases (k == j)) [
    | inl e ↦ let e' : k ≡ j = (==_iff k j).0 e in ground (arith, e')
    | inr e ↦ rw e
  ]

  pub delete-insert : (m : Map V) (k : ℕ) (v : V) → m k ≡ none → delete (insert m k v) k ≡ m
  delete-insert m k v h = fun_ext λ j. elim (Bool-cases (k == j)) [
    | inl e ↦ let e' : k ≡ j = (==_iff k j).0 e in ground (arith, e')
    | inr e ↦ rw e
  ]
