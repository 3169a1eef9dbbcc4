-- ===== src/Base/Lists.antt =====
-- Lists measured and indexed by native numbers, under the library's names.
use Prim.Native.Nat.{ℕ, zero, suc, ◌+◌, ◌<◌}
use mathlib.Core.Path.{◌≡◌, refl, ap}
use mathlib.Core.Logic.{◌⊎◌, inl, inr}
use mathlib.Core.List.{List, [], ◌∷◌, ◌++◌}
use mathlib.Core.Option.{Option, none, some}
use native.Mathlib.Omega.{arith}

module _ {ℓ} {A : Type ℓ} where
  abbrev pub length : List A → ℕ
  length [] = 0
  length (x ∷ xs) = suc (length xs)

  abbrev pub get_elem? : List A → ℕ → Option A
  get_elem? [] i = none
  get_elem? (x ∷ xs) zero = some x
  get_elem? (x ∷ xs) (suc i) = get_elem? xs i

  abbrev pub set : List A → ℕ → A → List A
  set [] i v = []
  set (x ∷ xs) zero v = v ∷ xs
  set (x ∷ xs) (suc i) v = x ∷ set xs i v

  abbrev pub take : ℕ → List A → List A
  take zero xs = []
  take (suc n) [] = []
  take (suc n) (x ∷ xs) = x ∷ take n xs

  abbrev pub drop : ℕ → List A → List A
  drop zero xs = xs
  drop (suc n) [] = []
  drop (suc n) (x ∷ xs) = drop n xs

  pub length-append : (xs ys : List A) → length (xs ++ ys) ≡ length xs + length ys
  length-append [] ys = omega arith
  length-append (x ∷ xs) ys = omega (arith, length-append xs ys)

  pub take-append_self : (xs ys : List A) → take (length xs) (xs ++ ys) ≡ xs
  take-append_self [] ys = refl
  take-append_self (x ∷ xs) ys = ap (◌∷◌ x) (take-append_self xs ys)

  pub get_elem?-append_self :
      (xs ys : List A) (y : A) → get_elem? (xs ++ y ∷ ys) (length xs) ≡ some y
  get_elem?-append_self [] ys y = refl
  get_elem?-append_self (x ∷ xs) ys y = get_elem?-append_self xs ys y

  pub set_self : (xs : List A) (i : ℕ) (v : A) → get_elem? xs i ≡ some v → set xs i v ≡ xs
  set_self [] i v h = refl
  set_self (x ∷ xs) zero v h = cc
  set_self (x ∷ xs) (suc i) v h = ap (◌∷◌ x) (set_self xs i v h)

  pub set-set : (xs : List A) (i : ℕ) (v w : A) → set (set xs i v) i w ≡ set xs i w
  set-set [] i v w = refl
  set-set (x ∷ xs) zero v w = refl
  set-set (x ∷ xs) (suc i) v w = ap (◌∷◌ x) (set-set xs i v w)

  pub get_elem?-set_self :
      (xs : List A) (i : ℕ) (v u : A) → get_elem? xs i ≡ some u → get_elem? (set xs i v) i ≡ some v
  get_elem?-set_self [] i v u h = cc
  get_elem?-set_self (x ∷ xs) zero v u h = refl
  get_elem?-set_self (x ∷ xs) (suc i) v u h = get_elem?-set_self xs i v u h

  pub get_elem?-lt : (xs : List A) (i : ℕ) (v : A) → get_elem? xs i ≡ some v → i < length xs
  get_elem?-lt [] i v h = cc
  get_elem?-lt (x ∷ xs) zero v h = omega arith
  get_elem?-lt (x ∷ xs) (suc i) v h = omega (arith, get_elem?-lt xs i v h)

  pub get_elem?-append_left :
      (xs ys : List A) (i : ℕ) (v : A) → get_elem? xs i ≡ some v → get_elem? (xs ++ ys) i ≡ some v
  get_elem?-append_left [] ys i v h = cc
  get_elem?-append_left (x ∷ xs) ys zero v h = h
  get_elem?-append_left (x ∷ xs) ys (suc i) v h = get_elem?-append_left xs ys i v h

  pub get_elem?-append_cases :
      (xs : List A) (y : A) (i : ℕ) (v : A)
      → get_elem? (xs ++ y ∷ []) i ≡ some v
      → (get_elem? xs i ≡ some v) ⊎ (y ≡ v)
  get_elem?-append_cases [] y zero v h = inr (cc)
  get_elem?-append_cases [] y (suc i) v h = absurd (cc)
  get_elem?-append_cases (x ∷ xs) y zero v h = inl h
  get_elem?-append_cases (x ∷ xs) y (suc i) v h = get_elem?-append_cases xs y i v h

  pub get_elem?-set_cases :
      (xs : List A) (i j : ℕ) (u v : A)
      → get_elem? (set xs i u) j ≡ some v
      → (get_elem? xs j ≡ some v) ⊎ (u ≡ v)
  get_elem?-set_cases [] i j u v h = inl h
  get_elem?-set_cases (x ∷ xs) zero zero u v h = inr (cc)
  get_elem?-set_cases (x ∷ xs) zero (suc j) u v h = inl h
  get_elem?-set_cases (x ∷ xs) (suc i) zero u v h = inl h
  get_elem?-set_cases (x ∷ xs) (suc i) (suc j) u v h = get_elem?-set_cases xs i j u v h

  pub get_elem?-set-some :
      (xs : List A) (i j : ℕ) (u v : A)
      → get_elem? xs j ≡ some v
      → (w : A) × (get_elem? (set xs i u) j ≡ some w)
  get_elem?-set-some [] i j u v h = (v, h)
  get_elem?-set-some (x ∷ xs) zero zero u v h = (u, refl)
  get_elem?-set-some (x ∷ xs) zero (suc j) u v h = (v, h)
  get_elem?-set-some (x ∷ xs) (suc i) zero u v h = (v, h)
  get_elem?-set-some (x ∷ xs) (suc i) (suc j) u v h = get_elem?-set-some xs i j u v h
