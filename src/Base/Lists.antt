-- ===== src/Base/Lists.antt =====
-- Lists measured by native numbers, and a predicate on all entries.
use Prim.Native.Nat.{ℕ, zero, suc, ◌+◌}
use mathlib.Core.Path.{◌≡◌}
use mathlib.Core.List.{List, [], ◌∷◌, ◌++◌}
use native.Mathlib.Omega.{arith}

module _ {ℓ} {A : Type ℓ} where
  abbrev pub length : List A → ℕ
  length [] = 0
  length (x ∷ xs) = suc (length xs)

  abbrev pub take : ℕ → List A → List A
  take zero xs = []
  take (suc n) [] = []
  take (suc n) (x ∷ xs) = x ∷ take n xs

  pub length-append : (xs ys : List A) → length (xs ++ ys) ≡ length xs + length ys
  length-append [] ys = omega arith
  length-append (x ∷ xs) ys = omega (arith, length-append xs ys)

-- A predicate by recursion computes to tuples, which the tactics read and build.
abbrev pub All {ℓ κ} : {A : Type ℓ} → (A → Type κ) → List A → Type κ
All P [] = Unit
All P (x ∷ xs) = P x × All P xs

module _ {ℓ κ} {A : Type ℓ} (P : A → Type κ) where
  pub All-append : (xs ys : List A) → All P xs → All P ys → All P (xs ++ ys)
  All-append [] ys h k = k
  All-append (x ∷ xs) ys h k = (h.0, All-append xs ys h.1 k)
