-- ===== src/Base/Rows.antt =====
-- What an insertion does to the counts and the tests of a table.
use Prim.Native.Nat.{suc}
use mathlib.Core.Path.{◌≡◌, refl, sym, subst}
use mathlib.Core.Bool.{Bool, true, false}
use mathlib.Core.List.{List, [], ◌∷◌}
use mathlib.Core.Option.{none, some}
use mathlib.Core.Logic.{inl, inr}
use native.Mathlib.Omega.{arith}
use masih_panel.Base.Tests.{if◌then◌else◌, Bool-cases}
use masih_panel.Base.Table.{exists, count, insert_row, select_one, update_where}

module _ {ℓ} {A : Type ℓ} (p : A → Bool) where
  pub count-insert_row :
      (x : A) (xs : List A)
      → count p (insert_row x xs) ≡ (if p x then suc (count p xs) else count p xs)
  count-insert_row x [] = ground arith
  count-insert_row x (y ∷ xs) = ground (arith, count-insert_row x xs)

  pub exists-insert_row :
      (x : A) (xs : List A) → exists p (insert_row x xs) ≡ (if exists p xs then true else p x)
  exists-insert_row x [] = ground arith
  exists-insert_row x (y ∷ xs) = ground (arith, exists-insert_row x xs)

  pub count-absent : (xs : List A) → exists p xs ≡ false → count p xs ≡ 0
  count-absent [] h = refl
  count-absent (x ∷ xs) h = ground (arith, count-absent xs)

-- What an update does to the first row that fits, if the update leaves the test as it is.
pub select_one-update_where {ℓ} :
    {A : Type ℓ} (p q : A → Bool) (f : A → A) (x : A) (xs : List A)
    → ((a : A) → p (f a) ≡ p a)
    → select_one p xs ≡ some x
    → q x ≡ true
    → select_one p (update_where q f xs) ≡ some (f x)
select_one-update_where p q f x [] same found hit = ground (arith, found)
select_one-update_where p q f x (y ∷ xs) same found hit = elim (Bool-cases (p y)) [
  | inl own ↦
      let here : y ≡ x = ground (arith, found, own) in
      rw (subst (λ z. q z ≡ true) (sym here) hit, same y, own, here) refl
  | inr other ↦
      let later : select_one p (update_where q f xs) ≡ some (f x) =
        select_one-update_where p q f x xs same (ground (arith, found, other)) hit in
      elim (Bool-cases (q y)) [
        | inl hits ↦ rw (hits, same y, other) later
        | inr misses ↦ rw (misses, other) later
      ]
]

-- An inserted row is found where none was.
pub select_one-insert_row {ℓ} :
    {A : Type ℓ} (p : A → Bool) (x : A) (xs : List A)
    → select_one p xs ≡ none
    → p x ≡ true
    → select_one p (insert_row x xs) ≡ some x
select_one-insert_row p x [] absent fits = ground (arith, fits)
select_one-insert_row p x (y ∷ xs) absent fits = elim (Bool-cases (p y)) [
  | inl own ↦ ground (arith, absent, own)
  | inr other ↦ ground (arith, absent, other, fits, select_one-insert_row p x xs)
]
