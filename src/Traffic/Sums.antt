-- ===== src/Traffic/Sums.antt =====
-- Sums over a table.
use masih_panel.Base.{
  inr, ap, inl, Bool-cases, refl, some, select_one, update_where, true, arith, [], ◌≡◌, ◌==◌, ◌+◌,
  ◌∷◌, count, insert_row, Bool, List, ℕ,
}

unfoldable pub total {ℓ} : {A : Type ℓ} → (A → ℕ) → List A → ℕ
total f [] = 0
total f (x ∷ xs) = f x + total f xs

module _ {ℓ} {A : Type ℓ} (g : A → ℕ) where
  pub total-insert_row : (x : A) (xs : List A) → total g (insert_row x xs) ≡ total g xs + g x
  unfolding total
  total-insert_row x [] = omega arith
  total-insert_row x (y ∷ xs) = omega (arith, total-insert_row x xs)

  module _ (p : A → Bool) (f : A → A) where
    pub total-absent :
        (xs : List A) → (count p xs == 0) ≡ true → total g (update_where p f xs) ≡ total g xs
    unfolding total
    total-absent [] none_fits = refl
    total-absent (x ∷ xs) none_fits = ground (arith, none_fits, total-absent xs)

    -- An update of the one row that fits.
    pub total-update_where :
        (before after : ℕ) (x : A) (xs : List A)
        → (count p xs == 1) ≡ true
        → select_one p xs ≡ some x
        → g (f x) + before ≡ g x + after
        → total g (update_where p f xs) + before ≡ total g xs + after
    unfolding total
    total-update_where before after x [] one found step = ground (arith, one)
    total-update_where before after x (y ∷ xs) one found step = elim (Bool-cases (p y)) [
      | inl own ↦
          let here : y ≡ x = ground (arith, found, own) in
          rw own
            (ground (arith, one, own, total-absent xs, ap g here, ap (λ z. g (f z)) here, step))
      | inr other ↦ rw other (
          ground (
            arith,
            total-update_where before after x xs (ground (arith, one, other))
                (ground (arith, found, other)) step,
          ))
    ]

    -- An update of the one row that fits, whatever the row.
    pub total-update_any :
        (before after : ℕ) (xs : List A)
        → (count p xs == 1) ≡ true
        → ((a : A) → g (f a) + before ≡ g a + after)
        → total g (update_where p f xs) + before ≡ total g xs + after
    unfolding total
    total-update_any before after [] one step = ground (arith, one)
    total-update_any before after (y ∷ xs) one step = elim (Bool-cases (p y)) [
      | inl own ↦ rw own (ground (arith, one, own, total-absent xs, step y))
      | inr other ↦
          rw other
            (ground (arith, total-update_any before after xs (ground (arith, one, other)) step))
    ]
