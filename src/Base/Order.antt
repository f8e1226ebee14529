-- ===== src/Base/Order.antt =====
-- `ORDER BY`: a list in the order of a test.
use masih_panel.Base.{Bool, if◌then◌else◌, List, [], ◌∷◌}

module _ {ℓ} {A : Type ℓ} (before : A → A → Bool) where
  insert_before : A → List A → List A
  insert_before x [] = x ∷ []
  insert_before x (y ∷ ys) =
      let rest = insert_before x ys in if before x y then x ∷ y ∷ ys else y ∷ rest

  -- rows that the test does not separate stay in their order
  unfoldable pub order_by : List A → List A
  unfolding insert_before
  order_by [] = []
  order_by (x ∷ xs) = insert_before x (order_by xs)
