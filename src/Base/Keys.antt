-- ===== src/Base/Keys.antt =====
-- Tables with a primary key: the rows have distinct numbers.
use masih_panel.Base.{
  if◌then◌else◌, ◌∙◌, subst, count-absent, exists-insert_row, ap, ℕ, ◌+◌, ◌≤◌, ◌==◌, ◌≡◌, refl,
  Bool, true, false, not, ◌&&◌, List, [], ◌∷◌, exists, count, select_all, update_where, insert_row,
  next_id, All, Bool-cases, inl, inr, arith,
}

module _ {ℓ} {A : Type ℓ} where
  pub exists-update_where :
      (p q : A → Bool) (f : A → A) (xs : List A)
      → ((a : A) → p (f a) ≡ p a)
      → exists p (update_where q f xs) ≡ exists p xs
  exists-update_where p q f [] same = refl
  exists-update_where p q f (x ∷ xs) same = elim (Bool-cases (q x)) [
    | inl hit ↦ rw (hit, same x, exists-update_where p q f xs same) refl
    | inr miss ↦ rw (miss, exists-update_where p q f xs same) refl
  ]

  pub exists-narrow :
      (p q : A → Bool) (xs : List A) → exists p xs ≡ false → exists (λ a. p a && q a) xs ≡ false
  exists-narrow p q [] h = refl
  exists-narrow p q (x ∷ xs) h = elim (Bool-cases (p x)) [
    | inl own ↦ ground (arith, h, own)
    | inr other ↦ rw other (exists-narrow p q xs (ground (arith, h, other)))
  ]

  pub All-update_where {κ} :
      (P : A → Type κ) (q : A → Bool) (f : A → A) (xs : List A)
      → ((a : A) → q a ≡ true → P a → P (f a))
      → All P xs
      → All P (update_where q f xs)
  All-update_where P q f [] kept h = tt
  All-update_where P q f (x ∷ xs) kept h = elim (Bool-cases (q x)) [
    | inl hit ↦ rw hit (kept x hit h.0, All-update_where P q f xs kept h.1)
    | inr miss ↦ rw miss (h.0, All-update_where P q f xs kept h.1)
  ]

  pub All-select_all {κ} :
      (P : A → Type κ) (p : A → Bool) (xs : List A) → All P xs → All P (select_all p xs)
  All-select_all P p [] h = tt
  All-select_all P p (x ∷ xs) h = elim (Bool-cases (p x)) [
    | inl own ↦ rw own (h.0, All-select_all P p xs h.1)
    | inr other ↦ rw other (All-select_all P p xs h.1)
  ]

  All-chosen {κ} :
      (P : A → Type κ) (b : Bool) (x : A) (xs : List A)
      → (b ≡ true → P x)
      → All P xs
      → All P (if b then x ∷ xs else xs)
  All-chosen P true x xs own h = (own refl, h)
  All-chosen P false x xs own h = h

  pub All-map {κ λ'} :
      (P : A → Type κ) (Q : A → Type λ') (xs : List A) → ((a : A) → P a → Q a) → All P xs → All Q xs
  All-map P Q [] f h = tt
  All-map P Q (x ∷ xs) f h = (f x h.0, All-map P Q xs f h.1)

  pub All-zip {κ} :
      (P Q R : A → Type κ) (xs : List A)
      → ((a : A) → P a → Q a → R a)
      → All P xs
      → All Q xs
      → All R xs
  All-zip P Q R [] f h k = tt
  All-zip P Q R (x ∷ xs) f h k = (f x h.0 k.0, All-zip P Q R xs f h.1 k.1)

  pub All-every {κ} : (P : A → Type κ) (xs : List A) → ((a : A) → P a) → All P xs
  All-every P [] f = tt
  All-every P (x ∷ xs) f = (f x, All-every P xs f)

  -- where no row fits
  pub All-absent : (p : A → Bool) (xs : List A) → exists p xs ≡ false → All (λ a. p a ≡ false) xs
  All-absent p [] h = tt
  All-absent p (x ∷ xs) h = (ground (arith, h), All-absent p xs (ground (arith, h)))

  pub exists-weaken :
      (p q : A → Bool) (xs : List A)
      → All (λ a. q a ≡ true → p a ≡ true) xs
      → exists p xs ≡ false
      → exists q xs ≡ false
  exists-weaken p q [] w h = refl
  exists-weaken p q (x ∷ xs) w h = elim (Bool-cases (q x)) [
    | inl own ↦ ground (arith, h, w.0 own)
    | inr other ↦ rw other (exists-weaken p q xs w.1 (ground (arith, h)))
  ]

  -- an update that makes no row fit
  pub count-update-le :
      (p q : A → Bool) (f : A → A) (xs : List A)
      → All (λ a. q a ≡ true → p (f a) ≡ true → p a ≡ true) xs
      → count p (update_where q f xs) ≤ count p xs
  count-update-le p q f [] back = omega arith
  count-update-le p q f (x ∷ xs) back = elim (Bool-cases (q x)) [
    | inl hit ↦ elim (Bool-cases (p (f x))) [
      | inl fits ↦ rw (hit, fits, back.0 hit fits) (omega (arith, count-update-le p q f xs back.1))
      | inr fails ↦ elim (Bool-cases (p x)) [
        | inl own ↦ rw (hit, fails, own) (omega (arith, count-update-le p q f xs back.1))
        | inr other ↦ rw (hit, fails, other) (count-update-le p q f xs back.1)
      ]
    ]
    | inr miss ↦ elim (Bool-cases (p x)) [
      | inl own ↦ rw (miss, own) (omega (arith, count-update-le p q f xs back.1))
      | inr other ↦ rw (miss, other) (count-update-le p q f xs back.1)
    ]
  ]

  -- an update makes as many rows fit as it changes, at most
  pub count-update-add :
      (p q : A → Bool) (f : A → A) (xs : List A)
      → count p (update_where q f xs) ≤ count p xs + count q xs
  count-update-add p q f [] = omega arith
  count-update-add p q f (x ∷ xs) = elim (Bool-cases (q x)) [
    | inl hit ↦ ground (arith, hit, count-update-add p q f xs)
    | inr miss ↦ ground (arith, miss, count-update-add p q f xs)
  ]

module _ {ℓ} {A : Type ℓ} (number : A → ℕ) where
  abbrev pub has_number : ℕ → A → Bool
  has_number n a = number a == n

  -- the numbers are distinct, as a primary key demands
  abbrev pub IsKeyed : List A → Type 0
  IsKeyed [] = Unit
  IsKeyed (x ∷ xs) = (exists (has_number (number x)) xs ≡ false) × IsKeyed xs

  pub update_where-IsKeyed :
      (q : A → Bool) (f : A → A) (xs : List A)
      → ((a : A) → number (f a) ≡ number a)
      → IsKeyed xs
      → IsKeyed (update_where q f xs)
  update_where-IsKeyed q f [] same h = tt
  update_where-IsKeyed q f (x ∷ xs) same h = elim (Bool-cases (q x)) [
    | inl hit ↦
        rw
          (
            hit,
            same x,
            exists-update_where (has_number (number x)) q f xs
                (λ a. ap (λ n. n == number x) (same a)),
          )
          (h.0, update_where-IsKeyed q f xs same h.1)
    | inr miss ↦
        rw
          (
            miss,
            exists-update_where (has_number (number x)) q f xs
                (λ a. ap (λ n. n == number x) (same a)),
          )
          (h.0, update_where-IsKeyed q f xs same h.1)
  ]

  above : (n : ℕ) (xs : List A) → next_id number xs ≤ n → exists (has_number n) xs ≡ false
  above n [] h = refl
  above n (x ∷ xs) h = ground (arith, h, above n xs)

  -- The next number is new.
  pub next_id-new : (xs : List A) → exists (has_number (next_id number xs)) xs ≡ false
  next_id-new xs = above (next_id number xs) xs (omega arith)

  pub insert_row-IsKeyed :
      (x : A) (xs : List A)
      → exists (has_number (number x)) xs ≡ false
      → IsKeyed xs
      → IsKeyed (insert_row x xs)
  insert_row-IsKeyed x [] h k = (refl, tt)
  insert_row-IsKeyed x (y ∷ xs) h k = (
    exists-insert_row (has_number (number y)) x xs ∙ rw k.0 (ground (arith, h)),
    insert_row-IsKeyed x xs (ground (arith, h)) k.1,
  )

  pub count-IsKeyed : (n : ℕ) (xs : List A) → IsKeyed xs → count (has_number n) xs ≤ 1
  count-IsKeyed n [] h = omega arith
  count-IsKeyed n (x ∷ xs) h = elim (Bool-cases (number x == n)) [
    | inl own ↦
        let here : number x ≡ n = ground (arith, own) in
        let rest : count (has_number n) xs ≡ 0 =
          count-absent (has_number n) xs (subst (λ m. exists (has_number m) xs ≡ false) here h.0) in
        rw own (omega (arith, rest))
    | inr other ↦ rw other (count-IsKeyed n xs h.1)
  ]

  absent_selected :
      (n : ℕ) (t : A → Bool) (xs : List A)
      → exists (has_number n) xs ≡ false
      → All (λ a. (number a == n) ≡ false) (select_all t xs)
  absent_selected n t [] h = tt
  absent_selected n t (x ∷ xs) h = elim (Bool-cases (t x)) [
    | inl fits ↦ rw fits (ground (arith, h), absent_selected n t xs (ground (arith, h)))
    | inr fails ↦ rw fails (absent_selected n t xs (ground (arith, h)))
  ]

  -- a row before those selected changes nothing
  selected_after :
      (t : A → Bool) (x : A) (xs : List A)
      → All (λ a. (number a == number x) ≡ false) (select_all t xs)
      → All (λ a. exists (λ r. (number r == number a) && not (t r)) xs ≡ false) (select_all t xs)
      → All
          (λ a. exists (λ r. (number r == number a) && not (t r)) (x ∷ xs) ≡ false)
          (select_all t xs)
  selected_after t x xs apart rest =
      All-zip _ _ _ (select_all t xs) (λ a other absent. rw absent (ground (arith, other))) apart
        rest

  -- Where a selected row's number stands, there stands a row that fits.
  pub select_all-IsKeyed :
      (t : A → Bool) (xs : List A)
      → IsKeyed xs
      → All (λ a. exists (λ r. (number r == number a) && not (t r)) xs ≡ false) (select_all t xs)
  select_all-IsKeyed t [] h = tt
  select_all-IsKeyed t (x ∷ xs) h =
      All-chosen _ (t x) x (select_all t xs)
        (λ fits.
          rw (exists-narrow (has_number (number x)) (λ r. not (t r)) xs h.0, fits) (ground arith))
        (selected_after t x xs (absent_selected (number x) t xs h.0) (select_all-IsKeyed t xs h.1))
