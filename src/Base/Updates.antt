-- ===== src/Base/Updates.antt =====
-- What repeated updates and lookups of a table give.
use mathlib.Core.Path.{◌≡◌, refl, subst}
use mathlib.Core.Logic.{inl, inr}
use mathlib.Core.Bool.{Bool, true, false}
use mathlib.Core.List.{List, [], ◌∷◌}
use mathlib.Core.Option.{none, some}
use Prim.Native.Nat.{◌≤◌}
use native.Mathlib.Omega.{arith}
use masih_panel.Base.Tests.{Bool-cases}
use masih_panel.Base.Table.{exists, count, insert_row, select_one, update_where}

module _ {ℓ} {A : Type ℓ} (p : A → Bool) where
  pub exists-some : (x : A) (xs : List A) → select_one p xs ≡ some x → exists p xs ≡ true
  exists-some x [] found = ground (arith, found)
  exists-some x (y ∷ xs) found = elim (Bool-cases (p y)) [
    | inl own ↦ rw own refl
    | inr other ↦ rw other (exists-some x xs (ground (arith, found, other)))
  ]

  -- The row that a lookup finds fits.
  pub select_one-fits : (x : A) (xs : List A) → select_one p xs ≡ some x → p x ≡ true
  select_one-fits x [] found = ground (arith, found)
  select_one-fits x (y ∷ xs) found = elim (Bool-cases (p y)) [
    | inl own ↦ subst (λ z. p z ≡ true) (ground (arith, found, own)) own
    | inr other ↦ select_one-fits x xs (ground (arith, found, other))
  ]

  pub exists-none : (xs : List A) → select_one p xs ≡ none → exists p xs ≡ false
  exists-none [] absent = refl
  exists-none (y ∷ xs) absent = elim (Bool-cases (p y)) [
    | inl own ↦ ground (arith, absent, own)
    | inr other ↦ rw other (exists-none xs (ground (arith, absent, other)))
  ]

  module _ (f : A → A) (same : (a : A) → p (f a) ≡ p a) where
    pub count-update_where :
        (q : A → Bool) (xs : List A) → count p (update_where q f xs) ≡ count p xs
    count-update_where q [] = refl
    count-update_where q (x ∷ xs) = elim (Bool-cases (q x)) [
      | inl hit ↦ rw (hit, same x, count-update_where q xs) refl
      | inr miss ↦ rw (miss, count-update_where q xs) refl
    ]

    -- A second update that has nothing left to do.
    pub update_where-absorb :
        (h : A → A) (xs : List A)
        → ((a : A) → h (f a) ≡ f a)
        → update_where p h (update_where p f xs) ≡ update_where p f xs
    update_where-absorb h [] idle = refl
    update_where-absorb h (x ∷ xs) idle = elim (Bool-cases (p x)) [
      | inl own ↦ rw (own, same x, own, idle x, update_where-absorb h xs idle) refl
      | inr other ↦ rw (other, other, update_where-absorb h xs idle) refl
    ]

  pub update_where-insert_row :
      (h : A → A) (x : A) (xs : List A)
      → exists p xs ≡ false
      → h x ≡ x
      → update_where p h (insert_row x xs) ≡ insert_row x xs
  update_where-insert_row h x [] absent idle = elim (Bool-cases (p x)) [
    | inl own ↦ rw (own, idle) refl
    | inr other ↦ rw other refl
  ]
  update_where-insert_row h x (y ∷ xs) absent idle = elim (Bool-cases (p y)) [
    | inl own ↦ ground (arith, absent, own)
    | inr other ↦
        rw (other, update_where-insert_row h x xs (ground (arith, absent, other)) idle) refl
  ]

  -- An update of rows that do not fit.
  pub select_one-update_apart :
      (q : A → Bool) (f : A → A) (xs : List A)
      → ((a : A) → p (f a) ≡ p a)
      → ((a : A) → p a ≡ true → q a ≡ false)
      → select_one p (update_where q f xs) ≡ select_one p xs
  select_one-update_apart q f [] same apart = refl
  select_one-update_apart q f (x ∷ xs) same apart = elim (Bool-cases (p x)) [
    | inl own ↦ rw (apart x own, own) refl
    | inr other ↦ elim (Bool-cases (q x)) [
      | inl hit ↦ rw (hit, same x, other) (select_one-update_apart q f xs same apart)
      | inr miss ↦ rw (miss, other) (select_one-update_apart q f xs same apart)
    ]
  ]

  pub count-found : (x : A) (xs : List A) → select_one p xs ≡ some x → 1 ≤ count p xs
  count-found x [] found = ground (arith, found)
  count-found x (y ∷ xs) found = elim (Bool-cases (p y)) [
    | inl own ↦ rw own (omega arith)
    | inr other ↦ rw other (count-found x xs (ground (arith, found, other)))
  ]

  -- Where one row at most fits, a narrower test finds that row.
  pub select_one-narrow :
      (q : A → Bool) (x : A) (xs : List A)
      → ((a : A) → q a ≡ true → p a ≡ true)
      → count p xs ≤ 1
      → select_one q xs ≡ some x
      → select_one p xs ≡ some x
  select_one-narrow q x [] narrow one found = ground (arith, found)
  select_one-narrow q x (y ∷ xs) narrow one found = elim (Bool-cases (q y)) [
    | inl own ↦ rw (narrow y own) (ground (arith, found, own))
    | inr other ↦ elim (Bool-cases (p y)) [
      | inl hit ↦
          let rest : select_one q xs ≡ some x = ground (arith, found, other) in
          ground (
            arith,
            one,
            hit,
            count-found x xs (select_one-narrow q x xs narrow (ground (arith, one, hit)) rest),
          )
      | inr miss ↦ rw miss (
          select_one-narrow q x xs narrow (ground (arith, one, miss))
            (ground (arith, found, other)))
    ]
  ]

  pub select_one-absent : (xs : List A) → exists p xs ≡ false → select_one p xs ≡ none
  select_one-absent [] absent = refl
  select_one-absent (y ∷ xs) absent = elim (Bool-cases (p y)) [
    | inl own ↦ ground (arith, absent, own)
    | inr other ↦ rw other (select_one-absent xs (ground (arith, absent, other)))
  ]

  -- An insertion of a row that does not fit.
  pub select_one-insert_apart :
      (x : A) (xs : List A) → p x ≡ false → select_one p (insert_row x xs) ≡ select_one p xs
  select_one-insert_apart x [] apart = rw apart refl
  select_one-insert_apart x (y ∷ xs) apart = elim (Bool-cases (p y)) [
    | inl own ↦ rw own refl
    | inr other ↦ rw other (select_one-insert_apart x xs apart)
  ]
