-- ===== src/Base/Table.antt =====
-- A table of a database as the list of its rows, in order of insertion: what the SQL statements of
-- the source do to it.
use Prim.Native.Nat.{ℕ, suc, ◌+◌}
use mathlib.Core.Bool.{Bool, true, false}
use mathlib.Core.Option.{Option, none, some}
use mathlib.Core.List.{List, [], ◌∷◌, ◌++◌}
use masih_panel.Base.Tests.{if◌then◌else◌, ltb}

module _ {ℓ} {A : Type ℓ} where
  -- `SELECT … WHERE p` and `fetchone()`: the first row, if there is one
  abbrev pub select_one : (A → Bool) → List A → Option A
  select_one p [] = none
  select_one p (x ∷ xs) = if p x then some x else select_one p xs

  -- `SELECT … WHERE p` and `fetchall()`
  abbrev pub select_all : (A → Bool) → List A → List A
  select_all p [] = []
  select_all p (x ∷ xs) = if p x then x ∷ select_all p xs else select_all p xs

  -- `SELECT 1 … WHERE p`: whether a row fits
  abbrev pub exists : (A → Bool) → List A → Bool
  exists p [] = false
  exists p (x ∷ xs) = if p x then true else exists p xs

  -- `SELECT COUNT(*) … WHERE p`, and the `rowcount` of an update or a delete
  abbrev pub count : (A → Bool) → List A → ℕ
  count p [] = 0
  count p (x ∷ xs) = if p x then suc (count p xs) else count p xs

  -- `UPDATE … SET f WHERE p`
  abbrev pub update_where : (A → Bool) → (A → A) → List A → List A
  update_where p f [] = []
  update_where p f (x ∷ xs) = (if p x then f x else x) ∷ update_where p f xs

  -- `DELETE … WHERE p`
  abbrev pub delete_where : (A → Bool) → List A → List A
  delete_where p [] = []
  delete_where p (x ∷ xs) = if p x then delete_where p xs else x ∷ delete_where p xs

  -- `INSERT`: the new row is the last
  abbrev pub insert_row : A → List A → List A
  insert_row a xs = xs ++ (a ∷ [])

  -- the next number of a column `INTEGER PRIMARY KEY`: above every one in use
  abbrev pub next_id : (A → ℕ) → List A → ℕ
  next_id number [] = 1
  next_id number (x ∷ xs) =
      let rest = next_id number xs in if ltb (number x) rest then rest else number x + 1
