-- ===== src/Base/Int.antt =====
-- Python's integers over the native numbers, under the library's names (its ℤ stands on the unary
-- ℕ). Sums and orders go through the two parts of an integer, which are numbers that `omega` reads.
use masih_panel.Base.{
  false, ℕ, suc, ◌+◌, ◌-◌, ◌*◌, ◌/◌, ◌≤◌, ◌≡◌, refl, Bool, arith, ltb, leb, if◌then◌else◌,
}

-- `negsuc n` is -(n + 1).
pub data ℤ : Type 0 where
  pos : ℕ → ℤ
  negsuc : ℕ → ℤ

abbrev pub pos_part : ℤ → ℕ
pos_part (pos n) = n
pos_part (negsuc n) = 0

abbrev pub neg_part : ℤ → ℕ
neg_part (pos n) = 0
neg_part (negsuc n) = suc n

abbrev pub sub_ℕ : ℕ → ℕ → ℤ
sub_ℕ a b = if leb b a then pos (a - b) else negsuc (b - a - 1)

infixl 65 ◌+ℤ◌ ◌-ℤ◌
infix 50 ◌≤ℤ◌
unfoldable pub ◌+ℤ◌ : ℤ → ℤ → ℤ
a +ℤ b = sub_ℕ (pos_part a + pos_part b) (neg_part a + neg_part b)

unfoldable pub ◌-ℤ◌ : ℤ → ℤ → ℤ
a -ℤ b = sub_ℕ (pos_part a + neg_part b) (neg_part a + pos_part b)

abbrev pub neg : ℕ → ℤ
neg n = sub_ℕ 0 n

abbrev pub ◌≤ℤ◌ : ℤ → ℤ → Type 0
a ≤ℤ b = pos_part a + neg_part b ≤ pos_part b + neg_part a

abbrev pub ltb_ℤ : ℤ → ℤ → Bool
ltb_ℤ a b = ltb (pos_part a + neg_part b) (pos_part b + neg_part a)

abbrev pub leb_ℤ : ℤ → ℤ → Bool
leb_ℤ a b = leb (pos_part a + neg_part b) (pos_part b + neg_part a)

pub +ℤ_parts :
    (a b : ℤ)
    → pos_part (a +ℤ b) + neg_part a + neg_part b ≡ neg_part (a +ℤ b) + pos_part a + pos_part b
unfolding ◌+ℤ◌
+ℤ_parts a b = ground arith

pub -ℤ_parts :
    (a b : ℤ)
    → pos_part (a -ℤ b) + neg_part a + pos_part b ≡ neg_part (a -ℤ b) + pos_part a + neg_part b
unfolding ◌-ℤ◌
-ℤ_parts a b = ground arith

pub eq_of_parts : (a b : ℤ) → pos_part a + neg_part b ≡ pos_part b + neg_part a → a ≡ b
eq_of_parts a b h = ground arith

pub ruleset int_laws = (arith, +ℤ_parts, -ℤ_parts, eq_of_parts)

pub +ℤ_nonneg : (a b : ℤ) → pos 0 ≤ℤ a → pos 0 ≤ℤ b → pos 0 ≤ℤ a +ℤ b
+ℤ_nonneg a b h k = omega int_laws

-- What covers a debit is not overdrawn by it.
pub +ℤ_neg : (a : ℤ) (n : ℕ) → ltb_ℤ a (pos n) ≡ false → pos 0 ≤ℤ a +ℤ neg n
unfolding ◌+ℤ◌
+ℤ_neg a n h = ground arith
