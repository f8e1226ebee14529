-- ===== src/Base/Text/Numerals.antt =====
-- `int` of a text of ASCII digits, and what it gives for `str` of a number.
use Prim.Native.Char.{Char, code}
use Prim.Native.String.compare.{cons-nil}
use text.Mathlib.Text.{is_eq}
use masih_panel.Base.Int.{neg, negsuc, pos, ℤ}
use masih_panel.Base.{
  not, inr, inl, Bool-cases, ap, ◌∙◌, ℕ, zero, suc, ◌+◌, ◌-◌, ◌*◌, ◌/◌, ◌%◌, ◌<◌, ◌≡◌, refl, Bool,
  true, false, ◌&&◌, leb, ◌==◌, if◌then◌else◌, String, Option, none, some, arith,
}
use masih_panel.Base.Text.{digit, digits_before, str, nonempty}

abbrev pub is_digit : Char → Bool
is_digit c = leb 48 (code c) && leb (code c) 57

-- the number that the digits continue
unfoldable pub read_digits : ℕ → String → Option ℕ
read_digits a String.[] = some a
read_digits a (String.◌∷◌ c s) =
    let rest = read_digits (a * 10 + (code c - 48)) s in if is_digit c then rest else none

-- `int(s)` if `s.isdigit()`
unfoldable pub read_nat : String → Option ℕ
unfolding read_digits
read_nat s = if nonempty s then read_digits 0 s else none

digit_reads :
    (d : ℕ) (a : ℕ) (s : String)
    → d < 10
    → read_digits a (String.◌∷◌ (digit d) s) ≡ read_digits (a * 10 + d) s
unfolding read_digits digit
digit_reads zero a s h = refl
digit_reads (suc zero) a s h = refl
digit_reads (suc (suc zero)) a s h = refl
digit_reads (suc (suc (suc zero))) a s h = refl
digit_reads (suc (suc (suc (suc zero)))) a s h = refl
digit_reads (suc (suc (suc (suc (suc zero))))) a s h = refl
digit_reads (suc (suc (suc (suc (suc (suc zero)))))) a s h = refl
digit_reads (suc (suc (suc (suc (suc (suc (suc zero))))))) a s h = refl
digit_reads (suc (suc (suc (suc (suc (suc (suc (suc zero)))))))) a s h = refl
digit_reads (suc (suc (suc (suc (suc (suc (suc (suc (suc zero))))))))) a s h = refl
digit_reads (suc (suc (suc (suc (suc (suc (suc (suc (suc (suc d)))))))))) a s h = ground (arith, h)

digits_read : (f n : ℕ) (s : String) → n < f → read_digits 0 (digits_before f n s) ≡ read_digits n s
unfolding digits_before read_digits
digits_read zero n s h = ground (arith, h)
digits_read (suc f) n s h = elim (Bool-cases (n == 0)) [
  | inl empty ↦ rw empty (ap (λ m. read_digits m s) (ground (arith, empty)))
  | inr more ↦ rw more (
      digits_read f (n / 10) (String.◌∷◌ (digit (n % 10)) s) (ground (arith, h, more))
      ∙ digit_reads (n % 10) (n / 10) s (omega arith)
      ∙ ap (λ m. read_digits m s) (omega arith))
]

cons_nonempty : (c : Char) (s : String) → nonempty (String.◌∷◌ c s) ≡ true
cons_nonempty c s = ap (λ o. not (is_eq o)) (cons-nil c s)

digits_nonempty : (f n : ℕ) (s : String) → nonempty s ≡ true → nonempty (digits_before f n s) ≡ true
unfolding digits_before
digits_nonempty zero n s h = h
digits_nonempty (suc f) n s h = elim (Bool-cases (n == 0)) [
  | inl empty ↦ rw empty h
  | inr more ↦
      rw more (digits_nonempty f (n / 10) (String.◌∷◌ (digit (n % 10)) s) (cons_nonempty _ s))
]

number_nonempty :
    (f n : ℕ) (s : String) → n < f → (n == 0) ≡ false → nonempty (digits_before f n s) ≡ true
unfolding digits_before
number_nonempty zero n s h more = ground (arith, h)
number_nonempty (suc f) n s h more =
    rw more (digits_nonempty f (n / 10) (String.◌∷◌ (digit (n % 10)) s) (cons_nonempty _ s))

str-nonempty : (n : ℕ) → nonempty (str n) ≡ true
unfolding str
str-nonempty n = elim (Bool-cases (n == 0)) [
  | inl empty ↦ rw empty refl
  | inr more ↦ rw more (number_nonempty (n + 1) n "" (omega arith) more)
]

pub str_reads : (n : ℕ) → read_digits 0 (str n) ≡ some n
unfolding str read_digits
str_reads n = elim (Bool-cases (n == 0)) [
  | inl empty ↦ rw empty (ap some (ground (arith, empty)))
  | inr more ↦ rw more (digits_read (n + 1) n "" (omega arith))
]

-- What `str` writes, `int` reads.
pub read_nat-str : (n : ℕ) → read_nat (str n) ≡ some n
unfolding read_nat
read_nat-str n = rw (str-nonempty n) (str_reads n)

-- `str(z)`
abbrev pub str_ℤ : ℤ → String
str_ℤ (pos n) = str n
str_ℤ (negsuc n) = String.◌∷◌ "-" (str (n + 1))

abbrev map_number : (ℕ → ℤ) → Option ℕ → Option ℤ
map_number f none = none
map_number f (some n) = some (f n)

-- `int(s)`
unfoldable pub read_int : String → Option ℤ
unfolding read_nat
read_int String.[] = none
read_int (String.◌∷◌ c s) =
    if code c == 45 then map_number neg (read_nat s) else map_number pos (read_nat (String.◌∷◌ c s))

minus_no_digit : (c : Char) → (code c == 45) ≡ true → is_digit c ≡ false
minus_no_digit c minus = ground arith

minus_unread : (c : Char) (s : String) → (code c == 45) ≡ true → read_nat (String.◌∷◌ c s) ≡ none
unfolding read_nat read_digits
minus_unread c s minus = elim (Bool-cases (nonempty (String.◌∷◌ c s))) [
  | inl some_text ↦ rw (minus_no_digit c minus, some_text) refl
  | inr empty ↦ rw empty refl
]

unsigned : (s : String) (n : ℕ) → read_nat s ≡ some n → read_int s ≡ some (pos n)
unfolding read_int
unsigned String.[] n h = ground (arith, h)
unsigned (String.◌∷◌ c s) n h = elim (Bool-cases (code c == 45)) [
  | inl minus ↦ ground (arith, h, minus_unread c s minus)
  | inr other ↦ rw other (ap (map_number pos) h)
]

negative : (n : ℕ) → neg (n + 1) ≡ negsuc n
negative n = ground arith

-- What `str` writes, `int` reads, with its sign.
pub read_int-str : (z : ℤ) → read_int (str_ℤ z) ≡ some z
unfolding read_int
read_int-str (pos n) = unsigned (str n) n (read_nat-str n)
read_int-str (negsuc n) = ap (map_number neg) (read_nat-str (n + 1)) ∙ ap some (negative n)
