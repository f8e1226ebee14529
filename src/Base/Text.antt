-- ===== src/Base/Text.antt =====
-- Python's texts as native strings: `str` of a number, slices, and the tests that the source makes.
pub mod Numerals
use Prim.Native.Char.{Char}
use Prim.Native.String.{char_at}
use masih_panel.Base.{
  ℕ, zero, suc, ◌+◌, ◌/◌, ◌%◌, ◌≡◌, refl, Bool, false, true, not, ◌==◌, if◌then◌else◌, String,
  str_eq, ◌<>◌, List, [], ◌∷◌,
}

digit : ℕ → Char
digit d = char_at "0123456789" d

-- `f` rounds: one for each digit, and a number below `f` has fewer than `f` digits
digits_before : ℕ → ℕ → String → String
digits_before zero n out = out
digits_before (suc f) n out =
    let more = digits_before f (n / 10) (String.◌∷◌ (digit (n % 10)) out) in
    if n == 0 then out else more

-- `str(n)` of a number that is not negative
unfoldable pub str : ℕ → String
unfolding digits_before digit
str n = if n == 0 then "0" else digits_before (n + 1) n ""

-- `s[:n]`
unfoldable pub take_chars : ℕ → String → String
take_chars zero s = ""
take_chars (suc n) String.[] = ""
take_chars (suc n) (String.◌∷◌ c s) = String.◌∷◌ c (take_chars n s)

-- `s[n:]`
unfoldable pub drop_chars : ℕ → String → String
drop_chars zero s = s
drop_chars (suc n) String.[] = ""
drop_chars (suc n) (String.◌∷◌ c s) = drop_chars n s

-- the truth of a text
abbrev pub nonempty : String → Bool
nonempty s = not (str_eq s "")

abbrev pub mem_text : String → List String → Bool
mem_text s [] = false
mem_text s (t ∷ ts) = if str_eq s t then true else mem_text s ts

str_test : str 1047 <> take_chars 2 "abc" <> drop_chars 7 "coupon:VIP" ≡ "1047abVIP"
unfolding str take_chars drop_chars
str_test = refl
