-- ===== src/Posting/Printed.antt =====
-- The callbacks that runtime/channel_manager.py writes on the buttons of a post, read by its own
-- `admin_callback`.
use Prim.Native.Char.{Char, code}
use Prim.Native.String.append.{nil, cons}
use masih_panel.Base.{
  ℕ, ◌+◌, ◌-◌, ◌*◌, ◌==◌, ◌≡◌, refl, ap, sym, ◌∙◌, Bool, true, false, not, String, ◌<>◌, none, some,
  Bool-cases, inl, inr, arith,
}
use masih_panel.Base.Text.{str}
use masih_panel.Base.Text.Numerals.{str_reads, is_digit, read_digits, read_nat-str}
use masih_panel.Posting.Commands.{
  Command, PostCommand, op_name, post_callback, command_in, before_colon, after_colon, ident_of,
  command_of, parse_command,
}
use masih_panel.Shop.Labels.{all_chars}

abbrev no_colon : String → Bool
no_colon = all_chars λ c. not (code c == 58)

colon_first : (s : String) → ":" <> s ≡ String.◌∷◌ ":" s
colon_first s = cons ":" "" s ∙ ap (String.◌∷◌ ":") (nil s)

-- the two parts of a text around its first colon
before_lem : (p s : String) → no_colon p ≡ true → before_colon (p <> (":" <> s)) ≡ p
unfolding before_colon
before_lem String.[] s h = ap before_colon (nil (":" <> s) ∙ colon_first s)
before_lem (String.◌∷◌ c p) s h = elim (Bool-cases (code c == 58)) [
  | inl own ↦ ground (arith, h, own)
  | inr other ↦
      ap before_colon (cons c p (":" <> s)) ∙ rw (other, before_lem p s (ground (arith, h))) refl
]

after_lem : (p s : String) → no_colon p ≡ true → after_colon (p <> (":" <> s)) ≡ some s
unfolding after_colon
after_lem String.[] s h = ap after_colon (nil (":" <> s) ∙ colon_first s)
after_lem (String.◌∷◌ c p) s h = elim (Bool-cases (code c == 58)) [
  | inl own ↦ ground (arith, h, own)
  | inr other ↦
      ap after_colon (cons c p (":" <> s)) ∙ rw (other, after_lem p s (ground (arith, h))) refl
]

digit_no_colon : (c : Char) → is_digit c ≡ true → (code c == 58) ≡ false
digit_no_colon c h = ground arith

read_more :
    (c : Char) (s : String) (a n : ℕ)
    → is_digit c ≡ true
    → read_digits a (String.◌∷◌ c s) ≡ some n
    → read_digits (a * 10 + (code c - 48)) s ≡ some n
unfolding read_digits
read_more c s a n own h = sym (rw own refl) ∙ h

read_stops :
    (c : Char) (s : String) (a : ℕ) → is_digit c ≡ false → read_digits a (String.◌∷◌ c s) ≡ none
unfolding read_digits
read_stops c s a other = rw other refl

-- a text of digits has no colon
digits_whole : (s : String) (a n : ℕ) → read_digits a s ≡ some n → before_colon s ≡ s
unfolding read_digits before_colon
digits_whole String.[] a n h = refl
digits_whole (String.◌∷◌ c s) a n h = elim (Bool-cases (is_digit c)) [
  | inl own ↦
      rw (digit_no_colon c own)
        (ap (String.◌∷◌ c) (digits_whole s (a * 10 + (code c - 48)) n (read_more c s a n own h)))
  | inr other ↦ ground (arith, read_stops c s a other, h)
]

str_whole : (n : ℕ) → before_colon (str n) ≡ str n
str_whole n = digits_whole (str n) 0 n (str_reads n)

command_lem :
    (op : PostCommand) (ident : ℕ)
    → command_of (op_name op) (some (str ident)) ≡ Command.on_post op ident
unfolding command_of ident_of
command_lem PostCommand.view ident = rw (str_whole ident, read_nat-str ident) refl
command_lem PostCommand.edit ident = rw (str_whole ident, read_nat-str ident) refl
command_lem PostCommand.approve ident = rw (str_whole ident, read_nat-str ident) refl
command_lem PostCommand.reject ident = rw (str_whole ident, read_nat-str ident) refl
command_lem PostCommand.other ident = rw (str_whole ident, read_nat-str ident) refl

op_name_whole : (op : PostCommand) → no_colon (op_name op) ≡ true
op_name_whole PostCommand.view = refl
op_name_whole PostCommand.edit = refl
op_name_whole PostCommand.approve = refl
op_name_whole PostCommand.reject = refl
op_name_whole PostCommand.other = refl

-- What a button of a post says is the operation that its press performs.
pub parse_command-post_callback :
    (op : PostCommand) (ident : ℕ)
    → parse_command (post_callback op ident) ≡ Command.on_post op ident
unfolding parse_command command_in
parse_command-post_callback op ident =
    ap command_in (after_lem "ch" (op_name op <> (":" <> str ident)) refl)
    ∙ ap (λ name. command_of name (after_colon (op_name op <> (":" <> str ident))))
        (before_lem (op_name op) (str ident) (op_name_whole op))
    ∙ ap (command_of (op_name op)) (after_lem (op_name op) (str ident) (op_name_whole op))
    ∙ command_lem op ident
