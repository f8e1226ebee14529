-- ===== src/Shop/Labels.antt =====
-- The labels of subscriptions in runtime/sales.py: their form, and that no two in use are the same up
-- to case.
pub mod Frame
use Prim.Native.Char.{Char, code}
use masih_panel.Base.{
  ℕ, zero, suc, ◌==◌, leb, ltb, ◌&&◌, ◌||◌, not, Bool, true, false, if◌then◌else◌, String, str_eq,
  ◌<>◌, Option, none, some, exists,
}
use masih_panel.Base.Text.{take_chars}
use masih_panel.Tx.{Tx, Result, ok, err, bad_label, label_exhausted, pure, raise, gets, lift, ◌>>=◌}
use masih_panel.Store.{Db, OrderStatus}
use masih_panel.Queue.{draw}

-- What Python's texts do by the tables of Unicode.
pub record Unicode : Type 0 where
  -- `" ".join(unicodedata.normalize("NFC", s).split())`
  pub squeeze : String → String
  pub casefold : String → String
  pub strip : String → String
  pub lower : String → String
  pub is_alnum : Char → Bool

-- `len(s)`
unfoldable pub char_count : String → ℕ
char_count String.[] = 0
char_count (String.◌∷◌ c s) = suc (char_count s)

abbrev pub all_chars : (Char → Bool) → String → Bool
all_chars p String.[] = true
all_chars p (String.◌∷◌ c s) = p c && all_chars p s

abbrev is_control : Char → Bool
is_control c = ltb (code c) 32 || code c == 127

abbrev pub text_or_empty : Option String → String
text_or_empty none = ""
text_or_empty (some s) = s

abbrev pub is_cancelled : OrderStatus → Bool
is_cancelled OrderStatus.cancelled = true
is_cancelled _ = false

module _ (u : Unicode) where
  -- a letter, a digit, a space, `-`, `_` or the zero-width non-joiner
  abbrev is_label_char : Char → Bool
  is_label_char c =
      u.is_alnum c || code c == b' ' || code c == b'-' || code c == b'_' || code c == 0x200c

  checked : String → Result String
  unfolding char_count
  checked s =
      if leb 2 (char_count s)
        && leb (char_count s) 55
        && all_chars (λ c. not (is_control c)) s
        && all_chars is_label_char s
      then ok s
      else err bad_label

  -- `subscription_label(value)`
  unfoldable pub subscription_label : String → Result String
  unfolding checked
  subscription_label value = checked (u.squeeze value)

  abbrev same_label : String → String → Bool
  same_label needle existing = str_eq (u.casefold existing) needle

  -- `label_taken(c, label)`
  pub label_taken : String → Db → Bool
  label_taken label d =
      let needle = u.casefold label in
      exists (λ v. not v.deleted && same_label needle (text_or_empty v.body.label)) d.services
      || exists
          (λ o.
            not (is_cancelled o.status) && same_label needle (text_or_empty o.plan.display_name))
          d.orders
      || exists (λ q. ltb d.clock q.expires && same_label needle q.label) d.quotes

  -- the loop over the random suffixes, `n` tries left
  try_suffixes : ℕ → String → Tx Db String
  unfolding label_taken
  try_suffixes zero name = raise label_exhausted
  try_suffixes (suc n) name = do
    suffix ← draw
    taken ← gets (label_taken (take_chars 54 name <> "-" <> suffix))
    let rest = try_suffixes n name
    if taken then rest else pure (take_chars 54 name <> "-" <> suffix)

  -- `unique_subscription_label(c, preferred)`
  unfoldable pub unique_subscription_label : String → Tx Db String
  unfolding label_taken try_suffixes subscription_label
  unique_subscription_label preferred = do
    name ← lift (subscription_label preferred)
    taken ← gets (label_taken name)
    if taken then try_suffixes 64 name else pure name
