-- ===== src/Posting/Names.antt =====
-- `normalize_channel` of runtime/sales.py.
use Prim.Native.Char.{Char, code}
use masih_panel.Base.{
  ℕ, ◌==◌, ltb, in_range, Bool, false, not, ◌&&◌, ◌||◌, if◌then◌else◌, String, ◌<>◌, starts_with,
}
use masih_panel.Base.Text.{nonempty, drop_chars}
use masih_panel.Base.Text.Numerals.{is_digit}
use masih_panel.Shop.Labels.{Unicode, char_count, all_chars}
use masih_panel.Tx.{Result, ok, err, bad_channel, bad_text}

abbrev is_letter : Char → Bool
is_letter c = in_range 65 90 (code c) || in_range 97 122 (code c)

abbrev is_handle_char : Char → Bool
is_handle_char c = is_letter c || is_digit c || code c == 95

-- `s.lstrip(c)`
lstrip : ℕ → String → String
lstrip c String.[] = ""
lstrip c (String.◌∷◌ d s) = let rest = lstrip c s in if code d == c then rest else String.◌∷◌ d s

-- `s.rstrip(c)`
rstrip : ℕ → String → String
rstrip c String.[] = ""
rstrip c (String.◌∷◌ d s) =
    let rest = rstrip c s in if code d == c && not (nonempty rest) then "" else String.◌∷◌ d rest

-- `re.fullmatch(r"-100[0-9]{6,18}", s)`
abbrev is_channel_number : String → Bool
is_channel_number s =
    starts_with s "-100" && in_range 10 22 (char_count s) && all_chars is_digit (drop_chars 4 s)

-- `[A-Za-z][A-Za-z0-9_]{4,31}`
is_handle : String → Bool
is_handle String.[] = false
is_handle (String.◌∷◌ c s) =
    is_letter c && all_chars is_handle_char s && in_range 4 31 (char_count s)

without_at : String → String
without_at String.[] = ""
without_at (String.◌∷◌ c s) = if code c == 64 then s else String.◌∷◌ c s

-- the name without the address of Telegram
without_address : String → String
unfolding lstrip rstrip
without_address s =
    if starts_with s "https://t.me/" then rstrip 47 (lstrip 47 (drop_chars 13 s)) else s

named : String → Result String
unfolding is_handle without_at char_count
named s =
    if is_channel_number s
    then ok s
    else if is_handle (without_at s)
    then ok ("@" <> lstrip 64 s)
    else err bad_channel

-- `normalize_channel(value)`
unfoldable pub normalize_channel : Unicode → String → Result String
unfolding without_address named
normalize_channel u value =
    if ltb 160 (char_count value)
    then err bad_text
    else if nonempty (u.strip value)
    then named (without_address (u.strip value))
    else ok ""
