-- ===== src/AiSales/Email.antt =====
-- The form of an address of mail: `re.fullmatch` in `set_email` of runtime/ai_commerce.py.
use Prim.Native.Char.{code, Char}
use masih_panel.Base.Text.{nonempty}
use masih_panel.Shop.Labels.{all_chars, char_count}
use masih_panel.Base.{
  ◌&&◌, ◌==◌, leb, false, if◌then◌else◌, true, ◌||◌, none, Bool, some, Option, String, ℕ,
}

abbrev between : ℕ → ℕ → Char → Bool
between lo hi c = leb lo (code c) && leb (code c) hi

abbrev pub is_letter : Char → Bool
is_letter c = between 65 90 c || between 97 122 c

abbrev pub is_domain_char : Char → Bool
is_domain_char c = is_letter c || between 48 57 c || code c == b'.' || code c == b'-'

abbrev char_in : String → Char → Bool
char_in String.[] c = false
char_in (String.◌∷◌ x s) c = code x == code c || char_in s c

-- `[A-Za-z0-9.!#$%&'*+/=?^_~-]`
abbrev is_local_char : Char → Bool
is_local_char c = is_letter c || between 48 57 c || char_in ".!#$%&'*+/=?^_~-" c

abbrev pub cons_first : Char → Option (String × String) → Option (String × String)
cons_first c none = none
cons_first c (some (s, t)) = some (String.◌∷◌ c s, t)

-- the text before the first such character, and the text behind it
pub split_first : ℕ → String → Option (String × String)
split_first n String.[] = none
split_first n (String.◌∷◌ c s) =
    let rest = cons_first c (split_first n s) in if code c == n then some ("", s) else rest

abbrev or_here : Char → String → Bool → Option (String × String) → Option (String × String)
or_here c s here (some st) = cons_first c (some st)
or_here c s true none = some ("", s)
or_here c s false none = none

-- and for the last such character
pub split_last : ℕ → String → Option (String × String)
split_last n String.[] = none
split_last n (String.◌∷◌ c s) = or_here c s (code c == n) (split_last n s)

-- `[A-Za-z0-9.-]+\.[A-Za-z]{2,}`: the letters at the end hold no dot, so the dot is the last one
abbrev domain_parts : Option (String × String) → Bool
domain_parts none = false
domain_parts (some (name, top)) =
    nonempty name
    && all_chars is_domain_char name
    && all_chars is_letter top
    && leb 2 (char_count top)

abbrev address_parts : Option (String × String) → Bool
address_parts none = false
address_parts (some (name, domain)) =
    nonempty name && all_chars is_local_char name && domain_parts (split_last b'.' domain)

-- The part before `@` holds no `@`, so the first one divides.
unfoldable pub is_email : String → Bool
unfolding split_first split_last char_count
is_email s = address_parts (split_first b'@' s)
