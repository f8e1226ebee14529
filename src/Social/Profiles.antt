-- ===== src/Social/Profiles.antt =====
-- The profiles that a chat needs in runtime/social.py: `profile`, `complete`, `_require_complete`.
use masih_panel.Base.{
  ℕ, zero, suc, ◌==◌, leb, Bool, true, false, ◌&&◌, if◌then◌else◌, String, ◌<>◌, str_eq, List, [],
  ◌∷◌, Option, none, some, select_one, exists, insert_row,
}
use masih_panel.Base.Text.{nonempty}
use masih_panel.Queue.{button, draw, notify}
use masih_panel.Social.Chat.{is_admin}
use masih_panel.Store.{Db, Notice, SocialProfile, Visibility, account}
use masih_panel.Tx.{Tx, no_code_left, integrity, pure, raise, gets, require, ◌>>=◌, ◌>>◌, modify}

abbrev pub is_profile : ℕ → SocialProfile → Bool
is_profile uid p = p.user_id == uid

abbrev has_code : String → SocialProfile → Bool
has_code code p = str_eq p.code code

-- the loop over the tries; the drawn text is `secrets.token_hex(4).upper()`
unfoldable pub free_code : ℕ → Tx Db String
unfolding draw
free_code zero = raise no_code_left
free_code (suc tries) = do
  token ← draw
  taken ← gets (λ d. exists (has_code ("MS-" <> token)) d.social.profiles)
  if taken then free_code tries else pure ("MS-" <> token)

abbrev new_profile : ℕ → String → SocialProfile
new_profile uid code = record {
  user_id = uid;
  code = code;
  display_name = "";
  gender = "";
  age = 0;
  in_province = false;
  interests = [];
  discoverable = true;
  visibility = Visibility.public;
}

abbrev add_profile : SocialProfile → Db → Db
add_profile p d = record d {
  social = record d.social { profiles = insert_row p d.social.profiles };
}

unfoldable pub ensure_profile : ℕ → Option SocialProfile → Tx Db SocialProfile
unfolding free_code
ensure_profile uid (some p) = pure p
ensure_profile uid none = do
  code ← free_code 8
  modify (add_profile (new_profile uid code))
  require integrity (λ d. select_one (is_profile uid) d.social.profiles)

-- `profile(c, uid)`
unfoldable pub profile : ℕ → Tx Db SocialProfile
unfolding ensure_profile
profile uid = do
  found ← gets (λ d. select_one (is_profile uid) d.social.profiles)
  ensure_profile uid found

abbrev has_any : List String → Bool
has_any [] = false
has_any (x ∷ xs) = true

-- `complete(p)`
abbrev pub is_complete : SocialProfile → Bool
is_complete p =
    nonempty p.display_name
    && nonempty p.gender
    && leb 18 p.age
    && p.in_province
    && has_any p.interests

-- The page of `my_profile` for somebody who is no administrator, without its scores.
unfoldable pub my_profile : ℕ → Tx Db (Unit {0})
unfolding profile
my_profile uid = do
  p ← profile uid
  notify (account uid) (Notice.profile_page p) (
      (button "name" "soc:edit:name" ∷ button "age" "soc:edit:age" ∷ [])
      ∷ (button "gender" "soc:gender" ∷ button "province" "soc:provinces:0" ∷ [])
      ∷ (button "interests" "soc:interests" ∷ button "photos" "soc:photos" ∷ [])
      ∷ (button "my gallery" "soc:mygallery" ∷ [])
      ∷ (button "privacy" "soc:privacy" ∷ button "invitation" "soc:invite" ∷ [])
      ∷ (button "visitors" "soc:visitors" ∷ button "followers" "soc:followers" ∷ [])
      ∷ (button "the club" "soc:home" ∷ [])
      ∷ [])

-- `_require_complete(c, uid)`
unfoldable pub require_complete : ℕ → Tx Db Bool
unfolding profile my_profile
require_complete uid = do
  s ← gets (λ d. d.settings)
  if is_admin uid s then pure true else (do
    p ← profile uid
    if is_complete p then pure true else (do my_profile uid; pure false))
