-- ===== src/Social/Rewards.antt =====
-- `reward_post`, `reward_like`, `_score` and `reaction` of runtime/social.py.
pub mod Caps
use masih_panel.Base.Int.{ℤ, pos, pos_part, ◌+ℤ◌, ◌-ℤ◌}
use masih_panel.Base.Text.{str, mem_text, nonempty}
use masih_panel.Loyalty.{award}
use masih_panel.Social.Chat.{is_blocked}
use masih_panel.Tx.{
  Tx, item_missing, own_item, user_barred, pure, gets, require, ◌>>=◌, ◌>>◌, raise_if, modify, when,
}
use masih_panel.Store.{
  Db, PointsEntry, ReactionKind, Reaction, MediaItem, Playlist, Like, SocialProfile,
}
use masih_panel.Base.{
  ℕ, ◌*◌, ◌/◌, ◌==◌, leb, ltb, min, Bool, true, false, not, ◌&&◌, ◌||◌, if◌then◌else◌, String,
  str_eq, ◌<>◌, List, [], ◌∷◌, Option, none, some, select_one, exists, count, update_where,
  delete_where, insert_row,
}

-- the start of the day in UTC
abbrev pub day_start : ℕ → ℕ
day_start at = at / 86400 * 86400

abbrev pub earns : List String → ℕ → ℕ → PointsEntry → Bool
earns kinds uid since e = e.user_id == uid && mem_text e.kind kinds && leb since e.created

-- `SELECT COALESCE(SUM(points),0) … WHERE user_id=? AND kind … AND created>=?`
unfoldable pub earned_points : List String → ℕ → ℕ → List PointsEntry → ℤ
earned_points kinds uid since [] = pos 0
earned_points kinds uid since (e ∷ es) =
    let rest = earned_points kinds uid since es in
    if earns kinds uid since e then e.points +ℤ rest else rest

-- `max(0,cap-spent)`
unfoldable pub room : ℕ → ℤ → ℕ
room cap spent = pos_part (pos cap -ℤ spent)

abbrev kind_name : ReactionKind → String
kind_name ReactionKind.profile = "profile"
kind_name ReactionKind.music = "music"
kind_name ReactionKind.movie = "movie"
kind_name ReactionKind.series = "series"
kind_name ReactionKind.playlist = "playlist"

abbrev pub is_profile : ReactionKind → Bool
is_profile ReactionKind.profile = true
is_profile _ = false

abbrev is_media : ReactionKind → Bool
is_media ReactionKind.profile = false
is_media ReactionKind.playlist = false
is_media _ = true

abbrev pub post_kinds : List String
post_kinds = "social_post" ∷ []

abbrev pub like_kinds : List String
like_kinds = "social_like" ∷ "media_like" ∷ []

-- the points that a post earns today
pub post_reward : ℕ → ReactionKind → Db → ℕ
unfolding earned_points room
post_reward uid kind d =
    min (d.social.post_points kind)
      (room 50 (earned_points post_kinds uid (day_start d.clock) d.loyalty_points))

-- `reward_post(c, uid, kind, item)`
unfoldable pub reward_post : ℕ → ReactionKind → ℕ → Tx Db Bool
unfolding post_reward
reward_post uid kind item = do
  points ← gets (post_reward uid kind)
  if uid == 0 || is_profile kind
      then pure false
      else award uid (pos points) "social_post"
          ("social:post:" <> kind_name kind <> ":" <> str item)

abbrev like_group : ReactionKind → String
like_group kind = if is_media kind then "media" else kind_name kind

-- `remaining` of `reward_like`
pub like_room : ℕ → Db → ℕ
unfolding earned_points room
like_room owner d = room 20 (earned_points like_kinds owner (day_start d.clock) d.loyalty_points)

-- `reward_like(c, uid, owner, kind, item)`
unfoldable pub reward_like : ℕ → ℕ → ReactionKind → ℕ → Tx Db Bool
unfolding like_room
reward_like uid owner kind item = do
  points ← gets (λ d. d.social.like_points kind)
  remaining ← gets (like_room owner)
  if owner == 0 || owner == uid || remaining == 0
      then pure false
      else award owner (pos (min points remaining)) "social_like"
          ("liked:" <> like_group kind <> ":" <> str item <> ":" <> str uid)

abbrev public_playlist : Playlist → Option ℕ
public_playlist p = if p.removed || p.private then none else some p.owner_id

-- whether the item is of the kind of the vote
abbrev fits_kind : ReactionKind → MediaItem → Bool
fits_kind ReactionKind.music m = str_eq m.kind "music"
fits_kind ReactionKind.movie m =
    str_eq m.kind "film" && (str_eq m.media_type "movie" || not (nonempty m.media_type))
fits_kind ReactionKind.series m = str_eq m.kind "film" && str_eq m.media_type "series"
fits_kind _ m = false

abbrev public_media : ReactionKind → MediaItem → Option ℕ
public_media kind m = if m.published && fits_kind kind m then some m.owner_id else none

abbrev found {ℓ} : {A : Type ℓ} → (A → Option ℕ) → Option A → Option ℕ
found f none = none
found f (some a) = f a

-- the owner of what is voted on
pub owner_of : ReactionKind → ℕ → Db → Option ℕ
owner_of ReactionKind.profile item d =
    found (λ p. some item) (select_one (λ (p : SocialProfile). p.user_id == item) d.social.profiles)
owner_of ReactionKind.playlist item d =
    found public_playlist (select_one (λ p. p.id == item) d.social.playlists)
owner_of kind item d =
    found (public_media kind) (select_one (λ m. m.id == item) d.social.media_items)

abbrev same_kind : ReactionKind → ReactionKind → Bool
same_kind a b = str_eq (kind_name a) (kind_name b)

abbrev pub is_reaction : ReactionKind → ℕ → ℕ → Reaction → Bool
is_reaction kind item uid r = same_kind r.kind kind && r.item_id == item && r.user_id == uid

abbrev same_vote : Bool → Bool → Bool
same_vote a b = if a then b else not b

abbrev repeats : Bool → Option Reaction → Bool
repeats up none = false
repeats up (some r) = same_vote r.up up

abbrev upsert_reaction : Reaction → List Reaction → List Reaction
upsert_reaction r rs =
    if exists (is_reaction r.kind r.item_id r.user_id) rs
    then update_where (is_reaction r.kind r.item_id r.user_id)
        (λ x. record x { up = r.up; updated = r.updated }) rs
    else insert_row r rs

abbrev without_like : ℕ → ℕ → List Like → List Like
without_like item uid = delete_where λ l. l.item_id == item && l.user_id == uid

-- The older tables of likes hold the positive votes too.
abbrev relike : Bool → Like → List Like → List Like
relike liked l ls =
    if liked
    then insert_row l (without_like l.item_id l.user_id ls)
    else without_like l.item_id l.user_id ls

abbrev relike_if : Bool → Bool → Like → List Like → List Like
relike_if here liked l ls = if here then relike liked l ls else ls

abbrev is_playlist : ReactionKind → Bool
is_playlist ReactionKind.playlist = true
is_playlist _ = false

-- the tables after a vote, which a second equal vote takes back
abbrev voted : ℕ → ReactionKind → ℕ → Bool → Bool → Db → Db
voted uid kind item up again d =
    let like : Like = record { item_id = item; user_id = uid; created = d.clock } in
    record d {
      social = record d.social {
        reactions =
            if again
            then delete_where (is_reaction kind item uid) d.social.reactions
            else upsert_reaction
                (record { kind = kind; item_id = item; user_id = uid; up = up; updated = d.clock })
                d.social.reactions;
        media_likes = relike_if (is_media kind) (up && not again) like d.social.media_likes;
        playlist_likes =
            relike_if (is_playlist kind) (up && not again) like d.social.playlist_likes;
      };
    }

-- `_score(c, kind, item)`: the votes for and against, whose difference is the first number of the source
unfoldable pub score : ReactionKind → ℕ → Db → ℕ × ℕ
score kind item d = (
  count (λ r. same_kind r.kind kind && r.item_id == item && r.up) d.social.reactions,
  count (λ r. same_kind r.kind kind && r.item_id == item && not r.up) d.social.reactions,
)

-- `reaction(c, uid, kind, item, vote)`: whether the vote stands, and the score
unfoldable pub reaction : ℕ → ReactionKind → ℕ → Bool → Tx Db (Bool × (ℕ × ℕ))
unfolding owner_of reward_like score
reaction uid kind item up = do
  owner ← require item_missing (owner_of kind item)
  raise_if (owner == uid) own_item
  barred ← gets (is_blocked uid owner)
  raise_if (ltb 0 owner && barred) user_barred
  old ← gets (λ d. select_one (is_reaction kind item uid) d.social.reactions)
  let again = repeats up old
  modify (voted uid kind item up again)
  when (up && not again) (reward_like uid owner kind item >> pure tt)
  now_scored ← gets (score kind item)
  pure (not again, now_scored)
