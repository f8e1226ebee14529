-- ===== src/Store/Social.antt =====
-- The rows of the tables of runtime/social.py, as far as the modelled code reads them.
use masih_panel.Base.Int.{ℤ}
use masih_panel.Base.{ℕ, Bool, String, List}

pub data Visibility : Type 0 where
  public friends hidden : Visibility

pub record SocialProfile : Type 0 where
  pub user_id : ℕ
  pub code : String
  pub display_name : String
  pub gender : String
  pub age : ℕ
  -- whether the province is one of `PROVINCES`
  pub in_province : Bool
  pub interests : List String
  pub discoverable : Bool
  pub visibility : Visibility

-- a row of `social_follows` or of `social_blocks`
pub record Link : Type 0 where
  pub source : ℕ
  pub target : ℕ

-- How a chat is found; its price is the setting `social_chat_cost_` and the name.
pub data ChatRoute : Type 0 where
  random filtered search near following followers direct : ChatRoute

pub record Discovery : Type 0 where
  pub viewer : ℕ
  pub target : ℕ
  pub route : ChatRoute
  pub created : ℕ

pub record Waiting : Type 0 where
  pub user_id : ℕ
  pub mode : ChatRoute
  pub joined : ℕ
  pub points : ℕ

-- `closed` is 0 in an open chat.
pub record ChatPair : Type 0 where
  pub id : ℕ
  pub first_user : ℕ
  pub second_user : ℕ
  pub created : ℕ
  pub closed : ℕ
  pub with_friend : Bool

pub data InviteStatus : Type 0 where
  pending accepted rejected : InviteStatus

-- a row of `social_chat_invites`
pub record ChatInvite : Type 0 where
  pub requester : ℕ
  pub recipient : ℕ
  pub created : ℕ
  pub status : InviteStatus
  pub route : ChatRoute
  pub points : ℕ

pub record ChatLine : Type 0 where
  pub conversation : ℕ
  pub sender : ℕ
  pub body : String
  pub created : ℕ

pub data AdminOperation : Type 0 where
  points_add points_sub wallet_add wallet_sub : AdminOperation

pub record Adjusted : Type 0 where
  pub request_id : String
  pub manager : String
  pub user_id : ℕ
  pub operation : AdminOperation
  pub amount : ℕ
  pub before : ℤ
  pub after : ℤ
  pub note : String
  pub created : ℕ

pub data ReactionKind : Type 0 where
  profile music movie series playlist : ReactionKind

-- a row of `social_reactions`, whose vote is 1 for `up` and -1 otherwise
pub record Reaction : Type 0 where
  pub kind : ReactionKind
  pub item_id : ℕ
  pub user_id : ℕ
  pub up : Bool
  pub updated : ℕ

-- a row of `media_items`; the owner 0 is the archive
pub record MediaItem : Type 0 where
  pub id : ℕ
  pub owner_id : ℕ
  pub kind : String
  pub media_type : String
  pub published : Bool

pub record Playlist : Type 0 where
  pub id : ℕ
  pub owner_id : ℕ
  pub private : Bool
  pub removed : Bool

-- a row of `media_likes` or of `playlist_likes`
pub record Like : Type 0 where
  pub item_id : ℕ
  pub user_id : ℕ
  pub created : ℕ

pub record SocialTables : Type 0 where
  pub profiles : List SocialProfile
  pub follows : List Link
  pub blocks : List Link
  pub discoveries : List Discovery
  pub waiting : List Waiting
  pub invites : List ChatInvite
  pub pairs : List ChatPair
  pub lines : List ChatLine
  pub adjusted : List Adjusted
  pub chat_cost : ChatRoute → ℕ
  pub reactions : List Reaction
  pub media_items : List MediaItem
  pub playlists : List Playlist
  pub media_likes : List Like
  pub playlist_likes : List Like
  -- the settings `social_post_…` and `social_like_…`
  pub post_points : ReactionKind → ℕ
  pub like_points : ReactionKind → ℕ
