-- ===== src/Store/Channel.antt =====
-- The rows of the tables of runtime/channel_manager.py, and its stored settings.
use masih_panel.Base.{ℕ, Bool, String, List}
use masih_panel.Base.Int.{ℤ}

-- the row of `channel_manager_config`
pub record ChannelConfig : Type 0 where
  pub channel_id : String
  pub discussion_id : ℤ
  pub bot_id : ℕ
  pub bot_username : String
  pub verified_at : ℕ
  pub enabled : Bool

pub data PostStatus : Type 0 where
  review approved queued published rejected expired failed : PostStatus

-- A row of `channel_manager_posts`; the texts of days are in the order of the days, which are numbered
-- here; so are the topics, by their places in `TOPICS`.
pub record ChannelPost : Type 0 where
  pub id : ℕ
  pub day : ℕ
  pub slot : ℕ
  pub topic : ℕ
  pub body : String
  pub status : PostStatus
  pub approved_by : ℕ
  pub approved_at : ℕ
  pub outbox_id : ℕ
  pub created : ℕ
  pub updated : ℕ

pub data ReplyStatus : Type 0 where
  pending queued sent failed : ReplyStatus

-- a row of `channel_manager_replies`
pub record ChannelReply : Type 0 where
  pub id : ℕ
  pub status : ReplyStatus
  pub outbox_id : ℕ
  pub created : ℕ

pub record ChannelTables : Type 0 where
  pub config : ChannelConfig
  pub posts : List ChannelPost
  pub replies : List ChannelReply
  -- the settings `channel_ai_model` and `ai_default_text_model`
  pub channel_model : String
  pub default_model : String
