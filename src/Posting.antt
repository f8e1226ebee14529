-- ===== src/Posting.antt =====
-- The channel manager of runtime/channel_manager.py: `config`, `local_day`, `slot_timestamp`, `_admin`,
-- `_posting_ready`, `_model`, and what the module takes from elsewhere.
pub mod Verify
pub mod Drafts
pub mod Publish
pub mod Round
pub mod Commands
pub mod Names
pub mod Desk
pub mod Input
pub mod Approvals
pub mod Orderly
pub mod Kept
pub mod Rounds
pub mod Desks
pub mod Printed
pub mod Runs
use masih_panel.Base.{
  ℕ, ◌+◌, ◌==◌, ltb, leb, Bool, true, false, not, ◌&&◌, if◌then◌else◌, String, List, [], ◌∷◌,
}
use masih_panel.Base.Int.{ℤ}
use masih_panel.Base.Text.{nonempty}
use masih_panel.AiSales.Models.{select_model, has_credentials}
use masih_panel.Social.Chat.{is_admin}
use masih_panel.Store.{Db, AiModel, Modality, ChannelConfig, ChannelPost, PostStatus}
use masih_panel.Tx.{Tx, Result, not_admin, key_missing, pure, gets, ◌>>=◌, ◌>>◌, raise_if, modify}

-- what Telegram says of a bot, a chat and a member of a chat
pub record BotIdentity : Type 0 where
  pub id : ℕ
  pub username : String

pub record ChatInfo : Type 0 where
  pub id : ℤ
  pub kind : String
  pub title : String
  -- 0 where no group is linked
  pub linked_chat_id : ℤ

pub record Membership : Type 0 where
  pub status : String
  pub can_post_messages : Bool

-- `tg(s, …)` with the methods `getMe`, `getChat` and `getChatMember`, the calendar of `zoneinfo` for
-- the time zone `TIMEZONE`, the API of an AI provider, and SQLite's order of texts
pub record Outside : Type 0 where
  pub me : Result BotIdentity
  pub named_chat : String → Result ChatInfo
  pub numbered_chat : ℤ → Result ChatInfo
  pub member : ℤ → ℕ → Result Membership
  -- the number of the day at a time
  pub local_day : ℕ → ℕ
  -- the time of a day, an hour and a minute
  pub moment : ℕ → ℕ → ℕ → ℕ
  -- what the provider answers to the prompt for a topic
  pub completion : AiModel → ℕ → Result String
  pub text_leb : String → String → Bool

-- `MAX_POSTS`
abbrev pub max_posts : ℕ
max_posts = 3

-- `SLOTS`
abbrev pub slot_hour : ℕ → ℕ
slot_hour slot = if slot == 0 then 10 else if slot == 1 then 15 else 20

abbrev pub slot_minute : ℕ → ℕ
slot_minute slot = if ltb slot 2 then 0 else 30

-- `slot_timestamp(day, slot)`
abbrev pub slot_timestamp : Outside → ℕ → ℕ → ℕ
slot_timestamp o day slot = o.moment day (slot_hour slot) (slot_minute slot)

-- `local_day()`
abbrev pub today : Outside → Db → ℕ
today o d = o.local_day d.clock

abbrev pub set_config : (ChannelConfig → ChannelConfig) → Db → Db
set_config f d = record d { posting = record d.posting { config = f d.posting.config } }

abbrev pub set_posts : (List ChannelPost → List ChannelPost) → Db → Db
set_posts f d = record d { posting = record d.posting { posts = f d.posting.posts } }

abbrev pub is_post : ℕ → ChannelPost → Bool
is_post ident p = p.id == ident

-- `_admin(c, uid)`
pub admin_only : ℕ → Tx Db (Unit {0})
admin_only uid = do s ← gets (λ d. d.settings); raise_if (not (is_admin uid s)) not_admin

-- `cfg["verified_at"]>now()-86400`
abbrev pub is_fresh : Db → Bool
is_fresh d = ltb d.clock (d.posting.config.verified_at + 86400)

-- `_posting_ready(c)`
abbrev pub posting_ready : Db → Bool
posting_ready d = d.posting.config.enabled && nonempty d.posting.config.channel_id && is_fresh d

-- the settings, the first that is not empty
abbrev pub model_key : Db → String
model_key d =
    if nonempty d.posting.channel_model
    then d.posting.channel_model
    else if nonempty d.posting.default_model
    then d.posting.default_model
    else "oa-mini"

-- a model of texts whose provider has a key
pub text_model : String → Tx Db AiModel
unfolding select_model has_credentials
text_model key = do
  model ← select_model key Modality.text
  s ← gets (λ d. d.settings)
  raise_if (not (has_credentials s model.provider)) key_missing
  pure model

-- `_model(c)`
pub channel_model : Tx Db AiModel
unfolding text_model
channel_model = do key ← gets model_key; text_model key
