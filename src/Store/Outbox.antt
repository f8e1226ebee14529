-- ===== src/Store/Outbox.antt =====
-- The rows of `outbox`, the durable queue of messages for Telegram.
use masih_panel.Store.Ai.{AiKind, AiOrder, AiSnapshot}
use masih_panel.Store.Social.{SocialProfile}
use masih_panel.Store.Channel.{ChannelConfig, ChannelPost}
use masih_panel.Base.Int.{ℤ}
use masih_panel.Base.{ℕ, Bool, String, List, Option}

-- A private account by its number, a channel by its name, or a channel or a group by its number.
pub data Chat : Type 0 where
  account : ℕ → Chat
  channel : String → Chat
  group : ℤ → Chat

-- The texts that the modelled code sends, by what they say and the values that they show.
pub data Notice : Type 0 where
  service_ready : String → Notice
  order_delivered : String → ℕ → Notice
  order_needs_review : String → String → Notice
  order_on_hold : Notice
  receipt_accepted receipt_refused topup_accepted topup_refused : Notice
  payment_credited : ℕ → Notice
  order_cancelled : Notice
  support_reply announcement : String → Notice
  ai_plan_active : AiSnapshot → Notice
  ai_code : String → String → Notice
  ai_activating ai_activated ai_sent_for_review ai_order_cancelled : Notice
  ai_rejected : String → Notice
  ai_preview ai_receipt ai_details : AiOrder → Notice
  ai_ask_email ai_home ai_decided ai_announced ai_refused : Notice
  ai_ask_reason : String → Notice
  ai_ask_receipt : AiSnapshot → String → Notice
  ai_email_saved : String → ℕ → String → Notice
  ai_plans : AiKind → Bool → Notice
  ai_mine : ℕ → ℕ → ℕ → Bool → Notice
  account_adjusted : String → ℕ → ℤ → String → Notice
  chat_ended chat_no_points chat_safety chat_over queue_left : Notice
  chat_line : String → String → Notice
  chat_charged : ℕ → Notice
  chat_waiting : Bool → ℕ → Notice
  chat_dropped chat_declined : Notice
  chat_started : String → Notice
  profile_page : SocialProfile → Notice
  channel_draft channel_view : ChannelPost → Notice
  channel_post : String → Notice
  channel_home : ChannelConfig → String → List ChannelPost → Notice
  channel_models channel_drafting : Bool → Notice
  channel_ask_id channel_ask_body channel_approved channel_rejected channel_saved channel_edited :
      Notice
  channel_verified : String → ℤ → Notice
  channel_pending : ℕ → Notice

pub record Button : Type 0 where
  pub label : String
  pub callback : String

-- `upload_text`, `upload_document` and `upload_code` are the methods "file", "file_b64" and "qr" of the worker,
-- the others are Telegram's own.
pub data Method : Type 0 where
  send_message edit_message_text edit_message_reply_markup send_photo send_document : Method
  upload_text upload_document upload_code : Method

pub record Payload : Type 0 where
  pub chat_id : Chat
  pub notice : Option Notice
  pub buttons : List (List Button)
  pub message_id : Option ℕ
  pub file : String

-- `done` is 0 for a queued message, 1 for a sent one, -1 for a dead letter, 2 for a cancelled one.
pub data Delivery : Type 0 where
  queued sent dead cancelled : Delivery

pub record Message : Type 0 where
  pub id : ℕ
  pub dedupe : String
  pub chat : Chat
  pub method : Method
  -- nothing for the `{}` that remains of a sent message
  pub payload : Option Payload
  pub done : Delivery
  pub attempts : ℕ
  pub next_try : ℕ

-- The context of a button press in a private chat.
pub record Nav : Type 0 where
  pub chat : ℕ
  pub id : ℕ
  pub editable : Bool
  pub used : Bool
