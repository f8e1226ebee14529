-- ===== src/Store/Ai.antt =====
-- The rows of the tables of runtime/ai_models.py and runtime/ai_commerce.py.
use masih_panel.Base.{ℕ, Bool, String, Option, List}

pub data Provider : Type 0 where
  openai google groq cloudflare fal : Provider

-- a modality: what a request produces
pub data Modality : Type 0 where
  text image video : Modality

pub data Tier : Type 0 where
  paid_tier free_tier : Tier

pub record AiModel : Type 0 where
  pub model_key : String
  pub provider : Provider
  pub model_id : String
  pub modality : Modality
  pub tier : Tier
  pub title : String
  pub active : Bool

-- `ai_sale_models`: a family of products
pub record AiFamily : Type 0 where
  pub id : ℕ
  pub name : String
  pub active : Bool

pub data AiKind : Type 0 where
  bot personal ready : AiKind

pub record AiPlan : Type 0 where
  pub id : ℕ
  pub model_id : ℕ
  pub name : String
  pub kind : AiKind
  pub price : ℕ
  pub days : ℕ
  pub credits : Modality → ℕ
  pub active : Bool
  pub model_for : Modality → String

-- `plan_snapshot`: the plan's row at the time of the order, with the name of its family
pub record AiSnapshot : Type 0 where
  pub plan : AiPlan
  pub model_name : String

pub data AiStatus : Type 0 where
  awaiting_receipt preview review activating fulfilled rejected cancelled : AiStatus

-- a receipt, which the column writes as `photo:` or `document:` and the number of a file
pub data Attachment : Type 0 where
  photo document : String → Attachment

pub record AiOrder : Type 0 where
  pub id : String
  pub user_id : ℕ
  pub plan_id : ℕ
  pub snapshot : AiSnapshot
  pub email : String
  pub status : AiStatus
  pub receipt : Option Attachment
  pub reason : String
  pub created : ℕ
  pub updated : ℕ
  pub confirmed : Bool
  pub fulfilled : Bool

pub record AiSubscription : Type 0 where
  pub order_id : String
  pub user_id : ℕ
  pub expires : ℕ
  pub remaining : Modality → ℕ
  pub created : ℕ

pub record StockCode : Type 0 where
  pub id : ℕ
  pub plan_id : ℕ
  pub delivery_code : String
  pub order_id : Option String
  pub added : ℕ
  pub delivered : Option ℕ

-- `ai_usage` of runtime/gamification.py
pub record AiUsage : Type 0 where
  pub user_id : ℕ
  pub reference : String
  pub model : String
  pub points : ℕ
  pub created : ℕ

-- The tables together.
pub record AiTables : Type 0 where
  pub models : List AiModel
  pub families : List AiFamily
  pub plans : List AiPlan
  pub orders : List AiOrder
  pub subscriptions : List AiSubscription
  pub stock : List StockCode
  pub usage : List AiUsage
