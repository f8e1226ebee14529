-- ===== src/Store/Rows.antt =====
-- The rows of the tables that `conn()` in runtime/sales.py creates, as far as the modelled code
-- reads them. A flag column (0 or 1) is a `Bool`, a status column its own type, a JSON column the
-- value that it encodes.
use masih_panel.Base.{ℕ, Bool, String, List, Option}
use masih_panel.Base.Int.{ℤ}

pub record User : Type 0 where
  pub id : ℕ
  pub balance : ℤ
  pub blocked : Bool
  pub reseller : Bool
  pub referrer : ℕ
  pub phone : String
  pub state : String

pub data Protocol : Type 0 where
  xray openvpn openconnect : Protocol

pub record Plan : Type 0 where
  pub id : ℕ
  pub name : String
  pub category : String
  pub protocol : Protocol
  pub price : ℕ
  pub days : ℕ
  pub gb : ℕ
  pub inbounds : List ℕ
  pub capacity : ℕ
  pub active : Bool
  pub is_trial : Bool

-- `orders.plan`: the plan's row at the time of the order, with two more keys.
pub record Snapshot : Type 0 where
  pub plan : Plan
  pub coupon_code : Option String
  pub display_name : Option String

-- `services.data`, and what `provision` keeps behind `target:` in `orders.error`
pub record Target : Type 0 where
  pub uuid : String
  pub password : String
  pub sub_id : String
  -- nothing where the data has no label
  pub label : Option String
  pub expires : ℕ
  pub total_bytes : ℕ

pub data OrderStatus : Type 0 where
  awaiting_receipt receipt_review paid review fulfilled cancelled : OrderStatus

pub record Order : Type 0 where
  pub id : String
  pub user_id : ℕ
  pub plan : Snapshot
  pub price : ℕ
  pub status : OrderStatus
  pub service_id : String
  pub renew_id : String
  pub created : ℕ
  pub target : Option Target
  pub trial : Bool

pub record Service : Type 0 where
  pub id : String
  pub user_id : ℕ
  pub protocol : Protocol
  pub username : String
  pub plan : Snapshot
  pub expires : ℕ
  pub body : Target
  pub deleted : Bool

pub record LedgerEntry : Type 0 where
  pub user_id : ℕ
  pub amount : ℤ
  pub reason : String
  pub reference : String
  pub created : ℕ

pub data TopupStatus : Type 0 where
  pending approved rejected : TopupStatus

pub record Topup : Type 0 where
  pub id : ℕ
  pub user_id : ℕ
  pub amount : ℕ
  pub receipt : String
  pub status : TopupStatus
  pub created : ℕ

pub record Coupon : Type 0 where
  pub code : String
  pub percent : ℕ
  pub credit : ℕ
  pub uses : ℕ
  pub expires : ℕ

pub record Redeemed : Type 0 where
  pub code : String
  pub user_id : ℕ

pub record ReceiptOrder : Type 0 where
  pub topup_id : ℕ
  pub order_id : String

pub record Payment : Type 0 where
  pub id : String
  pub user_id : ℕ
  pub amount : ℕ
  pub authority : String
  pub paid : Bool
  pub ref : String
  pub created : ℕ

-- `quotes.plan` holds the plan's row, the quantity and the reserved label.
pub record Quote : Type 0 where
  pub id : String
  pub user_id : ℕ
  pub plan_id : ℕ
  pub plan : Plan
  pub quantity : ℕ
  pub label : String
  pub renew_id : String
  pub expires : ℕ

pub record Ticket : Type 0 where
  pub id : ℕ
  pub user_id : ℕ
  pub body : String
  pub reply : String
  pub created : ℕ

pub record ProvisionFailure : Type 0 where
  pub order_id : String
  pub attempts : ℕ
  pub last_error : String
  pub last_attempt : ℕ
  pub resolved : Bool

pub record PointsEntry : Type 0 where
  pub user_id : ℕ
  pub points : ℤ
  pub kind : String
  pub reference : String
  pub created : ℕ

pub record AuditEntry : Type 0 where
  pub action : String
  pub detail : String
  pub created : ℕ
