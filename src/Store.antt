-- ===== src/Store.antt =====
-- The sales database of runtime/sales.py: its tables, the settings, the clock and the random texts
-- of one transaction.
mod Ai
mod Rows
mod Outbox
mod Social
mod Channel
pub use Ai.*
pub use Rows.*
pub use Outbox.*
pub use Social.*
pub use Channel.*
use masih_panel.Base.{ℕ, ◌+◌, Bool, String, List, Option}
use masih_panel.Tx.{Tx}

-- `settings(c)`: the stored values over `DEFAULT`
pub record Settings : Type 0 where
  pub admins : List ℕ
  pub card : String
  pub report_channel : String
  pub merchant_id : String
  pub require_contact : Bool
  pub buy : Bool
  pub renew : Bool
  pub wallet : Bool
  pub trial : Bool
  pub referrals : Bool
  pub discounts : Bool
  pub reseller : Bool
  pub bulk : Bool
  pub zarinpal : Bool
  pub commission : ℕ
  pub reseller_discount : ℕ
  pub points_per_toman : ℕ
  pub points_per_purchase_unit : ℕ
  pub points_per_referral : ℕ
  -- the providers of AI whose keys are stored, the older key of OpenAI, the account of Cloudflare
  pub ai_keys : List Provider
  pub ai_api_key : Bool
  pub cloudflare_account : Bool

pub record Db : Type 0 where
  pub settings : Settings
  pub users : List User
  pub plans : List Plan
  pub orders : List Order
  pub services : List Service
  pub ledger : List LedgerEntry
  pub topups : List Topup
  pub coupons : List Coupon
  pub redeemed : List Redeemed
  pub receipt_orders : List ReceiptOrder
  pub payments : List Payment
  pub quotes : List Quote
  pub tickets : List Ticket
  pub provision_failures : List ProvisionFailure
  pub loyalty_points : List PointsEntry
  pub ai : AiTables
  pub social : SocialTables
  pub posting : ChannelTables
  pub outbox : List Message
  pub audit_log : List AuditEntry
  -- `_NAV_CONTEXT`: the message that the user pressed a button of
  pub nav : Option Nav
  -- the enabled inbounds in the panel's own database, which `active_inbound_ids()` reads
  pub live : List ℕ
  -- what `now()` reads during the transaction
  pub clock : ℕ
  -- what `secrets` returns, call after call, and the number of calls made
  pub random : ℕ → String
  pub drawn : ℕ
