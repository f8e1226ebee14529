-- ===== src/AiSales/Delivery.antt =====
-- How an order of runtime/ai_commerce.py is delivered: `_deliver`, `admin_decide`, and the action
-- `paywallet` of `callback`.
pub mod Moves
use masih_panel.AiSales.Orders.{
  is_awaiting, with_status, is_review, owned, is_free, set_ai_order, is_activating, is_ai_order,
}
use masih_panel.Shop.Checkout.{clear_user}
use masih_panel.Base.Int.{neg}
use masih_panel.Wallet.{money}
use masih_panel.Queue.{button, audit, enqueue}
use masih_panel.AiSales.Catalog.{is_bot}
use masih_panel.Shop.Labels.{char_count, Unicode}
use masih_panel.Tx.{
  bad_reason, bad_operation, wallet_refused, raise, not_review, not_activating, not_admin,
  integrity, stock_empty, gets, order_missing, modify, raise_if, pure, ◌>>◌, require, ◌>>=◌, when,
  Tx,
}
use masih_panel.Store.{
  Notice, account, Db, AiKind, AiSubscription, AiStatus, StockCode, AiOrder, Settings,
}
use masih_panel.Base.{
  ◌&&◌, ◌&&◌, ◌&&◌, ◌&&◌, ◌&&◌, ◌&&◌, ◌&&◌, ◌&&◌, ◌&&◌, ◌&&◌, ◌&&◌, ◌&&◌, ◌&&◌, ◌&&◌, ◌&&◌, ◌&&◌,
  ◌&&◌, ◌&&◌, ◌&&◌, ◌&&◌, ◌&&◌, ◌&&◌, ◌&&◌, ◌&&◌, ◌&&◌, ◌&&◌, ◌&&◌, ◌&&◌, ◌&&◌, ◌&&◌, ◌&&◌, ◌&&◌,
  ◌&&◌, ◌&&◌, ◌&&◌, ◌&&◌, ◌&&◌, ◌&&◌, ◌&&◌, ◌&&◌, in_range, ◌<>◌, [], ◌||◌, ◌∷◌, ◌*◌, insert_row,
  not, ◌&&◌, none, str_eq, false, update_where, exists, select_one, ◌==◌, ◌+◌, if◌then◌else◌, some,
  List, true, Bool, String, ℕ,
}

abbrev pub has_subscription : String → AiSubscription → Bool
has_subscription oid v = str_eq v.order_id oid

abbrev pub new_subscription : AiOrder → ℕ → AiSubscription
new_subscription o at = record {
  order_id = o.id;
  user_id = o.user_id;
  expires = at + o.snapshot.plan.days * 86400;
  remaining = o.snapshot.plan.credits;
  created = at;
}

-- `INSERT OR IGNORE INTO ai_sale_subscriptions`
abbrev pub insert_subscription_once : AiOrder → ℕ → List AiSubscription → List AiSubscription
insert_subscription_once o at vs =
    if exists (has_subscription o.id) vs then vs else insert_row (new_subscription o at) vs

abbrev pub deal : String → ℕ → StockCode → StockCode
deal oid at x = record x { order_id = some oid; delivered = some at }

abbrev pub dealt_to : String → StockCode → Bool
dealt_to oid x = elim x.order_id [ none ↦ false | some o ↦ str_eq o oid ]

pub deliver_bot : AiOrder → Tx Db (Unit {0})
deliver_bot o = do
  modify (λ d. record d {
    ai = record d.ai { subscriptions = insert_subscription_once o d.clock d.ai.subscriptions };
  })
  enqueue (account o.user_id) (Notice.ai_plan_active o.snapshot)
      ((button "use the AI" "fun:ai" ∷ []) ∷ []) (some ("ai-fulfilled:" <> o.id)) true

-- the first free code; a column `UNIQUE` holds the order
pub deliver_code : AiOrder → Tx Db (Unit {0})
deliver_code o = do
  x ← require stock_empty (λ d. select_one (is_free o.plan_id) d.ai.stock)
  dealt ← gets (λ d. exists (dealt_to o.id) d.ai.stock)
  raise_if dealt integrity
  modify (λ d. record d {
    ai = record d.ai {
      stock =
          update_where (λ y. y.id == x.id && is_free y.plan_id y) (deal o.id d.clock) d.ai.stock;
    };
  })
  enqueue (account o.user_id) (Notice.ai_code o.snapshot.model_name x.delivery_code) []
      (some ("ai-fulfilled:" <> o.id)) true

abbrev pub fulfil : ℕ → AiOrder → AiOrder
fulfil at o = record o { status = AiStatus.fulfilled; fulfilled = true; updated = at }

pub mark_fulfilled : String → Tx Db (Unit {0})
mark_fulfilled oid = modify (λ d. set_ai_order oid (fulfil d.clock) d)

pub start_activation : AiOrder → Tx Db (Unit {0})
start_activation o = do
  modify (λ d. set_ai_order o.id (with_status AiStatus.activating d.clock) d)
  enqueue (account o.user_id) Notice.ai_activating [] (some ("ai-activating:" <> o.id)) true

pub deliver_kind : AiOrder → AiKind → Tx Db (Unit {0})
unfolding deliver_bot deliver_code mark_fulfilled start_activation
deliver_kind o AiKind.bot = deliver_bot o >> mark_fulfilled o.id
deliver_kind o AiKind.ready = deliver_code o >> mark_fulfilled o.id
deliver_kind o AiKind.personal = start_activation o

-- `_deliver(c, row)`
pub deliver : AiOrder → Tx Db (Unit {0})
unfolding deliver_kind
deliver o = if o.fulfilled then pure tt else deliver_kind o o.snapshot.plan.kind

-- the admin of the panel, or one of the bot
pub data Manager : Type 0 where
  web_admin : Manager
  bot_admin : ℕ → Manager

pub data Decision : Type 0 where
  approve complete other : Decision
  reject : String → Decision

abbrev pub may_decide : Manager → Settings → Bool
may_decide web_admin s = true
may_decide (bot_admin n) s = exists (λ a. a == n) s.admins

abbrev decision_name : Decision → String
decision_name approve = "approve"
decision_name complete = "complete"
decision_name other = ""
decision_name (reject reason) = "reject"

pub reject_order : Unicode → AiOrder → String → Tx Db (Unit {0})
reject_order txt o reason = do
  raise_if (not (is_review o.status)) not_review
  raise_if (not (in_range 4 400 (char_count (txt.strip reason)))) bad_reason
  modify (λ d.
      set_ai_order o.id
        (λ r. record r { status = AiStatus.rejected; reason = txt.strip reason; updated = d.clock })
        d)
  enqueue (account o.user_id) (Notice.ai_rejected (txt.strip reason)) []
      (some ("ai-rejected:" <> o.id)) true

pub complete_order : AiOrder → Tx Db (Unit {0})
unfolding mark_fulfilled
complete_order o = do
  raise_if (not (is_activating o.status)) not_activating
  mark_fulfilled o.id
  enqueue (account o.user_id) Notice.ai_activated [] (some ("ai-fulfilled:" <> o.id)) true

pub decide : Unicode → AiOrder → Decision → Tx Db (Unit {0})
unfolding reject_order deliver complete_order
decide txt o (reject reason) = reject_order txt o reason
decide txt o approve = raise_if (not (is_review o.status)) not_review >> deliver o
decide txt o complete = complete_order o
decide txt o other = raise bad_operation

-- `admin_decide(c, admin, oid, action, reason)`
unfoldable pub admin_decide : Unicode → Manager → String → Decision → Tx Db (Unit {0})
unfolding decide
admin_decide txt who oid decision = do
  s ← gets (λ d. d.settings)
  raise_if (not (may_decide who s)) not_admin
  row ← require order_missing (λ d. select_one (is_ai_order oid) d.ai.orders)
  decide txt row decision
  audit ("ai_sale_" <> decision_name decision) oid

-- the action `paywallet` of `callback`
unfoldable pub pay_wallet : ℕ → String → Tx Db (Unit {0})
unfolding owned deliver
pay_wallet uid oid = do
  row ← owned uid oid
  raise_if (not (is_bot row.snapshot.plan.kind) || not (is_awaiting row.status)) wallet_refused
  raise_if (elim row.receipt [ none ↦ false | some r ↦ true ]) wallet_refused
  when (not (row.snapshot.plan.price == 0))
      (money uid (neg row.snapshot.plan.price) "ai_subscription" ("ai-sale:" <> oid <> ":wallet"))
  deliver row
  modify (clear_user uid)
