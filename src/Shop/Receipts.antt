-- ===== src/Shop/Receipts.antt =====
-- The receipts of runtime/sales.py: `restore_reserved_coupon`, `decide_receipt`, and the actions
-- `cancel_order` and `retry` of `admin`.
pub mod Funds
pub mod Decisions
use masih_panel.Queue.{enqueue, audit, notify}
use masih_panel.Shop.Checkout.{is_order, is_redeemed}
use masih_panel.Base.Int.{pos}
use masih_panel.Wallet.{money}
use masih_panel.Base.Text.{str, nonempty}
use masih_panel.Tx.{
  raise_if, already_decided, bad_receipt_order, not_cancellable, require, gets, ◌>>◌, ◌>>=◌, modify,
  when, pure, Tx,
}
use masih_panel.Store.{
  Notice, account, Db, ReceiptOrder, Coupon, TopupStatus, OrderStatus, Topup, Order,
}
use masih_panel.Base.{
  [], str_eq, delete_where, if◌then◌else◌, not, ◌<>◌, select_one, count, update_where, ◌&&◌, none,
  some, false, true, ◌==◌, Bool, ◌+◌, Option, String, ℕ,
}
use masih_panel.Shop.Labels.{text_or_empty, is_cancelled}

abbrev pub is_topup : ℕ → Topup → Bool
is_topup ident t = t.id == ident

abbrev pub is_pending : TopupStatus → Bool
is_pending TopupStatus.pending = true
is_pending _ = false

abbrev pub is_receipt_review : OrderStatus → Bool
is_receipt_review OrderStatus.receipt_review = true
is_receipt_review _ = false

-- `status in ("awaiting_receipt","receipt_review")`
abbrev pub awaits_receipt : OrderStatus → Bool
awaits_receipt OrderStatus.awaiting_receipt = true
awaits_receipt OrderStatus.receipt_review = true
awaits_receipt _ = false

abbrev pub set_status : OrderStatus → Order → Order
set_status status o = record o { status = status }

abbrev pub set_topup : TopupStatus → Topup → Topup
set_topup status t = record t { status = status }

abbrev pub give_back : Coupon → Coupon
give_back c = record c { uses = c.uses + 1 }

-- the coupon that an order reserved is free again, for its user and for one more use
pub free_coupon : Order → String → Tx Db (Unit {0})
free_coupon o code = do
  removed ← gets (λ d. count (is_redeemed code o.user_id) d.redeemed)
  when (not (removed == 0)) (do
    modify (λ d. record d {
      redeemed = delete_where (is_redeemed code o.user_id) d.redeemed;
      coupons = update_where (λ k. str_eq k.code code) give_back d.coupons;
    })
    audit "coupon_restored" ("order:" <> o.id))

-- `restore_reserved_coupon(c, o)`
pub restore_reserved_coupon : Order → Tx Db (Unit {0})
unfolding free_coupon
restore_reserved_coupon o =
    when (awaits_receipt o.status && nonempty (text_or_empty o.plan.coupon_code))
      (free_coupon o (text_or_empty o.plan.coupon_code))

-- a receipt for an order: the order goes on, or is cancelled; no money moves
pub decide_order : Topup → ReceiptOrder → Bool → Tx Db (Unit {0})
unfolding restore_reserved_coupon
decide_order r linked approve = do
  o ← require bad_receipt_order (λ d. select_one (is_order linked.order_id) d.orders)
  raise_if (not (is_receipt_review o.status && o.price == r.amount && o.user_id == r.user_id))
      bad_receipt_order
  when (not approve) (restore_reserved_coupon o)
  modify (λ d. record d {
    orders =
        update_where (is_order o.id)
          (set_status (if approve then OrderStatus.paid else OrderStatus.cancelled)) d.orders;
  })
  notify (account r.user_id) (if approve then Notice.receipt_accepted else Notice.receipt_refused)
      []

-- a receipt for the wallet
pub decide_topup : Topup → Bool → Tx Db (Unit {0})
decide_topup r approve = do
  when approve (money r.user_id (pos r.amount) "topup" ("topup:" <> str r.id))
  notify (account r.user_id) (if approve then Notice.topup_accepted else Notice.topup_refused) []

pub decide_linked : Topup → Option ReceiptOrder → Bool → Tx Db (Unit {0})
unfolding decide_order decide_topup
decide_linked r none approve = decide_topup r approve
decide_linked r (some linked) approve = decide_order r linked approve

-- `decide_receipt(c, ident, approve)`
unfoldable pub decide_receipt : ℕ → Bool → Tx Db (Unit {0})
unfolding decide_linked
decide_receipt ident approve = do
  r ← require already_decided (λ d. select_one (is_topup ident) d.topups)
  raise_if (not (is_pending r.status)) already_decided
  linked ← gets (λ d. select_one (λ l. l.topup_id == ident) d.receipt_orders)
  decide_linked r linked approve
  modify (λ d. record d {
    topups =
        update_where (is_topup ident)
          (set_topup (if approve then TopupStatus.approved else TopupStatus.rejected)) d.topups;
  })
  audit (if approve then "receipt_approved" else "receipt_rejected") (str ident)

pub reject_linked : Option ReceiptOrder → Tx Db (Unit {0})
reject_linked none = pure tt
reject_linked (some l) = modify (λ d. record d {
  topups =
      update_where (λ t. t.id == l.topup_id && is_pending t.status) (set_topup TopupStatus.rejected)
        d.topups;
})

-- `cancel_order` of `admin`
pub cancel_order : String → Tx Db (Unit {0})
unfolding restore_reserved_coupon reject_linked
cancel_order ident = do
  o ← require not_cancellable (λ d. select_one (is_order ident) d.orders)
  raise_if (not (awaits_receipt o.status)) not_cancellable
  restore_reserved_coupon o
  linked ← gets (λ d. select_one (λ l. str_eq l.order_id ident) d.receipt_orders)
  reject_linked linked
  modify (λ d. record d {
    orders = update_where (is_order ident) (set_status OrderStatus.cancelled) d.orders;
  })
  enqueue (account o.user_id) Notice.order_cancelled [] (some ("cancel:" <> ident)) true
  audit "cancel_order" "admin operation"
