-- ===== src/Shop/Checkout.antt =====
-- `order` of runtime/sales.py: the checkout of one subscription.
mod Request
pub use Request.*
pub mod Steady
pub mod Funds
pub mod Placed
pub mod Limits
use masih_panel.Base.{
  ℕ, ◌-◌, ◌*◌, ◌/◌, ◌==◌, ltb, leb, ◌&&◌, ◌||◌, not, Bool, true, false, if◌then◌else◌, String,
  str_eq, starts_with, ◌<>◌, List, [], ◌∷◌, Option, none, some, exists, count, select_one,
  update_where, insert_row,
}
use masih_panel.Base.Int.{neg}
use masih_panel.Base.Text.{nonempty, drop_chars}
use masih_panel.Tx.{
  Tx, user_blocked, sales_closed, plan_missing, trial_route, trial_closed, trial_not_payable,
  trial_used, order_in_progress, not_renewable, sold_out, pure, gets, require, lift, ◌>>=◌, ◌>>◌,
  raise_if, modify, when,
}
use masih_panel.Store.{
  Db, Settings, User, Plan, Protocol, Snapshot, Order, OrderStatus, Service, Coupon, Redeemed,
}
use masih_panel.Queue.{draw}
use masih_panel.Wallet.{is_user, money}
use Request.{OrderArgs}
use masih_panel.Shop.Labels.{Unicode, is_cancelled, subscription_label, unique_subscription_label}
use masih_panel.Shop.Inbounds.{resolve_inbound_ids}

abbrev pub is_order : String → Order → Bool
is_order ref o = str_eq o.id ref

-- `status IN ('paid','review','awaiting_receipt','receipt_review')`
abbrev pub is_open : OrderStatus → Bool
is_open OrderStatus.fulfilled = false
is_open OrderStatus.cancelled = false
is_open _ = true

abbrev pub same_protocol : Protocol → Protocol → Bool
same_protocol Protocol.xray Protocol.xray = true
same_protocol Protocol.openvpn Protocol.openvpn = true
same_protocol Protocol.openconnect Protocol.openconnect = true
same_protocol _ _ = false

abbrev pub same : Bool → Bool → Bool
same true b = b
same false b = not b

abbrev pub is_trial_of : ℕ → Order → Bool
is_trial_of uid o = o.user_id == uid && o.trial

-- a purchase that takes one of the plan's places: renewals do not
abbrev pub takes_place : ℕ → Order → Bool
takes_place pid o = o.plan.plan.id == pid && str_eq o.renew_id "" && not (is_cancelled o.status)

pub check_trial : Settings → OrderArgs → Tx Db (Unit {0})
check_trial s a = when a.trial (do
  raise_if (not s.trial) trial_closed
  raise_if (nonempty a.renew || a.card) trial_not_payable
  had ← gets (λ d. exists (is_trial_of a.uid) d.orders)
  raise_if had trial_used)

pub check_renewal : Plan → OrderArgs → Tx Db (Unit {0})
check_renewal p a = do
  busy ← gets (λ d. exists (λ o. str_eq o.service_id a.renew && is_open o.status) d.orders)
  raise_if busy order_in_progress
  service ←
      require not_renewable (λ d.
        select_one (λ v. str_eq v.id a.renew && v.user_id == a.uid && not v.deleted) d.services)
  raise_if (not (same_protocol service.protocol p.protocol)) not_renewable

pub check_capacity : Plan → OrderArgs → Tx Db (Unit {0})
check_capacity p a = do
  sold ← gets (λ d. count (takes_place a.pid) d.orders)
  raise_if (not (p.capacity == 0) && leb p.capacity sold) sold_out

-- the inbounds that the snapshot of an Xray plan keeps
pub usable_inbounds : Plan → Tx Db (List ℕ)
usable_inbounds p = do
  live ← gets (λ d. d.live)
  if same_protocol p.protocol Protocol.xray
      then lift (resolve_inbound_ids p.inbounds live)
      else pure p.inbounds

-- `price*(100-percent)//100`, for a percentage, which the admin's forms hold to 100 at most
pub discount : ℕ → ℕ → ℕ
discount price percent = price * (100 - percent) / 100

-- the code behind `coupon:` in the user's state
pub coupon_of : String → String
coupon_of state = if starts_with state "coupon:" then drop_chars 7 state else ""

abbrev pub is_usable : String → ℕ → Coupon → Bool
is_usable code now c = str_eq c.code code && ltb 0 c.uses && (c.expires == 0 || ltb now c.expires)

abbrev pub is_redeemed : String → ℕ → Redeemed → Bool
is_redeemed code uid r = str_eq r.code code && r.user_id == uid

abbrev pub use_once : Coupon → Coupon
use_once c = record c { uses = c.uses - 1 }

abbrev pub use_coupon : String → ℕ → Db → Db
use_coupon code uid d = record d {
  redeemed = insert_row (record { code = code; user_id = uid }) d.redeemed;
  coupons = update_where (λ k. str_eq k.code code) use_once d.coupons;
}

abbrev pub clear_state : User → User
clear_state u = record u { state = "" }

abbrev pub clear_user : ℕ → Db → Db
clear_user uid d = record d { users = update_where (is_user uid) clear_state d.users }

-- one use of the coupon, for this user
pub redeem_coupon : String → OrderArgs → ℕ → Option Coupon → Tx Db (ℕ × Option String)
unfolding discount
redeem_coupon code a price none = pure (price, none)
redeem_coupon code a price (some c) = do
  used ← gets (λ d. exists (is_redeemed code a.uid) d.redeemed)
  if used
      then pure (price, none)
      else (do modify (use_coupon code a.uid); pure (discount price c.percent, some code))

pub apply_coupon : Settings → User → OrderArgs → ℕ → Tx Db (ℕ × Option String)
unfolding redeem_coupon coupon_of
apply_coupon s u a price =
    if nonempty (coupon_of u.state) && s.discounts && not a.trial
    then (do
      c ← gets (λ d. select_one (is_usable (coupon_of u.state) d.clock) d.coupons)
      redeem_coupon (coupon_of u.state) a price c)
    else pure (price, none)

-- the price before a coupon
pub list_price : Settings → User → Plan → Bool → ℕ
unfolding discount
list_price s u p trial =
    let price = if trial then 0 else p.price in
    if u.reseller && s.reseller then discount price s.reseller_discount else price

-- the row of `INSERT INTO orders`
abbrev pub placed_row :
    OrderArgs → Plan → List ℕ → ℕ → Option String → String → Option String → ℕ → Order
placed_row a p inbounds price coupon sid name at = record {
  id = a.reference;
  user_id = a.uid;
  plan = record {
    plan = record p { inbounds = inbounds };
    coupon_code = coupon;
    display_name = name;
  };
  price = price;
  status = if a.card then OrderStatus.awaiting_receipt else OrderStatus.paid;
  service_id = sid;
  renew_id = a.renew;
  created = at;
  target = none;
  trial = a.trial;
}

-- `.get("label", name)`
abbrev label_or : String → Option String → String
label_or name none = name
label_or name (some label) = label

pub service_id : OrderArgs → Tx Db String
service_id a = if nonempty a.renew then pure a.renew else draw

module _ (txt : Unicode) where
  -- `subscription_label(label) if label else unique_subscription_label(c, p["name"])`
  pub chosen_label : Plan → Option String → Tx Db String
  chosen_label p none = unique_subscription_label txt p.name
  chosen_label p (some l) =
      if nonempty l then lift (subscription_label txt l) else unique_subscription_label txt p.name

  -- the label of a new subscription, or that of the service to renew
  pub display_name : OrderArgs → Plan → Tx Db (Option String)
  unfolding chosen_label
  display_name a p =
      if nonempty a.renew
      then (do
        v ← gets (λ d. select_one (λ v. str_eq v.id a.renew) d.services)
        pure (elim v [ none ↦ none | some w ↦ some (label_or p.name w.body.label) ]))
      else (do label ← chosen_label p a.label; pure (some label))

  -- the row that the checkout leaves, once all checks have passed
  pub place : OrderArgs → Plan → List ℕ → ℕ → Option String → Tx Db String
  unfolding display_name service_id
  place a p inbounds price coupon = do
    modify (clear_user a.uid)
    when (not a.card && not a.trial) (money a.uid (neg price) "purchase" (a.reference <> ":debit"))
    sid ← service_id a
    name ← display_name a p
    modify (λ d. record d {
      orders = insert_row (placed_row a p inbounds price coupon sid name d.clock) d.orders;
    })
    pure a.reference

  pub new_order : OrderArgs → Tx Db String
  unfolding check_trial check_renewal check_capacity usable_inbounds apply_coupon list_price place
  new_order a = do
    s ← gets (λ d. d.settings)
    u ← require user_blocked (λ d. select_one (is_user a.uid) d.users)
    raise_if u.blocked user_blocked
    raise_if (not a.trial && not s.buy || nonempty a.renew && not s.renew) sales_closed
    p ← require plan_missing (λ d. select_one (λ p. p.id == a.pid && p.active) d.plans)
    raise_if (not (same p.is_trial a.trial)) trial_route
    check_trial s a
    if nonempty a.renew then check_renewal p a else check_capacity p a
    inbounds ← usable_inbounds p
    (price, coupon) ← apply_coupon s u a (list_price s u p a.trial)
    place a p inbounds price coupon

  -- `order(c, uid, pid, reference, renew, trial, card, label)`
  unfoldable pub order : OrderArgs → Tx Db String
  unfolding new_order
  order a = do
    placed ← gets (λ d. exists (is_order a.reference) d.orders)
    if placed then (raise_if a.trial trial_used >> pure a.reference) else new_order a
