-- ===== src/Tests/Sales.antt =====
-- Purchases, receipts and points in the small shop.
use masih_panel.Shop.Checkout.Placed.{order_effect, IsPlaced}
use masih_panel.Wallet.Moves.{money_lem, movement, money-IsBooked}
use masih_panel.Shop.Receipts.Decisions.{
  decide_receipt-IsBooked, decide_receipt_once, decide_receipt_effect, IsDecided,
}
use masih_panel.Loyalty.Points.{redeem_charges, redeem-IsSolvent, IsSolvent}
use masih_panel.Loyalty.{award, redeem, purchase, balance}
use masih_panel.Shop.Checkout.Funds.{order-IsBooked}
use masih_panel.Shop.Receipts.{decide_receipt}
use masih_panel.Shop.Checkout.Limits.{
  order-OneTrial, order-IsStocked, IsStocked, order_once, OneTrial,
}
use masih_panel.Base.Text.{str}
use masih_panel.Shop.Inbounds.{resolve_inbound_ids}
use masih_panel.Queue.{notify, audit, draw}
use masih_panel.Base.{
  ◌==◌, select_one, [], none, inl, ◌⊎◌, ◌∷◌, some, inr, false, true, if◌then◌else◌, exists, map,
  ◌≡◌, refl, arith,
}
use masih_panel.Shop.Labels.{subscription_label}
use masih_panel.Tests.{shop_settings, plan, trial_args, purchase_args, ascii, shop}
use masih_panel.Wallet.{is_user, has_reference, money}
use masih_panel.Tx.{insufficient_funds, already_decided, err, ok, ◌>>=◌, settle}
use masih_panel.Shop.Checkout.{is_order, order}
use masih_panel.Store.{OrderStatus, User, Order, Db}
use masih_panel.Wallet.Books.{IsBooked, credited}
use masih_panel.Base.Int.{◌≤ℤ◌, neg, pos, ◌+ℤ◌}

pub shop-IsBooked : IsBooked shop
unfolding credited ◌+ℤ◌
shop-IsBooked = record {
  wallets = (record { settled = refl; nonneg = ground arith }, tt);
  accounts = (refl, tt);
  references = (refl, tt);
}

abbrev bought : Db
bought = settle shop (order ascii purchase_args shop)

-- The shop has one purchase, which is paid from the wallet.
buys : order ascii purchase_args shop ≡ ok ("o1", bought)
unfolding order money subscription_label draw resolve_inbound_ids ◌>>=◌ ◌+ℤ◌ str
buys = refl

pays : map (λ (u : User). u.balance) bought.users ≡ pos 200 ∷ []
unfolding order money subscription_label draw resolve_inbound_ids ◌>>=◌ ◌+ℤ◌ str
pays = refl

pub shop-IsStocked : IsStocked shop
shop-IsStocked = record {
  distinct = (refl, (refl, tt));
  fits = (inr (omega arith), (inl refl, tt));
}

shop-OneTrial : OneTrial shop
shop-OneTrial uid = omega arith

abbrev tried : Db
tried = settle shop (order ascii trial_args shop)

tries : order ascii trial_args shop ≡ ok ("o2", tried)
unfolding order money subscription_label draw resolve_inbound_ids ◌>>=◌ ◌+ℤ◌ str
tries = refl

-- A name that is taken gets a random suffix.
renames :
    map
      (λ (o : Order). o.plan.display_name)
      (settle bought (
        order ascii
          (record purchase_args { reference = "o3"; pid = 11; trial = true; label = some "phone" })
          bought)).orders
    ≡ some "phone" ∷ some "phone" ∷ []
unfolding order money subscription_label draw resolve_inbound_ids ◌>>=◌ ◌+ℤ◌ str
renames = refl

abbrev decided : Db
decided = settle shop (decide_receipt 2 true shop)

decides : decide_receipt 2 true shop ≡ ok (tt, decided)
unfolding decide_receipt money audit notify ◌>>=◌ ◌+ℤ◌ str
decides = refl

abbrev moved : Db
moved = settle shop (money 1 (neg 100) "purchase" "o9:debit" shop)

moves : money 1 (neg 100) "purchase" "o9:debit" shop ≡ ok (tt, moved)
unfolding money ◌>>=◌ ◌+ℤ◌
moves = refl

-- A payment that the wallet does not cover is refused.
overdraws : money 1 (neg 501) "purchase" "o9:debit" shop ≡ err insufficient_funds
unfolding money ◌>>=◌ ◌+ℤ◌
overdraws = refl

shop-IsSolvent : IsSolvent shop
unfolding balance ◌+ℤ◌
shop-IsSolvent uid = ground arith

abbrev redeemed : Db
redeemed = settle shop (redeem 1 15 "ai:1" shop)

redeems : redeem 1 15 "ai:1" shop ≡ ok (true, redeemed)
unfolding redeem ◌>>=◌ ◌+ℤ◌
redeems = refl

abbrev delivered : Order
delivered = record {
  id = "o5";
  user_id = 1;
  plan = record { plan = plan; coupon_code = none; display_name = none };
  price = 300;
  status = OrderStatus.fulfilled;
  service_id = "s5";
  renew_id = "";
  created = 90;
  target = none;
  trial = false;
}

abbrev rewarded : Db
rewarded = settle shop (purchase delivered shop_settings shop)

rewards : purchase delivered shop_settings shop ≡ ok (true, rewarded)
unfolding purchase award ◌>>=◌ ◌+ℤ◌
rewards = refl

money-IsBooked_example : IsBooked (settle shop (money 1 (neg 100) "purchase" "o9:debit" shop))
money-IsBooked_example = money-IsBooked 1 (neg 100) "purchase" "o9:debit" shop shop-IsBooked

money_lem_example : money 1 (neg 100) "purchase" "o9:debit" shop ≡ (
    if has_reference "o9:debit" shop.ledger
    then ok (tt, shop)
    else movement 1 (neg 100) "purchase" "o9:debit" shop (select_one (is_user 1) shop.users))
money_lem_example = money_lem 1 (neg 100) "purchase" "o9:debit" shop (refl, tt)

order-IsBooked_example : IsBooked (settle shop (order ascii purchase_args shop))
order-IsBooked_example = order-IsBooked ascii purchase_args shop shop-IsBooked

order-IsStocked_example : IsStocked bought
order-IsStocked_example = order-IsStocked ascii purchase_args shop bought "o1" buys shop-IsStocked

order-OneTrial_example : OneTrial tried
order-OneTrial_example = order-OneTrial ascii trial_args shop tried "o2" tries shop-OneTrial

order_effect_example :
    (purchase_args.reference ≡ "o1")
    × (((exists (is_order "o1") shop.orders ≡ true) × (bought ≡ shop))
        ⊎ IsPlaced purchase_args shop bought)
order_effect_example = order_effect ascii purchase_args shop bought "o1" buys

order_once_example : order ascii purchase_args bought ≡ ok ("o1", bought)
order_once_example = order_once ascii purchase_args purchase_args shop bought "o1" buys refl

decide_receipt_effect_example : IsDecided 2 true shop decided
decide_receipt_effect_example = decide_receipt_effect 2 true shop decided decides

decide_receipt_once_example : decide_receipt 2 false decided ≡ err already_decided
decide_receipt_once_example = decide_receipt_once 2 true false shop decided decides

redeem-IsSolvent_example : IsSolvent (settle shop (redeem 1 15 "ai:1" shop))
redeem-IsSolvent_example = redeem-IsSolvent 1 15 "ai:1" shop shop-IsSolvent

decide_receipt-IsBooked_example : IsBooked (settle shop (decide_receipt 2 true shop))
decide_receipt-IsBooked_example = decide_receipt-IsBooked 2 true shop shop-IsBooked

redeem_charges_example :
    (pos 15 ≤ℤ balance 1 shop)
    × (balance 1 redeemed ≡ (if 1 == 1 then balance 1 shop +ℤ neg 15 else balance 1 shop))
redeem_charges_example = redeem_charges 1 15 "ai:1" shop redeemed 1 redeems
