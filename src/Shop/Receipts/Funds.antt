-- ===== src/Shop/Receipts/Funds.antt =====
-- Decisions on receipts keep the books of the shop.
use masih_panel.Wallet.Frame.{Books-quiet, aside-Keeps}
use masih_panel.Queue.Frame.{enqueue-Keeps, audit-Keeps, notify-Keeps}
use masih_panel.Wallet.Moves.{money-Keeps}
use masih_panel.Wallet.Books.{IsBooked}
use masih_panel.Tx.Keeps.{
  Keeps-raise_if, Keeps-gets, Keeps-require, Keeps-bind, Keeps-pure, Keeps-when, Keeps,
}
use masih_panel.Store.{ReceiptOrder, Order, Topup}
use masih_panel.Base.{refl, none, some, Bool, ℕ, String, Option}
use masih_panel.Shop.Receipts.{
  decide_receipt, cancel_order, restore_reserved_coupon, free_coupon, decide_order, decide_topup,
  decide_linked, reject_linked,
}

free_coupon-Keeps : (o : Order) (code : String) → Keeps IsBooked (free_coupon o code)
unfolding free_coupon
free_coupon-Keeps o code = Keeps-bind _ _ (Keeps-gets _) λ removed.
    Keeps-when _ _
      (Keeps-bind _ _ (aside-Keeps _ (λ d. refl) (λ d. refl)) λ _. audit-Keeps Books-quiet _ _)

restore-Keeps : (o : Order) → Keeps IsBooked (restore_reserved_coupon o)
unfolding restore_reserved_coupon
restore-Keeps o = Keeps-when _ _ (free_coupon-Keeps o _)

decide_order-Keeps :
    (r : Topup) (linked : ReceiptOrder) (approve : Bool)
    → Keeps IsBooked (decide_order r linked approve)
unfolding decide_order
decide_order-Keeps r linked approve = Keeps-bind _ _ (Keeps-require _ _) λ o.
    Keeps-bind _ _ (Keeps-raise_if _ _) λ _. Keeps-bind _ _ (Keeps-when _ _ (restore-Keeps o)) λ _.
      Keeps-bind _ _ (aside-Keeps _ (λ d. refl) (λ d. refl)) λ _. notify-Keeps Books-quiet _ _ _

decide_linked-Keeps :
    (r : Topup) (linked : Option ReceiptOrder) (approve : Bool)
    → Keeps IsBooked (decide_linked r linked approve)
unfolding decide_linked decide_topup
decide_linked-Keeps r none approve =
    Keeps-bind _ _ (Keeps-when _ _ (money-Keeps r.user_id _ _ _))
      λ _. notify-Keeps Books-quiet _ _ _
decide_linked-Keeps r (some linked) approve = decide_order-Keeps r linked approve

pub decide_receipt-Keeps :
    (ident : ℕ) (approve : Bool) → Keeps IsBooked (decide_receipt ident approve)
unfolding decide_receipt
decide_receipt-Keeps ident approve = Keeps-bind _ _ (Keeps-require _ _) λ r.
    Keeps-bind _ _ (Keeps-raise_if _ _) λ _. Keeps-bind _ _ (Keeps-gets _) λ linked.
      Keeps-bind _ _ (decide_linked-Keeps r linked approve)
        λ _. Keeps-bind _ _ (aside-Keeps _ (λ d. refl) (λ d. refl)) λ _. audit-Keeps Books-quiet _ _

reject_linked-Keeps : (linked : Option ReceiptOrder) → Keeps IsBooked (reject_linked linked)
unfolding reject_linked
reject_linked-Keeps none = Keeps-pure tt
reject_linked-Keeps (some l) = aside-Keeps _ (λ d. refl) (λ d. refl)

pub cancel_order-Keeps : (ident : String) → Keeps IsBooked (cancel_order ident)
unfolding cancel_order
cancel_order-Keeps ident = Keeps-bind _ _ (Keeps-require _ _) λ o.
    Keeps-bind _ _ (Keeps-raise_if _ _) λ _. Keeps-bind _ _ (restore-Keeps o) λ _.
      Keeps-bind _ _ (Keeps-gets _) λ linked. Keeps-bind _ _ (reject_linked-Keeps linked) λ _.
        Keeps-bind _ _ (aside-Keeps _ (λ d. refl) (λ d. refl))
          λ _. Keeps-bind _ _ (enqueue-Keeps Books-quiet _ _ _ _ _) λ _. audit-Keeps Books-quiet _ _
