-- ===== src/Shop/Receipts/Decisions.antt =====
-- A receipt is decided once, and moves money only as far as it pays into the wallet.
use masih_panel.Wallet.Apart.{money-apart}
use masih_panel.Base.Text.{str}
use masih_panel.Wallet.{money}
use masih_panel.Tx.Yields.{
  of_Yields, Yields-modify, gets-Yields, raise_if-Yields, Yields-mono, Yields-when, require-Yields,
  Yields-settle, Yields-kept, bind-Yields, Yields-from, Yields,
}
use masih_panel.Tx.{already_decided, err, ok, ◌>>=◌, modify, settle}
use masih_panel.Tx.Keeps.{
  Keeps-raise_if, Keeps-gets, Keeps-require, Keeps-modify, settle-Keeps, Keeps-when, Keeps-bind,
  Keeps,
}
use masih_panel.Wallet.Books.{IsBooked}
use masih_panel.Base.Int.{pos}
use masih_panel.Queue.Frame.{notify-Keeps, audit-Keeps, IsQuiet}
use masih_panel.Store.{TopupStatus, ReceiptOrder, Order, Topup, Db}
use masih_panel.Base.{
  [], inr, inl, Bool-cases, ◌∷◌, List, arith, update_where, ◌==◌, select_one, false, true, ap, none,
  ◌<>◌, refl, ◌∙◌, if◌then◌else◌, some, String, Option, Bool, ◌≡◌, ℕ,
}
use masih_panel.Shop.Receipts.{
  set_topup, is_pending, is_topup, decide_receipt, restore_reserved_coupon, free_coupon,
  decide_order, decide_topup, decide_linked,
}
use masih_panel.Shop.Receipts.Funds.{decide_receipt-Keeps}

-- A decision, committed or rolled back, keeps the books of the shop.
pub decide_receipt-IsBooked :
    (ident : ℕ) (approve : Bool) (d : Db)
    → IsBooked d
    → IsBooked (settle d (decide_receipt ident approve d))
decide_receipt-IsBooked ident approve d b =
    settle-Keeps (decide_receipt ident approve) d (decide_receipt-Keeps ident approve) b

-- The tables of the money and of the receipts.
record SameFunds (d e : Db) : Type 0 where
  users : e.users ≡ d.users
  ledger : e.ledger ≡ d.ledger
  topups : e.topups ≡ d.topups

Same-quiet : (d : Db) → IsQuiet (SameFunds d)
Same-quiet d = record {
  outbox = λ e o h. record { users = h.users; ledger = h.ledger; topups = h.topups };
  nav = λ e o h. record { users = h.users; ledger = h.ledger; topups = h.topups };
  drawn = λ e o h. record { users = h.users; ledger = h.ledger; topups = h.topups };
  audit_log = λ e o h. record { users = h.users; ledger = h.ledger; topups = h.topups };
}

same_aside :
    (d : Db) (f : Db → Db)
    → ((e : Db) → (f e).users ≡ e.users)
    → ((e : Db) → (f e).ledger ≡ e.ledger)
    → ((e : Db) → (f e).topups ≡ e.topups)
    → Keeps (SameFunds d) (modify f)
same_aside d f su sl st =
    Keeps-modify f
      λ e h. record { users = su e ∙ h.users; ledger = sl e ∙ h.ledger; topups = st e ∙ h.topups }

free_coupon_same : (d : Db) (o : Order) (code : String) → Keeps (SameFunds d) (free_coupon o code)
unfolding free_coupon
free_coupon_same d o code = Keeps-bind _ _ (Keeps-gets _) λ removed. Keeps-when _ _ (
    Keeps-bind _ _ (same_aside d _ (λ e. refl) (λ e. refl) (λ e. refl))
      λ _. audit-Keeps (Same-quiet d) _ _)

restore_same : (d : Db) (o : Order) → Keeps (SameFunds d) (restore_reserved_coupon o)
unfolding restore_reserved_coupon
restore_same d o = Keeps-when _ _ (free_coupon_same d o _)

-- A receipt for an order moves no money.
decide_order_same :
    (d : Db) (r : Topup) (linked : ReceiptOrder) (approve : Bool)
    → Keeps (SameFunds d) (decide_order r linked approve)
unfolding decide_order
decide_order_same d r linked approve = Keeps-bind _ _ (Keeps-require _ _) λ o.
    Keeps-bind _ _ (Keeps-raise_if _ _) λ _. Keeps-bind _ _ (Keeps-when _ _ (restore_same d o)) λ _.
      Keeps-bind _ _ (same_aside d _ (λ e. refl) (λ e. refl) (λ e. refl))
        λ _. notify-Keeps (Same-quiet d) _ _ _

-- the order that a receipt is linked to
abbrev pub linked_order : ℕ → Db → Option ReceiptOrder
linked_order ident d = select_one (λ l. l.topup_id == ident) d.receipt_orders

-- where the money stands after a decision on `r`
abbrev pub paid_in : Db → Topup → Option ReceiptOrder → Bool → Db
paid_in d r (some linked) approve = d
paid_in d r none approve =
    if approve
    then settle d (money r.user_id (pos r.amount) "topup" ("topup:" <> str r.id) d)
    else d

same_refl : (d e : Db) → e ≡ d → SameFunds d e
same_refl d e h = record {
  users = ap (λ (x : Db). x.users) h;
  ledger = ap (λ (x : Db). x.ledger) h;
  topups = ap (λ (x : Db). x.topups) h;
}

decide_topup_yields :
    (d : Db) (r : Topup) (approve : Bool)
    → Yields (λ e. e ≡ d) (decide_topup r approve) (λ _ e. SameFunds (paid_in d r none approve) e)
unfolding decide_topup
decide_topup_yields d r approve =
    bind-Yields {R = λ _ e. e ≡ paid_in d r none approve} _ _
      (Yields-when approve _ (λ yea. Yields-mono _ (Yields-settle _ d) (λ _ e h. rw yea h))
        (λ nay e h. rw nay h))
      λ _.
        Yields-from _ (λ e h. same_refl _ e h)
          (Yields-kept _ (notify-Keeps (Same-quiet (paid_in d r none approve)) _ _ _))

decide_linked_yields :
    (d : Db) (r : Topup) (linked : Option ReceiptOrder) (approve : Bool)
    → Yields
        (λ e. e ≡ d)
        (decide_linked r linked approve)
        (λ _ e. SameFunds (paid_in d r linked approve) e)
unfolding decide_linked
decide_linked_yields d r none approve = decide_topup_yields d r approve
decide_linked_yields d r (some linked) approve =
    Yields-from _ (λ e h. same_refl d e h) (Yields-kept _ (decide_order_same d r linked approve))

-- `settle` of a payment keeps the receipts.
paid_in_topups :
    (d : Db) (r : Topup) (linked : Option ReceiptOrder) (approve : Bool)
    → (paid_in d r linked approve).topups ≡ d.topups
paid_in_topups d r (some l) approve = refl
paid_in_topups d r none false = refl
paid_in_topups d r none true =
    settle-Keeps {P = λ e. e.topups ≡ d.topups} _ d
      (money-apart (λ e. e.topups ≡ d.topups) (λ e us es h. h) r.user_id _ _ _) refl

-- What a decision leaves: the funds of `paid_in`, and the receipt marked.
pub record IsDecided (ident : ℕ) (approve : Bool) (d e : Db) : Type 0 where
  pub receipt : Topup
  pub found : select_one (is_topup ident) d.topups ≡ some receipt
  pub was_pending : is_pending receipt.status ≡ true
  pub users : e.users ≡ (paid_in d receipt (linked_order ident d) approve).users
  pub ledger : e.ledger ≡ (paid_in d receipt (linked_order ident d) approve).ledger
  pub topups :
      e.topups
      ≡ update_where
          (is_topup ident)
          (set_topup (if approve then TopupStatus.approved else TopupStatus.rejected))
          d.topups

IsDecided-quiet : (ident : ℕ) (approve : Bool) (d : Db) → IsQuiet (IsDecided ident approve d)
IsDecided-quiet ident approve d = record {
  outbox = λ e o h. kept_decided e _ refl refl refl h;
  nav = λ e o h. kept_decided e _ refl refl refl h;
  drawn = λ e o h. kept_decided e _ refl refl refl h;
  audit_log = λ e o h. kept_decided e _ refl refl refl h;
}
  where
    kept_decided :
        (e e' : Db)
        → e'.users ≡ e.users
        → e'.ledger ≡ e.ledger
        → e'.topups ≡ e.topups
        → IsDecided ident approve d e
        → IsDecided ident approve d e'
    kept_decided e e' u l t h = record {
      receipt = h.receipt;
      found = h.found;
      was_pending = h.was_pending;
      users = u ∙ h.users;
      ledger = l ∙ h.ledger;
      topups = t ∙ h.topups;
    }

decide_receipt_yields :
    (ident : ℕ) (approve : Bool) (d : Db)
    → Yields (λ e. e ≡ d) (decide_receipt ident approve) (λ _ e. IsDecided ident approve d e)
unfolding decide_receipt
decide_receipt_yields ident approve d =
    require-Yields _ _ (select_one (is_topup ident) d.topups) _ (λ e h. rw h)
      λ r found. raise_if-Yields _ _ _ λ pending.
        gets-Yields _ (linked_order ident d) _ (λ e h. rw h)
          λ linked seen. bind-Yields _ _ (decide_linked_yields d r linked approve) λ _.
            bind-Yields {R = λ _ e. IsDecided ident approve d e} _ _
              (Yields-modify _ λ e h. record {
                receipt = r;
                found = found;
                was_pending = ground (arith, pending);
                users = rw (← seen) h.users;
                ledger = rw (← seen) h.ledger;
                topups = rw (h.topups, paid_in_topups d r linked approve);
              })
              λ _. Yields-kept _ (audit-Keeps (IsDecided-quiet ident approve d) _ _)

-- A decision that succeeds found its receipt pending, marks exactly that receipt, and moves no money
-- but the receipt's amount, to the wallet of the receipt's user, under the receipt's own reference:
-- and that only when the receipt is approved and is not linked to an order.
pub decide_receipt_effect :
    (ident : ℕ) (approve : Bool) (d e : Db)
    → decide_receipt ident approve d ≡ ok (tt, e)
    → IsDecided ident approve d e
decide_receipt_effect ident approve d e h =
    of_Yields _ d (decide_receipt_yields ident approve d) refl h

marked_found :
    (ident : ℕ) (status : TopupStatus) (ts : List Topup) (t : Topup)
    → select_one (is_topup ident) ts ≡ some t
    → select_one (is_topup ident) (update_where (is_topup ident) (set_topup status) ts)
      ≡ some (set_topup status t)
marked_found ident status [] t h = ground (arith, h)
marked_found ident status (x ∷ ts) t h = elim (Bool-cases (x.id == ident)) [
  | inl own ↦ ground (arith, h)
  | inr other ↦ ground (arith, h, marked_found ident status ts t)
]

not_pending :
    (approve : Bool)
    → is_pending (if approve then TopupStatus.approved else TopupStatus.rejected) ≡ false
not_pending false = refl
not_pending true = refl

refused_again :
    (ident : ℕ) (again : Bool) (d : Db) (t : Topup)
    → select_one (is_topup ident) d.topups ≡ some t
    → is_pending t.status ≡ false
    → decide_receipt ident again d ≡ err already_decided
unfolding decide_receipt ◌>>=◌
refused_again ident again d t found settled = ground (arith, found, settled)

-- A receipt that was decided cannot be decided again, either way.
pub decide_receipt_once :
    (ident : ℕ) (approve again : Bool) (d e : Db)
    → decide_receipt ident approve d ≡ ok (tt, e)
    → decide_receipt ident again e ≡ err already_decided
decide_receipt_once ident approve again d e h =
    let s = decide_receipt_effect ident approve d e h in
    refused_again ident again e _
      (ap (select_one (is_topup ident)) s.topups ∙ marked_found ident _ d.topups s.receipt s.found)
      (not_pending approve)
