-- ===== src/Shop/Quotes/Purchases.antt =====
-- What single orders keep, a purchase of a quote keeps, whatever its quantity.
use masih_panel.Shop.Labels.Frame.{unique_label-Keeps}
use masih_panel.Shop.Checkout.Funds.{order-Keeps}
use masih_panel.Wallet.Frame.{Books-quiet}
use masih_panel.Shop.Quotes.{label_at, place_all, purchase_quote, check_bulk}
use masih_panel.Tx.{settle}
use masih_panel.Wallet.Books.{IsBooked}
use masih_panel.Tx.Keeps.{
  Keeps-pure, Keeps-raise_if, Keeps-require, Keeps-commit, Keeps-gets, settle-Keeps, Keeps-bind,
  Keeps-when, Keeps,
}
use masih_panel.Shop.Checkout.{order, OrderArgs}
use masih_panel.Shop.Checkout.Limits.{order-IsStocked, IsStocked}
use masih_panel.Queue.Frame.{IsQuiet}
use masih_panel.Shop.Labels.{Unicode}
use masih_panel.Store.{Quote, Db}
use masih_panel.Base.{zero, ◌+◌, suc, Bool, String, ℕ}

module _ {P : Db → Type 0} (q : IsQuiet P) (txt : Unicode)
    (placed : (a : OrderArgs) → Keeps P (order txt a)) where
  place_all-Keeps :
      (uid : ℕ) (v : Quote) (card : Bool) (index n : ℕ) → Keeps P (place_all txt uid v card index n)
  unfolding place_all label_at
  place_all-Keeps uid v card index zero = Keeps-pure tt
  place_all-Keeps uid v card zero (suc n) =
      Keeps-bind _ _ (Keeps-pure _)
        λ label. Keeps-bind _ _ (placed _) λ r. place_all-Keeps uid v card (zero + 1) n
  place_all-Keeps uid v card (suc index) (suc n) =
      Keeps-bind _ _ (unique_label-Keeps q txt v.label)
        λ label. Keeps-bind _ _ (placed _) λ r. place_all-Keeps uid v card (suc index + 1) n

  check_bulk-Keeps : (uid n : ℕ) → Keeps P (check_bulk uid n)
  unfolding check_bulk
  check_bulk-Keeps uid n = Keeps-when _ _ (
      Keeps-bind _ _ (Keeps-gets _) λ s. Keeps-bind _ _ (Keeps-require _ _) λ u. Keeps-raise_if _ _)

  purchase_quote-Keeps :
      (uid : ℕ) (ident : String) (card : Bool) → Keeps P (purchase_quote txt uid ident card)
  unfolding purchase_quote
  purchase_quote-Keeps uid ident card = Keeps-bind _ _ (Keeps-require _ _) λ v.
      Keeps-bind _ _ (Keeps-gets _) λ now. Keeps-bind _ _ (Keeps-raise_if _ _) λ _.
        Keeps-bind _ _ (Keeps-gets _) λ s. Keeps-bind _ _ (Keeps-require _ _) λ p.
          Keeps-bind _ _ (Keeps-raise_if _ _) λ _. Keeps-bind _ _ (Keeps-raise_if _ _) λ _.
            Keeps-bind _ _ (check_bulk-Keeps uid v.quantity) λ _.
              Keeps-bind _ _ (Keeps-raise_if _ _) λ _.
                Keeps-bind _ _ (Keeps-raise_if _ _) λ _.
                  Keeps-bind _ _ (place_all-Keeps uid v card 0 v.quantity) λ _. Keeps-pure ident

-- A purchase of a quote, of one subscription or many, committed or rolled back, keeps the books.
pub purchase_quote-IsBooked :
    (txt : Unicode) (uid : ℕ) (ident : String) (card : Bool) (d : Db)
    → IsBooked d
    → IsBooked (settle d (purchase_quote txt uid ident card d))
purchase_quote-IsBooked txt uid ident card d =
    settle-Keeps _ d (purchase_quote-Keeps Books-quiet txt (order-Keeps txt) uid ident card)

Stocked-quiet : IsQuiet IsStocked
Stocked-quiet = record {
  outbox = λ d o h. record { distinct = h.distinct; fits = h.fits };
  nav = λ d o h. record { distinct = h.distinct; fits = h.fits };
  drawn = λ d o h. record { distinct = h.distinct; fits = h.fits };
  audit_log = λ d o h. record { distinct = h.distinct; fits = h.fits };
}

-- A purchase of a quote, committed or rolled back, oversells no plan, however many subscriptions it asks
-- for at once.
pub purchase_quote-IsStocked :
    (txt : Unicode) (uid : ℕ) (ident : String) (card : Bool) (d : Db)
    → IsStocked d
    → IsStocked (settle d (purchase_quote txt uid ident card d))
purchase_quote-IsStocked txt uid ident card d = settle-Keeps _ d (
    purchase_quote-Keeps Stocked-quiet txt
      (λ a. Keeps-commit _ (λ e f r h k. order-IsStocked txt a e f r h k)) uid ident card)
