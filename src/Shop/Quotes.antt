-- ===== src/Shop/Quotes.antt =====
-- `quote` and `purchase_quote` of runtime/sales_worker.py: a price is held for a quarter of an hour, and
-- bought as one order or as many.
pub mod Purchases
use masih_panel.Wallet.{is_user}
use masih_panel.Shop.Checkout.{same, order, same_protocol, OrderArgs}
use masih_panel.Base.Text.{nonempty, str}
use masih_panel.Queue.{draw}
use masih_panel.Tx.{
  modify, label_needed, trial_not_payable, card_closed, plan_missing, trial_route, bulk_closed,
  plan_changed, raise_if, ◌>>◌, no_user, quote_expired, gets, require, when, ◌>>=◌, pure, Tx,
}
use masih_panel.Shop.Labels.{unique_subscription_label, Unicode}
use masih_panel.Store.{Db, Plan, Quote}
use masih_panel.Base.{
  insert_row, true, [], ◌∷◌, ◌||◌, not, none, zero, select_one, if◌then◌else◌, ltb, ◌&&◌, some,
  false, suc, ◌==◌, str_eq, ◌<>◌, ◌+◌, Option, Bool, String, List, ℕ,
}

abbrev same_numbers : List ℕ → List ℕ → Bool
same_numbers [] [] = true
same_numbers (m ∷ ms) (n ∷ ns) = m == n && same_numbers ms ns
same_numbers _ _ = false

-- `dict(p) == snapshot["plan"]`
pub same_plan : Plan → Plan → Bool
same_plan p q =
    p.id == q.id
    && str_eq p.name q.name
    && str_eq p.category q.category
    && same_protocol p.protocol q.protocol
    && p.price == q.price
    && p.days == q.days
    && p.gb == q.gb
    && same_numbers p.inbounds q.inbounds
    && p.capacity == q.capacity
    && same p.active q.active
    && same p.is_trial q.is_trial

abbrev pub is_quote_of : String → ℕ → Quote → Bool
is_quote_of ident uid q = str_eq q.id ident && q.user_id == uid

abbrev pub open_plan : ℕ → Plan → Bool
open_plan pid p = p.id == pid && p.active

abbrev pub quote_row : String → ℕ → Plan → ℕ → String → String → ℕ → Quote
quote_row ident uid p quantity label renew at = record {
  id = ident;
  user_id = uid;
  plan_id = p.id;
  plan = p;
  quantity = quantity;
  label = label;
  renew_id = renew;
  expires = at + 900;
}

-- the reference of an order of a quote
pub quote_reference : String → ℕ → String
quote_reference ident index = "quote:" <> ident <> ":" <> str index

abbrev pub quote_order : ℕ → Quote → Bool → ℕ → String → OrderArgs
quote_order uid q card index label = record {
  uid = uid;
  pid = q.plan_id;
  reference = quote_reference q.id index;
  renew = q.renew_id;
  trial = false;
  card = card;
  label = some label;
}

pub check_bulk : ℕ → ℕ → Tx Db (Unit {0})
check_bulk uid quantity = when (ltb 1 quantity) (do
  s ← gets (λ d. d.settings)
  u ← require no_user (λ d. select_one (is_user uid) d.users)
  raise_if (not s.bulk || not s.reseller || not u.reseller) bulk_closed)

module _ (txt : Unicode) where
  -- the name to reserve: none for a renewal
  pub assigned_label : String → Option String → Tx Db String
  assigned_label renew none = pure ""
  assigned_label renew (some label) =
      if nonempty renew then pure "" else unique_subscription_label txt label

  -- `quote(c, uid, pid, renew, quantity, label)`
  unfoldable pub quote : ℕ → ℕ → String → ℕ → Option String → Tx Db String
  unfolding assigned_label draw
  quote uid pid renew quantity label = do
    p ← require plan_missing (λ d. select_one (open_plan pid) d.plans)
    raise_if p.is_trial trial_not_payable
    ident ← draw
    assigned ← assigned_label renew label
    modify (λ d. record d {
      quotes = insert_row (quote_row ident uid p quantity assigned renew d.clock) d.quotes;
    })
    pure ident

  pub label_at : Quote → ℕ → Tx Db String
  label_at q zero = pure q.label
  label_at q (suc index) = unique_subscription_label txt q.label

  -- the loop over `range(quantity)`, from `index` on
  pub place_all : ℕ → Quote → Bool → ℕ → ℕ → Tx Db (Unit {0})
  unfolding label_at quote_reference
  place_all uid q card index zero = pure tt
  place_all uid q card index (suc n) = do
    label ← label_at q index
    reference ← order txt (quote_order uid q card index label)
    place_all uid q card (index + 1) n

  -- `purchase_quote(c, uid, ident, card)`
  unfoldable pub purchase_quote : ℕ → String → Bool → Tx Db String
  unfolding check_bulk place_all same_plan
  purchase_quote uid ident card = do
    q ← require quote_expired (λ d. select_one (is_quote_of ident uid) d.quotes)
    now ← gets (λ d. d.clock)
    raise_if (ltb q.expires now) quote_expired
    s ← gets (λ d. d.settings)
    p ← require plan_changed (λ d. select_one (open_plan q.plan_id) d.plans)
    raise_if (not (same_plan p q.plan)) plan_changed
    raise_if p.is_trial trial_route
    check_bulk uid q.quantity
    raise_if (card && (not (q.quantity == 1) || not (nonempty s.card))) card_closed
    raise_if (not (nonempty q.renew_id) && not (nonempty q.label)) label_needed
    place_all uid q card 0 q.quantity
    pure ident
