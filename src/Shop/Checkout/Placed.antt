-- ===== src/Shop/Checkout/Placed.antt =====
-- What a checkout that commits has found and has left: one new row of `orders`, behind all its checks.
use masih_panel.Tx.{ok}
use masih_panel.Shop.Labels.{Unicode}
use masih_panel.Tx.Yields.{
  of_Yields, Yields-from, Yields-pure, facts-Yields, require-Yields, Yields-mono, keeps-Yields,
  Yields-keeps, raise_if-Yields, Yields-if, Yields-raise_if, Yields-when, gets-Yields, Yields,
}
use masih_panel.Base.Text.{nonempty}
use masih_panel.Wallet.Apart.{money-apart}
use masih_panel.Wallet.{money}
use masih_panel.Base.Int.{ℤ}
use masih_panel.Tx.Keeps.{Keeps-require, Keeps-gets, Keeps, Keeps-modify}
use masih_panel.Queue.Frame.{IsQuiet}
use masih_panel.Base.{
  inr, ap, ◌∙◌, sym, inl, ◌⊎◌, true, refl, arith, count, leb, not, if◌then◌else◌, insert_row, some,
  ◌&&◌, ◌==◌, select_one, false, exists, String, ℕ, ◌≡◌,
}
use masih_panel.Shop.Checkout.Steady.{
  place_yields, apply_coupon-Keeps, usable_inbounds-Keeps, check_renewal-Keeps, IsSteady,
}
use masih_panel.Store.{Settings, OrderStatus, Order, Plan, Db}
use masih_panel.Shop.Checkout.{
  order, placed_row, new_order, check_renewal, check_capacity, check_trial, takes_place,
  is_trial_of, is_order, OrderArgs,
}

pub record IsPlaced (a : OrderArgs) (d e : Db) : Type 0 where
  pub plan : Plan
  pub row : Order
  pub fresh : exists (is_order a.reference) d.orders ≡ false
  pub found : select_one (λ p. p.id == a.pid && p.active) d.plans ≡ some plan
  pub inserted : e.orders ≡ insert_row row d.orders
  pub catalogue : e.plans ≡ d.plans
  pub reference : row.id ≡ a.reference
  pub buyer : row.user_id ≡ a.uid
  pub product : row.plan.plan.id ≡ plan.id
  pub renews : row.renew_id ≡ a.renew
  pub is_trial : row.trial ≡ a.trial
  pub open_status : row.status ≡ (if a.card then OrderStatus.awaiting_receipt else OrderStatus.paid)
  pub first_trial : (a.trial && exists (is_trial_of a.uid) d.orders) ≡ false
  pub has_place :
      (not (nonempty a.renew)
        && not (plan.capacity == 0)
        && leb plan.capacity (count (takes_place a.pid) d.orders))
      ≡ false

-- The tables that a checkout reads and, before its insertion, does not change.
pub record SameShop (d e : Db) : Type 0 where
  pub orders : e.orders ≡ d.orders
  pub plans : e.plans ≡ d.plans

SameShop-quiet : (d : Db) → IsQuiet (SameShop d)
SameShop-quiet d = record {
  outbox = λ e o h. record { orders = h.orders; plans = h.plans };
  nav = λ e n h. record { orders = h.orders; plans = h.plans };
  drawn = λ e n h. record { orders = h.orders; plans = h.plans };
  audit_log = λ e n h. record { orders = h.orders; plans = h.plans };
}

money_same :
    (d : Db) (uid : ℕ) (amount : ℤ) (reason ref : String)
    → Keeps (SameShop d) (money uid amount reason ref)
money_same d uid amount reason ref =
    money-apart _ (λ e us es h. record { orders = h.orders; plans = h.plans }) uid amount reason ref

SameShop-steady : (d : Db) → IsSteady (SameShop d)
SameShop-steady d = record {
  quiet = SameShop-quiet d;
  clear = λ uid. Keeps-modify _ (λ e h. record { orders = h.orders; plans = h.plans });
  coupon = λ code uid. Keeps-modify _ (λ e h. record { orders = h.orders; plans = h.plans });
  pay = money_same d;
}

module _ (d : Db) where
  -- A free trial is refused to a user who has had one.
  trial_yields :
      (s : Settings) (a : OrderArgs)
      → Yields
          (SameShop d)
          (check_trial s a)
          (λ _ e. ((a.trial && exists (is_trial_of a.uid) d.orders) ≡ false) × SameShop d e)
  unfolding check_trial
  trial_yields s a =
      Yields-when _ _
        (λ trial. raise_if-Yields _ _ _ λ _. raise_if-Yields _ _ _ λ _.
          gets-Yields _ (exists (is_trial_of a.uid) d.orders) _ (λ e h. rw h.orders)
            λ had same. Yields-raise_if _ _ (λ none_had e h. (ground arith, h)))
        (λ no_trial e h. (ground arith, h))

  -- A full plan is refused.
  capacity_yields :
      (p : Plan) (a : OrderArgs)
      → Yields (SameShop d) (check_capacity p a) (λ _ e.
        ((not (p.capacity == 0) && leb p.capacity (count (takes_place a.pid) d.orders)) ≡ false)
        × SameShop d e)
  unfolding check_capacity
  capacity_yields p a =
      gets-Yields _ (count (takes_place a.pid) d.orders) _ (λ e h. rw h.orders)
        λ sold same. Yields-raise_if _ _ (λ room e h. (rw (← same) room, h))

  stock_yields :
      (p : Plan) (a : OrderArgs)
      → Yields
          (SameShop d)
          (if nonempty a.renew then check_renewal p a else check_capacity p a)
          (λ _ e.
            ((not (nonempty a.renew)
                && not (p.capacity == 0)
                && leb p.capacity (count (takes_place a.pid) d.orders))
              ≡ false)
            × SameShop d e)
  stock_yields p a =
      Yields-if (nonempty a.renew) _ _
        (λ renewal. Yields-keeps _ (check_renewal-Keeps p a) (ground arith))
        (λ fresh. Yields-mono _ (capacity_yields p a) (λ _ e h. (ground arith, h.1)))

  module _ (txt : Unicode) where
    new_order_yields :
        (a : OrderArgs)
        → exists (is_order a.reference) d.orders ≡ false
        → Yields (SameShop d) (new_order txt a) (λ r e. (r ≡ a.reference) × IsPlaced a d e)
    unfolding new_order
    new_order_yields a fresh = keeps-Yields _ _ (Keeps-gets _) λ s.
        keeps-Yields _ _ (Keeps-require _ _) λ u. raise_if-Yields _ _ _ λ _.
          raise_if-Yields _ _ _ λ _.
            require-Yields _ _ (select_one (λ p. p.id == a.pid && p.active) d.plans) _
              (λ e h. rw h.plans)
              λ p found. raise_if-Yields _ _ _ λ _. facts-Yields _ _ (trial_yields s a) λ _ first.
                facts-Yields _ _ (stock_yields p a) λ _ room.
                  keeps-Yields _ _ (usable_inbounds-Keeps p) λ inbounds.
                    keeps-Yields _ _ (apply_coupon-Keeps (SameShop-steady d) s u a _) λ priced.
                      place_yields (SameShop-steady d) txt a p inbounds priced.0 priced.1
                        λ sid name e h. (
                          refl,
                          record {
                            plan = p;
                            row = placed_row a p inbounds priced.0 priced.1 sid name e.clock;
                            fresh = fresh;
                            found = found;
                            inserted = rw h.orders;
                            catalogue = h.plans;
                            reference = refl;
                            buyer = refl;
                            product = refl;
                            renews = refl;
                            is_trial = refl;
                            open_status = refl;
                            first_trial = first;
                            has_place = room;
                          },
                        )

    order_yields :
        (a : OrderArgs)
        → Yields
            (λ e. e ≡ d)
            (order txt a)
            (λ r e.
              (r ≡ a.reference)
              × (((exists (is_order a.reference) d.orders ≡ true) × (e ≡ d)) ⊎ IsPlaced a d e))
    unfolding order
    order_yields a =
        gets-Yields _ (exists (is_order a.reference) d.orders) _ (λ e same. rw same)
          λ placed seen.
            Yields-if placed _ _
              (λ old.
                raise_if-Yields _ _ _
                  λ _. Yields-pure _ (λ e same. (refl, inl (sym seen ∙ old, same))))
              (λ new.
                Yields-from _
                  (λ e same. record {
                    orders = ap (λ (x : Db). x.orders) same;
                    plans = ap (λ (x : Db). x.plans) same;
                  })
                  (Yields-mono _ (new_order_yields a (sym seen ∙ new)) (λ r e h. (h.0, inr h.1))))

-- A checkout that commits returns its reference. It has met an order of that reference and changed
-- nothing, or it has placed its order.
pub order_effect :
    (txt : Unicode) (a : OrderArgs) (d e : Db) (r : String)
    → order txt a d ≡ ok (r, e)
    → (r ≡ a.reference)
      × (((exists (is_order a.reference) d.orders ≡ true) × (e ≡ d)) ⊎ IsPlaced a d e)
order_effect txt a d e r h = of_Yields _ d (order_yields d txt a) refl h
