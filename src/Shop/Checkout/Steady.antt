-- ===== src/Shop/Checkout/Steady.antt =====
-- What a checkout leaves alone until it inserts its order, for every property of the database that the
-- statements before the insertion keep.
use masih_panel.Tx.Yields.{bind-Yields, keeps-Yields, Yields-pure, Yields-modify, Yields}
use masih_panel.Shop.Labels.Frame.{unique_label-Keeps}
use masih_panel.Base.Int.{ℤ}
use masih_panel.Tx.{modify}
use masih_panel.Shop.Labels.{Unicode}
use masih_panel.Base.{none, some, insert_row, List, Option, String, ℕ}
use masih_panel.Tx.Keeps.{
  Keeps-when, Keeps-lift, Keeps-gets, Keeps-bind, Keeps-pure, Keeps-if, Keeps, keeps_rules,
}
use masih_panel.Store.{Coupon, User, Settings, Plan, Db}
use masih_panel.Queue.Frame.{draw-Keeps, IsQuiet}
use masih_panel.Wallet.{money}
use masih_panel.Shop.Checkout.{
  OrderArgs, check_trial, check_renewal, check_capacity, usable_inbounds, redeem_coupon,
  apply_coupon, chosen_label, display_name, service_id, place, clear_user, use_coupon, placed_row,
}

pub record IsSteady (P : Db → Type 0) : Type 0 where
  pub quiet : IsQuiet P
  pub clear : (uid : ℕ) → Keeps P (modify (clear_user uid))
  pub coupon : (code : String) (uid : ℕ) → Keeps P (modify (use_coupon code uid))
  pub pay : (uid : ℕ) (amount : ℤ) (reason ref : String) → Keeps P (money uid amount reason ref)

module _ {P : Db → Type 0} where
  pub check_trial-Keeps : (s : Settings) (a : OrderArgs) → Keeps P (check_trial s a)
  unfolding check_trial
  check_trial-Keeps s a = search keeps_rules depth 12

  pub check_renewal-Keeps : (p : Plan) (a : OrderArgs) → Keeps P (check_renewal p a)
  unfolding check_renewal
  check_renewal-Keeps p a = search keeps_rules depth 12

  pub check_capacity-Keeps : (p : Plan) (a : OrderArgs) → Keeps P (check_capacity p a)
  unfolding check_capacity
  check_capacity-Keeps p a = search keeps_rules depth 12

  pub usable_inbounds-Keeps : (p : Plan) → Keeps P (usable_inbounds p)
  unfolding usable_inbounds
  usable_inbounds-Keeps p = search keeps_rules depth 12

module _ {P : Db → Type 0} (steady : IsSteady P) where
  redeem_coupon-Keeps :
      (code : String) (a : OrderArgs) (price : ℕ) (c : Option Coupon)
      → Keeps P (redeem_coupon code a price c)
  unfolding redeem_coupon
  redeem_coupon-Keeps code a price none = Keeps-pure _
  redeem_coupon-Keeps code a price (some c) = Keeps-bind _ _ (Keeps-gets _) λ used.
      Keeps-if _ _ _ (Keeps-pure _) (Keeps-bind _ _ (steady.coupon code a.uid) (λ _. Keeps-pure _))

  pub apply_coupon-Keeps :
      (s : Settings) (u : User) (a : OrderArgs) (price : ℕ) → Keeps P (apply_coupon s u a price)
  unfolding apply_coupon
  apply_coupon-Keeps s u a price =
      Keeps-if _ _ _ (Keeps-bind _ _ (Keeps-gets _) (λ c. redeem_coupon-Keeps _ a price c))
        (Keeps-pure _)

  service_id-Keeps : (a : OrderArgs) → Keeps P (service_id a)
  unfolding service_id
  service_id-Keeps a = Keeps-if _ _ _ (Keeps-pure _) (draw-Keeps steady.quiet)

  module _ (txt : Unicode) where
    chosen_label-Keeps : (p : Plan) (l : Option String) → Keeps P (chosen_label txt p l)
    unfolding chosen_label
    chosen_label-Keeps p none = unique_label-Keeps steady.quiet txt p.name
    chosen_label-Keeps p (some l) =
        Keeps-if _ _ _ (Keeps-lift _) (unique_label-Keeps steady.quiet txt p.name)

    display_name-Keeps : (a : OrderArgs) (p : Plan) → Keeps P (display_name txt a p)
    unfolding display_name
    display_name-Keeps a p =
        Keeps-if _ _ _ (Keeps-bind _ _ (Keeps-gets _) (λ v. Keeps-pure _))
          (Keeps-bind _ _ (chosen_label-Keeps p a.label) (λ l. Keeps-pure _))

    -- `Q` follows from `P` by the insertion of the row.
    pub place_yields :
        {Q : String → Db → Type 0} (a : OrderArgs) (p : Plan) (inbounds : List ℕ) (price : ℕ)
        (coupon : Option String)
        → ((sid : String) (name : Option String) (d : Db)
            → P d
            → Q a.reference (record d {
              orders = insert_row (placed_row a p inbounds price coupon sid name d.clock) d.orders;
            }))
        → Yields P (place txt a p inbounds price coupon) Q
    unfolding place
    place_yields {Q} a p inbounds price coupon ins = keeps-Yields _ _ (steady.clear a.uid) λ _.
        keeps-Yields _ _ (Keeps-when _ _ (steady.pay a.uid _ _ _)) λ _.
          keeps-Yields _ _ (service_id-Keeps a) λ sid.
            keeps-Yields _ _ (display_name-Keeps a p) λ name.
              bind-Yields {R = λ _ t. Q a.reference t} _ _ (Yields-modify _ (ins sid name))
                λ _. Yields-pure _ (λ t q. q)
