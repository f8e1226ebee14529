-- ===== src/Shop/Checkout/Funds.antt =====
-- A checkout keeps the books of the shop.
use masih_panel.Wallet.Moves.{money-Keeps}
use masih_panel.Base.{refl, String, Option, ℕ, List}
use masih_panel.Tx.{settle}
use masih_panel.Wallet.{is_user}
use masih_panel.Tx.Keeps.{settle-Keeps, keeps_rules, Keeps}
use masih_panel.Store.{Db, Plan}
use masih_panel.Wallet.Frame.{IsBooked-aside, aside-Keeps, users-Keeps, Books-quiet}
use masih_panel.Shop.Labels.{Unicode}
use masih_panel.Wallet.Books.{IsBooked}
use masih_panel.Shop.Checkout.{place, use_coupon, clear_state, OrderArgs, order, new_order}
use masih_panel.Shop.Checkout.Steady.{
  place_yields, apply_coupon-Keeps, usable_inbounds-Keeps, check_capacity-Keeps,
  check_renewal-Keeps, check_trial-Keeps, IsSteady,
}

Books-steady : IsSteady IsBooked
Books-steady = record {
  quiet = Books-quiet;
  clear = λ uid. users-Keeps (is_user uid) clear_state (λ u. refl) (λ u. refl);
  coupon = λ code uid. aside-Keeps (use_coupon code uid) (λ d. refl) (λ d. refl);
  pay = money-Keeps;
}

module _ (txt : Unicode) where
  place-Keeps :
      (a : OrderArgs) (p : Plan) (inbounds : List ℕ) (price : ℕ) (coupon : Option String)
      → Keeps IsBooked (place txt a p inbounds price coupon)
  place-Keeps a p inbounds price coupon = record {
    at =
        (place_yields Books-steady txt {Q = λ _ t. IsBooked t} a p inbounds price coupon
          (λ sid name d b. IsBooked-aside d _ refl refl b)).at;
  }

  new_order-Keeps : (a : OrderArgs) → Keeps IsBooked (new_order txt a)
  unfolding new_order
  new_order-Keeps a =
      search
        (
          keeps_rules,
          check_trial-Keeps,
          check_renewal-Keeps,
          check_capacity-Keeps,
          usable_inbounds-Keeps,
          apply_coupon-Keeps Books-steady,
          place-Keeps,
        )
        depth 20

  pub order-Keeps : (a : OrderArgs) → Keeps IsBooked (order txt a)
  unfolding order
  order-Keeps a = search (keeps_rules, new_order-Keeps) depth 8

  -- A checkout, committed or rolled back, keeps the books: what a wallet pays stands in the ledger, and
  -- no wallet is overdrawn.
  pub order-IsBooked : (a : OrderArgs) (d : Db) → IsBooked d → IsBooked (settle d (order txt a d))
  order-IsBooked a d b = settle-Keeps (order txt a) d (order-Keeps a) b
