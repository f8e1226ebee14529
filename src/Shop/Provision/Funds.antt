-- ===== src/Shop/Provision/Funds.antt =====
-- A delivery keeps the books of the shop.
use masih_panel.Wallet.Moves.{money-Keeps}
use masih_panel.Wallet.Frame.{Books-quiet, aside-Keeps}
use masih_panel.Queue.Frame.{enqueue-Keeps, draw-Keeps}
use masih_panel.Wallet.Books.{IsBooked}
use masih_panel.Tx.{err, ok, settle, Result}
use masih_panel.Tx.Keeps.{
  Keeps-raise_if, Keeps-require, Keeps-lift, Keeps-gets, Keeps-pure, Keeps-bind, settle-Keeps,
  Keeps-when, Keeps-if, Keeps,
}
use masih_panel.Loyalty.{insert_points, award, purchase}
use masih_panel.Shop.Provision.{
  pay_commission, finish, deliver_committed, install_account, pay_referrer, tell_channel,
  install_xray, reserve, deliver, Backend, persist_target, install, account_data, tell_admins,
  provision,
}
use masih_panel.Store.{Service, Target, Settings, Db, Order}
use masih_panel.Base.{true, false, refl, [], none, ◌∷◌, some, List, Option, ℕ}

install-Keeps : (b : Backend) (o : Order) (t : Target) → Keeps IsBooked (install b o t)
unfolding install install_xray install_account
install-Keeps b o t =
    Keeps-if _ _ _
      (Keeps-bind _ _ (Keeps-lift _) λ current. Keeps-bind _ _ (Keeps-gets _) λ live.
        Keeps-bind _ _ (Keeps-lift _) λ selected. Keeps-bind _ _ (Keeps-lift _) λ _.
          Keeps-bind _ _ (Keeps-lift _)
            λ attached. Keeps-bind _ _ (Keeps-raise_if _ _) λ _. Keeps-lift _)
      (Keeps-bind _ _ (Keeps-lift _) λ known. Keeps-lift _)

points-Keeps : (o : Order) (s : Settings) → Keeps IsBooked (purchase o s)
unfolding purchase award insert_points
points-Keeps o s = Keeps-if _ _ _ (Keeps-pure false) (
    Keeps-bind _ _ (Keeps-raise_if _ _) λ _. Keeps-bind _ _ (Keeps-gets _) λ known.
      Keeps-if _ _ _ (Keeps-pure false) (
        Keeps-bind _ _ (Keeps-gets _) λ taken.
          Keeps-if _ _ _ (Keeps-pure false)
            (Keeps-bind _ _ (aside-Keeps _ (λ d. refl) (λ d. refl)) λ _. Keeps-pure true)))

pay_commission-Keeps : (o : Order) (s : Settings) → Keeps IsBooked (pay_commission o s)
unfolding pay_commission pay_referrer
pay_commission-Keeps o s =
    Keeps-when _ _
      (Keeps-bind _ _ (Keeps-require _ _) λ u. Keeps-when _ _ (money-Keeps u.referrer _ _ _))

tell_admins-Keeps : (o : Order) (ns : List ℕ) → Keeps IsBooked (tell_admins o ns)
unfolding tell_admins
tell_admins-Keeps o [] = Keeps-pure tt
tell_admins-Keeps o (n ∷ ns) =
    Keeps-bind _ _ (enqueue-Keeps Books-quiet _ _ _ _ _) λ _. tell_admins-Keeps o ns

deliver-Keeps : (b : Backend) (o : Order) (t : Target) → Keeps IsBooked (deliver b o t)
unfolding deliver tell_channel
deliver-Keeps b o t = Keeps-bind _ _ (install-Keeps b o t) λ _.
    Keeps-bind _ _ (aside-Keeps _ (λ d. refl) (λ d. refl)) λ _. Keeps-bind _ _ (Keeps-gets _) λ s.
      Keeps-bind _ _ (points-Keeps (finish o) s) λ awarded.
        Keeps-bind _ _ (pay_commission-Keeps o s) λ _.
          Keeps-bind _ _ (enqueue-Keeps Books-quiet _ _ _ _ _) λ _.
            Keeps-bind _ _ (tell_admins-Keeps o s.admins)
              λ _. Keeps-when _ _ (enqueue-Keeps Books-quiet _ _ _ _ _)

account_data-Keeps : (o : Order) (old : Option Service) → Keeps IsBooked (account_data o old)
unfolding account_data
account_data-Keeps o none = Keeps-bind _ _ (draw-Keeps Books-quiet) λ a.
    Keeps-bind _ _ (draw-Keeps Books-quiet)
      λ b. Keeps-bind _ _ (draw-Keeps Books-quiet) λ c. Keeps-pure _
account_data-Keeps o (some v) = Keeps-pure _

persist_target-Keeps :
    (o : Order) (old : Option Service) (held : Target) (target : Option Target)
    → Keeps IsBooked (persist_target o old held target)
unfolding persist_target
persist_target-Keeps o old held (some t) = Keeps-pure t
persist_target-Keeps o old held none =
    Keeps-bind _ _ (Keeps-gets _)
      λ now. Keeps-bind _ _ (aside-Keeps _ (λ d. refl) (λ d. refl)) λ _. Keeps-pure _

reserve-Keeps : (o : Order) → Keeps IsBooked (reserve o)
unfolding reserve
reserve-Keeps o = Keeps-bind _ _ (Keeps-gets _) λ old.
    Keeps-bind _ _ (account_data-Keeps o old) λ held. persist_target-Keeps o old held o.target

committed-IsBooked :
    (b : Backend) (o : Order) (d : Db) (r : Result (Target × Db))
    → IsBooked d
    → IsBooked (settle d r)
    → IsBooked (deliver_committed b o d r)
committed-IsBooked b o d (ok (t, e)) h k = settle-Keeps (deliver b o t) e (deliver-Keeps b o t) k
committed-IsBooked b o d (err x) h k = h

-- Whatever the backends answer, and however far a delivery comes, it keeps the books of the shop: the
-- commission of a referrer is entered with its payment.
pub provision-IsBooked :
    (b : Backend) (o : Order) (d : Db) → IsBooked d → IsBooked (provision b o d)
unfolding provision
provision-IsBooked b o d h =
    committed-IsBooked b o d (reserve o d) h (settle-Keeps (reserve o) d (reserve-Keeps o) h)
