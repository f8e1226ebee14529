-- ===== src/Social/Accounts/Funds.antt =====
-- The money and the points behind an adjustment.
use masih_panel.Base.Int.{ℤ, pos, ◌+ℤ◌, ◌≤ℤ◌, ltb_ℤ}
use masih_panel.Loyalty.{balance, with_points}
use masih_panel.Loyalty.Points.{IsSolvent, with_points-IsSolvent}
use masih_panel.Queue.Frame.{IsQuiet, enqueue-Keeps, audit-Keeps}
use masih_panel.Shop.Labels.{Unicode}
use masih_panel.Social.Accounts.{
  Adjustment, by_code, adjust_info, answer_again, move_balance, adjust_new, again_or_new,
  adjust_account, on_points, signed, adjust_key,
}
use masih_panel.Wallet.Apart.{money-apart}
use masih_panel.Wallet.Books.{IsBooked}
use masih_panel.Wallet.Frame.{Books-quiet, aside-Keeps}
use masih_panel.Wallet.Moves.{money-Keeps}
use masih_panel.Tx.Keeps.{
  Keeps-modify, Keeps, Keeps-pure, Keeps-gets, Keeps-require, Keeps-raise_if, Keeps-if, Keeps-bind,
  settle-Keeps,
}
use masih_panel.Tx.Yields.{
  Yields-kept, bind-Yields, raise_if-Yields, facts-Yields, Yields, Yields-pure, Yields-modify,
  Yields-if, keeps-Yields, gets-Yields,
}
use masih_panel.Tx.{settle}
use masih_panel.Store.{Db, AdminOperation, Adjusted}
use masih_panel.Base.{
  arith, ℕ, String, Bool, true, false, Option, none, some, ◌≡◌, refl, sym, ap, subst,
}

module _ {P : Db → Type 0} where
  info-Keeps : (uid : ℕ) (points : Bool) → Keeps P (adjust_info uid points)
  unfolding adjust_info
  info-Keeps uid points =
      Keeps-bind _ _ (Keeps-require _ _) λ u. Keeps-bind _ _ (Keeps-gets _) λ held. Keeps-pure _

  by_code-Keeps : (public_code : String) → Keeps P (by_code public_code)
  unfolding by_code
  by_code-Keeps public_code =
      Keeps-bind _ _ (Keeps-raise_if _ _) λ _. Keeps-bind _ _ (Keeps-require _ _) λ p. Keeps-pure _

  answer-Keeps : (uid : ℕ) (a : Adjustment) (r : Adjusted) → Keeps P (answer_again uid a r)
  unfolding answer_again
  answer-Keeps uid a r = Keeps-bind _ _ (Keeps-raise_if _ _) λ _. Keeps-pure _

move-IsBooked :
    (uid : ℕ) (op : AdminOperation) (n : ℕ) (request : String)
    → Keeps IsBooked (move_balance uid op n request)
unfolding move_balance
move-IsBooked uid op n request =
    Keeps-if _ _ _
      (Keeps-bind _ _ (Keeps-gets _)
        λ taken. Keeps-bind _ _ (Keeps-raise_if _ _) λ _. aside-Keeps _ (λ d. refl) (λ d. refl))
      (money-Keeps uid _ _ _)

new-IsBooked : (uid : ℕ) (a : Adjustment) (note : String) → Keeps IsBooked (adjust_new uid a note)
unfolding adjust_new
new-IsBooked uid a note = Keeps-bind _ _ (info-Keeps uid _) λ before.
    Keeps-bind _ _ (Keeps-raise_if _ _) λ _. Keeps-bind _ _ (move-IsBooked uid _ _ _) λ _.
      Keeps-bind _ _ (info-Keeps uid _) λ actual. Keeps-bind _ _ (Keeps-raise_if _ _) λ _.
        Keeps-bind _ _ (aside-Keeps _ (λ d. refl) (λ d. refl)) λ _.
          Keeps-bind _ _ (enqueue-Keeps Books-quiet _ _ _ _ _)
            λ _. Keeps-bind _ _ (audit-Keeps Books-quiet _ _) λ _. Keeps-pure _

chosen-IsBooked :
    (uid : ℕ) (a : Adjustment) (note : String) (o : Option Adjusted)
    → Keeps IsBooked (again_or_new uid a note o)
chosen-IsBooked uid a note none = new-IsBooked uid a note
chosen-IsBooked uid a note (some r) = answer-Keeps uid a r

account-IsBooked : (txt : Unicode) (a : Adjustment) → Keeps IsBooked (adjust_account txt a)
unfolding adjust_account
account-IsBooked txt a = Keeps-bind _ _ (by_code-Keeps _) λ uid.
    Keeps-bind _ _ (Keeps-raise_if _ _) λ _. Keeps-bind _ _ (Keeps-raise_if _ _) λ _.
      Keeps-bind _ _ (Keeps-raise_if _ _) λ _.
        Keeps-bind _ _ (Keeps-raise_if _ _)
          λ _. Keeps-bind _ _ (Keeps-gets _) λ previous. chosen-IsBooked uid a _ previous

-- An adjustment of an account by a manager, committed or rolled back, keeps the books of the shop.
pub adjust_account-IsBooked :
    (txt : Unicode) (a : Adjustment) (d : Db)
    → IsBooked d
    → IsBooked (settle d (adjust_account txt a d))
adjust_account-IsBooked txt a d = settle-Keeps (adjust_account txt a) d (account-IsBooked txt a)

Points-quiet : IsQuiet IsSolvent
unfolding balance
Points-quiet = record {
  outbox = λ d o h. h;
  nav = λ d o h. h;
  drawn = λ d o h. h;
  audit_log = λ d o h. h;
}

not_below_zero : (x : ℤ) → ltb_ℤ x (pos 0) ≡ false → pos 0 ≤ℤ x
not_below_zero x h = ground (arith, h)

module _ (d : Db) (solvent : IsSolvent d) where
  info_yields :
      (uid : ℕ) (points : Bool)
      → Yields
          (λ e. e ≡ d)
          (adjust_info uid points)
          (λ v e. (points ≡ true → v ≡ balance uid d) × (e ≡ d))
  unfolding adjust_info
  info_yields uid points = keeps-Yields _ _ (Keeps-require _ _) λ u.
      gets-Yields _ (balance uid d) _ (λ e h. ap (balance uid) h)
        λ held seen. Yields-pure _ (λ e h. ((λ on. rw on seen), h))

  move_yields :
      (uid : ℕ) (op : AdminOperation) (n : ℕ) (request : String)
      → (on_points op ≡ true → pos 0 ≤ℤ balance uid d +ℤ signed op n)
      → Yields (λ e. e ≡ d) (move_balance uid op n request) (λ _ e. IsSolvent e)
  unfolding move_balance balance
  move_yields uid op n request enough =
      Yields-if _ _ _
        (λ on. keeps-Yields _ _ (Keeps-gets _) λ taken. keeps-Yields _ _ (Keeps-raise_if _ _) λ _.
          Yields-modify _ λ e h.
            subst
              (λ x. IsSolvent (with_points uid (signed op n) "social_admin" (adjust_key request) x))
              (sym h)
              (with_points-IsSolvent uid (signed op n) "social_admin" (adjust_key request) d solvent
                (enough on)))
        (λ off. record {
          at = λ e h.
              (money-apart IsSolvent (λ x us es k. k) uid _ _ _).at e
                (subst IsSolvent (sym h) solvent);
        })

  new_yields :
      (uid : ℕ) (a : Adjustment) (note : String)
      → Yields (λ e. e ≡ d) (adjust_new uid a note) (λ _ e. IsSolvent e)
  unfolding adjust_new balance
  new_yields uid a note = facts-Yields _ _ (info_yields uid (on_points a.operation)) λ before known.
      raise_if-Yields _ _ _ λ enough.
        bind-Yields {R = λ _ e. IsSolvent e} _ _
          (move_yields uid a.operation a.amount a.request_id (λ on.
            subst (λ v. pos 0 ≤ℤ v +ℤ signed a.operation a.amount) (known on)
              (not_below_zero (before +ℤ signed a.operation a.amount) enough)))
          λ _. Yields-kept _ (
            Keeps-bind _ _ (info-Keeps uid _) λ actual. Keeps-bind _ _ (Keeps-raise_if _ _) λ _.
              Keeps-bind _ _ (Keeps-modify _ (λ e h. h)) λ _.
                Keeps-bind _ _ (enqueue-Keeps Points-quiet _ _ _ _ _)
                  λ _. Keeps-bind _ _ (audit-Keeps Points-quiet _ _) λ _. Keeps-pure _)

new-IsSolvent : (uid : ℕ) (a : Adjustment) (note : String) → Keeps IsSolvent (adjust_new uid a note)
new-IsSolvent uid a note = record { at = λ d solvent. (new_yields d solvent uid a note).at d refl }

chosen-IsSolvent :
    (uid : ℕ) (a : Adjustment) (note : String) (o : Option Adjusted)
    → Keeps IsSolvent (again_or_new uid a note o)
chosen-IsSolvent uid a note none = new-IsSolvent uid a note
chosen-IsSolvent uid a note (some r) = answer-Keeps uid a r

account-IsSolvent : (txt : Unicode) (a : Adjustment) → Keeps IsSolvent (adjust_account txt a)
unfolding adjust_account
account-IsSolvent txt a = Keeps-bind _ _ (by_code-Keeps _) λ uid.
    Keeps-bind _ _ (Keeps-raise_if _ _) λ _. Keeps-bind _ _ (Keeps-raise_if _ _) λ _.
      Keeps-bind _ _ (Keeps-raise_if _ _) λ _.
        Keeps-bind _ _ (Keeps-raise_if _ _)
          λ _. Keeps-bind _ _ (Keeps-gets _) λ previous. chosen-IsSolvent uid a _ previous

-- An adjustment of an account by a manager, committed or rolled back, leaves no user with fewer than
-- no points, if none had fewer before it.
pub adjust_account-IsSolvent :
    (txt : Unicode) (a : Adjustment) (d : Db)
    → IsSolvent d
    → IsSolvent (settle d (adjust_account txt a d))
adjust_account-IsSolvent txt a d = settle-Keeps (adjust_account txt a) d (account-IsSolvent txt a)
