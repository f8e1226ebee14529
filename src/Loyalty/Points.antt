-- ===== src/Loyalty/Points.antt =====
-- Points are never overdrawn, and each reference counts once.
use masih_panel.Tx.{ok, settle, ◌>>=◌}
use masih_panel.Tx.Keeps.{Keeps-pure, Keeps-if, Keeps-settle, Keeps}
use masih_panel.Store.{Settings, Order, PointsEntry, Db}
use masih_panel.Base.{
  eq_iff, ◌<>◌, Bool, false, inr, subst, ==_iff, inl, str_eq, ◌==◌, true, Bool-cases, if◌then◌else◌,
  insert_row, String, ℕ, ◌≡◌, List, [], ◌∷◌, arith,
}
use masih_panel.Base.Int.{+ℤ_neg, neg, +ℤ_nonneg, ℤ, pos, ◌+ℤ◌, ◌≤ℤ◌, int_laws}
use masih_panel.Loyalty.{
  purchase_points, points_entry, purchase, award, redeem, with_points, has_points_reference,
  points_of, balance,
}

-- No user has fewer than no points.
abbrev pub IsSolvent : Db → Type 0
IsSolvent d = (uid : ℕ) → pos 0 ≤ℤ balance uid d

pub points_of-insert_row :
    (uid : ℕ) (e : PointsEntry) (es : List PointsEntry)
    → points_of uid (insert_row e es)
      ≡ (if e.user_id == uid then points_of uid es +ℤ e.points else points_of uid es)
unfolding points_of
points_of-insert_row uid e [] = grind int_laws
points_of-insert_row uid e (x ∷ es) = grind (int_laws, points_of-insert_row uid e es)

pub has_points_reference-insert_row :
    (ref : String) (e : PointsEntry) (es : List PointsEntry)
    → has_points_reference ref (insert_row e es)
      ≡ (if has_points_reference ref es then true else str_eq e.reference ref)
has_points_reference-insert_row ref e [] = ground arith
has_points_reference-insert_row ref e (x ∷ es) =
    ground (arith, has_points_reference-insert_row ref e es)

-- An entry moves the balance of its user by its points, and no other balance.
pub balance-with_points :
    (uid n : ℕ) (points : ℤ) (kind ref : String) (d : Db)
    → balance n (with_points uid points kind ref d)
      ≡ (if uid == n then balance n d +ℤ points else balance n d)
unfolding balance
balance-with_points uid n points kind ref d = points_of-insert_row n _ d.loyalty_points

pub with_points-IsSolvent :
    (uid : ℕ) (points : ℤ) (kind ref : String) (d : Db)
    → IsSolvent d
    → pos 0 ≤ℤ balance uid d +ℤ points
    → IsSolvent (with_points uid points kind ref d)
with_points-IsSolvent uid points kind ref d solvent enough n = elim (Bool-cases (uid == n)) [
  | inl own ↦
      let e : uid ≡ n = (==_iff uid n).0 own in
      rw (balance-with_points uid n points kind ref d, own)
        (subst (λ m. pos 0 ≤ℤ balance m d +ℤ points) e enough)
  | inr other ↦ rw (balance-with_points uid n points kind ref d, other) (solvent n)
]

award_keeps :
    (uid : ℕ) (points : ℤ) (kind ref : String) (d : Db)
    → IsSolvent d
    → IsSolvent (settle d (award uid points kind ref d))
unfolding award ◌>>=◌
award_keeps uid points kind ref d solvent = ground (
  arith,
  with_points-IsSolvent uid points kind ref d solvent,
  +ℤ_nonneg (balance uid d) points (solvent uid),
  solvent uid,
)

-- An award is positive and goes to a known user, so it overdraws nobody.
pub award-IsSolvent :
    (uid : ℕ) (points : ℤ) (kind ref : String) → Keeps IsSolvent (award uid points kind ref)
award-IsSolvent uid points kind ref = Keeps-settle _ (award_keeps uid points kind ref)

pub purchase-IsSolvent : (o : Order) (s : Settings) → Keeps IsSolvent (purchase o s)
unfolding purchase
purchase-IsSolvent o s = Keeps-if _ _ _ (Keeps-pure false) (award-IsSolvent _ _ _ _)

-- A debit under a check of the balance overdraws nobody: where every balance of points is at zero or
-- above, a redemption, committed or rolled back, leaves every balance there.
pub redeem-IsSolvent :
    (uid points : ℕ) (ref : String) (d : Db)
    → IsSolvent d
    → IsSolvent (settle d (redeem uid points ref d))
unfolding redeem ◌>>=◌
redeem-IsSolvent uid points ref d solvent = ground (
  arith,
  with_points-IsSolvent uid (neg points) "ai" ref d solvent,
  +ℤ_neg (balance uid d) points,
)

-- A redemption that reports success was covered; it lowers the balance of its user by exactly its
-- points, and leaves every other balance alone.
pub redeem_charges :
    (uid points : ℕ) (ref : String) (d d' : Db) (n : ℕ)
    → redeem uid points ref d ≡ ok (true, d')
    → (pos points ≤ℤ balance uid d)
      × (balance n d' ≡ (if uid == n then balance n d +ℤ neg points else balance n d))
unfolding redeem ◌>>=◌
redeem_charges uid points ref d d' n h =
    ground (arith, balance-with_points uid n (neg points) "ai" ref d)

-- A redemption happens once: after one that went through, a second under its reference takes nothing.
pub redeem_once :
    (uid points : ℕ) (ref : String) (d d' : Db)
    → redeem uid points ref d ≡ ok (true, d')
    → redeem uid points ref d' ≡ ok (false, d')
unfolding redeem ◌>>=◌
redeem_once uid points ref d d' h = ground (
  arith,
  has_points_reference-insert_row ref (points_entry uid (neg points) "ai" ref d.clock)
      d.loyalty_points,
  eq_iff ref ref,
)

-- The reward of an order is given once: repeating it, with no other change, adds nothing.
pub purchase_once :
    (o : Order) (s : Settings) (d d' : Db) {b : Bool}
    → purchase o s d ≡ ok (b, d')
    → purchase o s d' ≡ ok (false, d')
unfolding purchase award ◌>>=◌
purchase_once o s d d' h = ground (
  arith,
  has_points_reference-insert_row ("purchase:" <> o.id)
      (points_entry o.user_id (pos (purchase_points s o.price)) "purchase" ("purchase:" <> o.id)
        d.clock)
      d.loyalty_points,
  eq_iff ("purchase:" <> o.id) ("purchase:" <> o.id),
)
