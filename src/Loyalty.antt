-- ===== src/Loyalty.antt =====
-- runtime/gamification.py: loyalty points as an append-only ledger, whose unique references make an
-- award or a debit happen once.
pub mod Points
use masih_panel.Base.{
  ℕ, ◌*◌, ◌/◌, ◌==◌, ltb, leb, ◌&&◌, ◌||◌, Bool, true, false, not, if◌then◌else◌, String, str_eq,
  ◌<>◌, List, [], ◌∷◌, Option, none, some, exists, select_one, insert_row,
}
use masih_panel.Base.Int.{ℤ, pos, neg, ◌+ℤ◌, leb_ℤ, ltb_ℤ}
use masih_panel.Base.Text.{str}
use masih_panel.Tx.{
  Tx, bad_points, no_user, not_enough_points, integrity, pure, gets, ◌>>=◌, ◌>>◌, raise_if, modify,
}
use masih_panel.Store.{Db, Settings, User, PointsEntry, Order, OrderStatus}
use masih_panel.Wallet.{is_user}

-- `SELECT COALESCE(SUM(points),0) … WHERE user_id=?`
pub points_of : ℕ → List PointsEntry → ℤ
points_of uid [] = pos 0
points_of uid (e ∷ es) = if e.user_id == uid then e.points +ℤ points_of uid es else points_of uid es

unfoldable pub balance : ℕ → Db → ℤ
unfolding points_of
balance uid d = points_of uid d.loyalty_points

abbrev pub has_points_reference : String → List PointsEntry → Bool
has_points_reference ref = exists λ e. str_eq e.reference ref

abbrev pub points_entry : ℕ → ℤ → String → String → ℕ → PointsEntry
points_entry uid points kind ref at = record {
  user_id = uid;
  points = points;
  kind = kind;
  reference = ref;
  created = at;
}

abbrev pub with_points : ℕ → ℤ → String → String → Db → Db
with_points uid points kind ref d = record d {
  loyalty_points = insert_row (points_entry uid points kind ref d.clock) d.loyalty_points;
}

-- `INSERT OR IGNORE`, and whether a row was added
unfoldable pub insert_points : ℕ → ℤ → String → String → Tx Db Bool
insert_points uid points kind ref = do
  taken ← gets (λ d. has_points_reference ref d.loyalty_points)
  if taken then pure false else (modify (with_points uid points kind ref) >> pure true)

-- `award(c, uid, points, kind, reference, now)`
unfoldable pub award : ℕ → ℤ → String → String → Tx Db Bool
unfolding insert_points
award uid points kind ref = do
  raise_if (not (leb_ℤ (pos 0) points && leb_ℤ points (pos 1000000000))) bad_points
  known ← gets (λ d. exists (is_user uid) d.users)
  if leb_ℤ points (pos 0) || not known then pure false else insert_points uid points kind ref

abbrev is_fulfilled : OrderStatus → Bool
is_fulfilled OrderStatus.fulfilled = true
is_fulfilled _ = false

-- whole units of the price only
pub purchase_points : Settings → ℕ → ℕ
purchase_points s price = price / s.points_per_toman * s.points_per_purchase_unit

-- `purchase(c, order, settings, now)`
unfoldable pub purchase : Order → Settings → Tx Db Bool
unfolding purchase_points
purchase o s =
    if not (is_fulfilled o.status)
      || o.trial
      || o.price == 0
      || s.points_per_toman == 0
      || s.points_per_purchase_unit == 0
    then pure false
    else award o.user_id (pos (purchase_points s o.price)) "purchase" ("purchase:" <> o.id)

award_inviter : ℕ → Settings → Option User → Tx Db Bool
award_inviter new_user s none = pure false
award_inviter new_user s (some u) =
    if u.referrer == 0 || u.referrer == new_user || s.points_per_referral == 0
    then pure false
    else award u.referrer (pos s.points_per_referral) "referral" ("referral:" <> str new_user)

-- `referral(c, new_user_id, settings, now)`
pub referral : ℕ → Settings → Tx Db Bool
unfolding award_inviter
referral new_user s = do
  record_found ← gets (λ d. select_one (is_user new_user) d.users)
  award_inviter new_user s record_found

-- `_debit(c, uid, points, reference, now)`: a plain insert, which the unique reference may refuse
pub debit : ℕ → ℕ → String → Tx Db Bool
debit uid points ref = do
  taken ← gets (λ d. has_points_reference ref d.loyalty_points)
  raise_if taken integrity
  modify (with_points uid (neg points) "ai" ref)
  pure true

-- the part of `redeem` behind its checks of the amount and the user
redeem_new : ℕ → ℕ → String → Tx Db Bool
unfolding debit balance
redeem_new uid points ref = do
  held ← gets (balance uid)
  raise_if (ltb_ℤ held (pos points)) not_enough_points
  debit uid points ref

-- `redeem(c, uid, points, reference, now)`
unfoldable pub redeem : ℕ → ℕ → String → Tx Db Bool
unfolding redeem_new
redeem uid points ref = do
  raise_if (points == 0) bad_points
  known ← gets (λ d. exists (is_user uid) d.users)
  raise_if (not known) no_user
  spent ← gets (λ d. has_points_reference ref d.loyalty_points)
  if spent then pure false else redeem_new uid points ref
