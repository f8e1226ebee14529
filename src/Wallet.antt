-- ===== src/Wallet.antt =====
-- `money` of runtime/sales.py: the one statement that changes a balance, and its ledger entry.
pub mod Books
pub mod Frame
pub mod Apart
pub mod Moves
use masih_panel.Base.{
  ℕ, ◌==◌, ◌&&◌, Bool, true, false, if◌then◌else◌, String, str_eq, List, Option, exists, count,
  update_where, insert_row,
}
use masih_panel.Base.Int.{ℤ, pos, ◌+ℤ◌, leb_ℤ}
use masih_panel.Tx.{Tx, insufficient_funds, pure, gets, ◌>>=◌, ◌>>◌, raise_if, modify}
use masih_panel.Store.{Db, User, LedgerEntry}

abbrev pub is_user : ℕ → User → Bool
is_user uid u = u.id == uid

-- `UPDATE users SET state=?`, the step of a dialogue that the user is at
abbrev pub set_state : ℕ → String → Db → Db
set_state uid s d = record d {
  users = update_where (is_user uid) (λ u. record u { state = s }) d.users;
}

abbrev pub has_reference : String → List LedgerEntry → Bool
has_reference ref = exists λ e. str_eq e.reference ref

-- `WHERE id=? AND balance+?>=0`
abbrev pub covers : ℕ → ℤ → User → Bool
covers uid amount u = u.id == uid && leb_ℤ (pos 0) (u.balance +ℤ amount)

abbrev pub add_balance : ℤ → User → User
add_balance amount u = record u { balance = u.balance +ℤ amount }

abbrev pub ledger_entry : ℕ → ℤ → String → String → ℕ → LedgerEntry
ledger_entry uid amount reason ref at = record {
  user_id = uid;
  amount = amount;
  reason = reason;
  reference = ref;
  created = at;
}

-- the update, its `rowcount`, and the entry
pub post : ℕ → ℤ → String → String → Tx Db (Unit {0})
post uid amount reason ref = do
  changed ← gets (λ d. count (covers uid amount) d.users)
  raise_if (changed == 0) insufficient_funds
  modify (λ d. record d {
    users = update_where (covers uid amount) (add_balance amount) d.users;
    ledger = insert_row (ledger_entry uid amount reason ref d.clock) d.ledger;
  })

-- `money(c, uid, amount, reason, ref)`
unfoldable pub money : ℕ → ℤ → String → String → Tx Db (Unit {0})
unfolding post
money uid amount reason ref = do
  known ← gets (λ d. has_reference ref d.ledger)
  if known then pure tt else post uid amount reason ref
