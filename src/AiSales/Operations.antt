-- ===== src/AiSales/Operations.antt =====
-- What buyers and managers do to the orders of AI, one transaction at a time.
pub mod Lifetime
use masih_panel.AiSales.Delivery.{Manager, Decision, admin_decide, pay_wallet}
use masih_panel.AiSales.Orders.{choose, set_email, store_receipt, confirm, cancel}
use masih_panel.Shop.Labels.{Unicode}
use masih_panel.Tx.{Tx, pure, settle, ◌>>◌, ◌>>=◌}
use masih_panel.Store.{Db, Attachment}
use masih_panel.Base.{ℕ, String, List, [], ◌∷◌, Option}

pub data Operation : Type 0 where
  chooses : (uid pid : ℕ) → Operation
  gives_email : (uid : ℕ) (oid email : String) → Operation
  sends_receipt : (uid : ℕ) (oid : String) (file : Option Attachment) → Operation
  confirms pays cancels : (uid : ℕ) (oid : String) → Operation
  decides : (who : Manager) (oid : String) (decision : Decision) → Operation

unfoldable pub perform : Unicode → Operation → Tx Db (Unit {0})
unfolding choose set_email store_receipt confirm pay_wallet cancel admin_decide
perform txt (chooses uid pid) = choose uid pid >> pure tt
perform txt (gives_email uid oid email) = set_email txt uid oid email
perform txt (sends_receipt uid oid file) = store_receipt uid oid file
perform txt (confirms uid oid) = confirm uid oid
perform txt (pays uid oid) = pay_wallet uid oid
perform txt (cancels uid oid) = cancel uid oid
perform txt (decides who oid decision) = admin_decide txt who oid decision

-- one after another, each in a transaction of its own
unfoldable pub run_all : Unicode → List Operation → Db → Db
unfolding perform
run_all txt [] d = d
run_all txt (op ∷ ops) d = run_all txt ops (settle d (perform txt op d))
