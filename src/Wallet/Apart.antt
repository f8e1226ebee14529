-- ===== src/Wallet/Apart.antt =====
-- A property that looks neither at the users nor at the ledger survives every payment.
use masih_panel.Tx.Keeps.{
  Keeps-modify, Keeps-raise_if, Keeps-pure, Keeps-if, Keeps-gets, Keeps-bind, Keeps,
}
use masih_panel.Base.Int.{ℤ}
use masih_panel.Base.{String, ℕ, List}
use masih_panel.Store.{LedgerEntry, User, Db}
use masih_panel.Wallet.{post, money}

pub money-apart :
    (P : Db → Type 0)
    → ((d : Db) (us : List User) (es : List LedgerEntry)
        → P d
        → P (record d { users = us; ledger = es }))
    → (uid : ℕ) (amount : ℤ) (reason ref : String) → Keeps P (money uid amount reason ref)
unfolding money post
money-apart P frame uid amount reason ref = Keeps-bind _ _ (Keeps-gets _) λ known.
    Keeps-if _ _ _ (Keeps-pure _) (
      Keeps-bind _ _ (Keeps-gets _)
        λ changed. Keeps-bind _ _ (Keeps-raise_if _ _) λ _. Keeps-modify _ (λ d h. frame d _ _ h))
