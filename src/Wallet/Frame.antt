-- ===== src/Wallet/Frame.antt =====
-- What leaves the books alone: every statement that touches neither a balance nor the ledger.
use masih_panel.Base.{◌≡◌, Bool, update_where}
use masih_panel.Tx.{modify}
use masih_panel.Tx.Keeps.{Keeps, Keeps-modify}
use masih_panel.Store.{Db, User}
use masih_panel.Queue.Frame.{IsQuiet}
use masih_panel.Wallet.Books.{IsBooked, update_where-Distinct, update_where-IsCovered}

pub Books-quiet : IsQuiet IsBooked
Books-quiet = record {
  outbox =
      λ d o b. record { wallets = b.wallets; accounts = b.accounts; references = b.references };
  nav = λ d n b. record { wallets = b.wallets; accounts = b.accounts; references = b.references };
  drawn = λ d n b. record { wallets = b.wallets; accounts = b.accounts; references = b.references };
  audit_log =
      λ d a b. record { wallets = b.wallets; accounts = b.accounts; references = b.references };
}

-- Two states with the same users and the same ledger have the same books.
pub IsBooked-aside : (d e : Db) → e.users ≡ d.users → e.ledger ≡ d.ledger → IsBooked d → IsBooked e
IsBooked-aside d e su sl b = record {
  wallets = rw (su, sl) b.wallets;
  accounts = rw su b.accounts;
  references = rw sl b.references;
}

pub aside-Keeps :
    (f : Db → Db)
    → ((d : Db) → (f d).users ≡ d.users)
    → ((d : Db) → (f d).ledger ≡ d.ledger)
    → Keeps IsBooked (modify f)
aside-Keeps f su sl = Keeps-modify f (λ d b. IsBooked-aside d (f d) (su d) (sl d) b)

-- An update of other columns of the users.
pub users-Keeps :
    (p : User → Bool) (f : User → User)
    → ((u : User) → (f u).id ≡ u.id)
    → ((u : User) → (f u).balance ≡ u.balance)
    → Keeps IsBooked (modify (λ d. record d { users = update_where p f d.users }))
users-Keeps p f same kept = Keeps-modify _ (λ d b. record {
  wallets = update_where-IsCovered p f same kept d.ledger d.users b.wallets;
  accounts = update_where-Distinct p f same d.users b.accounts;
  references = b.references;
})
