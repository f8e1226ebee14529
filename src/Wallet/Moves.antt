-- ===== src/Wallet/Moves.antt =====
-- What `money` does to the books of the shop.
use masih_panel.Tx.Keeps.{Keeps-settle, Keeps}
use masih_panel.Base.{
  none, true, if◌then◌else◌, some, eq_iff, select_one, Bool, not, Option, ℕ, ◌==◌, ◌≡◌, refl, false,
  String, List, [], ◌∷◌, exists, count, update_where, insert_row, All, arith, Bool-cases, ==_iff,
  subst, inl, inr,
}
use masih_panel.Base.Int.{◌+ℤ◌, pos, leb_ℤ, ℤ}
use masih_panel.Tx.{insufficient_funds, err, Result, ok, ◌>>=◌, settle}
use masih_panel.Store.{Db, User, LedgerEntry}
use masih_panel.Wallet.{is_user, covers, add_balance, has_reference, ledger_entry, post, money}
use masih_panel.Wallet.Books.{
  has_reference-insert_row, Distinct, IsCovered, IsBooked, credited-insert_row,
  insert_row-UniqueReferences, update_where-Distinct,
}

module _ (uid : ℕ) (amount : ℤ) where
  -- With an account's number absent, the update finds no row.
  count_absent :
      (us : List User) → exists (is_user uid) us ≡ false → count (covers uid amount) us ≡ 0
  count_absent [] absent = refl
  count_absent (u ∷ us) absent = ground (arith, count_absent us)

  updates_absent :
      (us : List User)
      → exists (is_user uid) us ≡ false
      → update_where (covers uid amount) (add_balance amount) us
        ≡ update_where (is_user uid) (add_balance amount) us
  updates_absent [] absent = refl
  updates_absent (u ∷ us) absent = ground (arith, updates_absent us)

module _ (uid : ℕ) (amount : ℤ) (reason ref : String) (at : ℕ) where
  abbrev entry : LedgerEntry
  entry = ledger_entry uid amount reason ref at

  -- An entry for one account leaves the wallets of the others as they are.
  others-IsCovered :
      (es : List LedgerEntry) (us : List User)
      → exists (is_user uid) us ≡ false
      → All (IsCovered es) us
      → All
          (IsCovered (insert_row entry es))
          (update_where (covers uid amount) (add_balance amount) us)
  others-IsCovered es [] absent h = tt
  others-IsCovered es (u ∷ us) absent h =
      ground (arith, credited-insert_row u.id entry es, others-IsCovered es us)

  paid-IsCovered :
      (es : List LedgerEntry) (us : List User)
      → (count (covers uid amount) us == 0) ≡ false
      → Distinct us
      → All (IsCovered es) us
      → All
          (IsCovered (insert_row entry es))
          (update_where (covers uid amount) (add_balance amount) us)
  paid-IsCovered es [] some_row dis h = tt
  paid-IsCovered es (u ∷ us) some_row dis h = elim (Bool-cases (u.id == uid)) [
    | inl own ↦
        let absent : exists (is_user uid) us ≡ false =
          subst (λ n. exists (is_user n) us ≡ false) ((==_iff u.id uid).0 own) dis.0 in
        ground (
          arith,
          absent,
          count_absent uid amount us absent,
          credited-insert_row u.id entry es,
          others-IsCovered es us absent h.1,
        )
    | inr other ↦ ground (arith, credited-insert_row u.id entry es, paid-IsCovered es us)
  ]

post-IsBooked :
    (uid : ℕ) (amount : ℤ) (reason ref : String) (d : Db)
    → IsBooked d
    → has_reference ref d.ledger ≡ false
    → IsBooked (settle d (post uid amount reason ref d))
unfolding post ◌>>=◌
post-IsBooked uid amount reason ref d b new =
    elim (Bool-cases (count (covers uid amount) d.users == 0)) [
      | inl nobody ↦ rw nobody b
      | inr somebody ↦ rw somebody (record {
        wallets =
            paid-IsCovered uid amount reason ref d.clock d.ledger d.users somebody b.accounts
              b.wallets;
        accounts =
            update_where-Distinct (covers uid amount) (add_balance amount) (λ u. refl) d.users
              b.accounts;
        references =
            insert_row-UniqueReferences (ledger_entry uid amount reason ref d.clock) d.ledger new
              b.references;
      })
    ]

-- A transaction of `money` keeps the books, whether it commits or is rolled back: every wallet holds
-- the sum of its ledger entries, none is overdrawn, and no reference is entered twice.
pub money-IsBooked :
    (uid : ℕ) (amount : ℤ) (reason ref : String) (d : Db)
    → IsBooked d
    → IsBooked (settle d (money uid amount reason ref d))
unfolding money ◌>>=◌
money-IsBooked uid amount reason ref d b = elim (Bool-cases (has_reference ref d.ledger)) [
  | inl old ↦ rw old b
  | inr new ↦ rw new (post-IsBooked uid amount reason ref d b new)
]

pub money-Keeps :
    (uid : ℕ) (amount : ℤ) (reason ref : String) → Keeps IsBooked (money uid amount reason ref)
money-Keeps uid amount reason ref = Keeps-settle _ (money-IsBooked uid amount reason ref)

-- Once a movement is entered, every later one under its reference is accepted and changes nothing,
-- whatever its account and its amount.
pub money_once :
    (uid uid' : ℕ) (amount amount' : ℤ) (reason reason' ref : String) (d d' : Db)
    → money uid amount reason ref d ≡ ok (tt, d')
    → money uid' amount' reason' ref d' ≡ ok (tt, d')
unfolding money post ◌>>=◌
money_once uid uid' amount amount' reason reason' ref d d' h = ground (
  arith,
  has_reference-insert_row ref (ledger_entry uid amount reason ref d.clock) d.ledger,
  eq_iff ref ref,
)

module _ (uid : ℕ) (amount : ℤ) where
  abbrev payable : Option User → Bool
  payable none = false
  payable (some u) = leb_ℤ (pos 0) (u.balance +ℤ amount)

  count-payable :
      (us : List User)
      → Distinct us
      → (count (covers uid amount) us == 0) ≡ not (payable (select_one (is_user uid) us))
  count-payable [] dis = refl
  count-payable (u ∷ us) dis = elim (Bool-cases (u.id == uid)) [
    | inl own ↦ ground (
      arith,
      count_absent uid amount us
          (subst (λ n. exists (is_user n) us ≡ false) ((==_iff u.id uid).0 own) dis.0),
    )
    | inr other ↦ ground (arith, count-payable us dis.1)
  ]

  -- where the update finds its account, it changes that account alone
  update-payable :
      (us : List User) (u : User)
      → Distinct us
      → select_one (is_user uid) us ≡ some u
      → leb_ℤ (pos 0) (u.balance +ℤ amount) ≡ true
      → update_where (covers uid amount) (add_balance amount) us
        ≡ update_where (is_user uid) (add_balance amount) us
  update-payable [] u dis found enough = refl
  update-payable (x ∷ us) u dis found enough = elim (Bool-cases (x.id == uid)) [
    | inl own ↦
        let absent : exists (is_user uid) us ≡ false =
          subst (λ n. exists (is_user n) us ≡ false) ((==_iff x.id uid).0 own) dis.0 in
        ground (arith, updates_absent uid amount us absent)
    | inr other ↦ ground (arith, update-payable us u dis.1)
  ]

abbrev pub posted : ℕ → ℤ → String → String → Db → Db
posted uid amount reason ref d = record d {
  users = update_where (is_user uid) (add_balance amount) d.users;
  ledger = insert_row (ledger_entry uid amount reason ref d.clock) d.ledger;
}

-- what a new movement should do to the account that `fetchone()` finds
abbrev pub movement : ℕ → ℤ → String → String → Db → Option User → Result (Unit {0} × Db)
movement uid amount reason ref d none = err insufficient_funds
movement uid amount reason ref d (some u) =
    if leb_ℤ (pos 0) (u.balance +ℤ amount)
    then ok (tt, posted uid amount reason ref d)
    else err insufficient_funds

movement-post :
    (uid : ℕ) (amount : ℤ) (reason ref : String) (d : Db) (o : Option User)
    → Distinct d.users
    → select_one (is_user uid) d.users ≡ o
    → post uid amount reason ref d ≡ movement uid amount reason ref d o
unfolding post ◌>>=◌
movement-post uid amount reason ref d none dis e = rw (count-payable uid amount d.users dis, e)
movement-post uid amount reason ref d (some u) dis e =
    elim (Bool-cases (leb_ℤ (pos 0) (u.balance +ℤ amount))) [
      | inl enough ↦ rw (
        count-payable uid amount d.users dis,
        e,
        enough,
        update-payable uid amount d.users u dis e enough,
      )
      | inr short ↦ rw (count-payable uid amount d.users dis, e, short)
    ]

-- With distinct accounts, a movement under a new reference looks up its one account, refuses an
-- unknown account and a balance that would fall below zero, and else changes that balance by the
-- amount and enters it; a movement under a known reference changes nothing.
pub money_lem :
    (uid : ℕ) (amount : ℤ) (reason ref : String) (d : Db)
    → Distinct d.users
    → money uid amount reason ref d ≡ (
        if has_reference ref d.ledger
        then ok (tt, d)
        else movement uid amount reason ref d (select_one (is_user uid) d.users))
unfolding money ◌>>=◌
money_lem uid amount reason ref d dis = elim (Bool-cases (has_reference ref d.ledger)) [
  | inl old ↦ rw old
  | inr new ↦ rw new (movement-post uid amount reason ref d _ dis refl)
]
