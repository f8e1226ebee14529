-- ===== src/Wallet/Books.antt =====
-- The books of the shop: what each wallet holds is what the ledger says.
use masih_panel.Base.{
  ℕ, ◌==◌, ◌≡◌, refl, Bool, true, false, if◌then◌else◌, String, str_eq, eq_iff, List, [], ◌∷◌,
  exists, update_where, insert_row, All, arith,
}
use masih_panel.Base.Int.{ℤ, pos, ◌+ℤ◌, ◌≤ℤ◌, int_laws}
use masih_panel.Store.{Db, User, LedgerEntry}
use masih_panel.Wallet.{is_user, has_reference}

-- the sum of a user's entries
unfoldable pub credited : ℕ → List LedgerEntry → ℤ
credited uid [] = pos 0
credited uid (e ∷ es) = if e.user_id == uid then e.amount +ℤ credited uid es else credited uid es

-- No two accounts have one number, as the table's primary key demands.
abbrev pub Distinct : List User → Type 0
Distinct [] = Unit
Distinct (u ∷ us) = (exists (is_user u.id) us ≡ false) × Distinct us

-- No two entries have one reference, as the column's constraint demands.
abbrev pub UniqueReferences : List LedgerEntry → Type 0
UniqueReferences [] = Unit
UniqueReferences (e ∷ es) = (has_reference e.reference es ≡ false) × UniqueReferences es

-- A wallet holds the sum of the user's entries, and is not overdrawn.
pub record IsCovered (es : List LedgerEntry) (u : User) : Type 0 where
  pub settled : u.balance ≡ credited u.id es
  pub nonneg : pos 0 ≤ℤ u.balance

pub record IsBooked (d : Db) : Type 0 where
  pub wallets : All (IsCovered d.ledger) d.users
  pub accounts : Distinct d.users
  pub references : UniqueReferences d.ledger

pub credited-insert_row :
    (uid : ℕ) (e : LedgerEntry) (es : List LedgerEntry)
    → credited uid (insert_row e es)
      ≡ (if e.user_id == uid then credited uid es +ℤ e.amount else credited uid es)
unfolding credited
credited-insert_row uid e [] = grind int_laws
credited-insert_row uid e (x ∷ es) = grind (int_laws, credited-insert_row uid e es)

pub has_reference-insert_row :
    (ref : String) (e : LedgerEntry) (es : List LedgerEntry)
    → has_reference ref (insert_row e es)
      ≡ (if has_reference ref es then true else str_eq e.reference ref)
has_reference-insert_row ref e [] = ground arith
has_reference-insert_row ref e (x ∷ es) = ground (arith, has_reference-insert_row ref e es)

pub insert_row-UniqueReferences :
    (e : LedgerEntry) (es : List LedgerEntry)
    → has_reference e.reference es ≡ false
    → UniqueReferences es
    → UniqueReferences (insert_row e es)
insert_row-UniqueReferences e [] new h = (refl, tt)
insert_row-UniqueReferences e (x ∷ es) new h = ground (
  arith,
  has_reference-insert_row x.reference e es,
  eq_iff x.reference e.reference,
  eq_iff e.reference x.reference,
  insert_row-UniqueReferences e es,
)

-- An update that keeps the numbers keeps them distinct.
module _ (p : User → Bool) (f : User → User) (same : (u : User) → (f u).id ≡ u.id) where
  pub exists-update_where :
      (n : ℕ) (us : List User) → exists (is_user n) (update_where p f us) ≡ exists (is_user n) us
  exists-update_where n [] = refl
  exists-update_where n (u ∷ us) = ground (arith, exists-update_where n us, same u)

  pub update_where-Distinct : (us : List User) → Distinct us → Distinct (update_where p f us)
  update_where-Distinct [] h = tt
  update_where-Distinct (u ∷ us) h =
      ground (arith, update_where-Distinct us h.1, exists-update_where u.id us, same u)

  -- An update that leaves the balances alone too keeps the wallets covered.
  pub update_where-IsCovered :
      ((u : User) → (f u).balance ≡ u.balance)
      → (es : List LedgerEntry) (us : List User) → All (IsCovered es) us
      → All (IsCovered es) (update_where p f us)
  update_where-IsCovered kept es [] h = tt
  update_where-IsCovered kept es (u ∷ us) h =
      ground (arith, update_where-IsCovered kept es us h.1, kept u, same u)
