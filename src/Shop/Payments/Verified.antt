-- ===== src/Shop/Payments/Verified.antt =====
-- A payment is credited once, with what the gateway has confirmed.
use masih_panel.Wallet.Frame.{Books-quiet, aside-Keeps}
use masih_panel.Wallet.Moves.{money-Keeps}
use masih_panel.Base.Int.{pos}
use masih_panel.Wallet.Apart.{money-apart}
use masih_panel.Wallet.{money}
use masih_panel.Queue.Frame.{enqueue-Keeps, IsQuiet}
use masih_panel.Wallet.Books.{IsBooked}
use masih_panel.Tx.Yields.{
  Yields-kept, Yields-modify, Yields-settle, Yields-mono, bind-Yields, Yields-pure, Yields-if,
  gets-Yields, require-Yields, raise_if-Yields, of_Yields, Yields,
}
use masih_panel.Tx.Keeps.{
  Keeps-pure, Keeps-if, Keeps-require, Keeps-gets, Keeps-raise_if, Keeps-bind, settle-Keeps, Keeps,
}
use masih_panel.Tx.{ok, settle, ◌>>=◌}
use masih_panel.Shop.Payments.{
  new_payment, known_or_new, insert_payment, ask_gateway, payment_create, is_payment,
  settle_payment, has_authority, is_authority, Reply, verify_new, Gateway, payment_verify,
}
use masih_panel.Store.{Payment, Db}
use mathlib.Core.Option as Option
use masih_panel.Base.{
  select_one-insert_row, none, not, Option, ◌≤◌, ℕ, eq_iff, update_where, select_one-update_where,
  ◌||◌, ◌==◌, ap, ◌*◌, ◌<>◌, refl, arith, some, false, true, ◌∙◌, ◌≡◌, Bool, select_one, String,
}

module _ (g : Gateway) where
  verify_new-Keeps : (authority : String) (p : Payment) → Keeps IsBooked (verify_new g authority p)
  unfolding verify_new
  verify_new-Keeps authority p = Keeps-bind _ _ (Keeps-gets _) λ s.
      Keeps-bind _ _ (Keeps-require _ _) λ r. Keeps-bind _ _ (Keeps-raise_if _ _) λ _.
        Keeps-bind _ _ (money-Keeps p.user_id _ _ _) λ _.
          Keeps-bind _ _ (aside-Keeps _ (λ d. refl) (λ d. refl))
            λ _. Keeps-bind _ _ (enqueue-Keeps Books-quiet _ _ _ _ _) λ _. Keeps-pure _

  payment_verify-Keeps : (authority : String) → Keeps IsBooked (payment_verify g authority)
  unfolding payment_verify
  payment_verify-Keeps authority = Keeps-bind _ _ (Keeps-raise_if _ _) λ _.
      Keeps-bind _ _ (Keeps-require _ _)
        λ p. Keeps-if _ _ _ (Keeps-pure false) (verify_new-Keeps authority p)

-- Whatever the gateway answers, a verification, committed or rolled back, keeps the books of the shop.
pub payment_verify-IsBooked :
    (g : Gateway) (authority : String) (d : Db)
    → IsBooked d
    → IsBooked (settle d (payment_verify g authority d))
payment_verify-IsBooked g authority d b =
    settle-Keeps (payment_verify g authority) d (payment_verify-Keeps g authority) b

-- where the money stands after the payment is credited
abbrev pub credited_to : Db → Payment → Db
credited_to d p = settle d (money p.user_id (pos p.amount) "zarinpal" ("payment:" <> p.id) d)

-- What a verification that charges the wallet leaves.
pub record IsVerified (g : Gateway) (authority : String) (d e : Db) : Type 0 where
  pub payment : Payment
  pub reply : Reply
  pub found : select_one (has_authority authority) d.payments ≡ some payment
  pub was_open : payment.paid ≡ false
  pub confirmed : g.confirm d.settings.merchant_id (payment.amount * 10) authority ≡ some reply
  pub accepted : (reply.code == 100 || reply.code == 101) ≡ true
  pub users : e.users ≡ (credited_to d payment).users
  pub ledger : e.ledger ≡ (credited_to d payment).ledger
  pub payments :
      e.payments ≡ update_where (is_payment payment.id) (settle_payment g reply.ref_id) d.payments

IsVerified-quiet : (g : Gateway) (authority : String) (d : Db) → IsQuiet (IsVerified g authority d)
IsVerified-quiet g authority d = record {
  outbox = λ e o h. kept e _ refl refl refl h;
  nav = λ e o h. kept e _ refl refl refl h;
  drawn = λ e o h. kept e _ refl refl refl h;
  audit_log = λ e o h. kept e _ refl refl refl h;
}
  where
    kept :
        (e e' : Db)
        → e'.users ≡ e.users
        → e'.ledger ≡ e.ledger
        → e'.payments ≡ e.payments
        → IsVerified g authority d e
        → IsVerified g authority d e'
    kept e e' u l t h = record {
      payment = h.payment;
      reply = h.reply;
      found = h.found;
      was_open = h.was_open;
      confirmed = h.confirmed;
      accepted = h.accepted;
      users = u ∙ h.users;
      ledger = l ∙ h.ledger;
      payments = t ∙ h.payments;
    }

credited_to-payments : (d : Db) (p : Payment) → (credited_to d p).payments ≡ d.payments
credited_to-payments d p =
    settle-Keeps {P = λ e. e.payments ≡ d.payments} _ d
      (money-apart (λ e. e.payments ≡ d.payments) (λ e us es h. h) p.user_id _ _ _) refl

verify_new_yields :
    (g : Gateway) (authority : String) (d : Db) (p : Payment)
    → select_one (has_authority authority) d.payments ≡ some p
    → p.paid ≡ false
    → Yields (λ e. e ≡ d) (verify_new g authority p) (λ _ e. IsVerified g authority d e)
unfolding verify_new
verify_new_yields g authority d p found unpaid =
    gets-Yields _ d.settings _ (λ e h. ap (λ (x : Db). x.settings) h)
      λ s seen.
        require-Yields _ _ (g.confirm d.settings.merchant_id (p.amount * 10) authority) _
          (λ e h. rw seen refl)
          λ r confirmed. raise_if-Yields _ _ _ λ accepted. bind-Yields _ _ (Yields-settle _ d) λ _.
            bind-Yields {R = λ _ e. IsVerified g authority d e} _ _
              (Yields-modify _ λ e h. record {
                payment = p;
                reply = r;
                found = found;
                was_open = unpaid;
                confirmed = confirmed;
                accepted = ground (arith, accepted);
                users = ap (λ (x : Db). x.users) h;
                ledger = ap (λ (x : Db). x.ledger) h;
                payments =
                    ap
                      (λ (x : Db).
                        update_where (is_payment p.id) (settle_payment g r.ref_id) x.payments)
                      h
                    ∙ ap (update_where (is_payment p.id) (settle_payment g r.ref_id))
                        (credited_to-payments d p);
              })
              λ _.
                bind-Yields _ _
                  (Yields-kept _ (enqueue-Keeps (IsVerified-quiet g authority d) _ _ _ _ _))
                  λ _. Yields-pure _ (λ e h. h)

payment_verify_yields :
    (g : Gateway) (authority : String) (d : Db)
    → Yields
        (λ e. e ≡ d)
        (payment_verify g authority)
        (λ now e. now ≡ true → IsVerified g authority d e)
unfolding payment_verify
payment_verify_yields g authority d = raise_if-Yields _ _ _ λ _.
    require-Yields _ _ (select_one (has_authority authority) d.payments) _ (λ e h. rw h)
      λ p found.
        Yields-if p.paid _ _ (λ old. Yields-pure _ (λ e h never. grind (arith, never)))
          (λ unpaid.
            Yields-mono _ (verify_new_yields g authority d p found unpaid) (λ _ e h now. h))

-- A verification that charges a wallet found the payment of that authority open, had its amount, ten
-- rial for a toman, confirmed by the gateway, moves no money but that amount, to the wallet of the
-- payment's user, under the payment's own reference, and marks the payment paid.
pub payment_verify_effect :
    (g : Gateway) (authority : String) (d e : Db)
    → payment_verify g authority d ≡ ok (true, e)
    → IsVerified g authority d e
payment_verify_effect g authority d e h =
    of_Yields _ d (payment_verify_yields g authority d) refl h refl

settled_again :
    (g : Gateway) (authority : String) (d : Db) (p : Payment)
    → is_authority authority ≡ true
    → select_one (has_authority authority) d.payments ≡ some p
    → p.paid ≡ true
    → payment_verify g authority d ≡ ok (false, d)
unfolding payment_verify ◌>>=◌
settled_again g authority d p form found paid = ground (arith, form, found, paid)

has_form :
    (g : Gateway) (authority : String) (d e : Db) (b : Bool)
    → payment_verify g authority d ≡ ok (b, e)
    → is_authority authority ≡ true
unfolding payment_verify ◌>>=◌
has_form g authority d e b h = ground (arith, h)

-- A payment is credited once: after its wallet was charged, a further verification, whatever the
-- gateway then answers, succeeds and changes nothing.
pub payment_verify_once :
    (g g' : Gateway) (authority : String) (d e : Db)
    → payment_verify g authority d ≡ ok (true, e)
    → payment_verify g' authority e ≡ ok (false, e)
payment_verify_once g g' authority d e h =
    let s = payment_verify_effect g authority d e h in
    settled_again g' authority e (settle_payment g s.reply.ref_id s.payment)
      (has_form g authority d e true h)
      (ap (select_one (has_authority authority)) s.payments
        ∙ select_one-update_where (has_authority authority) (is_payment s.payment.id)
            (settle_payment g s.reply.ref_id) s.payment d.payments (λ p. refl) s.found
            ((eq_iff s.payment.id s.payment.id).1 refl))
      refl

created_row :
    (g : Gateway) (uid amount : ℕ) (reference authority : String) (d e : Db) (o : Option Payment)
    → select_one (is_payment reference) d.payments ≡ o
    → known_or_new g d.settings uid amount reference o d ≡ ok (authority, e)
    → (e.settings ≡ d.settings)
      × (Option.map (λ p. p.authority) (select_one (is_payment reference) e.payments)
          ≡ some authority)
unfolding ask_gateway insert_payment ◌>>=◌
created_row g uid amount reference authority d e none absent h = ground (
  arith,
  h,
  eq_iff reference reference,
  select_one-insert_row (is_payment reference) (new_payment reference uid amount authority d.clock)
      d.payments absent,
)
created_row g uid amount reference authority d e (some p) found h = ground (arith, found, h)

let_through :
    (g : Gateway) (uid amount : ℕ) (reference authority : String) (d e : Db)
    → payment_create g uid amount reference d ≡ ok (authority, e)
    → ((not d.settings.zarinpal || not d.settings.wallet) ≡ false)
      × (known_or_new g d.settings uid amount reference
            (select_one (is_payment reference) d.payments)
            d
          ≡ ok (authority, e))
unfolding payment_create ◌>>=◌
let_through g uid amount reference authority d e h = ground (arith, h)

reread :
    (g : Gateway) (uid amount : ℕ) (reference authority : String) (e : Db) (o : Option Payment)
    → select_one (is_payment reference) e.payments ≡ o
    → Option.map (λ p. p.authority) o ≡ some authority
    → (not e.settings.zarinpal || not e.settings.wallet) ≡ false
    → 1000 ≤ amount
    → amount ≤ 1000000000
    → payment_create g uid amount reference e ≡ ok (authority, e)
unfolding payment_create ◌>>=◌
reread g uid amount reference authority e none found same on lo hi = ground (arith, same)
reread g uid amount reference authority e (some p) found same on lo hi =
    ground (arith, found, same, on, lo, hi)

-- A request for a payment is made once: after it went through, a repetition under its reference and
-- with an amount in the bounds returns the same authority, changes nothing and asks no gateway.
pub payment_create_once :
    (g g' : Gateway) (uid uid' : ℕ) (amount amount' : ℕ) (reference authority : String) (d e : Db)
    → payment_create g uid amount reference d ≡ ok (authority, e)
    → 1000 ≤ amount'
    → amount' ≤ 1000000000
    → payment_create g' uid' amount' reference e ≡ ok (authority, e)
payment_create_once g g' uid uid' amount amount' reference authority d e h lo hi =
    let (on, went) = let_through g uid amount reference authority d e h in
    let (same, row) = created_row g uid amount reference authority d e _ refl went in
    reread g' uid' amount' reference authority e _ refl row (rw same on) lo hi
