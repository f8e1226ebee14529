-- ===== src/Shop/Payments.antt =====
-- Payments to the wallet over a gateway, in runtime/sales.py: `payment_create`, `payment_verify`.
pub mod Verified
use Prim.Native.Char.{code, Char}
use masih_panel.Queue.{button, enqueue}
use masih_panel.Base.Int.{pos}
use masih_panel.Wallet.{money}
use masih_panel.Shop.Labels.{all_chars, char_count}
use masih_panel.Tx.{
  bad_authority, integrity, modify, payment_refused, payment_missing, gateway_closed, bad_number,
  gateway_refused, pure, raise_if, gets, require, ◌>>=◌, ◌>>◌, Tx,
}
use masih_panel.Store.{Notice, account, Db, Payment, Settings}
use masih_panel.Base.{
  insert_row, [], ◌∷◌, update_where, ◌<>◌, if◌then◌else◌, select_one, ◌==◌, ◌*◌, ◌||◌, exists, not,
  none, ◌&&◌, some, true, leb, false, str_eq, Bool, Option, String, ℕ,
}

-- What the gateway answers; a missing field of the answer is 0 or the empty text.
pub record Reply : Type 0 where
  pub code : ℕ
  pub authority : String
  pub ref_id : String

-- `gateway(method, payload)`: nothing when the call fails.
pub record Gateway : Type 0 where
  -- the merchant, the amount in rial and the reference
  pub ask : String → ℕ → String → Option Reply
  -- the merchant, the amount in rial and the authority
  pub confirm : String → ℕ → String → Option Reply

abbrev pub is_payment : String → Payment → Bool
is_payment reference p = str_eq p.id reference

abbrev pub has_authority : String → Payment → Bool
has_authority authority p = str_eq p.authority authority

abbrev ascii_alnum : Char → Bool
ascii_alnum c =
    leb b'0' (code c) && leb (code c) b'9'
    || leb b'A' (code c) && leb (code c) b'Z'
    || leb b'a' (code c) && leb (code c) b'z'

-- `re.fullmatch(r"[A-Za-z0-9]{10,100}", authority)`
pub is_authority : String → Bool
unfolding char_count
is_authority s = leb 10 (char_count s) && leb (char_count s) 100 && all_chars ascii_alnum s

abbrev pub new_payment : String → ℕ → ℕ → String → ℕ → Payment
new_payment reference uid amount authority at = record {
  id = reference;
  user_id = uid;
  amount = amount;
  authority = authority;
  paid = false;
  ref = "";
  created = at;
}

-- `INSERT INTO payments`, whose authority is unique
pub insert_payment : String → ℕ → ℕ → String → Tx Db (Unit {0})
insert_payment reference uid amount authority = do
  taken ← gets (λ d. exists (has_authority authority) d.payments)
  raise_if taken integrity
  modify (λ d. record d {
    payments = insert_row (new_payment reference uid amount authority d.clock) d.payments;
  })

module _ (g : Gateway) where
  pub ask_gateway : Settings → ℕ → ℕ → String → Tx Db String
  unfolding is_authority insert_payment
  ask_gateway s uid amount reference = do
    r ← require gateway_refused (λ d. g.ask s.merchant_id (amount * 10) reference)
    raise_if (not (r.code == 100) || not (is_authority r.authority)) payment_refused
    insert_payment reference uid amount r.authority
    pure r.authority

  abbrev pub known_or_new : Settings → ℕ → ℕ → String → Option Payment → Tx Db String
  known_or_new s uid amount reference none = ask_gateway s uid amount reference
  known_or_new s uid amount reference (some row) = pure row.authority

  -- `payment_create(c, uid, amount, reference)`
  unfoldable pub payment_create : ℕ → ℕ → String → Tx Db String
  unfolding ask_gateway
  payment_create uid amount reference = do
    s ← gets (λ d. d.settings)
    raise_if (not s.zarinpal || not s.wallet) gateway_closed
    raise_if (not (leb 1000 amount && leb amount 1000000000)) bad_number
    row ← gets (λ d. select_one (is_payment reference) d.payments)
    known_or_new s uid amount reference row

  abbrev pub settle_payment : String → Payment → Payment
  settle_payment ref p = record p { paid = true; ref = ref }

  -- the part of `payment_verify` for a payment that is not settled yet
  pub verify_new : String → Payment → Tx Db Bool
  verify_new authority p = do
    s ← gets (λ d. d.settings)
    r ← require gateway_refused (λ d. g.confirm s.merchant_id (p.amount * 10) authority)
    raise_if (not (r.code == 100 || r.code == 101)) payment_refused
    money p.user_id (pos p.amount) "zarinpal" ("payment:" <> p.id)
    modify (λ d. record d {
      payments = update_where (is_payment p.id) (settle_payment r.ref_id) d.payments;
    })
    enqueue (account p.user_id) (Notice.payment_credited p.amount)
        ((button "buy a subscription" "plans" ∷ []) ∷ []) (some ("payment:" <> p.id <> ":notice"))
        true
    pure true

  -- `payment_verify(authority)`; whether the wallet is charged now, which the returned text says
  unfoldable pub payment_verify : String → Tx Db Bool
  unfolding is_authority verify_new
  payment_verify authority = do
    raise_if (not (is_authority authority)) bad_authority
    p ← require payment_missing (λ d. select_one (has_authority authority) d.payments)
    if p.paid then pure false else verify_new authority p
