-- ===== src/Shop/Administration.antt =====
-- Further actions of `admin` in runtime/sales.py, each with the audit that ends it.
use Prim.Native.Char.{Char, code}
use masih_panel.Base.Int.{ℤ, leb_ℤ, neg, pos}
use masih_panel.Base.Text.{str}
use masih_panel.Queue.{audit, enqueue, notify}
use masih_panel.Shop.Labels.{Unicode, all_chars, char_count}
use masih_panel.Wallet.{is_user, money}
use masih_panel.Worker.Outbox.{is_message}
use masih_panel.Tx.{
  Tx, bad_number, bad_text, bad_code, ticket_missing, outbox_missing, pure, gets, require, ◌>>=◌,
  ◌>>◌, raise_if, modify,
}
use masih_panel.Store.{Db, User, Coupon, Ticket, OrderStatus, Message, Delivery, Notice, account}
use masih_panel.Base.{
  ◌&&◌, ◌&&◌, ◌&&◌, ◌&&◌, ◌&&◌, ◌&&◌, ◌&&◌, ◌&&◌, ◌&&◌, ◌&&◌, ◌&&◌, ◌&&◌, ◌&&◌, ◌&&◌, ◌&&◌, ◌&&◌,
  ◌&&◌, ◌&&◌, ◌&&◌, ◌&&◌, ◌&&◌, ◌&&◌, ◌&&◌, ◌&&◌, ◌&&◌, ◌&&◌, ◌&&◌, ◌&&◌, ◌&&◌, ◌&&◌, ◌&&◌, ◌&&◌,
  ◌&&◌, ◌&&◌, ◌&&◌, ◌&&◌, ◌&&◌, ◌&&◌, ◌&&◌, ◌&&◌, in_range, ℕ, ◌==◌, ltb, leb, Bool, true, false,
  not, ◌&&◌, ◌||◌, if◌then◌else◌, String, str_eq, ◌<>◌, List, [], ◌∷◌, some, exists, select_one,
  select_all, update_where, insert_row,
}

-- the action `user`
unfoldable pub set_user_flags : ℕ → Bool → Bool → Tx Db (Unit {0})
set_user_flags uid blocked reseller = do
  raise_if (not (in_range 1 1000000000000 uid)) bad_number
  modify (λ d. record d {
    users =
        update_where (is_user uid) (λ u. record u { blocked = blocked; reseller = reseller })
          d.users;
  })
  audit "user" "admin operation"

-- the action `credit`
unfoldable pub credit_user : Unicode → ℕ → ℤ → String → String → Tx Db (Unit {0})
credit_user txt uid amount reason reference = do
  raise_if (not (in_range 1 1000000000000 uid)) bad_number
  raise_if (not (leb_ℤ (neg 1000000000000) amount && leb_ℤ amount (pos 1000000000000))) bad_number
  raise_if (ltb 4000 (char_count reason) || ltb 100 (char_count reference)) bad_text
  money uid amount (txt.strip reason) (txt.strip reference)
  audit "credit" "admin operation"

-- `[A-Z0-9_-]`
abbrev is_code_char : Char → Bool
is_code_char c =
    leb 65 (code c) && leb (code c) 90
    || leb 48 (code c) && leb (code c) 57
    || code c == 95
    || code c == 45

abbrev pub is_coupon : String → Coupon → Bool
is_coupon code_text k = str_eq k.code code_text

-- `INSERT … ON CONFLICT(code) DO UPDATE`
abbrev upsert_coupon : Coupon → List Coupon → List Coupon
upsert_coupon k ks =
    if exists (is_coupon k.code) ks
    then update_where (is_coupon k.code) (λ _. k) ks
    else insert_row k ks

-- the action `coupon`; `upper` is `str.upper`
unfoldable pub save_coupon : Unicode → (String → String) → Coupon → Tx Db (Unit {0})
save_coupon txt upper k = do
  raise_if (ltb 40 (char_count k.code)) bad_text
  let code_text = upper (txt.strip k.code)
  raise_if (not (in_range 3 40 (char_count code_text) && all_chars is_code_char code_text)) bad_code
  raise_if
      (ltb 100 k.percent
        || ltb 1000000000000 k.credit
        || ltb 1000000000000 k.uses
        || ltb 1000000000000 k.expires)
      bad_number
  modify (λ d. record d { coupons = upsert_coupon (record k { code = code_text }) d.coupons })
  audit "coupon" "admin operation"

abbrev is_ticket : ℕ → Ticket → Bool
is_ticket ident t = t.id == ident

-- the action `reply`
unfoldable pub reply_ticket : Unicode → ℕ → String → Tx Db (Unit {0})
reply_ticket txt ident body = do
  raise_if (not (in_range 1 1000000000000 ident)) bad_number
  t ← require ticket_missing (λ d. select_one (is_ticket ident) d.tickets)
  raise_if (ltb 4000 (char_count body)) bad_text
  modify (λ d. record d {
    tickets = update_where (is_ticket t.id) (λ x. record x { reply = txt.strip body }) d.tickets;
  })
  notify (account t.user_id) (Notice.support_reply (txt.strip body)) []
  audit "reply" "admin operation"

pub announce : String → String → List User → Tx Db (Unit {0})
announce body reference [] = pure tt
announce body reference (u ∷ us) = do
  enqueue (account u.id) (Notice.announcement body) []
      (some ("broadcast:" <> reference <> ":" <> str u.id)) true
  announce body reference us

-- the action `broadcast`
unfoldable pub broadcast : Unicode → String → String → Tx Db (Unit {0})
unfolding announce
broadcast txt body reference = do
  raise_if (ltb 4000 (char_count body) || ltb 100 (char_count reference)) bad_text
  us ← gets (λ d. select_all (λ u. not u.blocked) d.users)
  announce (txt.strip body) (txt.strip reference) us
  audit "broadcast" "admin operation"

abbrev is_in_review : OrderStatus → Bool
is_in_review OrderStatus.review = true
is_in_review _ = false

-- the action `retry`
unfoldable pub retry_order : Unicode → String → Tx Db (Unit {0})
retry_order txt ident = do
  raise_if (ltb 4000 (char_count ident)) bad_text
  modify (λ d. record d {
    orders =
        update_where (λ o. str_eq o.id (txt.strip ident) && is_in_review o.status)
          (λ o. record o { status = OrderStatus.paid }) d.orders;
  })
  audit "retry" "admin operation"

abbrev is_dead : Delivery → Bool
is_dead Delivery.dead = true
is_dead _ = false

abbrev requeued : Message → Message
requeued m = record m { done = Delivery.queued; attempts = 0; next_try = 0 }

-- the action `retry_outbox`
unfoldable pub retry_outbox : ℕ → Tx Db (Unit {0})
retry_outbox ident = do
  raise_if (not (in_range 1 1000000000000 ident)) bad_number
  found ← gets (λ d. exists (λ m. is_message ident m && is_dead m.done) d.outbox)
  raise_if (not found) outbox_missing
  modify (λ d. record d {
    outbox = update_where (λ m. is_message ident m && is_dead m.done) requeued d.outbox;
  })
  audit "retry_outbox" "admin operation"
