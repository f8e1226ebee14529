-- ===== src/AiSales/Orders.antt =====
-- The orders of runtime/ai_commerce.py on the buyer's side: `choose`, `owned`, `set_email`,
-- `store_receipt`, `preview`, `confirm`, and the action `cancel` of `callback`.
pub mod Moves
use masih_panel.AiSales.Email.{is_email}
use masih_panel.Base.Text.{str, nonempty}
use masih_panel.Queue.{draw, button, notify, insert_message, enqueue}
use masih_panel.AiSales.Catalog.{is_family, is_ready, is_personal, is_bot, is_ai_plan}
use masih_panel.Shop.Labels.{char_count, Unicode}
use masih_panel.AiSales.Models.{has_credentials, select_model}
use masih_panel.Tx.{
  bad_email, no_connection, not_cancellable, email_needed, not_preview, not_awaiting, integrity,
  receipt_needed, stock_empty, gets, plan_missing, order_missing, modify, raise_if, pure, ◌>>◌,
  require, ◌>>=◌, when, Tx,
}
use masih_panel.Store.{
  Notice, account, Method, Modality, Db, AiFamily, AiStatus, StockCode, AiPlan, AiOrder, Attachment,
  AiTables,
}
use masih_panel.Base.{
  ltb, ◌<>◌, [], ◌||◌, ◌∷◌, insert_row, not, ◌&&◌, none, str_eq, false, update_where, exists,
  select_one, ◌==◌, some, Option, List, true, Bool, String, ℕ,
}

abbrev pub is_ai_order : String → AiOrder → Bool
is_ai_order oid o = str_eq o.id oid

abbrev pub is_own : ℕ → String → AiOrder → Bool
is_own uid oid o = str_eq o.id oid && o.user_id == uid

abbrev pub is_awaiting : AiStatus → Bool
is_awaiting AiStatus.awaiting_receipt = true
is_awaiting _ = false

abbrev pub is_preview : AiStatus → Bool
is_preview AiStatus.preview = true
is_preview _ = false

abbrev pub is_review : AiStatus → Bool
is_review AiStatus.review = true
is_review _ = false

abbrev pub is_activating : AiStatus → Bool
is_activating AiStatus.activating = true
is_activating _ = false

-- `UPDATE ai_sale_orders SET … WHERE id=?`
abbrev pub set_ai_order : String → (AiOrder → AiOrder) → Db → Db
set_ai_order oid f d = record d {
  ai = record d.ai { orders = update_where (is_ai_order oid) f d.ai.orders };
}

-- The same with `updated=now()`, for the row as it is found.
abbrev pub with_status : AiStatus → ℕ → AiOrder → AiOrder
with_status status at o = record o { status = status; updated = at }

-- a plan with its family, as `JOIN` gives them
abbrev family_of : AiPlan → List AiFamily → Option (AiPlan × AiFamily)
family_of p fs = elim (select_one (is_family p.model_id) fs) [ none ↦ none | some f ↦ some (p, f) ]

pub joined_plan : ℕ → AiTables → Option (AiPlan × AiFamily)
joined_plan pid t = elim (select_one (is_ai_plan pid) t.plans) [
  | none ↦ none
  | some p ↦ family_of p t.families
]

abbrev pub is_free : ℕ → StockCode → Bool
is_free pid x = x.plan_id == pid && (elim x.order_id [ none ↦ true | some o ↦ false ])

-- one round of the loop that checks the models of a plan
pub check_model : AiPlan → Modality → Tx Db (Unit {0})
unfolding select_model
check_model p op = when (not (p.credits op == 0) && nonempty (p.model_for op)) (do
  m ← select_model (p.model_for op) op
  connected ← gets (λ d. has_credentials d.settings m.provider)
  raise_if (not connected) no_connection)

abbrev pub new_ai_order : String → ℕ → AiPlan → AiFamily → ℕ → AiOrder
new_ai_order ident uid p f at = record {
  id = ident;
  user_id = uid;
  plan_id = p.id;
  snapshot = record { plan = p; model_name = f.name };
  email = "";
  status = AiStatus.awaiting_receipt;
  receipt = none;
  reason = "";
  created = at;
  updated = at;
  confirmed = false;
  fulfilled = false;
}

pub insert_ai_order : String → ℕ → AiPlan → AiFamily → Tx Db (Unit {0})
insert_ai_order ident uid p f = do
  taken ← gets (λ d. exists (is_ai_order ident) d.ai.orders)
  raise_if taken integrity
  modify (λ d. record d {
    ai = record d.ai { orders = insert_row (new_ai_order ident uid p f d.clock) d.ai.orders };
  })

pub check_models : AiPlan → Tx Db (Unit {0})
unfolding check_model
check_models p =
    when (is_bot p.kind)
      (do check_model p Modality.text; check_model p Modality.image; check_model p Modality.video)

-- `choose(c, uid, pid)`
unfoldable pub choose : ℕ → ℕ → Tx Db String
unfolding joined_plan check_models insert_ai_order
choose uid pid = do
  (p, f) ← require plan_missing (λ d. joined_plan pid d.ai)
  raise_if (not p.active || not f.active) plan_missing
  in_stock ← gets (λ d. exists (is_free pid) d.ai.stock)
  raise_if (is_ready p.kind && not in_stock) stock_empty
  check_models p
  token ← draw
  insert_ai_order ("ai-" <> token) uid p f
  pure ("ai-" <> token)

-- `owned(c, uid, oid)`
unfoldable pub owned : ℕ → String → Tx Db AiOrder
owned uid oid = require order_missing (λ d. select_one (is_own uid oid) d.ai.orders)

-- `store_receipt(c, uid, oid, message)`, for the last photo or else the document of the message
unfoldable pub store_receipt : ℕ → String → Option Attachment → Tx Db (Unit {0})
unfolding owned
store_receipt uid oid file = do
  row ← owned uid oid
  raise_if (not (is_awaiting row.status)) not_awaiting
  raise_if (is_personal row.snapshot.plan.kind && not (nonempty row.email)) email_needed
  raw ← require receipt_needed (λ d. file)
  modify (λ d.
      set_ai_order oid
        (λ o. record o { receipt = some raw; status = AiStatus.preview; updated = d.clock }) d)

-- `preview(c, uid, oid)`
unfoldable pub preview : ℕ → String → Tx Db (Unit {0})
unfolding owned
preview uid oid = do
  row ← owned uid oid
  raise_if (not (is_preview row.status)) not_preview
  notify (account uid) (Notice.ai_preview row) (
      (button "confirm and send to the admin" ("ais:confirm:" <> oid) ∷ [])
      ∷ (button "cancel the order" ("ais:cancel:" <> oid) ∷ [])
      ∷ [])

abbrev file_method : Attachment → Method
file_method (Attachment.photo f) = Method.send_photo
file_method (Attachment.document f) = Method.send_document

abbrev file_name : Attachment → String
file_name (Attachment.photo f) = f
file_name (Attachment.document f) = f

-- the loop of `confirm` over the admins
pub tell_reviewers : AiOrder → Attachment → List ℕ → Tx Db (Unit {0})
tell_reviewers o file [] = pure tt
tell_reviewers o file (n ∷ ns) = do
  insert_message ("ai-proof:" <> o.id <> ":" <> str n) (account n) (file_method file) (record {
    chat_id = account n;
    notice = none;
    buttons = [];
    message_id = none;
    file = file_name file;
  })
  enqueue (account n) (Notice.ai_receipt o)
      ((button "approve the receipt" ("aisadmin:approve:" <> o.id)
          ∷ button "reject with a reason" ("aisadmin:reject:" <> o.id)
          ∷ [])
        ∷ [])
      (some ("ai-admin-review:" <> o.id <> ":" <> str n)) true
  tell_reviewers o file ns

-- the receipt, which only the loop reads
pub tell_all_reviewers : AiOrder → List ℕ → Tx Db (Unit {0})
unfolding tell_reviewers
tell_all_reviewers o [] = pure tt
tell_all_reviewers o (n ∷ ns) = do
  file ← require receipt_needed (λ d. o.receipt)
  tell_reviewers o file (n ∷ ns)

-- `confirm(c, uid, oid)`
unfoldable pub confirm : ℕ → String → Tx Db (Unit {0})
unfolding owned tell_all_reviewers
confirm uid oid = do
  row ← owned uid oid
  raise_if (not (is_preview row.status)) not_preview
  modify (λ d.
      set_ai_order oid
        (λ o. record o { status = AiStatus.review; confirmed = true; updated = d.clock }) d)
  admins ← gets (λ d. d.settings.admins)
  tell_all_reviewers row admins
  enqueue (account uid) Notice.ai_sent_for_review [] (some ("ai-review-notice:" <> oid)) true

-- `set_email(c, uid, oid, email)`
unfoldable pub set_email : Unicode → ℕ → String → String → Tx Db (Unit {0})
unfolding owned
set_email txt uid oid email = do
  row ← owned uid oid
  raise_if (not (is_personal row.snapshot.plan.kind) || not (is_awaiting row.status)) not_awaiting
  raise_if (ltb 254 (char_count email) || not (is_email (txt.strip email))) bad_email
  modify (λ d. set_ai_order oid (λ o. record o { email = txt.strip email; updated = d.clock }) d)

-- the action `cancel` of `callback`
unfoldable pub cancel : ℕ → String → Tx Db (Unit {0})
unfolding owned
cancel uid oid = do
  row ← owned uid oid
  raise_if (not (is_awaiting row.status || is_preview row.status)) not_cancellable
  modify (λ d. set_ai_order row.id (with_status AiStatus.cancelled d.clock) d)
  notify (account uid) Notice.ai_order_cancelled ((button "AI shop" "ais:home" ∷ []) ∷ [])
