-- ===== src/AiSales/Dialogue.antt =====
-- The dialogues of runtime/ai_commerce.py that change an order: the actions `home`, `choose`, `confirm`,
-- `paywallet` and `cancel` of `callback`, `input_message`, the decisions of `admin_callback`, `admin_input`.
use masih_panel.AiSales.Catalog.{is_bot, is_personal}
use masih_panel.AiSales.Delivery.{bot_admin, approve, complete, reject, admin_decide, pay_wallet}
use masih_panel.AiSales.Orders.{
  owned, choose, set_email, store_receipt, preview, confirm, cancel, is_ai_order, is_review,
}
use masih_panel.Base.Text.{nonempty}
use masih_panel.Queue.{button, notify}
use masih_panel.Shop.Labels.{Unicode, all_chars}
use masih_panel.Wallet.{set_state}
use Prim.Native.Char.{code}
use masih_panel.Tx.{
  Tx, sales_closed, bad_email, not_review, not_admin, bad_number, gets, require, ◌>>=◌, ◌>>◌,
  raise_if, modify,
}
use masih_panel.Store.{Db, Button, Notice, AiKind, AiOrder, AiSnapshot, Attachment, account}
use masih_panel.Base.{
  ℕ, ◌==◌, Bool, not, ◌||◌, if◌then◌else◌, String, ◌<>◌, List, [], ◌∷◌, Option, select_one, exists,
}

-- `menu(c, uid)`
pub menu : ℕ → Tx Db (Unit {0})
menu uid = notify (account uid) Notice.ai_home (
    (button "inside the bot" "ais:list:bot" ∷ [])
    ∷ (button "a personal address" "ais:list:personal" ∷ [])
    ∷ (button "a ready address" "ais:list:ready" ∷ [])
    ∷ (button "my orders and subscriptions" "ais:mine" ∷ [])
    ∷ (button "buy" "buynew" ∷ [])
    ∷ [])

abbrev wallet_button : AiKind → String → List (List Button)
wallet_button kind oid =
    if is_bot kind then (button "pay from the wallet" ("ais:paywallet:" <> oid) ∷ []) ∷ [] else []

-- what is asked for after a plan is chosen
pub ask_next : ℕ → String → AiSnapshot → Tx Db (Unit {0})
ask_next uid oid p =
    if is_personal p.plan.kind
    then (do
      modify (set_state uid ("ais:email:" <> oid))
      notify (account uid) Notice.ai_ask_email [])
    else (do
      modify (set_state uid ("ais:receipt:" <> oid))
      card ← gets (λ d. d.settings.card)
      notify (account uid) (Notice.ai_ask_receipt p card) (wallet_button p.plan.kind oid))

-- the action `choose` of `callback`
pub choose_plan : ℕ → ℕ → Tx Db (Unit {0})
unfolding choose owned ask_next
choose_plan uid pid = do
  raise_if (pid == 0) bad_number
  oid ← choose uid pid
  o ← owned uid oid
  ask_next uid oid o.snapshot

pub data Command : Type 0 where
  home : Command
  chooses_plan : ℕ → Command
  pays_order confirms_order cancels_order : String → Command

pub obey : ℕ → Command → Tx Db (Unit {0})
unfolding menu choose_plan pay_wallet confirm cancel
obey uid home = menu uid
obey uid (chooses_plan pid) = choose_plan uid pid
obey uid (pays_order oid) = pay_wallet uid oid
obey uid (confirms_order oid) = confirm uid oid
obey uid (cancels_order oid) = cancel uid oid

-- `callback(c, uid, cmd)` for these actions
unfoldable pub callback : ℕ → Command → Tx Db (Unit {0})
unfolding obey
callback uid command = do
  s ← gets (λ d. d.settings)
  raise_if (not s.buy) sales_closed
  obey uid command

-- What the state of the user awaits, and the message that comes.
pub data Reply : Type 0 where
  email_text : String → Reply
  receipt_file : Option Attachment → Reply

abbrev has_space : String → Bool
has_space s = not (all_chars (λ c. not (code c == 32)) s)

pub take_email : Unicode → ℕ → String → AiOrder → String → Tx Db (Unit {0})
unfolding set_email
take_email txt uid oid o email = do
  raise_if (not (nonempty email) || has_space email) bad_email
  set_email txt uid oid email
  modify (set_state uid ("ais:receipt:" <> oid))
  card ← gets (λ d. d.settings.card)
  notify (account uid) (Notice.ai_email_saved email o.snapshot.plan.price card) []

pub take_receipt : ℕ → String → Option Attachment → Tx Db (Unit {0})
unfolding store_receipt preview
take_receipt uid oid file = do
  store_receipt uid oid file
  modify (set_state uid "")
  preview uid oid

pub take_reply : Unicode → ℕ → String → AiOrder → Reply → Tx Db (Unit {0})
unfolding take_email take_receipt
take_reply txt uid oid o (email_text t) = take_email txt uid oid o (txt.strip t)
take_reply txt uid oid o (receipt_file file) = take_receipt uid oid file

-- `input_message(c, uid, state, message)`
unfoldable pub input_message : Unicode → ℕ → String → Reply → Tx Db (Unit {0})
unfolding owned take_reply
input_message txt uid oid message = do o ← owned uid oid; take_reply txt uid oid o message

-- the action `reject` of `admin_callback`, which asks for the reason
unfoldable pub ask_reason : ℕ → String → Tx Db (Unit {0})
ask_reason uid oid = do
  s ← gets (λ d. d.settings)
  raise_if (not (exists (λ n. n == uid) s.admins)) not_admin
  o ← require not_review (λ d. select_one (is_ai_order oid) d.ai.orders)
  raise_if (not (is_review o.status)) not_review
  modify (set_state uid ("aisadmin:reject:" <> oid))
  notify (account uid) (Notice.ai_ask_reason oid) []

-- its actions `approve` and `complete`
unfoldable pub approve_order : Unicode → ℕ → String → Tx Db (Unit {0})
unfolding admin_decide
approve_order txt uid oid = do
  admin_decide txt (bot_admin uid) oid approve
  notify (account uid) Notice.ai_decided []

unfoldable pub finish_order : Unicode → ℕ → String → Tx Db (Unit {0})
unfolding admin_decide
finish_order txt uid oid = do
  admin_decide txt (bot_admin uid) oid complete
  notify (account uid) Notice.ai_announced []

-- `admin_input(c, uid, state, body)`, for a state that names the order
unfoldable pub admin_input : Unicode → ℕ → String → String → Tx Db (Unit {0})
unfolding admin_decide
admin_input txt uid oid body = do
  admin_decide txt (bot_admin uid) oid (reject body)
  modify (set_state uid "")
  notify (account uid) Notice.ai_refused []
