-- ===== src/Tests/AiSales.antt =====
-- Subscriptions to AI in the small shop.
use masih_panel.Shop.Labels.{char_count}
use masih_panel.AiSales.Dialogue.{
  callback, admin_input, approve_order, confirms_order, finish_order, receipt_file, chooses_plan,
  ask_reason, input_message,
}
use masih_panel.AiSales.Email.{is_email}
use masih_panel.Base.Text.{str}
use masih_panel.AiSales.Models.{has_credentials}
use masih_panel.AiSales.Delivery.{complete, approve, bot_admin, web_admin}
use masih_panel.Base.Int.{pos, ◌+ℤ◌}
use masih_panel.AiSales.Catalog.{stock_row}
use masih_panel.Tx.{not_admin, not_activating, err, ok, settle, ◌>>=◌}
use masih_panel.Queue.{notify, audit, draw, enqueue}
use masih_panel.AiSales.Quota.{available, consume}
use masih_panel.AiSales.Quota.Spent.{consume_lem, IsCharged, is_served}
use masih_panel.AiSales.Lifecycle.{OneOrder, status_in}
use masih_panel.Wallet.{money}
use masih_panel.Tests.{shop, ascii}
use masih_panel.AiSales.Operations.{
  Operation, chooses, gives_email, sends_receipt, confirms, pays, cancels, decides, run_all,
}
use masih_panel.AiSales.Operations.Lifetime.{run_all-Reaches, run_all_final, Reaches}
use masih_panel.Store.{StockCode, User, Modality, Db, AiPlan, AiKind, AiStatus, Attachment}
use masih_panel.Base.{
  count, Bool, inr, inl, Bool-cases, map, ◌≤◌, length, arith, ◌≡◌, some, [], true, List, refl, ◌∷◌,
}

abbrev bot_plan : AiPlan
bot_plan = record {
  id = 20;
  model_id = 1;
  name = "monthly AI";
  kind = AiKind.bot;
  price = 100;
  days = 30;
  credits = λ op. elim op [ Modality.text ↦ 5 | Modality.image ↦ 0 | Modality.video ↦ 0 ];
  active = true;
  model_for = λ op. "";
}

abbrev code_plan : AiPlan
code_plan = record bot_plan { id = 21; kind = AiKind.ready; credits = λ op. 0 }

abbrev mail_plan : AiPlan
mail_plan = record bot_plan { id = 22; kind = AiKind.personal; credits = λ op. 0 }

abbrev ai_shop : Db
ai_shop = record shop {
  ai = record shop.ai {
    families = record { id = 1; name = "GPT"; active = true } ∷ [];
    plans = bot_plan ∷ code_plan ∷ mail_plan ∷ [];
    stock = stock_row 1 21 "CODE-1" 90 ∷ [];
  };
}

abbrev paid_from_wallet : Db
paid_from_wallet = run_all ascii (chooses 1 20 ∷ pays 1 "ai-0" ∷ []) ai_shop

pays_once : map (λ (u : User). u.balance) paid_from_wallet.users ≡ pos 400 ∷ []
unfolding run_all money enqueue ◌>>=◌ ◌+ℤ◌ draw has_credentials str
pays_once = refl

is_served_once : status_in "ai-0" paid_from_wallet.ai.orders ≡ some AiStatus.fulfilled
unfolding run_all money enqueue ◌>>=◌ ◌+ℤ◌ draw has_credentials str
is_served_once = refl

abbrev reviewed : List Operation
reviewed =
    chooses 1 21
    ∷ sends_receipt 1 "ai-0" (some (Attachment.photo "f1"))
    ∷ confirms 1 "ai-0"
    ∷ decides (bot_admin 7) "ai-0" approve
    ∷ cancels 1 "ai-0"
    ∷ []

delivers_the_code :
    map (λ (x : StockCode). x.order_id) (run_all ascii reviewed ai_shop).ai.stock ≡ some "ai-0" ∷ []
unfolding run_all enqueue ◌>>=◌ draw audit str
delivers_the_code = refl

abbrev activated : List Operation
activated =
    chooses 1 22
    ∷ gives_email 1 "ai-0" "a.b@mail.example"
    ∷ sends_receipt 1 "ai-0" (some (Attachment.document "f2"))
    ∷ confirms 1 "ai-0"
    ∷ decides web_admin "ai-0" approve
    ∷ decides web_admin "ai-0" complete
    ∷ []

activates : status_in "ai-0" (run_all ascii activated ai_shop).ai.orders ≡ some AiStatus.fulfilled
unfolding run_all enqueue ◌>>=◌ draw audit str is_email
activates = refl

at_most_one : {A : Type 0} (p : A → Bool) (xs : List A) → length xs ≡ 1 → count p xs ≤ 1
at_most_one p [] h = omega arith
at_most_one p (x ∷ []) h = elim (Bool-cases (p x)) [
  | inl own ↦ rw own (omega arith)
  | inr other ↦ rw other (omega arith)
]
at_most_one p (x ∷ y ∷ xs) h = omega (arith, h)

is_one_order : length paid_from_wallet.ai.orders ≡ 1
unfolding run_all money enqueue ◌>>=◌ ◌+ℤ◌ draw has_credentials str
is_one_order = refl

is_one_subscription : length paid_from_wallet.ai.subscriptions ≡ 1
unfolding run_all money enqueue ◌>>=◌ ◌+ℤ◌ draw has_credentials str
is_one_subscription = refl

run_all-Reaches_example :
    OneOrder (run_all ascii reviewed ai_shop).ai.orders
    × Reaches
        (status_in "ai-0" ai_shop.ai.orders)
        (status_in "ai-0" (run_all ascii reviewed ai_shop).ai.orders)
run_all-Reaches_example = run_all-Reaches ascii reviewed ai_shop "ai-0" (λ oid. omega arith)

run_all_final_example :
    status_in "ai-0" (run_all ascii reviewed paid_from_wallet).ai.orders ≡ some AiStatus.fulfilled
run_all_final_example =
    run_all_final ascii reviewed paid_from_wallet "ai-0" AiStatus.fulfilled
      (λ oid. at_most_one _ _ is_one_order) refl is_served_once

consume_lem_example :
    (consume 1 Modality.text "q1" paid_from_wallet
      ≡ ok (
        is_served 1 Modality.text "q1" paid_from_wallet,
        settle paid_from_wallet (consume 1 Modality.text "q1" paid_from_wallet),
      ))
    × IsCharged Modality.text
        (is_served 1 Modality.text "q1" paid_from_wallet)
        paid_from_wallet.ai.subscriptions
        (settle paid_from_wallet (consume 1 Modality.text "q1" paid_from_wallet)).ai.subscriptions
consume_lem_example =
    consume_lem 1 Modality.text "q1" paid_from_wallet (λ oid. at_most_one _ _ is_one_subscription)

serves : is_served 1 Modality.text "q1" paid_from_wallet ≡ true
unfolding run_all money enqueue ◌>>=◌ ◌+ℤ◌ draw has_credentials available str
serves = refl

-- A dialogue: the choice of a code, its receipt, the confirmation and the decision.
abbrev chosen : Db
chosen = settle ai_shop (callback 1 (chooses_plan 21) ai_shop)

abbrev documented : Db
documented =
    settle chosen
      (input_message ascii 1 "ai-0" (receipt_file (some (Attachment.photo "f1"))) chosen)

abbrev submitted : Db
submitted = settle documented (callback 1 (confirms_order "ai-0") documented)

asks_for_the_receipt : map (λ (u : User). u.state) chosen.users ≡ "ais:receipt:ai-0" ∷ []
unfolding callback enqueue ◌>>=◌ notify draw str
asks_for_the_receipt = refl

approves :
    status_in "ai-0" (settle submitted (approve_order ascii 7 "ai-0" submitted)).ai.orders
    ≡ some AiStatus.fulfilled
unfolding callback input_message approve_order enqueue ◌>>=◌ notify draw audit str
approves = refl

rejects :
    status_in "ai-0"
      (settle submitted (admin_input ascii 7 "ai-0" "unreadable" submitted)).ai.orders
    ≡ some AiStatus.rejected
unfolding callback input_message admin_input enqueue ◌>>=◌ notify draw audit str char_count
rejects = refl

finishes_nothing : finish_order ascii 7 "ai-0" submitted ≡ err not_activating
unfolding callback input_message finish_order enqueue ◌>>=◌ notify draw audit str
finishes_nothing = refl

asks_an_admin : ask_reason 1 "ai-0" submitted ≡ err not_admin
unfolding ask_reason ◌>>=◌ callback input_message notify draw str
asks_an_admin = refl
