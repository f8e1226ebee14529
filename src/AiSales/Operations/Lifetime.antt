-- ===== src/AiSales/Operations/Lifetime.antt =====
-- The orders of AI over the time of the shop.
use masih_panel.AiSales.Delivery.Moves.{pay_wallet_moves, admin_decide_moves}
use masih_panel.AiSales.Orders.Moves.{
  store_receipt_moves, set_email_moves, cancel_moves, confirm_moves, choose_moves,
}
use masih_panel.AiSales.Operations.{
  Operation, chooses, gives_email, sends_receipt, confirms, pays, cancels, decides, perform,
  run_all,
}
use masih_panel.AiSales.Steps.{At, Moved, stayed}
use masih_panel.AiSales.Lifecycle.{Advanced, OneOrder, Evolves, status_in}
use masih_panel.Shop.Labels.{Unicode}
use masih_panel.Tx.Yields.{Yields, bind-Yields, Yields-kept}
use masih_panel.Tx.Keeps.{Returns, Keeps-pure}
use masih_panel.Tx.{settle, Result, ok, err}
use masih_panel.Store.{AiStatus, Db}
use masih_panel.Base.{
  String, List, [], ◌∷◌, Option, none, some, Bool, true, false, ◌≡◌, refl, sym, subst, inl, inr,
  arith, ap,
}

settled_either :
    {A : Type 0} (Q : Db → Type 0) (d : Db) (r : Result (A × Db))
    → Q d
    → Returns (λ _ e. Q e) r
    → Q (settle d r)
settled_either Q d (ok (a, e)) h y = y
settled_either Q d (err x) h y = h

perform_moves :
    (txt : Unicode) (op : Operation) (d : Db) (one : OneOrder d.ai.orders)
    → Yields (At d one) (perform txt op) (λ _ e. Moved d one e)
unfolding perform
perform_moves txt (chooses uid pid) d one =
    bind-Yields {R = λ _ e. Moved d one e} _ _ (choose_moves d one uid pid)
      λ _. Yields-kept _ (Keeps-pure tt)
perform_moves txt (gives_email uid oid email) d one = set_email_moves d one txt uid oid email
perform_moves txt (sends_receipt uid oid file) d one = store_receipt_moves d one uid oid file
perform_moves txt (confirms uid oid) d one = confirm_moves d one uid oid
perform_moves txt (pays uid oid) d one = pay_wallet_moves d one uid oid
perform_moves txt (cancels uid oid) d one = cancel_moves d one uid oid
perform_moves txt (decides who oid decision) d one = admin_decide_moves d one txt who oid decision

-- Where the numbers of the orders of AI are distinct, every operation on them, committed or rolled
-- back, keeps them distinct, removes no order, and leaves each order where it is in its lifecycle or
-- takes it one permitted step: a new order awaits its receipt; from there it goes to the preview, is
-- fulfilled (paid from the wallet) or cancelled; from the preview to the review or cancelled; from
-- the review to the activation, fulfilled or rejected; from the activation to fulfilled.
pub perform-Advanced :
    (txt : Unicode) (op : Operation) (d : Db)
    → OneOrder d.ai.orders
    → Advanced d.ai.orders (settle d (perform txt op d)).ai.orders
perform-Advanced txt op d one =
    settled_either (λ e. Moved d one e) d (perform txt op d) (stayed d one)
      ((perform_moves txt op d one).at d refl)

-- A path of the lifecycle.
pub data Reaches : Option AiStatus → Option AiStatus → Type 0 where
  here : {s : Option AiStatus} → Reaches s s
  step : {s t u : Option AiStatus} → Evolves s t → Reaches t u → Reaches s u

-- Where the numbers of the orders of AI are distinct, they stay so over any sequence of operations, each
-- committed or rolled back, and every order follows a path of the lifecycle.
pub run_all-Reaches :
    (txt : Unicode) (ops : List Operation) (d : Db) (oid : String)
    → OneOrder d.ai.orders
    → OneOrder (run_all txt ops d).ai.orders
      × Reaches (status_in oid d.ai.orders) (status_in oid (run_all txt ops d).ai.orders)
unfolding run_all
run_all-Reaches txt [] d oid one = (one, here)
run_all-Reaches txt (op ∷ ops) d oid one =
    let a : Advanced d.ai.orders (settle d (perform txt op d)).ai.orders =
      perform-Advanced txt op d one in
    let later = run_all-Reaches txt ops (settle d (perform txt op d)) oid a.keys in
    (later.0, step (a.moves oid) later.1)

abbrev pub is_final : AiStatus → Bool
is_final AiStatus.fulfilled = true
is_final AiStatus.rejected = true
is_final AiStatus.cancelled = true
is_final _ = false

final_step :
    (s : AiStatus) (t : Option AiStatus) → is_final s ≡ true → Evolves (some s) t → t ≡ some s
final_step s none f e = ground (arith, e)
final_step s (some t) f (inl same) = ap some (sym same)
final_step AiStatus.fulfilled (some t) f (inr m) = ground (arith, m)
final_step AiStatus.rejected (some t) f (inr m) = ground (arith, m)
final_step AiStatus.cancelled (some t) f (inr m) = ground (arith, m)
final_step AiStatus.awaiting_receipt (some t) f (inr m) = ground (arith, f)
final_step AiStatus.preview (some t) f (inr m) = ground (arith, f)
final_step AiStatus.review (some t) f (inr m) = ground (arith, f)
final_step AiStatus.activating (some t) f (inr m) = ground (arith, f)

final_path :
    (s : AiStatus) {t u : Option AiStatus}
    → is_final s ≡ true
    → t ≡ some s
    → Reaches t u
    → u ≡ some s
final_path s f e here = e
final_path s f e (step {t = t} m r) =
    final_path s f (final_step s t f (subst (λ x. Evolves x t) e m)) r

-- Where the numbers of the orders of AI are distinct, an order that is fulfilled, rejected or
-- cancelled stays so over any sequence of operations of buyers and managers.
pub run_all_final :
    (txt : Unicode) (ops : List Operation) (d : Db) (oid : String) (s : AiStatus)
    → OneOrder d.ai.orders
    → is_final s ≡ true
    → status_in oid d.ai.orders ≡ some s
    → status_in oid (run_all txt ops d).ai.orders ≡ some s
run_all_final txt ops d oid s one f at = final_path s f at (run_all-Reaches txt ops d oid one).1
