-- ===== src/AiSales/Delivery/Moves.antt =====
-- Delivery and decision, as steps of the lifecycle.
use masih_panel.Wallet.Apart.{money-apart}
use masih_panel.Queue.Frame.{audit-Keeps, enqueue-Keeps}
use masih_panel.AiSales.Catalog.{is_personal}
use masih_panel.Queue.{enqueue}
use masih_panel.AiSales.Steps.{own_row, stayed, orders-quiet, Moved-by, Moved}
use masih_panel.Tx.Yields.{
  Yields-raise, Yields-kept, Yields-pure, bind-Yields, Yields-if, raise_if-Yields, require-Yields,
  keeps-Yields, Yields,
}
use masih_panel.Tx.{modify}
use masih_panel.AiSales.Orders.{with_status, is_own, is_ai_order, owned}
use masih_panel.Shop.Labels.{Unicode}
use masih_panel.Tx.Keeps.{
  Keeps-when, Keeps-raise_if, Keeps-gets, Keeps-modify, Keeps-require, Keeps-bind, Keeps,
}
use masih_panel.AiSales.Delivery.{
  other, complete, approve, fulfil, reject, Decision, Manager, complete_order, reject_order,
  start_activation, pay_wallet, deliver, mark_fulfilled, deliver_code, admin_decide, deliver_kind,
  decide, deliver_bot,
}
use masih_panel.AiSales.Lifecycle.{Advanced, Step, OneOrder}
use masih_panel.Store.{AiStatus, Button, AiKind, Notice, AiOrder, Chat, Db}
use masih_panel.Base.{
  select_one-fits, eq_iff, arith, sym, subst, inr, ap, true, false, ◌∙◌, Option, some, refl, List,
  String, select_one, ◌≡◌, ℕ,
}

module _ (d : Db) (one : OneOrder d.ai.orders) where
  abbrev Kept : Db → Type 0
  Kept e = e.ai.orders ≡ d.ai.orders

  aside_orders : (f : Db → Db) → ((e : Db) → (f e).ai.orders ≡ e.ai.orders) → Keeps Kept (modify f)
  aside_orders f same = Keeps-modify f (λ e h. same e ∙ h)

  send-Kept :
      (chat : Chat) (notice : Notice) (keys : List (List Button)) (key : Option String)
      → Keeps Kept (enqueue chat notice keys key true)
  send-Kept chat notice keys key =
      enqueue-Keeps (orders-quiet (λ os. os ≡ d.ai.orders)) chat notice keys key true

  mark_moves :
      (o : AiOrder)
      → select_one (is_ai_order o.id) d.ai.orders ≡ some o
      → Step o.status AiStatus.fulfilled
      → Yields Kept (mark_fulfilled o.id) (λ _ e. Moved d one e)
  unfolding mark_fulfilled
  mark_moves o found step = Moved-by d one o.id fulfil o (λ n p. refl) found (λ n. step)

  deliver_bot-Kept : (o : AiOrder) → Keeps Kept (deliver_bot o)
  unfolding deliver_bot
  deliver_bot-Kept o = Keeps-bind _ _ (aside_orders _ (λ e. refl)) λ _. send-Kept _ _ _ _

  deliver_code-Kept : (o : AiOrder) → Keeps Kept (deliver_code o)
  unfolding deliver_code
  deliver_code-Kept o = Keeps-bind _ _ (Keeps-require _ _) λ x.
      Keeps-bind _ _ (Keeps-gets _) λ dealt.
        Keeps-bind _ _ (Keeps-raise_if _ _)
          λ _. Keeps-bind _ _ (aside_orders _ (λ e. refl)) λ _. send-Kept _ _ _ _

  deliver_kind_moves :
      (o : AiOrder) (k : AiKind)
      → select_one (is_ai_order o.id) d.ai.orders ≡ some o
      → (is_personal k ≡ false → Step o.status AiStatus.fulfilled)
      → (is_personal k ≡ true → Step o.status AiStatus.activating)
      → Yields Kept (deliver_kind o k) (λ _ e. Moved d one e)
  unfolding deliver_kind start_activation
  deliver_kind_moves o AiKind.bot found done start =
      keeps-Yields _ _ (deliver_bot-Kept o) λ _. mark_moves o found (done refl)
  deliver_kind_moves o AiKind.ready found done start =
      keeps-Yields _ _ (deliver_code-Kept o) λ _. mark_moves o found (done refl)
  deliver_kind_moves o AiKind.personal found done start =
      bind-Yields {R = λ _ e. Moved d one e} _ _
        (Moved-by d one o.id (with_status AiStatus.activating) o (λ n p. refl) found
          (λ n. start refl))
        λ _. Yields-kept _ (enqueue-Keeps (orders-quiet (Advanced d.ai.orders)) _ _ _ _ _)

  deliver_moves :
      (o : AiOrder)
      → select_one (is_ai_order o.id) d.ai.orders ≡ some o
      → (is_personal o.snapshot.plan.kind ≡ false → Step o.status AiStatus.fulfilled)
      → (is_personal o.snapshot.plan.kind ≡ true → Step o.status AiStatus.activating)
      → Yields Kept (deliver o) (λ _ e. Moved d one e)
  unfolding deliver
  deliver_moves o found done start =
      Yields-if _ _ _
        (λ _. Yields-pure tt (λ e h. subst (Advanced d.ai.orders) (sym h) (stayed d one)))
        (λ _. deliver_kind_moves o o.snapshot.plan.kind found done start)

  decide_moves :
      (txt : Unicode) (o : AiOrder) (c : Decision)
      → select_one (is_ai_order o.id) d.ai.orders ≡ some o
      → Yields Kept (decide txt o c) (λ _ e. Moved d one e)
  unfolding decide reject_order complete_order
  decide_moves txt o (reject reason) found = raise_if-Yields _ _ _ λ waits.
      raise_if-Yields _ _ _ λ _.
        bind-Yields {R = λ _ e. Moved d one e} _ _
          (Moved-by d one o.id
            (λ n r. record r { status = AiStatus.rejected; reason = txt.strip reason; updated = n })
            o (λ n p. refl) found (λ n. inr (ground (arith, waits))))
          λ _. Yields-kept _ (enqueue-Keeps (orders-quiet (Advanced d.ai.orders)) _ _ _ _ _)
  decide_moves txt o approve found = raise_if-Yields _ _ _ λ waits.
      deliver_moves o found (λ _. inr (ground (arith, waits))) (λ _. inr (ground (arith, waits)))
  decide_moves txt o complete found = raise_if-Yields _ _ _ λ waits.
      bind-Yields {R = λ _ e. Moved d one e} _ _ (mark_moves o found (inr (ground (arith, waits))))
        λ _. Yields-kept _ (enqueue-Keeps (orders-quiet (Advanced d.ai.orders)) _ _ _ _ _)
  decide_moves txt o other found = Yields-raise _

  pub admin_decide_moves :
      (txt : Unicode) (who : Manager) (oid : String) (c : Decision)
      → Yields Kept (admin_decide txt who oid c) (λ _ e. Moved d one e)
  unfolding admin_decide
  admin_decide_moves txt who oid c = keeps-Yields _ _ (Keeps-gets _) λ s. raise_if-Yields _ _ _ λ _.
      require-Yields _ _ (select_one (is_ai_order oid) d.ai.orders) _
        (λ e h. ap (select_one (is_ai_order oid)) h)
        λ row found.
          bind-Yields {R = λ _ e. Moved d one e} _ _
            (decide_moves txt row c (
              subst (λ n. select_one (is_ai_order n) d.ai.orders ≡ some row)
                (sym
                  ((eq_iff row.id oid).0 (select_one-fits (is_ai_order oid) row d.ai.orders found)))
                found))
            λ _. Yields-kept _ (audit-Keeps (orders-quiet (Advanced d.ai.orders)) _ _)

  pub pay_wallet_moves :
      (uid : ℕ) (oid : String) → Yields Kept (pay_wallet uid oid) (λ _ e. Moved d one e)
  unfolding pay_wallet owned
  pay_wallet_moves uid oid =
      require-Yields _ _ (select_one (is_own uid oid) d.ai.orders) _
        (λ e h. ap (select_one (is_own uid oid)) h)
        λ row found. raise_if-Yields _ _ _ λ fits. raise_if-Yields _ _ _ λ _.
          keeps-Yields _ _ (Keeps-when _ _ (money-apart Kept (λ e us es h. h) uid _ _ _)) λ _.
            bind-Yields {R = λ _ e. Moved d one e} _ _
              (deliver_moves row (own_row d one uid oid row found) (λ _. inr (ground (arith, fits)))
                (λ p. ground (arith, fits, p)))
              λ _. Yields-kept _ (Keeps-modify _ (λ e h. h))
