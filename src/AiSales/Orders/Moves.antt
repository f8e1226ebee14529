-- ===== src/AiSales/Orders/Moves.antt =====
-- The buyer's side of an order, as steps of the lifecycle.
use masih_panel.AiSales.Models.{select_model}
use masih_panel.Shop.Labels.{Unicode}
use masih_panel.Tx.Keeps.{
  Keeps-when, Keeps-raise_if, Keeps-gets, Keeps-require, Keeps-bind, Keeps-pure, Keeps,
}
use masih_panel.AiSales.Steps.{own_row, orders-quiet, owned_row, Moved-by, Moved, At}
use masih_panel.Tx.Yields.{
  gets-Yields, Yields-pure, Yields-kept, bind-Yields, keeps-Yields, raise_if-Yields, require-Yields,
  Yields-modify, Yields,
}
use masih_panel.Queue.Frame.{draw-Keeps, insert_message-Keeps, enqueue-Keeps, notify-Keeps, IsQuiet}
use masih_panel.AiSales.Orders.{
  new_ai_order, check_model, choose, insert_ai_order, check_models, with_status, tell_reviewers,
  set_email, tell_all_reviewers, cancel, confirm, is_ai_order, is_own, owned, store_receipt,
}
use masih_panel.AiSales.Lifecycle.{Advanced-insert, Advanced, OneOrder}
use masih_panel.Store.{Modality, AiFamily, AiPlan, Attachment, AiOrder, AiStatus, Db}
use masih_panel.Base.{
  ◌∙◌, insert_row, exists, refl, inl, [], true, ◌∷◌, ap, Option, sym, subst, arith, inr, some,
  select_one, ◌≡◌, String, List, ℕ,
}

tell_reviewers-Keeps :
    {P : Db → Type 0} (q : IsQuiet P) (o : AiOrder) (file : Attachment) (ns : List ℕ)
    → Keeps P (tell_reviewers o file ns)
unfolding tell_reviewers
tell_reviewers-Keeps q o file [] = Keeps-pure tt
tell_reviewers-Keeps q o file (n ∷ ns) =
    Keeps-bind _ _ (insert_message-Keeps q _ _ _ _)
      λ _. Keeps-bind _ _ (enqueue-Keeps q _ _ _ _ _) λ _. tell_reviewers-Keeps q o file ns

module _ {P : Db → Type 0} where
  check_model-Keeps : (p : AiPlan) (op : Modality) → Keeps P (check_model p op)
  unfolding check_model select_model
  check_model-Keeps p op = Keeps-when _ _ (
      Keeps-bind _ _ (Keeps-require _ _)
        λ m. Keeps-bind _ _ (Keeps-gets _) λ connected. Keeps-raise_if _ _)

  check_models-Keeps : (p : AiPlan) → Keeps P (check_models p)
  unfolding check_models
  check_models-Keeps p = Keeps-when _ _ (
      Keeps-bind _ _ (check_model-Keeps p Modality.text) λ _.
        Keeps-bind _ _ (check_model-Keeps p Modality.image) λ _. check_model-Keeps p Modality.video)

module _ (d : Db) (one : OneOrder d.ai.orders) where
  pub store_receipt_moves :
      (uid : ℕ) (oid : String) (file : Option Attachment)
      → Yields (At d one) (store_receipt uid oid file) (λ _ e. Moved d one e)
  unfolding store_receipt owned
  store_receipt_moves uid oid file =
      require-Yields _ _ (select_one (is_own uid oid) d.ai.orders) _
        (λ e h. ap (select_one (is_own uid oid)) h)
        λ row found. raise_if-Yields _ _ _ λ awaiting. raise_if-Yields _ _ _ λ _.
          keeps-Yields _ _ (Keeps-require _ _) λ raw.
            Moved-by d one oid
              (λ n o. record o { receipt = some raw; status = AiStatus.preview; updated = n }) row
              (λ n o. refl) (owned_row d one uid oid row found)
              (λ n. inr (ground (arith, awaiting)))

  pub set_email_moves :
      (txt : Unicode) (uid : ℕ) (oid email : String)
      → Yields (At d one) (set_email txt uid oid email) (λ _ e. Moved d one e)
  unfolding set_email owned
  set_email_moves txt uid oid email =
      require-Yields _ _ (select_one (is_own uid oid) d.ai.orders) _
        (λ e h. ap (select_one (is_own uid oid)) h)
        λ row found. raise_if-Yields _ _ _ λ _. raise_if-Yields _ _ _ λ _.
          Moved-by d one oid (λ n o. record o { email = txt.strip email; updated = n }) row
            (λ n o. refl) (owned_row d one uid oid row found) (λ n. inl refl)

  pub cancel_moves :
      (uid : ℕ) (oid : String) → Yields (At d one) (cancel uid oid) (λ _ e. Moved d one e)
  unfolding cancel owned
  cancel_moves uid oid =
      require-Yields _ _ (select_one (is_own uid oid) d.ai.orders) _
        (λ e h. ap (select_one (is_own uid oid)) h)
        λ row found. raise_if-Yields _ _ _ λ waiting.
          bind-Yields {R = λ _ e. Moved d one e} _ _
            (Moved-by d one row.id (with_status AiStatus.cancelled) row (λ n o. refl)
              (own_row d one uid oid row found) (λ n. inr (ground (arith, waiting))))
            λ _. Yields-kept _ (notify-Keeps (orders-quiet (Advanced d.ai.orders)) _ _ _)

  reviewers-Keeps : (o : AiOrder) (ns : List ℕ) → Keeps (Moved d one) (tell_all_reviewers o ns)
  unfolding tell_all_reviewers
  reviewers-Keeps o [] = Keeps-pure tt
  reviewers-Keeps o (n ∷ ns) =
      Keeps-bind _ _ (Keeps-require _ _)
        λ file. tell_reviewers-Keeps (orders-quiet (Advanced d.ai.orders)) o file (n ∷ ns)

  pub confirm_moves :
      (uid : ℕ) (oid : String) → Yields (At d one) (confirm uid oid) (λ _ e. Moved d one e)
  unfolding confirm owned
  confirm_moves uid oid =
      require-Yields _ _ (select_one (is_own uid oid) d.ai.orders) _
        (λ e h. ap (select_one (is_own uid oid)) h)
        λ row found. raise_if-Yields _ _ _ λ seen.
          bind-Yields {R = λ _ e. Moved d one e} _ _
            (Moved-by d one oid
              (λ n o. record o { status = AiStatus.review; confirmed = true; updated = n }) row
              (λ n o. refl) (owned_row d one uid oid row found) (λ n. inr (ground (arith, seen))))
            λ _. Yields-kept _ (
              Keeps-bind _ _ (Keeps-gets _) λ admins.
                Keeps-bind _ _ (reviewers-Keeps row admins)
                  λ _. enqueue-Keeps (orders-quiet (Advanced d.ai.orders)) _ _ _ _ _)

  insert_moves :
      (ident : String) (uid : ℕ) (p : AiPlan) (f : AiFamily)
      → Yields (At d one) (insert_ai_order ident uid p f) (λ _ e. Moved d one e)
  unfolding insert_ai_order
  insert_moves ident uid p f =
      gets-Yields _ (exists (is_ai_order ident) d.ai.orders) _
        (λ e h. ap (exists (is_ai_order ident)) h)
        λ taken seen. raise_if-Yields _ _ _ λ fresh. Yields-modify _ λ e h.
          subst (λ os. Advanced d.ai.orders (insert_row (new_ai_order ident uid p f e.clock) os))
            (sym h)
            (Advanced-insert (new_ai_order ident uid p f e.clock) d.ai.orders one (sym seen ∙ fresh)
              refl)

  pub choose_moves : (uid pid : ℕ) → Yields (At d one) (choose uid pid) (λ _ e. Moved d one e)
  unfolding choose
  choose_moves uid pid = keeps-Yields _ _ (Keeps-require _ _) λ pf.
      keeps-Yields _ _ (Keeps-raise_if _ _) λ _. keeps-Yields _ _ (Keeps-gets _) λ stocked.
        keeps-Yields _ _ (Keeps-raise_if _ _) λ _. keeps-Yields _ _ (check_models-Keeps pf.0) λ _.
          keeps-Yields _ _ (draw-Keeps (orders-quiet (λ os. os ≡ d.ai.orders))) λ token.
            bind-Yields {R = λ _ e. Moved d one e} _ _ (insert_moves _ uid pf.0 pf.1)
              λ _. Yields-pure _ (λ e h. h)
