-- ===== src/AiSales/Steps.antt =====
-- How an operation on the orders of AI takes a step of the lifecycle.
use masih_panel.Tx.{modify}
use masih_panel.Tx.Yields.{Yields-modify, Yields}
use masih_panel.Queue.Frame.{IsQuiet}
use masih_panel.AiSales.Orders.{set_ai_order, is_ai_order, is_own}
use masih_panel.AiSales.Lifecycle.{Advanced-refl, Advanced-update, Step, Advanced, OneOrder}
use masih_panel.Store.{AiOrder, Db}
use masih_panel.Base.{
  select_one-fits, eq_iff, sym, update_where, subst, arith, select_one-narrow, some, select_one,
  ◌≡◌, String, List, ℕ,
}

-- Messages and payments leave the orders alone.
pub orders-quiet : (R : List AiOrder → Type 0) → IsQuiet (λ e. R e.ai.orders)
orders-quiet R = record {
  outbox = λ e o h. h;
  nav = λ e o h. h;
  drawn = λ e o h. h;
  audit_log = λ e o h. h;
}

module _ (d : Db) (one : OneOrder d.ai.orders) where
  abbrev pub At : Db → Type 0
  At e = e.ai.orders ≡ d.ai.orders

  abbrev pub Moved : Db → Type 0
  Moved e = Advanced d.ai.orders e.ai.orders

  pub stayed : Moved d
  stayed = Advanced-refl d.ai.orders one

  pub Moved-by :
      (oid : String) (f : ℕ → AiOrder → AiOrder) (row : AiOrder)
      → ((n : ℕ) (o : AiOrder) → (f n o).id ≡ o.id)
      → select_one (is_ai_order oid) d.ai.orders ≡ some row
      → ((n : ℕ) → Step row.status (f n row).status)
      → Yields At (modify (λ e. set_ai_order oid (f e.clock) e)) (λ _ e. Moved e)
  Moved-by oid f row same found step = Yields-modify _ λ e h.
      subst (λ os. Advanced d.ai.orders (update_where (is_ai_order oid) (f e.clock) os)) (sym h)
        (Advanced-update oid (f e.clock) row d.ai.orders (same e.clock) one found (step e.clock))

  pub owned_row :
      (uid : ℕ) (oid : String) (row : AiOrder)
      → select_one (is_own uid oid) d.ai.orders ≡ some row
      → select_one (is_ai_order oid) d.ai.orders ≡ some row
  owned_row uid oid row found =
      select_one-narrow (is_ai_order oid) (is_own uid oid) row d.ai.orders
        (λ o h. ground (arith, h)) (one oid) found

  -- the same row by its own number
  pub own_row :
      (uid : ℕ) (oid : String) (row : AiOrder)
      → select_one (is_own uid oid) d.ai.orders ≡ some row
      → select_one (is_ai_order row.id) d.ai.orders ≡ some row
  own_row uid oid row found =
      let at : select_one (is_ai_order oid) d.ai.orders ≡ some row = owned_row uid oid row found in
      subst (λ n. select_one (is_ai_order n) d.ai.orders ≡ some row)
        (sym ((eq_iff row.id oid).0 (select_one-fits (is_ai_order oid) row d.ai.orders at))) at
