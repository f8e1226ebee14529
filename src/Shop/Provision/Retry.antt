-- ===== src/Shop/Provision/Retry.antt =====
-- What a retried delivery does.
use masih_panel.Shop.Checkout.{is_order}
use masih_panel.Queue.Frame.{draw-Keeps}
use masih_panel.Queue.{draw}
use masih_panel.Tx.Yields.{of_Yields, Yields-modify, bind-Yields, Yields-pure, keeps-Yields, Yields}
use masih_panel.Tx.{ok}
use masih_panel.Tx.Keeps.{Keeps-gets, Keeps-bind, Keeps-pure, Keeps}
use masih_panel.Store.{Service, Target, Order, Db}
use masih_panel.Shop.Provision.{new_target, set_target, reserve, account_data, persist_target}
use masih_panel.Base.{
  select_one-fits, select_one-update_where, ◌∙◌, sym, arith, select_one, refl, inr, ap, inl, none,
  update_where, ◌⊎◌, some, ◌≡◌, Option,
}

draw_same : (d : Db) → Keeps (λ e. e.orders ≡ d.orders) draw
draw_same d =
    draw-Keeps
      record { outbox = λ e o h. h; nav = λ e o h. h; drawn = λ e o h. h; audit_log = λ e o h. h }

account_data_same :
    (d : Db) (o : Order) (old : Option Service)
    → Keeps (λ e. e.orders ≡ d.orders) (account_data o old)
unfolding account_data
account_data_same d o (some v) = Keeps-pure _
account_data_same d o none =
    Keeps-bind _ _ (draw_same d)
      λ a. Keeps-bind _ _ (draw_same d) λ b. Keeps-bind _ _ (draw_same d) λ c. Keeps-pure _

-- The order's row keeps a target that it has, and gets the one that is returned otherwise.
abbrev Persisted : Db → Order → Option Target → Target → Db → Type 0
Persisted d o target t e =
    ((target ≡ some t) × (e.orders ≡ d.orders))
    ⊎ ((target ≡ none) × (e.orders ≡ update_where (is_order o.id) (set_target t) d.orders))

persisted :
    (d : Db) (o : Order) (old : Option Service) (held : Target) (target : Option Target)
    → Yields (λ e. e.orders ≡ d.orders) (persist_target o old held target) (Persisted d o target)
unfolding persist_target
persisted d o old held (some t) = Yields-pure t (λ e h. inl (refl, h))
persisted d o old held none = keeps-Yields _ _ (Keeps-gets _) λ now.
    bind-Yields
      {R = λ _ e.
        e.orders ≡ update_where (is_order o.id) (set_target (new_target o old now held)) d.orders}
      _ _
      (Yields-modify _
        (λ e h. ap (update_where (is_order o.id) (set_target (new_target o old now held))) h))
      λ _. Yields-pure _ (λ e h. inr (refl, h))

reserved :
    (d : Db) (o : Order) → Yields (λ e. e.orders ≡ d.orders) (reserve o) (Persisted d o o.target)
unfolding reserve
reserved d o =
    keeps-Yields _ _ (Keeps-gets _)
      λ old. keeps-Yields _ _ (account_data_same d o old) λ held. persisted d o old held o.target

same_order : (x y : Order) → some x ≡ some y → x ≡ y
same_order x y e = ground (arith, e)

row_target :
    (d e : Db) (o o' : Order) (t : Target)
    → select_one (is_order o.id) d.orders ≡ some o
    → select_one (is_order o.id) e.orders ≡ some o'
    → Persisted d o o.target t e
    → o'.target ≡ some t
row_target d e o o' t row row' (inl (has, same)) =
    ap (λ (x : Order). x.target)
      (same_order o' o (sym row' ∙ ap (select_one (is_order o.id)) same ∙ row))
    ∙ has
row_target d e o o' t row row' (inr (lacks, set)) =
    ap (λ (x : Order). x.target)
      (same_order o' (set_target t o) (
        sym row'
        ∙ ap (select_one (is_order o.id)) set
        ∙ select_one-update_where (is_order o.id) (is_order o.id) (set_target t) o d.orders
            (λ a. refl) row (select_one-fits (is_order o.id) o d.orders row)))

kept_target :
    (f g : Db) (o : Order) (t t' : Target)
    → o.target ≡ some t
    → Persisted f o o.target t' g
    → (t' ≡ t) × (g.orders ≡ f.orders)
kept_target f g o t t' held (inl (has, same)) = (ground (arith, held, has), same)
kept_target f g o t t' held (inr (lacks, set)) = ground (arith, held, lacks)

-- A retry never extends an order twice: once the target of an order was committed, every later attempt
-- on the order's row, in whatever state of the shop, goes for the same target and sets no other.
pub reserve_retry :
    (d e f g : Db) (o o' : Order) (t t' : Target)
    → select_one (is_order o.id) d.orders ≡ some o
    → reserve o d ≡ ok (t, e)
    → select_one (is_order o.id) e.orders ≡ some o'
    → reserve o' f ≡ ok (t', g)
    → (t' ≡ t) × (g.orders ≡ f.orders)
reserve_retry d e f g o o' t t' row first row' second =
    kept_target f g o' t t'
      (row_target d e o o' t row row' (of_Yields _ d (reserved d o) refl first))
      (of_Yields _ f (reserved f o') refl second)
