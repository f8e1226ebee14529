-- ===== src/Shop/Plans/Edits.antt =====
-- The edits of the catalogue by the admin.
use masih_panel.Shop.Checkout.{takes_place}
use masih_panel.Shop.Plans.{
  is_plan, is_order_of, PlanForm, ListedInbound, edit_plan, insert_plan, write_plan, check_inbounds,
  save_plan, plan_toggle, plan_delete,
}
use masih_panel.Shop.Labels.{Unicode}
use masih_panel.Queue.Frame.{IsQuiet, audit-Keeps}
use masih_panel.Tx.Keeps.{
  Returns, Keeps-if, Keeps-pure, Keeps-gets, Keeps-require, Keeps-raise_if, Keeps-modify,
  Keeps-bind, Keeps-when,
}
use masih_panel.Tx.Yields.{
  Yields, Yields-modify, Yields-pure, Yields-kept, bind-Yields, keeps-Yields, gets-Yields,
  raise_if-Yields,
}
use masih_panel.Tx.{settle, Result, ok, err}
use masih_panel.Store.{Db, Plan, Order}
use masih_panel.Base.{
  ℕ, ==_iff, Bool, false, List, Option, none, some, count, exists, update_where, delete_where,
  insert_row, next_id, ◌≡◌, refl, sym, ap, ◌∙◌, subst, arith,
}
use masih_panel.Shop.Plans.Stock.{IsCatalogued, edited, deleted, added, above_next, room-Fits}

catalogue-quiet : (R : List Plan → List Order → Type 0) → IsQuiet (λ e. R e.plans e.orders)
catalogue-quiet R = record {
  outbox = λ e o h. h;
  nav = λ e o h. h;
  drawn = λ e o h. h;
  audit_log = λ e o h. h;
}

abbrev Catalogued : Db → Type 0
Catalogued e = IsCatalogued e.plans e.orders

module _ (d : Db) (h : Catalogued d) where
  abbrev AtShop : Db → Type 0
  AtShop e = (e.plans ≡ d.plans) × (e.orders ≡ d.orders)

  -- where the shop is as it was, what holds of the changed plans holds of the new state
  written :
      (f : List Plan → List Plan) (e : Db)
      → AtShop e
      → IsCatalogued (f d.plans) d.orders
      → IsCatalogued (f e.plans) e.orders
  written f e same k =
      subst (λ ps. IsCatalogued (f ps) e.orders) (sym same.0)
        (subst (IsCatalogued (f d.plans)) (sym same.1) k)

  edit_yields :
      (ident : ℕ) (form : PlanForm) (row : ℕ → Plan)
      → (row ident).id ≡ ident
      → (row ident).capacity ≡ form.capacity
      → Yields AtShop (edit_plan ident form row) (λ _ e. Catalogued e)
  unfolding edit_plan
  edit_yields ident form row number size = raise_if-Yields _ _ _ λ _.
      keeps-Yields _ _ (Keeps-require _ _) λ p. keeps-Yields _ _ (Keeps-gets _) λ used.
        raise_if-Yields _ _ _ λ _.
          gets-Yields _ (count (takes_place ident) d.orders) _
            (λ e s. ap (count (takes_place ident)) s.1)
            λ sold seen. raise_if-Yields _ _ _ λ room.
              bind-Yields {R = λ _ e. Catalogued e} _ _
                (Yields-modify _ λ e s.
                  written (update_where (is_plan ident) (λ _. row ident)) e s (
                    edited ident (λ _. row ident)
                      (λ p own. number ∙ sym ((==_iff p.id ident).0 own)) d.plans d.orders
                      (λ p own k.
                        room-Fits d.orders (row ident) ident form.capacity sold number size seen
                          room)
                      h))
                λ _. Yields-pure _ (λ e k. k)

  insert_yields :
      (row : ℕ → Plan)
      → ((n : ℕ) → (row n).id ≡ n)
      → Yields AtShop (insert_plan row) (λ _ e. Catalogued e)
  unfolding insert_plan
  insert_yields row number =
      gets-Yields _ (next_id (λ (p : Plan). p.id) d.plans) _
        (λ e s. ap (next_id (λ (p : Plan). p.id)) s.0)
        λ ident seen.
          bind-Yields {R = λ _ e. Catalogued e} _ _
            (Yields-modify _ λ e s. written (insert_row (row ident)) e s (
              added (row ident) d.plans d.orders
                (subst (λ k. exists (is_plan k) d.plans ≡ false) (sym (number ident))
                  (above_next ident d.plans (omega (arith, seen))))
                h))
            λ _. Yields-pure _ (λ e k. k)

  write_yields :
      (ident : Option ℕ) (form : PlanForm) (row : ℕ → Plan)
      → ((n : ℕ) → (row n).id ≡ n)
      → ((n : ℕ) → (row n).capacity ≡ form.capacity)
      → Yields AtShop (write_plan ident form row) (λ _ e. Catalogued e)
  unfolding write_plan
  write_yields none form row number size = insert_yields row number
  write_yields (some ident) form row number size =
      edit_yields ident form row (number ident) (size ident)

  save_yields :
      (txt : Unicode) (listed : List ListedInbound) (form : PlanForm)
      → Yields AtShop (save_plan txt listed form) (λ _ e. Catalogued e)
  unfolding save_plan check_inbounds
  save_yields txt listed form = keeps-Yields _ _ (Keeps-require _ _) λ protocol.
      raise_if-Yields _ _ _ λ _. raise_if-Yields _ _ _ λ _. raise_if-Yields _ _ _ λ _.
        raise_if-Yields _ _ _ λ _. raise_if-Yields _ _ _ λ _.
          keeps-Yields _ _ (Keeps-if _ _ _ (Keeps-raise_if _ _) (Keeps-raise_if _ _)) λ _.
            raise_if-Yields _ _ _ λ _.
              bind-Yields {R = λ _ e. Catalogued e} _ _
                (write_yields form.id form _ (λ n. refl) (λ n. refl))
                λ ident. Yields-kept _ (
                  Keeps-bind _ _ (Keeps-gets _) λ s.
                    Keeps-bind _ _ (Keeps-when _ _ (Keeps-modify _ (λ e k. k))) λ _.
                      Keeps-bind _ _ (audit-Keeps (catalogue-quiet IsCatalogued) _ _)
                        λ _. Keeps-pure ident)

  toggle_yields :
      (ident : ℕ) (enabled : Bool) → Yields AtShop (plan_toggle ident enabled) (λ _ e. Catalogued e)
  unfolding plan_toggle
  toggle_yields ident enabled = raise_if-Yields _ _ _ λ _. keeps-Yields _ _ (Keeps-require _ _) λ p.
      bind-Yields {R = λ _ e. Catalogued e} _ _
        (Yields-modify _ λ e s.
          written (update_where (is_plan ident) (λ q. record q { active = enabled })) e s (
            edited ident (λ q. record q { active = enabled }) (λ q own. refl) d.plans d.orders
              (λ q own k. k) h))
        λ _. Yields-kept _ (
          Keeps-bind _ _ (Keeps-when _ _ (Keeps-modify _ (λ e k. k)))
            λ _. audit-Keeps (catalogue-quiet IsCatalogued) _ _)

  delete_yields : (ident : ℕ) → Yields AtShop (plan_delete ident) (λ _ e. Catalogued e)
  unfolding plan_delete
  delete_yields ident = raise_if-Yields _ _ _ λ _. keeps-Yields _ _ (Keeps-require _ _) λ p.
      gets-Yields _ (exists (is_order_of ident) d.orders) _
        (λ e s. ap (exists (is_order_of ident)) s.1)
        λ used seen. raise_if-Yields _ _ _ λ unused.
          bind-Yields {R = λ _ e. Catalogued e} _ _
            (Yields-modify _ λ e s.
              written (delete_where (is_plan ident)) e s
                (deleted ident d.plans d.orders (sym seen ∙ unused) h))
            λ _. Yields-kept _ (audit-Keeps (catalogue-quiet IsCatalogued) _ _)

settled_either :
    {A : Type 0} (d : Db) (r : Result (A × Db))
    → Catalogued d
    → Returns (λ _ e. Catalogued e) r
    → Catalogued (settle d r)
settled_either d (ok (a, e)) h y = y
settled_either d (err x) h y = h

-- An edit of the catalogue by the admin.
pub data Edit : Type 0 where
  saves : (form : PlanForm) → Edit
  toggles : (ident : ℕ) (enabled : Bool) → Edit
  deletes : (ident : ℕ) → Edit

unfoldable pub edit : Unicode → List ListedInbound → Edit → Db → Db
edit txt listed (saves form) d = settle d (save_plan txt listed form d)
edit txt listed (toggles ident enabled) d = settle d (plan_toggle ident enabled d)
edit txt listed (deletes ident) d = settle d (plan_delete ident d)

-- If the numbers of the plans are distinct, no plan of limited capacity is oversold and the plan of
-- every order is in the catalogue, then this is so after the admin saves, switches or deletes a plan,
-- whether the action commits or is refused.
pub edit-IsCatalogued :
    (txt : Unicode) (listed : List ListedInbound) (a : Edit) (d : Db)
    → IsCatalogued d.plans d.orders
    → IsCatalogued (edit txt listed a d).plans (edit txt listed a d).orders
unfolding edit
edit-IsCatalogued txt listed (saves form) d h =
    settled_either d (save_plan txt listed form d) h
      ((save_yields d h txt listed form).at d (refl, refl))
edit-IsCatalogued txt listed (toggles ident enabled) d h =
    settled_either d (plan_toggle ident enabled d) h
      ((toggle_yields d h ident enabled).at d (refl, refl))
edit-IsCatalogued txt listed (deletes ident) d h =
    settled_either d (plan_delete ident d) h ((delete_yields d h ident).at d (refl, refl))
