-- ===== src/Shop/Checkout/Limits.antt =====
-- What the checks of a checkout guarantee: places, free trials, one order for a reference.
use masih_panel.Tx.{trial_used, err, ◌>>=◌, ok}
use masih_panel.Shop.Labels.{Unicode}
use masih_panel.Base.{
  eq_iff, exists-insert_row, if◌then◌else◌, ◌∙◌, some, ==_iff, refl, none, ltb, ◌&&◌, select_one,
  sym, [], ◌||◌, false, subst, inr, count-absent, str_eq, exists, ◌==◌, not, ◌∷◌, arith, ◌⊎◌,
  insert_row, inl, true, String, All, Bool-cases, ◌≡◌, List, ◌≤◌, count, ℕ, count-insert_row,
}
use masih_panel.Store.{Plan, Order, Db}
use masih_panel.Shop.Checkout.Placed.{IsPlaced, order_effect}
use masih_panel.Shop.Checkout.{is_order, takes_place, is_trial_of, OrderArgs, order}

-- Nobody has more than one order of a free trial.
abbrev pub OneTrial : Db → Type 0
OneTrial d = (uid : ℕ) → count (is_trial_of uid) d.orders ≤ 1

-- A trial is placed only for a user who has none.
no_trial_yet :
    (a : OrderArgs) (d e : Db) (uid : ℕ) (h : IsPlaced a d e)
    → is_trial_of uid h.row ≡ true
    → count (is_trial_of uid) d.orders ≡ 0
no_trial_yet a d e uid h t = count-absent (is_trial_of uid) d.orders (
    subst (λ n. exists (is_trial_of n) d.orders ≡ false) buyer
      (ground (arith, h.first_trial, h.is_trial)))
  where
    buyer : a.uid ≡ uid
    buyer = ground (arith, h.buyer)

placed-OneTrial : (a : OrderArgs) (d e : Db) → IsPlaced a d e → OneTrial d → OneTrial e
placed-OneTrial a d e h one uid =
    rw (h.inserted, count-insert_row (is_trial_of uid) h.row d.orders)
      (elim (Bool-cases (is_trial_of uid h.row)) [
        | inl t ↦ rw (t, no_trial_yet a d e uid h t) (omega arith)
        | inr f ↦ rw f (one uid)
      ])

-- Where every user has at most one free trial, a committed checkout leaves it so, whatever the reference
-- and the plan.
pub order-OneTrial :
    (txt : Unicode) (a : OrderArgs) (d e : Db) (r : String)
    → order txt a d ≡ ok (r, e)
    → OneTrial d
    → OneTrial e
order-OneTrial txt a d e r h one = elim (order_effect txt a d e r h).1 [
  | inl old ↦ subst OneTrial (sym old.1) one
  | inr new ↦ placed-OneTrial a d e new one
]

-- No two plans have one number, as the table's primary key demands.
abbrev pub DistinctPlans : List Plan → Type 0
DistinctPlans [] = Unit
DistinctPlans (p ∷ ps) = (exists (λ q. q.id == p.id) ps ≡ false) × DistinctPlans ps

-- The orders that take a place of a plan of limited capacity are no more than its capacity.
abbrev pub Fits : List Order → Plan → Type 0
Fits orders p = (p.capacity ≡ 0) ⊎ (count (takes_place p.id) orders ≤ p.capacity)

pub record IsStocked (d : Db) : Type 0 where
  pub distinct : DistinctPlans d.plans
  pub fits : All (Fits d.orders) d.plans

none_found :
    (pid : ℕ) (ps : List Plan)
    → exists (λ q. q.id == pid) ps ≡ false
    → select_one (λ q. q.id == pid && q.active) ps ≡ none
none_found pid [] h = refl
none_found pid (p ∷ ps) h = ground (arith, none_found pid ps)

found_id :
    (pid : ℕ) (ps : List Plan) (plan : Plan)
    → select_one (λ q. q.id == pid && q.active) ps ≡ some plan
    → (plan.id == pid) ≡ true
found_id pid [] plan h = cc
found_id pid (p ∷ ps) plan h = ground (arith, found_id pid ps plan)

module _ (row : Order) (orders : List Order) where
  -- the plan of the order has a place left, or the order takes none
  abbrev HasRoom : Plan → Type 0
  HasRoom p =
      (not (str_eq row.renew_id "")
        || p.capacity == 0
        || ltb (count (takes_place p.id) orders) p.capacity)
      ≡ true

  other-Fits :
      (p : Plan)
      → (row.plan.plan.id == p.id) ≡ false
      → Fits orders p
      → Fits (insert_row row orders) p
  other-Fits p other (inl z) = inl z
  other-Fits p other (inr f) =
      inr (rw (count-insert_row (takes_place p.id) row orders) (ground (arith, other, f)))

  own-Fits : (p : Plan) → HasRoom p → Fits orders p → Fits (insert_row row orders) p
  own-Fits p room (inl z) = inl z
  own-Fits p room (inr f) = elim (Bool-cases (p.capacity == 0)) [
    | inl z ↦ inl ((==_iff p.capacity 0).0 z)
    | inr nz ↦
        inr (rw (count-insert_row (takes_place p.id) row orders) (ground (arith, room, f, nz)))
  ]

  each-Fits :
      (pid : ℕ) (plan : Plan) (ps : List Plan)
      → row.plan.plan.id ≡ pid
      → DistinctPlans ps
      → HasRoom plan
      → (select_one (λ q. q.id == pid && q.active) ps ≡ some plan)
        ⊎ (exists (λ q. q.id == pid) ps ≡ false)
      → All (Fits orders) ps
      → All (Fits (insert_row row orders)) ps
  each-Fits pid plan [] same dis room at h = tt
  each-Fits pid plan (p ∷ ps) same dis room (inr absent) h = (
    other-Fits p (ground (arith, absent)) h.0,
    each-Fits pid plan ps same dis.1 room (inr (ground (arith, absent))) h.1,
  )
  each-Fits pid plan (p ∷ ps) same dis room (inl at) h = elim (Bool-cases (p.id == pid)) [
    | inl own ↦
        let rest : exists (λ (q : Plan). q.id == pid) ps ≡ false =
          subst (λ n. exists (λ (q : Plan). q.id == n) ps ≡ false) ((==_iff p.id pid).0 own)
            dis.0 in
        let found : plan ≡ p = ground (arith, own, at, none_found pid ps rest) in
        (
          own-Fits p (subst HasRoom found room) h.0,
          each-Fits pid plan ps same dis.1 room (inr rest) h.1,
        )
    | inr other ↦ (
      other-Fits p (ground (arith, other)) h.0,
      each-Fits pid plan ps same dis.1 room (inl (ground (arith, other, at))) h.1,
    )
  ]

placed-IsStocked : (a : OrderArgs) (d e : Db) → IsPlaced a d e → IsStocked d → IsStocked e
placed-IsStocked a d e h v = record {
  distinct = rw h.catalogue v.distinct;
  fits =
      rw (h.catalogue, h.inserted)
        (each-Fits h.row d.orders a.pid h.plan d.plans (h.product ∙ same) v.distinct room
          (inl h.found) v.fits);
}
  where
    same : h.plan.id ≡ a.pid
    same = (==_iff h.plan.id a.pid).0 (found_id a.pid d.plans h.plan h.found)

    room : HasRoom h.row d.orders h.plan
    room =
        subst
          (λ n.
            (not (str_eq h.row.renew_id "")
              || h.plan.capacity == 0
              || ltb (count (takes_place n) d.orders) h.plan.capacity)
            ≡ true)
          (sym same) (ground (arith, h.has_place, h.renews))

-- A committed checkout oversells no plan: if before it the orders that take a place of a plan of limited
-- capacity are no more than its capacity, for every plan, they are so after it.
pub order-IsStocked :
    (txt : Unicode) (a : OrderArgs) (d e : Db) (r : String)
    → order txt a d ≡ ok (r, e)
    → IsStocked d
    → IsStocked e
order-IsStocked txt a d e r h v = elim (order_effect txt a d e r h).1 [
  | inl old ↦ subst IsStocked (sym old.1) v
  | inr new ↦ placed-IsStocked a d e new v
]

now_placed :
    (a : OrderArgs) (d e : Db)
    → ((exists (is_order a.reference) d.orders ≡ true) × (e ≡ d)) ⊎ IsPlaced a d e
    → exists (is_order a.reference) e.orders ≡ true
now_placed a d e (inl (old, same)) = rw same old
now_placed a d e (inr h) =
    rw (h.inserted, exists-insert_row (is_order a.reference) h.row d.orders, h.fresh)
      ((eq_iff h.row.id a.reference).1 h.reference)

repeated :
    (txt : Unicode) (b : OrderArgs) (e : Db)
    → exists (is_order b.reference) e.orders ≡ true
    → order txt b e ≡ (if b.trial then err trial_used else ok (b.reference, e))
unfolding order ◌>>=◌
repeated txt b e known = rw known (ground arith)

-- A checkout is placed once: after it has committed under a reference, a second one under that
-- reference, for whatever user and plan, returns the reference and changes nothing; for a trial it is
-- refused.
pub order_once :
    (txt : Unicode) (a b : OrderArgs) (d e : Db) (r : String)
    → order txt a d ≡ ok (r, e)
    → b.reference ≡ a.reference
    → order txt b e ≡ (if b.trial then err trial_used else ok (b.reference, e))
order_once txt a b d e r h same = repeated txt b e (
    subst (λ n. exists (is_order n) e.orders ≡ true) (sym same)
      (now_placed a d e (order_effect txt a d e r h).1))
