-- ===== src/Shop/Plans/Stock.antt =====
-- The plans of the shop and the orders that have bought them.
use masih_panel.Shop.Checkout.{takes_place}
use masih_panel.Shop.Checkout.Limits.{Fits, DistinctPlans}
use masih_panel.Shop.Plans.{is_plan, is_order_of}
use masih_panel.Store.{Plan, Order}
use masih_panel.Base.{
  ℕ, ◌+◌, ◌≤◌, ◌==◌, ltb, ==_iff, true, false, not, ◌&&◌, if◌then◌else◌, List, [], ◌∷◌, All,
  All-append, count, exists, update_where, delete_where, insert_row, next_id, exists-insert_row,
  Bool-cases, inl, inr, ◌≡◌, refl, sym, ◌∙◌, subst, arith,
}

abbrev IsKnown : List Plan → Order → Type 0
IsKnown ps o = exists (is_plan o.plan.plan.id) ps ≡ true

-- The numbers of the plans are distinct, no plan of limited capacity is oversold, and the plan of
-- every order is in the catalogue.
pub record IsCatalogued (ps : List Plan) (os : List Order) : Type 0 where
  pub distinct : DistinctPlans ps
  pub fits : All (Fits os) ps
  pub known : All (IsKnown ps) os

-- an update of the plan of a number that keeps the number
module _ (ident : ℕ) (f : Plan → Plan)
    (same : (p : Plan) → is_plan ident p ≡ true → (f p).id ≡ p.id) where
  exists-edited :
      (n : ℕ) (ps : List Plan)
      → exists (is_plan n) (update_where (is_plan ident) f ps) ≡ exists (is_plan n) ps
  exists-edited n [] = refl
  exists-edited n (p ∷ ps) = elim (Bool-cases (is_plan ident p)) [
    | inl own ↦ rw (own, same p own, exists-edited n ps) refl
    | inr other ↦ rw (other, exists-edited n ps) refl
  ]

  edited-Distinct :
      (ps : List Plan) → DistinctPlans ps → DistinctPlans (update_where (is_plan ident) f ps)
  edited-Distinct [] h = tt
  edited-Distinct (p ∷ ps) h = elim (Bool-cases (is_plan ident p)) [
    | inl own ↦ rw (own, same p own) (exists-edited p.id ps ∙ h.0, edited-Distinct ps h.1)
    | inr other ↦ rw other (exists-edited p.id ps ∙ h.0, edited-Distinct ps h.1)
  ]

  edited-Fits :
      (os : List Order) (ps : List Plan)
      → ((p : Plan) → is_plan ident p ≡ true → Fits os p → Fits os (f p))
      → All (Fits os) ps
      → All (Fits os) (update_where (is_plan ident) f ps)
  edited-Fits os [] new h = tt
  edited-Fits os (p ∷ ps) new h = elim (Bool-cases (is_plan ident p)) [
    | inl own ↦ rw own (new p own h.0, edited-Fits os ps new h.1)
    | inr other ↦ rw other (h.0, edited-Fits os ps new h.1)
  ]

  edited-Known :
      (ps : List Plan) (os : List Order)
      → All (IsKnown ps) os
      → All (IsKnown (update_where (is_plan ident) f ps)) os
  edited-Known ps [] h = tt
  edited-Known ps (o ∷ os) h = (exists-edited o.plan.plan.id ps ∙ h.0, edited-Known ps os h.1)

  pub edited :
      (ps : List Plan) (os : List Order)
      → ((p : Plan) → is_plan ident p ≡ true → Fits os p → Fits os (f p))
      → IsCatalogued ps os
      → IsCatalogued (update_where (is_plan ident) f ps) os
  edited ps os new h = record {
    distinct = edited-Distinct ps h.distinct;
    fits = edited-Fits os ps new h.fits;
    known = edited-Known ps os h.known;
  }

-- the next number is in no row
pub above_next :
    (n : ℕ) (ps : List Plan) → next_id (λ (p : Plan). p.id) ps ≤ n → exists (is_plan n) ps ≡ false
above_next n [] h = refl
above_next n (p ∷ ps) h = elim (Bool-cases (ltb p.id (next_id (λ (p : Plan). p.id) ps))) [
  | inl below ↦
      let low : next_id (λ (q : Plan). q.id) ps ≤ n = ground (arith, h, below) in
      let other : is_plan n p ≡ false = ground (arith, low, below) in rw other (above_next n ps low)
  | inr above ↦
      let low : p.id + 1 ≤ n = ground (arith, h, above) in
      let other : is_plan n p ≡ false = ground (arith, low) in
      rw other (above_next n ps (ground (arith, low, above)))
]

none_bought :
    (n : ℕ) (ps : List Plan) (os : List Order)
    → exists (is_plan n) ps ≡ false
    → All (IsKnown ps) os
    → count (takes_place n) os ≡ 0
none_bought n ps [] absent h = refl
none_bought n ps (o ∷ os) absent h = elim (Bool-cases (o.plan.plan.id == n)) [
  | inl own ↦
      let there : exists (is_plan n) ps ≡ true =
        subst (λ k. exists (is_plan k) ps ≡ true) ((==_iff o.plan.plan.id n).0 own) h.0 in
      ground (arith, absent, there)
  | inr other ↦ rw other (none_bought n ps os absent h.1)
]

-- rows that are deleted
exists-deleted :
    (ident n : ℕ) (ps : List Plan)
    → (n == ident) ≡ false
    → exists (is_plan n) (delete_where (is_plan ident) ps) ≡ exists (is_plan n) ps
exists-deleted ident n [] apart = refl
exists-deleted ident n (p ∷ ps) apart = elim (Bool-cases (is_plan ident p)) [
  | inl own ↦
      let other : is_plan n p ≡ false = ground (arith, apart, own) in
      rw (own, other) (exists-deleted ident n ps apart)
  | inr kept ↦ rw (kept, exists-deleted ident n ps apart) refl
]

deleted-Distinct :
    (ident : ℕ) (ps : List Plan)
    → DistinctPlans ps
    → DistinctPlans (delete_where (is_plan ident) ps)
deleted-Distinct ident [] h = tt
deleted-Distinct ident (p ∷ ps) h = elim (Bool-cases (is_plan ident p)) [
  | inl own ↦ rw own (deleted-Distinct ident ps h.1)
  | inr kept ↦ rw kept (exists-deleted ident p.id ps kept ∙ h.0, deleted-Distinct ident ps h.1)
]

deleted-Fits :
    (ident : ℕ) (os : List Order) (ps : List Plan)
    → All (Fits os) ps
    → All (Fits os) (delete_where (is_plan ident) ps)
deleted-Fits ident os [] h = tt
deleted-Fits ident os (p ∷ ps) h = elim (Bool-cases (is_plan ident p)) [
  | inl own ↦ rw own (deleted-Fits ident os ps h.1)
  | inr kept ↦ rw kept (h.0, deleted-Fits ident os ps h.1)
]

deleted-Known :
    (ident : ℕ) (ps : List Plan) (os : List Order)
    → exists (is_order_of ident) os ≡ false
    → All (IsKnown ps) os
    → All (IsKnown (delete_where (is_plan ident) ps)) os
deleted-Known ident ps [] unused h = tt
deleted-Known ident ps (o ∷ os) unused h =
    let other : is_order_of ident o ≡ false = ground (arith, unused) in
    (
      exists-deleted ident o.plan.plan.id ps other ∙ h.0,
      deleted-Known ident ps os (ground (arith, unused, other)) h.1,
    )

pub deleted :
    (ident : ℕ) (ps : List Plan) (os : List Order)
    → exists (is_order_of ident) os ≡ false
    → IsCatalogued ps os
    → IsCatalogued (delete_where (is_plan ident) ps) os
deleted ident ps os unused h = record {
  distinct = deleted-Distinct ident ps h.distinct;
  fits = deleted-Fits ident os ps h.fits;
  known = deleted-Known ident ps os unused h.known;
}

-- a new row
exists-added :
    (n : ℕ) (q : Plan) (ps : List Plan)
    → exists (is_plan n) (insert_row q ps) ≡ (if exists (is_plan n) ps then true else is_plan n q)
exists-added n q ps = exists-insert_row (is_plan n) q ps

added-Distinct :
    (q : Plan) (ps : List Plan)
    → exists (is_plan q.id) ps ≡ false
    → DistinctPlans ps
    → DistinctPlans (insert_row q ps)
added-Distinct q [] fresh h = (refl, tt)
added-Distinct q (p ∷ ps) fresh h =
    let other : is_plan p.id q ≡ false = ground (arith, fresh) in
    (rw (exists-added p.id q ps, h.0, other) refl, added-Distinct q ps (ground (arith, fresh)) h.1)

added-Known :
    (q : Plan) (ps : List Plan) (os : List Order)
    → All (IsKnown ps) os
    → All (IsKnown (insert_row q ps)) os
added-Known q ps [] h = tt
added-Known q ps (o ∷ os) h =
    (rw (exists-added o.plan.plan.id q ps, h.0) refl, added-Known q ps os h.1)

pub added :
    (q : Plan) (ps : List Plan) (os : List Order)
    → exists (is_plan q.id) ps ≡ false
    → IsCatalogued ps os
    → IsCatalogued (insert_row q ps) os
added q ps os fresh h = record {
  distinct = added-Distinct q ps fresh h.distinct;
  fits =
      All-append (Fits os) ps (q ∷ []) h.fits
        (inr (rw (none_bought q.id ps os fresh h.known) (omega arith)), tt);
  known = added-Known q ps os h.known;
}

-- the check of the capacity that `save_plan` makes
pub room-Fits :
    (os : List Order) (q : Plan) (n c sold : ℕ)
    → q.id ≡ n
    → q.capacity ≡ c
    → sold ≡ count (takes_place n) os
    → (not (c == 0) && ltb c sold) ≡ false
    → Fits os q
room-Fits os q n c sold number size seen room = elim (Bool-cases (c == 0)) [
  | inl z ↦ inl (size ∙ (==_iff c 0).0 z)
  | inr nz ↦ inr (
      subst (λ k. count (takes_place k) os ≤ q.capacity) (sym number)
        (ground (arith, nz, room, seen, size)))
]
