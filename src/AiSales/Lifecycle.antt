-- ===== src/AiSales/Lifecycle.antt =====
-- The life of an order of AI: which status may follow which.
use masih_panel.AiSales.Orders.{is_ai_order}
use masih_panel.Store.{AiOrder, AiStatus}
use masih_panel.Base.{
  select_one-insert_apart, select_one-insert_row, select_one-absent, count-absent, arith,
  count-insert_row, sym, inr, eq_iff, subst, select_one-fits, Bool-cases, ap, insert_row,
  count-update_where, select_one-update_apart, refl, select_one-update_where, update_where, false,
  none, ◌≤◌, str_eq, true, ◌⊎◌, inl, ◌≡◌, count, exists, Bool, select_one, some, String, Option,
  List,
}

-- the lifecycle that the shop promises
abbrev pub may_move : AiStatus → AiStatus → Bool
may_move AiStatus.awaiting_receipt AiStatus.preview = true
may_move AiStatus.awaiting_receipt AiStatus.fulfilled = true
may_move AiStatus.awaiting_receipt AiStatus.cancelled = true
may_move AiStatus.preview AiStatus.review = true
may_move AiStatus.preview AiStatus.cancelled = true
may_move AiStatus.review AiStatus.activating = true
may_move AiStatus.review AiStatus.fulfilled = true
may_move AiStatus.review AiStatus.rejected = true
may_move AiStatus.activating AiStatus.fulfilled = true
may_move _ _ = false

-- A status stays, or goes one step.
abbrev pub Step : AiStatus → AiStatus → Type 0
Step s t = (s ≡ t) ⊎ (may_move s t ≡ true)

-- An order that is not there may come into being, as one that awaits its receipt; none goes away.
abbrev pub Evolves : Option AiStatus → Option AiStatus → Type 0
Evolves none none = Unit
Evolves none (some t) = t ≡ AiStatus.awaiting_receipt
Evolves (some s) (some t) = Step s t
Evolves (some s) none = true ≡ false

-- the status of an order, if there is one of that number
abbrev pub status_of : Option AiOrder → Option AiStatus
status_of none = none
status_of (some o) = some o.status

abbrev pub status_in : String → List AiOrder → Option AiStatus
status_in oid os = status_of (select_one (is_ai_order oid) os)

-- the column `id` is the primary key
abbrev pub OneOrder : List AiOrder → Type 0
OneOrder os = (oid : String) → count (is_ai_order oid) os ≤ 1

pub record Advanced (before after : List AiOrder) : Type 0 where
  pub keys : OneOrder after
  pub moves : (oid : String) → Evolves (status_in oid before) (status_in oid after)

Evolves-refl : (o : Option AiStatus) → Evolves o o
Evolves-refl none = tt
Evolves-refl (some s) = inl refl

pub Advanced-refl : (os : List AiOrder) → OneOrder os → Advanced os os
Advanced-refl os one = record { keys = one; moves = λ oid. Evolves-refl (status_in oid os) }

evolved :
    (o p : Option AiOrder) (o' p' : Option AiOrder)
    → o ≡ o'
    → p ≡ p'
    → Evolves (status_of o') (status_of p')
    → Evolves (status_of o) (status_of p)
evolved o p o' p' e f h =
    subst (λ q. Evolves (status_of q) (status_of p)) (sym e)
      (subst (λ q. Evolves (status_of o') (status_of q)) (sym f) h)

moved_here :
    (oid : String) (f : AiOrder → AiOrder) (row : AiOrder) (os : List AiOrder)
    → ((o : AiOrder) → (f o).id ≡ o.id)
    → select_one (is_ai_order oid) os ≡ some row
    → Step row.status (f row).status
    → Evolves (status_in oid os) (status_in oid (update_where (is_ai_order oid) f os))
moved_here oid f row os same found step =
    evolved (select_one (is_ai_order oid) os) _ (some row) (some (f row)) found
      (select_one-update_where (is_ai_order oid) (is_ai_order oid) f row os
        (λ o. ap (λ n. str_eq n oid) (same o)) found
        (select_one-fits (is_ai_order oid) row os found))
      step

moved_elsewhere :
    (oid other : String) (f : AiOrder → AiOrder) (os : List AiOrder)
    → ((o : AiOrder) → (f o).id ≡ o.id)
    → str_eq oid other ≡ false
    → Evolves (status_in other os) (status_in other (update_where (is_ai_order oid) f os))
moved_elsewhere oid other f os same apart =
    evolved (select_one (is_ai_order other) os) _ _ _ refl
      (select_one-update_apart (is_ai_order other) (is_ai_order oid) f os
        (λ o. ap (λ n. str_eq n other) (same o))
        (λ o h. ground (arith, h, apart, eq_iff o.id other, eq_iff o.id oid, eq_iff oid other)))
      (Evolves-refl (status_in other os))

-- A step of the one order of a number.
pub Advanced-update :
    (oid : String) (f : AiOrder → AiOrder) (row : AiOrder) (os : List AiOrder)
    → ((o : AiOrder) → (f o).id ≡ o.id)
    → OneOrder os
    → select_one (is_ai_order oid) os ≡ some row
    → Step row.status (f row).status
    → Advanced os (update_where (is_ai_order oid) f os)
Advanced-update oid f row os same one found step = record {
  keys = λ other.
      rw
        (count-update_where (is_ai_order other) f (λ o. ap (λ n. str_eq n other) (same o))
          (is_ai_order oid) os)
        (one other);
  moves = λ other. elim (Bool-cases (str_eq oid other)) [
    | inl here ↦
        subst (λ n. Evolves (status_in n os) (status_in n (update_where (is_ai_order oid) f os)))
          ((eq_iff oid other).0 here) (moved_here oid f row os same found step)
    | inr apart ↦ moved_elsewhere oid other f os same apart
  ];
}

-- A new order.
pub Advanced-insert :
    (row : AiOrder) (os : List AiOrder)
    → OneOrder os
    → exists (is_ai_order row.id) os ≡ false
    → row.status ≡ AiStatus.awaiting_receipt
    → Advanced os (insert_row row os)
Advanced-insert row os one fresh start = record {
  keys = λ oid.
      rw (count-insert_row (is_ai_order oid) row os) (elim (Bool-cases (str_eq row.id oid)) [
        | inl here ↦ rw (here, count-absent (is_ai_order oid) os (absent oid here)) (omega arith)
        | inr apart ↦ rw apart (one oid)
      ]);
  moves = λ oid. elim (Bool-cases (str_eq row.id oid)) [
    | inl here ↦
        evolved (select_one (is_ai_order oid) os) _ none (some row)
          (select_one-absent (is_ai_order oid) os (absent oid here))
          (select_one-insert_row (is_ai_order oid) row os
            (select_one-absent (is_ai_order oid) os (absent oid here)) here)
          start
    | inr apart ↦
        evolved (select_one (is_ai_order oid) os) _ _ _ refl
          (select_one-insert_apart (is_ai_order oid) row os apart) (Evolves-refl (status_in oid os))
  ];
}
  where
    absent : (oid : String) → str_eq row.id oid ≡ true → exists (is_ai_order oid) os ≡ false
    absent oid here =
        subst (λ n. exists (is_ai_order n) os ≡ false) ((eq_iff row.id oid).0 here) fresh
