-- ===== src/Shop/Plans.antt =====
-- The plans of the shop in runtime/sales.py: `save_plan`, `plan_overview`, `repair_stale_inbound_plans`
-- and the actions `plan_toggle` and `plan_delete` of `admin`.
pub mod Stock
pub mod Edits
use masih_panel.Base.Text.{str, nonempty, mem_text}
use masih_panel.Queue.{audit}
use masih_panel.Shop.Checkout.{takes_place, same_protocol}
use masih_panel.Shop.Inbounds.{has_id, resolve_inbound_ids}
use masih_panel.Shop.Labels.{Unicode, char_count}
use masih_panel.Tx.{
  Tx, Result, ok, bad_plan, bad_text, bad_number, bad_plan_inbounds, plan_missing, trial_fixed,
  capacity_below_sold, plan_used, pure, gets, require, lift, ◌>>=◌, ◌>>◌, raise_if, modify, when,
}
use masih_panel.Store.{Db, Plan, Order, OrderStatus, Protocol}
use masih_panel.Base.{
  ◌&&◌, ◌&&◌, ◌&&◌, ◌&&◌, ◌&&◌, ◌&&◌, ◌&&◌, ◌&&◌, ◌&&◌, ◌&&◌, ◌&&◌, ◌&&◌, ◌&&◌, ◌&&◌, ◌&&◌, ◌&&◌,
  ◌&&◌, ◌&&◌, ◌&&◌, ◌&&◌, ◌&&◌, ◌&&◌, ◌&&◌, ◌&&◌, ◌&&◌, ◌&&◌, ◌&&◌, ◌&&◌, ◌&&◌, ◌&&◌, ◌&&◌, ◌&&◌,
  ◌&&◌, ◌&&◌, ◌&&◌, ◌&&◌, ◌&&◌, ◌&&◌, ◌&&◌, ◌&&◌, in_range, ℕ, ◌+◌, ◌-◌, ◌==◌, ltb, Bool, true,
  false, not, ◌&&◌, ◌||◌, if◌then◌else◌, String, ◌<>◌, List, [], ◌∷◌, Option, none, some, length,
  count, exists, select_one, select_all, update_where, delete_where, insert_row, next_id,
}

-- A form of a plan with values of the right types; `protocol` is missing for an unknown one.
pub record PlanForm : Type 0 where
  pub id : Option ℕ
  pub name : String
  pub category : String
  pub protocol : Option Protocol
  pub inbounds : List ℕ
  pub gb : ℕ
  pub price : ℕ
  pub days : ℕ
  pub capacity : ℕ
  pub active : Bool
  pub is_trial : Bool

-- a row of `inbound_list()`, which asks the panel
pub record ListedInbound : Type 0 where
  pub id : ℕ
  pub protocol : String
  pub enabled : Bool

abbrev xray_protocols : List String
xray_protocols = "vless" ∷ "vmess" ∷ "trojan" ∷ "shadowsocks" ∷ "hysteria" ∷ "tuic" ∷ []

abbrev pub is_offered : List ListedInbound → ℕ → Bool
is_offered listed n =
    exists (λ i. i.id == n && i.enabled && mem_text i.protocol xray_protocols) listed

abbrev pub is_subset : (ℕ → Bool) → List ℕ → Bool
is_subset p [] = true
is_subset p (n ∷ ns) = p n && is_subset p ns

abbrev all_distinct : List ℕ → Bool
all_distinct [] = true
all_distinct (n ∷ ns) = not (has_id n ns) && all_distinct ns

-- `2**31-1`
abbrev max_id : ℕ
max_id = 2147483647

abbrev is_none : List ℕ → Bool
is_none [] = true
is_none (n ∷ ns) = false

-- the inbounds and the traffic that fit the protocol
pub check_inbounds : List ListedInbound → Protocol → PlanForm → Tx Db (Unit {0})
check_inbounds listed protocol form =
    if same_protocol protocol Protocol.xray
    then raise_if (is_none form.inbounds || not (is_subset (is_offered listed) form.inbounds))
        bad_plan_inbounds
    else raise_if (not (is_none form.inbounds) || not (form.gb == 0)) bad_plan_inbounds

-- `json_extract(plan,'$.id')=?`
abbrev pub is_order_of : ℕ → Order → Bool
is_order_of pid o = o.plan.plan.id == pid

abbrev pub is_plan : ℕ → Plan → Bool
is_plan pid p = p.id == pid

abbrev same_flag : Bool → Bool → Bool
same_flag a b = if a then b else not b

abbrev pub plan_row : ℕ → PlanForm → Protocol → String → String → Plan
plan_row ident form protocol name category = record {
  id = ident;
  name = name;
  category = category;
  protocol = protocol;
  price = if form.is_trial then 0 else form.price;
  days = form.days;
  gb = form.gb;
  inbounds = form.inbounds;
  capacity = form.capacity;
  active = form.active;
  is_trial = form.is_trial;
}

-- `put(c,"trial",True)`
abbrev open_trials : Db → Db
open_trials d = record d { settings = record d.settings { trial = true } }

pub edit_plan : ℕ → PlanForm → (ℕ → Plan) → Tx Db ℕ
edit_plan ident form row = do
  raise_if (not (in_range 1 max_id ident)) bad_number
  p ← require plan_missing (λ d. select_one (is_plan ident) d.plans)
  used ← gets (λ d. exists (is_order_of ident) d.orders)
  raise_if (not (same_flag p.is_trial form.is_trial) && used) trial_fixed
  sold ← gets (λ d. count (takes_place ident) d.orders)
  raise_if (not (form.capacity == 0) && ltb form.capacity sold) capacity_below_sold
  modify (λ d. record d { plans = update_where (is_plan ident) (λ _. row ident) d.plans })
  pure ident

pub insert_plan : (ℕ → Plan) → Tx Db ℕ
insert_plan row = do
  ident ← gets (λ d. next_id (λ (p : Plan). p.id) d.plans)
  modify (λ d. record d { plans = insert_row (row ident) d.plans })
  pure ident

pub write_plan : Option ℕ → PlanForm → (ℕ → Plan) → Tx Db ℕ
unfolding edit_plan insert_plan
write_plan none form row = insert_plan row
write_plan (some ident) form row = edit_plan ident form row

-- `save_plan(c, p)`; "general" stands for the default category
unfoldable pub save_plan : Unicode → List ListedInbound → PlanForm → Tx Db ℕ
unfolding check_inbounds write_plan
save_plan txt listed form = do
  protocol ← require bad_plan (λ d. form.protocol)
  raise_if (ltb 100 (char_count form.name) || ltb 100 (char_count form.category)) bad_text
  let name = txt.strip form.name
  raise_if (not (nonempty name)) bad_plan
  let category = if nonempty (txt.strip form.category) then txt.strip form.category else "general"
  raise_if (not (is_subset (in_range 1 max_id) form.inbounds)) bad_number
  raise_if (not (all_distinct form.inbounds)) bad_plan_inbounds
  raise_if (ltb 100000 form.gb) bad_number
  check_inbounds listed protocol form
  raise_if
      (ltb 1000000000000 form.price || not (in_range 1 3650 form.days) || ltb 1000000 form.capacity)
      bad_number
  ident ← write_plan form.id form (λ n. plan_row n form protocol name category)
  s ← gets (λ d. d.settings)
  when (form.is_trial && form.active && not s.trial) (modify open_trials)
  audit "plan_saved" (str ident)
  pure ident

-- the action `plan_toggle`, with the audit that ends `admin`
unfoldable pub plan_toggle : ℕ → Bool → Tx Db (Unit {0})
plan_toggle ident enabled = do
  raise_if (not (in_range 1 max_id ident)) bad_number
  p ← require plan_missing (λ d. select_one (is_plan ident) d.plans)
  modify (λ d. record d {
    plans = update_where (is_plan ident) (λ q. record q { active = enabled }) d.plans;
  })
  when (enabled && p.is_trial) (modify open_trials)
  audit "plan_toggle" "admin operation"

-- the action `plan_delete`
unfoldable pub plan_delete : ℕ → Tx Db (Unit {0})
plan_delete ident = do
  raise_if (not (in_range 1 max_id ident)) bad_number
  p ← require plan_missing (λ d. select_one (is_plan ident) d.plans)
  used ← gets (λ d. exists (is_order_of ident) d.orders)
  raise_if used plan_used
  modify (λ d. record d {
    quotes = delete_where (λ q. q.plan_id == ident) d.quotes;
    plans = delete_where (is_plan ident) d.plans;
  })
  audit "plan_delete" "admin operation"

-- A row of `plan_overview`; `remaining` is missing for a plan without a limit.
pub record PlanOverview : Type 0 where
  pub plan : Plan
  pub has_history : Bool
  pub sold : ℕ
  pub delivered : ℕ
  pub pending : ℕ
  pub remaining : Option ℕ

abbrev is_delivered : OrderStatus → Bool
is_delivered OrderStatus.fulfilled = true
is_delivered _ = false

abbrev is_pending : OrderStatus → Bool
is_pending OrderStatus.fulfilled = false
is_pending OrderStatus.cancelled = false
is_pending _ = true

abbrev left_of : ℕ → ℕ → Option ℕ
left_of capacity sold = if capacity == 0 then none else some (capacity - sold)

unfoldable pub overview_of : List Order → Plan → PlanOverview
overview_of orders p =
    let sold = count (takes_place p.id) orders in
    record {
      plan = p;
      has_history = exists (is_order_of p.id) orders;
      sold = sold;
      delivered = count (λ o. takes_place p.id o && is_delivered o.status) orders;
      pending = count (λ o. takes_place p.id o && is_pending o.status) orders;
      remaining = left_of p.capacity sold;
    }

-- the live inbounds of a plan, none if all are gone
pub live_inbounds : List ℕ → List ℕ → Result (List ℕ)
unfolding resolve_inbound_ids
live_inbounds wanted live =
    if exists (λ n. has_id n live) wanted then resolve_inbound_ids wanted live else ok []

abbrev same_ids : List ℕ → List ℕ → Bool
same_ids [] [] = true
same_ids (m ∷ ms) (n ∷ ns) = m == n && same_ids ms ns
same_ids _ _ = false

abbrev repaired : List ℕ → Plan → Plan
repaired actual p = record p { inbounds = actual; active = p.active && not (is_none actual) }

-- the loop of `repair_stale_inbound_plans`, and how many plans it changes
pub repair_plans : List ℕ → List Plan → Tx Db ℕ
unfolding live_inbounds
repair_plans live [] = pure 0
repair_plans live (p ∷ ps) = do
  actual ← lift (live_inbounds p.inbounds live)
  let stale = not (same_ids actual p.inbounds)
  when stale (do
    modify (λ d. record d { plans = update_where (is_plan p.id) (λ q. repaired actual q) d.plans })
    audit "stale_inbound_plan_repaired"
        (str p.id <> ": " <> str (length p.inbounds) <> " -> " <> str (length actual)))
  changed ← repair_plans live ps
  pure (if stale then changed + 1 else changed)

-- `repair_stale_inbound_plans(c)`
unfoldable pub repair_stale_inbound_plans : Tx Db ℕ
unfolding repair_plans
repair_stale_inbound_plans = do
  live ← gets (λ d. d.live)
  ps ← gets (λ d. select_all (λ p. same_protocol p.protocol Protocol.xray) d.plans)
  repair_plans live ps
