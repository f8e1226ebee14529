-- ===== src/Tests/Plans.antt =====
-- The catalogue of the small shop.
use masih_panel.Base.Text.{str}
use masih_panel.Shop.Labels.{char_count}
use masih_panel.Base.Int.{pos, neg, ◌+ℤ◌}
use masih_panel.Tx.{settle, bad_plan_inbounds, ticket_missing, outbox_missing, err, ◌>>=◌}
use masih_panel.Queue.{audit, enqueue}
use masih_panel.Wallet.{money}
use masih_panel.Tests.{shop, ascii, plan}
use masih_panel.Shop.Plans.{
  PlanForm, ListedInbound, save_plan, plan_toggle, plan_delete, overview_of,
  repair_stale_inbound_plans,
}
use masih_panel.Shop.Plans.Stock.{IsCatalogued}
use masih_panel.Shop.Plans.Edits.{edit-IsCatalogued, edit, saves, toggles, deletes}
use masih_panel.Shop.Administration.{
  set_user_flags, credit_user, save_coupon, reply_ticket, broadcast, retry_order, retry_outbox,
}
use masih_panel.Shop.Inbounds.{resolve_inbound_ids}
use masih_panel.Store.{Db, Plan, Protocol, User}
use masih_panel.Base.{false, arith, List, true, inr, refl, ◌∷◌, [], none, some, ◌≡◌, map, length}

abbrev panel : List ListedInbound
panel = record { id = 5; protocol = "vless"; enabled = true } ∷ []

abbrev form : PlanForm
form = record {
  id = none;
  name = "yearly";
  category = "";
  protocol = some Protocol.xray;
  inbounds = 5 ∷ [];
  gb = 100;
  price = 3000;
  days = 365;
  capacity = 4;
  active = true;
  is_trial = false;
}

abbrev widened : Db
widened = edit ascii panel (saves form) shop

saves_a_plan : map (λ (p : Plan). p.id) widened.plans ≡ 10 ∷ 11 ∷ 12 ∷ []
unfolding edit save_plan ◌>>=◌ audit str char_count
saves_a_plan = refl

-- An unknown inbound is refused.
refuses : save_plan ascii panel (record form { inbounds = 6 ∷ [] }) shop ≡ err bad_plan_inbounds
unfolding save_plan ◌>>=◌ char_count
refuses = refl

deletes_a_plan : map (λ (p : Plan). p.id) (edit ascii panel (deletes 11) shop).plans ≡ 10 ∷ []
unfolding edit plan_delete ◌>>=◌ audit
deletes_a_plan = refl

switches_a_plan :
    map (λ (p : Plan). p.active) (edit ascii panel (toggles 10 false) shop).plans
    ≡ false ∷ true ∷ []
unfolding edit plan_toggle ◌>>=◌ audit
switches_a_plan = refl

has_room : (overview_of [] plan).remaining ≡ some 2
unfolding overview_of
has_room = refl

repairs :
    map (λ (p : Plan). p.inbounds) (settle shop (repair_stale_inbound_plans shop)).plans
    ≡ (5 ∷ []) ∷ (5 ∷ []) ∷ []
unfolding repair_stale_inbound_plans resolve_inbound_ids ◌>>=◌ audit str
repairs = refl

credits :
    map
      (λ (u : User). u.balance)
      (settle shop (credit_user ascii 1 (neg 200) "fix" "r1" shop)).users
    ≡ pos 300 ∷ []
unfolding credit_user money ◌>>=◌ ◌+ℤ◌ audit char_count
credits = refl

announces : length (settle shop (broadcast ascii "news" "b1" shop)).outbox ≡ 1
unfolding broadcast enqueue ◌>>=◌ audit str char_count
announces = refl

blocks :
    map (λ (u : User). u.blocked) (settle shop (set_user_flags 1 true false shop)).users ≡ true ∷ []
unfolding set_user_flags ◌>>=◌ audit
blocks = refl

adds_a_coupon :
    length
      (settle shop (
        save_coupon ascii
          (λ s. s)
          (record { code = "SALE"; percent = 10; credit = 0; uses = 5; expires = 0 })
          shop)).coupons
    ≡ 1
unfolding save_coupon ◌>>=◌ audit char_count
adds_a_coupon = refl

has_no_ticket : reply_ticket ascii 3 "hello" shop ≡ err ticket_missing
unfolding reply_ticket ◌>>=◌
has_no_ticket = refl

has_no_dead_letter : retry_outbox 3 shop ≡ err outbox_missing
unfolding retry_outbox ◌>>=◌
has_no_dead_letter = refl

has_no_review : (settle shop (retry_order ascii "o1" shop)).orders ≡ []
unfolding retry_order ◌>>=◌ audit char_count
has_no_review = refl

edit-IsCatalogued_example :
    IsCatalogued
      (edit ascii panel (saves form) shop).plans
      (edit ascii panel (saves form) shop).orders
edit-IsCatalogued_example = edit-IsCatalogued ascii panel (saves form) shop (record {
  distinct = (refl, (refl, tt));
  fits = (inr (omega arith), (inr (omega arith), tt));
  known = tt;
})
