-- ===== src/AiSales/Quota.antt =====
-- The use of a subscription to AI: `available` and `consume` of runtime/ai_commerce.py.
pub mod Earliest
pub mod Spent
use masih_panel.AiSales.Models.{same_modality}
use masih_panel.AiSales.Delivery.{has_subscription}
use masih_panel.Tx.{Tx, stock_empty, pure, gets, ◌>>=◌, ◌>>◌, raise_if, modify}
use masih_panel.Store.{Db, AiSubscription, AiUsage, Modality}
use masih_panel.Base.{
  ℕ, ◌-◌, ◌==◌, ltb, leb, Bool, true, false, not, ◌&&◌, if◌then◌else◌, String, str_eq, List, [],
  ◌∷◌, Option, none, some, exists, update_where,
}

-- `user_id=? AND expires>? AND remaining_…>0`
abbrev pub is_usable : ℕ → Modality → ℕ → AiSubscription → Bool
is_usable uid op at v = v.user_id == uid && ltb at v.expires && ltb 0 (v.remaining op)

abbrev pub sooner : AiSubscription → Option AiSubscription → AiSubscription
sooner v none = v
sooner v (some w) = if leb v.expires w.expires then v else w

-- `ORDER BY expires ASC LIMIT 1`
pub earliest : (AiSubscription → Bool) → List AiSubscription → Option AiSubscription
earliest p [] = none
earliest p (v ∷ vs) = let rest = earliest p vs in if p v then some (sooner v rest) else rest

-- `available(c, uid, op)`
unfoldable pub available : ℕ → Modality → Db → Option AiSubscription
unfolding earliest
available uid op d = earliest (is_usable uid op d.clock) d.ai.subscriptions

abbrev pub has_usage : String → AiUsage → Bool
has_usage ref u = str_eq u.reference ref

-- `remaining_op=remaining_op-1`
abbrev pub spend : Modality → AiSubscription → AiSubscription
spend op v = record v {
  remaining = λ x. if same_modality x op then v.remaining x - 1 else v.remaining x;
}

abbrev pub may_spend : String → Modality → AiSubscription → Bool
may_spend oid op v = has_subscription oid v && ltb 0 (v.remaining op)

abbrev with_spent : String → Modality → Db → Db
with_spent oid op d = record d {
  ai = record d.ai {
    subscriptions = update_where (may_spend oid op) (spend op) d.ai.subscriptions;
  };
}

pub consume_from : Modality → Option AiSubscription → Tx Db Bool
consume_from op none = pure false
consume_from op (some v) = do
  fits ← gets (λ d. exists (may_spend v.order_id op) d.ai.subscriptions)
  raise_if (not fits) stock_empty
  modify (with_spent v.order_id op)
  pure true

-- `consume(c, uid, op, ref)`
unfoldable pub consume : ℕ → Modality → String → Tx Db Bool
unfolding available consume_from
consume uid op ref = do
  used ← gets (λ d. exists (has_usage ref) d.ai.usage)
  v ← gets (λ d. available uid op d)
  if used then pure false else consume_from op v
