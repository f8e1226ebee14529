-- ===== src/AiSales/Quota/Spent.antt =====
-- What a use of a subscription to AI costs.
use masih_panel.AiSales.Quota.{
  is_usable, earliest, available, has_usage, spend, may_spend, consume_from, consume,
}
use masih_panel.AiSales.Models.{same_modality}
use masih_panel.AiSales.Delivery.{has_subscription}
use masih_panel.Tx.{ok, settle, ◌>>=◌}
use masih_panel.Store.{Db, AiSubscription, Modality}
use masih_panel.Base.{
  ℕ, ◌+◌, ◌≤◌, ltb, Bool, true, false, not, ◌&&◌, if◌then◌else◌, String, eq_iff, List, [], ◌∷◌,
  Option, none, some, exists, update_where, count, Bool-cases, inl, inr, ◌≡◌, refl, arith, subst,
}
use masih_panel.AiSales.Quota.Earliest.{IsEarliest, IsAmong, earliest-IsEarliest, earliest-IsAmong}

-- the credit of a modality in all subscriptions
unfoldable pub credits_left : Modality → List AiSubscription → ℕ
credits_left op [] = 0
credits_left op (v ∷ vs) = v.remaining op + credits_left op vs

-- the order is the primary key
abbrev pub OneSubscription : List AiSubscription → Type 0
OneSubscription vs = (oid : String) → count (has_subscription oid) vs ≤ 1

spend_apart :
    (oid : String) (op x : Modality) (vs : List AiSubscription)
    → same_modality x op ≡ false
    → credits_left x (update_where (may_spend oid op) (spend op) vs) ≡ credits_left x vs
unfolding credits_left
spend_apart oid op x [] other = refl
spend_apart oid op x (v ∷ vs) other = elim (Bool-cases (may_spend oid op v)) [
  | inl hit ↦ rw (hit, other, spend_apart oid op x vs other) refl
  | inr miss ↦ rw (miss, spend_apart oid op x vs other) refl
]

spend_none :
    (oid : String) (op : Modality) (vs : List AiSubscription)
    → count (has_subscription oid) vs ≡ 0
    → credits_left op (update_where (may_spend oid op) (spend op) vs) ≡ credits_left op vs
unfolding credits_left
spend_none oid op [] absent = refl
spend_none oid op (v ∷ vs) absent = elim (Bool-cases (has_subscription oid v)) [
  | inl hit ↦ ground (arith, absent, hit)
  | inr miss ↦ rw (miss, spend_none oid op vs (ground (arith, absent, miss))) refl
]

same_modality_refl : (op : Modality) → same_modality op op ≡ true
same_modality_refl Modality.text = refl
same_modality_refl Modality.image = refl
same_modality_refl Modality.video = refl

spend_there :
    (oid : String) (op : Modality) (vs : List AiSubscription)
    → exists (may_spend oid op) vs ≡ true
    → 1 ≤ count (has_subscription oid) vs
spend_there oid op [] there = ground (arith, there)
spend_there oid op (v ∷ vs) there = elim (Bool-cases (has_subscription oid v)) [
  | inl hit ↦ rw hit (omega arith)
  | inr miss ↦ rw miss (spend_there oid op vs (ground (arith, there, miss)))
]

spend_one :
    (oid : String) (op : Modality) (vs : List AiSubscription)
    → count (has_subscription oid) vs ≤ 1
    → exists (may_spend oid op) vs ≡ true
    → credits_left op vs ≡ credits_left op (update_where (may_spend oid op) (spend op) vs) + 1
unfolding credits_left
spend_one oid op [] one there = ground (arith, there)
spend_one oid op (v ∷ vs) one there = elim (Bool-cases (has_subscription oid v)) [
  | inl hit ↦
      let gone : count (has_subscription oid) vs ≡ 0 = ground (arith, one, hit) in
      elim (Bool-cases (ltb 0 (v.remaining op))) [
        | inl rich ↦
            rw (hit, rich, same_modality_refl op, spend_none oid op vs gone) (ground (arith, rich))
        | inr poor ↦ ground (arith, gone, spend_there oid op vs (ground (arith, there, hit, poor)))
      ]
  | inr miss ↦
      let rest : credits_left op vs
          ≡ credits_left op (update_where (may_spend oid op) (spend op) vs) + 1 =
        spend_one oid op vs (ground (arith, one, miss)) (ground (arith, there, miss)) in
      rw miss (omega (arith, rest))
]

-- whether a request is served from a subscription
abbrev is_some : Option AiSubscription → Bool
is_some none = false
is_some (some v) = true

abbrev pub is_served : ℕ → Modality → String → Db → Bool
is_served uid op ref d = not (exists (has_usage ref) d.ai.usage) && is_some (available uid op d)

abbrev spent : Modality → Option AiSubscription → Db → Db
spent op none d = d
spent op (some v) d = record d {
  ai = record d.ai {
    subscriptions = update_where (may_spend v.order_id op) (spend op) d.ai.subscriptions;
  };
}

usable_spends :
    (uid : ℕ) (op : Modality) (at : ℕ) (v : AiSubscription) (vs : List AiSubscription)
    → earliest (is_usable uid op at) vs ≡ some v
    → exists (may_spend v.order_id op) vs ≡ true
usable_spends uid op at v vs found =
    let fits : is_usable uid op at v ≡ true =
      (subst (IsEarliest (is_usable uid op at) vs) found (earliest-IsEarliest _ vs)).0 in
    subst (IsAmong vs) found (earliest-IsAmong _ vs) (may_spend v.order_id op)
      (ground (arith, fits, eq_iff v.order_id v.order_id))

consumed :
    (uid : ℕ) (op : Modality) (d : Db) (o : Option AiSubscription)
    → available uid op d ≡ o
    → consume_from op o d ≡ ok (is_some o, spent op o d)
unfolding consume_from available ◌>>=◌
consumed uid op d none e = refl
consumed uid op d (some v) e = rw (usable_spends uid op d.clock v d.ai.subscriptions e) refl

-- The credits after a request, for the modality asked for and another one.
pub record IsCharged (op : Modality) (served : Bool) (before after : List AiSubscription)
    : Type 0 where
  pub charged : credits_left op before ≡ credits_left op after + (if served then 1 else 0)
  pub others :
      (x : Modality) → same_modality x op ≡ false → credits_left x after ≡ credits_left x before

IsCharged-by :
    (uid : ℕ) (op : Modality) (d : Db) (o : Option AiSubscription)
    → OneSubscription d.ai.subscriptions
    → available uid op d ≡ o
    → IsCharged op (is_some o) d.ai.subscriptions (spent op o d).ai.subscriptions
unfolding available
IsCharged-by uid op d none one e = record { charged = omega arith; others = λ x h. refl }
IsCharged-by uid op d (some v) one e = record {
  charged =
      spend_one v.order_id op d.ai.subscriptions (one v.order_id)
        (usable_spends uid op d.clock v d.ai.subscriptions e);
  others = λ x h. spend_apart v.order_id op x d.ai.subscriptions h;
}

-- Where an order has one subscription at most, a request never raises: it is served exactly if its
-- reference is not used up and a subscription that fits is available, a served one takes exactly one
-- credit of its modality from all subscriptions together and none of another, and one that is not
-- served takes nothing.
pub consume_lem :
    (uid : ℕ) (op : Modality) (ref : String) (d : Db)
    → OneSubscription d.ai.subscriptions
    → (consume uid op ref d ≡ ok (is_served uid op ref d, settle d (consume uid op ref d)))
      × IsCharged op
          (is_served uid op ref d)
          d.ai.subscriptions
          (settle d (consume uid op ref d)).ai.subscriptions
unfolding consume ◌>>=◌
consume_lem uid op ref d one = elim (Bool-cases (exists (has_usage ref) d.ai.usage)) [
  | inl used ↦ rw used (refl, record { charged = omega arith; others = λ x h. refl })
  | inr fresh ↦
      rw (fresh, consumed uid op d (available uid op d) refl)
        (refl, IsCharged-by uid op d (available uid op d) one refl)
]
