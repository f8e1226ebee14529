-- ===== src/AiSales/Quota/Earliest.antt =====
-- Which subscription to AI serves a request.
use masih_panel.AiSales.Quota.{is_usable, sooner, earliest, available}
use masih_panel.Store.{Db, AiSubscription, Modality}
use masih_panel.Base.{
  ℕ, ◌≤◌, leb, Bool, true, false, List, [], ◌∷◌, Option, none, some, exists, All, Bool-cases, inl,
  inr, ◌≡◌, refl, arith, subst,
}

-- what is found among some subscriptions: one that no usable one precedes, or none if none is usable
abbrev pub IsEarliest :
    (AiSubscription → Bool) → List AiSubscription → Option AiSubscription → Type 0
IsEarliest p vs none = All (λ w. p w ≡ false) vs
IsEarliest p vs (some v) = (p v ≡ true) × All (λ w. p w ≡ true → v.expires ≤ w.expires) vs

All-later :
    (p : AiSubscription → Bool) (n m : ℕ) (vs : List AiSubscription)
    → n ≤ m
    → All (λ w. p w ≡ true → m ≤ w.expires) vs
    → All (λ w. p w ≡ true → n ≤ w.expires) vs
All-later p n m [] h a = tt
All-later p n m (v ∷ vs) h a =
    (λ u. let x : m ≤ v.expires = a.0 u in omega (arith, x, h), All-later p n m vs h a.1)

All-absent :
    (p : AiSubscription → Bool) (n : ℕ) (vs : List AiSubscription)
    → All (λ w. p w ≡ false) vs
    → All (λ w. p w ≡ true → n ≤ w.expires) vs
All-absent p n [] a = tt
All-absent p n (v ∷ vs) a = (λ u. ground (arith, u, a.0), All-absent p n vs a.1)

kept_if : (v w : AiSubscription) → leb v.expires w.expires ≡ true → v ≡ sooner v (some w)
kept_if v w first = rw first refl

passed_if : (v w : AiSubscription) → leb v.expires w.expires ≡ false → w ≡ sooner v (some w)
passed_if v w second = rw second refl

added_first :
    (p : AiSubscription → Bool) (v : AiSubscription) (vs : List AiSubscription)
    (o : Option AiSubscription)
    → p v ≡ true
    → IsEarliest p vs o
    → IsEarliest p (v ∷ vs) (some (sooner v o))
added_first p v vs none own h = (own, (λ u. omega arith, All-absent p v.expires vs h))
added_first p v vs (some w) own h = elim (Bool-cases (leb v.expires w.expires)) [
  | inl first ↦
      subst (λ x. IsEarliest p (v ∷ vs) (some x)) (kept_if v w first)
        (own, (λ u. omega arith, All-later p v.expires w.expires vs (ground (arith, first)) h.1))
  | inr second ↦
      subst (λ x. IsEarliest p (v ∷ vs) (some x)) (passed_if v w second)
        (h.0, (λ u. ground (arith, second), h.1))
]

added_unfit :
    (p : AiSubscription → Bool) (v : AiSubscription) (vs : List AiSubscription)
    (o : Option AiSubscription)
    → p v ≡ false
    → IsEarliest p vs o
    → IsEarliest p (v ∷ vs) o
added_unfit p v vs none other h = (other, h)
added_unfit p v vs (some w) other h = (h.0, (λ u. ground (arith, u, other), h.1))

pub earliest-IsEarliest :
    (p : AiSubscription → Bool) (vs : List AiSubscription) → IsEarliest p vs (earliest p vs)
unfolding earliest
earliest-IsEarliest p [] = tt
earliest-IsEarliest p (v ∷ vs) = elim (Bool-cases (p v)) [
  | inl own ↦ rw own (added_first p v vs (earliest p vs) own (earliest-IsEarliest p vs))
  | inr other ↦ rw other (added_unfit p v vs (earliest p vs) other (earliest-IsEarliest p vs))
]

-- The subscription that serves a request is the user's, runs, has credit of the modality, and no
-- other that fits ends earlier; if none is given, none fits.
pub available_lem :
    (uid : ℕ) (op : Modality) (d : Db)
    → IsEarliest (is_usable uid op d.clock) d.ai.subscriptions (available uid op d)
unfolding available
available_lem uid op d = earliest-IsEarliest (is_usable uid op d.clock) d.ai.subscriptions

abbrev pub IsAmong : List AiSubscription → Option AiSubscription → Type 0
IsAmong vs none = Unit
IsAmong vs (some v) = (q : AiSubscription → Bool) → q v ≡ true → exists q vs ≡ true

IsAmong-rest :
    (v : AiSubscription) (vs : List AiSubscription) (o : Option AiSubscription)
    → IsAmong vs o
    → IsAmong (v ∷ vs) o
IsAmong-rest v vs none h = tt
IsAmong-rest v vs (some w) h =
    λ q fits. elim (Bool-cases (q v)) [ inl hit ↦ rw hit refl | inr miss ↦ rw miss (h q fits) ]

IsAmong-first :
    (v : AiSubscription) (vs : List AiSubscription) (o : Option AiSubscription)
    → IsAmong vs o
    → IsAmong (v ∷ vs) (some (sooner v o))
IsAmong-first v vs none h = λ q fits. rw fits refl
IsAmong-first v vs (some w) h = elim (Bool-cases (leb v.expires w.expires)) [
  | inl first ↦ subst (λ x. IsAmong (v ∷ vs) (some x)) (kept_if v w first) (λ q fits. rw fits refl)
  | inr second ↦
      subst (λ x. IsAmong (v ∷ vs) (some x)) (passed_if v w second) (IsAmong-rest v vs (some w) h)
]

pub earliest-IsAmong :
    (p : AiSubscription → Bool) (vs : List AiSubscription) → IsAmong vs (earliest p vs)
unfolding earliest
earliest-IsAmong p [] = tt
earliest-IsAmong p (v ∷ vs) = elim (Bool-cases (p v)) [
  | inl own ↦ rw own (IsAmong-first v vs (earliest p vs) (earliest-IsAmong p vs))
  | inr other ↦ rw other (IsAmong-rest v vs (earliest p vs) (earliest-IsAmong p vs))
]
