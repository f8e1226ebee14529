-- ===== src/Social/Matching/Newest.antt =====
-- The newest open chat of somebody in runtime/social.py, and what its end leaves.
use masih_panel.Base.{
  ◌⊎◌, ap, ℕ, ◌≤◌, ◌<◌, ◌==◌, ◌≡◌, refl, Bool, true, false, not, ◌&&◌, if◌then◌else◌, List, [], ◌∷◌,
  Option, none, some, exists, count, update_where, Bool-cases, inl, inr, arith,
}
use masih_panel.Base.Keys.{exists-narrow}
use masih_panel.Social.Chat.{takes_part, latest}
use masih_panel.Store.{ChatPair}

-- what a newest row that fits is
abbrev pick : {A : Type 0} → Bool → A → Option A → Option A
pick b x rest = elim rest [ some y ↦ some y | none ↦ if b then some x else none ]

pick-none :
    {A : Type 0} (b : Bool) (x : A) (rest : Option A)
    → pick b x rest ≡ none
    → (b ≡ false) × (rest ≡ none)
pick-none true x none h = ground (arith, h)
pick-none false x none h = (refl, refl)
pick-none b x (some y) h = ground (arith, h)

pick-some :
    {A : Type 0} (b : Bool) (x : A) (rest : Option A) (c : A)
    → pick b x rest ≡ some c
    → (rest ≡ some c) ⊎ ((rest ≡ none) × (b ≡ true) × (x ≡ c))
pick-some true x none c h = inr (refl, refl, ground (arith, h))
pick-some false x none c h = ground (arith, h)
pick-some b x (some y) c h = inl h

pub latest-none :
    {A : Type 0} (p : A → Bool) (xs : List A) → latest p xs ≡ none → exists p xs ≡ false
unfolding latest
latest-none p [] h = refl
latest-none p (x ∷ xs) h =
    let k : (p x ≡ false) × (latest p xs ≡ none) = pick-none (p x) x (latest p xs) h in
    rw k.0 (latest-none p xs k.1)

pub latest-absent :
    {A : Type 0} (p : A → Bool) (xs : List A) → exists p xs ≡ false → latest p xs ≡ none
unfolding latest
latest-absent p [] h = refl
latest-absent p (x ∷ xs) h =
    let here : p x ≡ false = ground (arith, h) in
    let later : exists p xs ≡ false = ground (arith, h) in rw (latest-absent p xs later, here) refl

latest-some :
    {A : Type 0} (p : A → Bool) (c : A) (xs : List A) → latest p xs ≡ some c → 1 ≤ count p xs
unfolding latest
latest-some p c [] h = ground (arith, h)
latest-some p c (x ∷ xs) h = elim (pick-some (p x) x (latest p xs) c h) [
  | inl later ↦ ground (arith, latest-some p c xs later)
  | inr here ↦ rw here.1 (omega arith)
]

pub only_latest :
    (uid : ℕ) (c : ChatPair) (cs : List ChatPair)
    → count (takes_part uid) cs ≤ 1
    → latest (takes_part uid) cs ≡ some c
    → exists (λ x. takes_part uid x && not (x.id == c.id)) cs ≡ false
unfolding latest
only_latest uid c [] one h = refl
only_latest uid c (x ∷ cs) one h =
    elim (pick-some (takes_part uid x) x (latest (takes_part uid) cs) c h) [
      | inl later ↦ elim (Bool-cases (takes_part uid x)) [
        | inl own ↦ ground (arith, one, own, latest-some (takes_part uid) c cs later)
        | inr other ↦ rw other (only_latest uid c cs (ground (arith, one, other)) later)
      ]
      | inr here ↦
          let same : x.id ≡ c.id = ap (λ (y : ChatPair). y.id) here.2 in
          rw
            (
              exists-narrow (takes_part uid) (λ y. not (y.id == c.id)) cs
                  (latest-none (takes_part uid) cs here.0),
              same,
            )
            (ground arith)
    ]

pub closed_all :
    (uid at : ℕ) (c : ChatPair) (cs : List ChatPair)
    → 0 < at
    → exists (λ x. takes_part uid x && not (x.id == c.id)) cs ≡ false
    → exists
        (takes_part uid)
        (update_where (λ x. x.id == c.id && x.closed == 0) (λ x. record x { closed = at }) cs)
      ≡ false
closed_all uid at c [] now only = refl
closed_all uid at c (x ∷ cs) now only =
    let rest = closed_all uid at c cs now (ground (arith, only)) in
    elim (Bool-cases (x.id == c.id && x.closed == 0)) [
      | inl hit ↦ rw (hit, rest) (ground (arith, now))
      | inr miss ↦ rw (miss, rest) (ground (arith, miss, only))
    ]
