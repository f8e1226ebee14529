-- ===== src/Traffic/Access.antt =====
-- Usage never opens access.
use masih_panel.Traffic.Frame.{credit-Keeps}
use masih_panel.Tx.Keeps.{settle-Keeps}
use masih_panel.Tx.{settle}
use masih_panel.Base.Int.{ℤ}
use masih_panel.Traffic.{
  add_traffic, credit, client_row, has_email, permitted, Panel, Traffic, Client,
}
use masih_panel.Base.{
  [], inr, inl, refl, str_eq, Bool-cases, false, ◌≤◌, ◌∷◌, ◌+◌, update_where, true, none, ◌≡◌,
  arith, select_one, some, List, String, Option, ℕ,
}

-- a traffic row with the same terms and no less usage
abbrev Grows : Option Traffic → Option Traffic → Type 0
Grows none none = Unit
Grows (some t) (some u) =
    (u.enable ≡ t.enable) × (u.expiry_time ≡ t.expiry_time) × (t.up + t.down ≤ u.up + u.down)
Grows _ _ = true ≡ false

Grows-refl : (o : Option Traffic) → Grows o o
Grows-refl none = tt
Grows-refl (some t) = (refl, refl, omega arith)

update-Grows :
    (email other : String) (up down at : ℕ) (ts : List Traffic)
    → Grows
        (select_one (has_email email) ts)
        (select_one (has_email email) (update_where (has_email other) (add_traffic up down at) ts))
update-Grows email other up down at [] = tt
update-Grows email other up down at (t ∷ ts) = elim (Bool-cases (str_eq t.email email)) [
  | inl own ↦ elim (Bool-cases (str_eq t.email other)) [
    | inl hit ↦ rw (hit, own) (refl, refl, omega arith)
    | inr miss ↦ rw (miss, own) (refl, refl, omega arith)
  ]
  | inr foreign ↦ elim (Bool-cases (str_eq t.email other)) [
    | inl hit ↦ rw (hit, foreign) (update-Grows email other up down at ts)
    | inr miss ↦ rw (miss, foreign) (update-Grows email other up down at ts)
  ]
]

still_permitted :
    (now : ℕ) (c : Client) (o u : Option Traffic)
    → Grows o u
    → permitted now (record { client = c; traffic = u }) ≡ true
    → permitted now (record { client = c; traffic = o }) ≡ true
still_permitted now c none none g h = h
still_permitted now c (some t) (some u) g h = ground (arith, g, h)
still_permitted now c none (some u) g h = ground (arith, g)
still_permitted now c (some t) none g h = ground (arith, g)

-- Usage never opens access: a client that may connect after a sample, accepted or refused, could connect
-- before it.
pub credit_permitted :
    (digest : String → String) (name protocol session : String) (up down : ℤ) (now : ℕ) (c : Client)
    (p : Panel)
    → permitted now (client_row (settle p (credit digest name protocol session up down p)) c) ≡ true
    → permitted now (client_row p c) ≡ true
credit_permitted digest name protocol session up down now c p =
    settle-Keeps
      {P = λ q. permitted now (client_row q c) ≡ true → permitted now (client_row p c) ≡ true} _ p
      (credit-Keeps
        (λ key protocol' up' down' r old q known one before after. before (
          still_permitted now c _ _ (update-Grows c.email r.email _ _ q.clock_ms q.traffics) after))
        digest name protocol session up down)
      (λ h. h)
