-- ===== src/Traffic/Accounts.antt =====
-- What the panel's counters hold is what the sessions account for.
use masih_panel.Traffic.Frame.{credit-Keeps}
use masih_panel.Tx.{settle}
use masih_panel.Tx.Keeps.{settle-Keeps}
use masih_panel.Base.Int.{ℤ}
use masih_panel.Traffic.Credit.{sampled}
use masih_panel.Traffic.Sums.{total-update_any, total-update_where, total-insert_row, total}
use masih_panel.Traffic.{
  credit, Traffic, has_email, larger, new_session, upsert_session, has_key, set_counters, Client,
  Session, Panel,
}
use masih_panel.Base.{
  count-update_where, eq_iff, false, exists, subst, [], refl, inr, count-absent, inl, str_eq,
  exists-some, ◌∷◌, Bool-cases, ◌-◌, count-insert_row, true, arith, ◌==◌, exists-none, none, some,
  ◌≤◌, ◌+◌, select_one, count, ◌≡◌, Option, String, List, ℕ,
}

-- `masiha_sessions` has one row for a key, as its primary key demands.
abbrev pub OnePerKey : List Session → Type 0
OnePerKey ss = (key : String) → count (has_key key) ss ≤ 1

-- The counters of the panel hold what the sessions have, over a base of other traffic.
pub record IsAccounted (base_up base_down : ℕ) (p : Panel) : Type 0 where
  pub keys : OnePerKey p.sessions
  pub up : total (λ t. t.up) p.traffics ≡ base_up + total (λ s. s.up) p.sessions
  pub down : total (λ t. t.down) p.traffics ≡ base_down + total (λ s. s.down) p.sessions

-- One row for a key, where there is one at all.
count-some :
    (key : String) (s : Session) (ss : List Session)
    → count (has_key key) ss ≤ 1
    → select_one (has_key key) ss ≡ some s
    → (count (has_key key) ss == 1) ≡ true
count-some key s [] one found = ground (arith, found)
count-some key s (x ∷ ss) one found = elim (Bool-cases (has_key key x)) [
  | inl own ↦ rw own (ground (arith, one, own))
  | inr other ↦
      rw other (count-some key s ss (ground (arith, one, other)) (ground (arith, found, other)))
]

module _ (key protocol : String) (r : Client) where
  -- a counter that a session's row keeps
  upserted-total :
      (g : Session → ℕ) (old : Option Session) (up down at : ℕ) (ss : List Session)
      → ((s : Session) → g (set_counters up down at s) ≡ g (new_session key r protocol up down at))
      → count (has_key key) ss ≤ 1
      → select_one (has_key key) ss ≡ old
      → total g (upsert_session key r protocol up down at ss) + elim old [ none ↦ 0 | some s ↦ g s ]
        ≡ total g ss + g (new_session key r protocol up down at)
  upserted-total g none up down at ss step one known =
      rw (exists-none (has_key key) ss known)
        (omega (arith, total-insert_row g (new_session key r protocol up down at) ss))
  upserted-total g (some s) up down at ss step one known =
      rw (exists-some (has_key key) s ss known) (
        total-update_where g (has_key key) (set_counters up down at) (g s) _ s ss
          (count-some key s ss one known) known (omega (arith, step s)))

  upserted-OnePerKey :
      (old : Option Session) (up down at : ℕ) (ss : List Session)
      → select_one (has_key key) ss ≡ old
      → OnePerKey ss
      → OnePerKey (upsert_session key r protocol up down at ss)
  upserted-OnePerKey none up down at ss known one k =
      rw
        (
          exists-none (has_key key) ss known,
          count-insert_row (has_key k) (new_session key r protocol up down at) ss,
        )
        (elim (Bool-cases (str_eq key k)) [
          | inl same ↦
              rw
                (
                  same,
                  count-absent (has_key k) ss (
                      subst (λ n. exists (has_key n) ss ≡ false) ((eq_iff key k).0 same)
                        (exists-none (has_key key) ss known)),
                )
                (omega arith)
          | inr other ↦ rw other (one k)
        ])
  upserted-OnePerKey (some s) up down at ss known one k =
      rw
        (
          exists-some (has_key key) s ss known,
          count-update_where (has_key k) (set_counters up down at) (λ a. refl) (has_key key) ss,
        )
        (one k)

step_of : (n up before : ℕ) → n + (larger up before - before) + before ≡ n + larger up before
step_of n up before = ground arith

balanced :
    (b t s t' s' old new : ℕ) → t' + old ≡ t + new → s' + old ≡ s + new → t ≡ b + s → t' ≡ b + s'
balanced b t s t' s' old new h k e = omega (arith, h, k, e)

sampled-IsAccounted :
    (b c : ℕ) (key protocol : String) (up down : ℕ) (r : Client) (old : Option Session) (p : Panel)
    → select_one (has_key key) p.sessions ≡ old
    → (count (has_email r.email) p.traffics == 1) ≡ true
    → IsAccounted b c p
    → IsAccounted b c (sampled key r protocol old up down p)
sampled-IsAccounted b c key protocol up down r none p known one h = record {
  keys = upserted-OnePerKey key protocol r none _ _ _ p.sessions known h.keys;
  up =
      balanced b _ _ _ _ 0 (larger up 0)
        (total-update_any (λ (t : Traffic). t.up) (has_email r.email) _ 0 (larger up 0) p.traffics
          one (λ t. step_of t.up up 0))
        (upserted-total key protocol r (λ v. v.up) none _ _ _ p.sessions (λ v. refl) (h.keys key)
          known)
        h.up;
  down =
      balanced c _ _ _ _ 0 (larger down 0)
        (total-update_any (λ (t : Traffic). t.down) (has_email r.email) _ 0 (larger down 0)
          p.traffics one (λ t. step_of t.down down 0))
        (upserted-total key protocol r (λ v. v.down) none _ _ _ p.sessions (λ v. refl) (h.keys key)
          known)
        h.down;
}
sampled-IsAccounted b c key protocol up down r (some s) p known one h = record {
  keys = upserted-OnePerKey key protocol r (some s) _ _ _ p.sessions known h.keys;
  up =
      balanced b _ _ _ _ s.up (larger up s.up)
        (total-update_any (λ (t : Traffic). t.up) (has_email r.email) _ s.up (larger up s.up)
          p.traffics one (λ t. step_of t.up up s.up))
        (upserted-total key protocol r (λ v. v.up) (some s) _ _ _ p.sessions (λ v. refl)
          (h.keys key) known)
        h.up;
  down =
      balanced c _ _ _ _ s.down (larger down s.down)
        (total-update_any (λ (t : Traffic). t.down) (has_email r.email) _ s.down
          (larger down s.down) p.traffics one (λ t. step_of t.down down s.down))
        (upserted-total key protocol r (λ v. v.down) (some s) _ _ _ p.sessions (λ v. refl)
          (h.keys key) known)
        h.down;
}

-- A sample, accepted or refused, keeps the accounts: the counters of the panel, summed over all
-- clients, hold the base of other traffic and the counters of all sessions, each byte once, and no key
-- has two rows.
pub credit-IsAccounted :
    (b c : ℕ) (digest : String → String) (name protocol session : String) (up down : ℤ) (p : Panel)
    → IsAccounted b c p
    → IsAccounted b c (settle p (credit digest name protocol session up down p))
credit-IsAccounted b c digest name protocol session up down p h =
    settle-Keeps (credit digest name protocol session up down) p
      (credit-Keeps (sampled-IsAccounted b c) digest name protocol session up down) h
