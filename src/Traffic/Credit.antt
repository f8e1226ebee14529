-- ===== src/Traffic/Credit.antt =====
-- Samples of a session are counted once, in whatever order they come.
use masih_panel.Base.Text.{mem_text}
use masih_panel.Base.Int.{pos_part, ◌≤ℤ◌, pos, ℤ}
use masih_panel.Tx.{err, Result, ok, ◌>>=◌}
use masih_panel.Tx.Yields.{of_Yields, Yields-modify, raise_if-Yields, gets-Yields, Yields}
use masih_panel.Traffic.{
  protocols, is_client, Account, in_bounds, credit_account, credit, Traffic, set_counters,
  new_session, upsert_session, traffic_of, larger, add_traffic, mismatched, has_key, has_email,
  Session, Panel, write_sample, Client, credit_client,
}
use masih_panel.Base.{
  [], inr, inl, Bool-cases, ◌∷◌, exists, map, Bool, subst, ◌∙◌, str_eq, ◌<>◌, ◌+◌,
  count-update_where, refl, update_where-absorb, select_one-fits, select_one-update_where,
  exists-some, update_where-insert_row, eq_iff, select_one-insert_row, exists-insert_row, ◌≤◌, none,
  exists-none, ap, arith, ◌/◌, true, sym, ◌==◌, ◌-◌, count, false, some, select_one, update_where,
  List, ◌≡◌, Option, String, ℕ,
}

-- the panel after a sample of `up` and `down` bytes, for a session whose row was `old`
abbrev pub sampled : String → Client → String → Option Session → ℕ → ℕ → Panel → Panel
sampled key r protocol old up down p = record p {
  traffics =
      update_where (has_email r.email)
        (add_traffic (larger up (traffic_of old).0 - (traffic_of old).0)
          (larger down (traffic_of old).1 - (traffic_of old).1) p.clock_ms)
        p.traffics;
  sessions =
      upsert_session key r protocol (larger up (traffic_of old).0) (larger down (traffic_of old).1)
        (p.clock_ms / 1000) p.sessions;
}

-- What a sample of a known client leaves.
pub record IsSampled (key protocol : String) (up down : ℕ) (r : Client) (p q : Panel) : Type 0 where
  pub old : Option Session
  pub known : select_one (has_key key) p.sessions ≡ old
  pub matches : mismatched r old ≡ false
  pub one_row : (count (has_email r.email) p.traffics == 1) ≡ true
  pub result : q ≡ sampled key r protocol old up down p

pub sample_yields :
    (key protocol : String) (up down : ℕ) (r : Client) (p : Panel)
    → Yields
        (λ q. q ≡ p)
        (credit_client key protocol up down (some r))
        (λ _ q. IsSampled key protocol up down r p q)
unfolding credit_client write_sample
sample_yields key protocol up down r p =
    gets-Yields _ (select_one (has_key key) p.sessions) _ (λ q h. rw h)
      λ old seen. raise_if-Yields _ _ _ λ matches.
        gets-Yields _ (count (has_email r.email) p.traffics) _ (λ q h. rw h)
          λ n counted. raise_if-Yields _ _ _ λ one. Yields-modify _ λ q h. record {
            old = old;
            known = sym seen;
            matches = matches;
            one_row = rw (← counted) (ground (arith, one));
            result = ap (sampled key r protocol old up down) h;
          }

abbrev sampled_row : String → Client → String → Option Session → ℕ → ℕ → ℕ → Session
sampled_row key r protocol none up down at = new_session key r protocol up down at
sampled_row key r protocol (some s) up down at = set_counters up down at s

module _ (key protocol : String) (r : Client) where
  upserted :
      (old : Option Session) (up down at : ℕ) (ss : List Session)
      → select_one (has_key key) ss ≡ old
      → select_one (has_key key) (upsert_session key r protocol up down at ss)
        ≡ some (sampled_row key r protocol old up down at)
  upserted none up down at ss known =
      rw (exists-none (has_key key) ss known)
        (select_one-insert_row (has_key key) _ ss known ((eq_iff key key).1 refl))
  upserted (some s) up down at ss known = rw (exists-some (has_key key) s ss known) (
      select_one-update_where (has_key key) (has_key key) (set_counters up down at) s ss (λ a. refl)
        known (select_one-fits (has_key key) s ss known))

  upserted_twice :
      (old : Option Session) (up down at : ℕ) (ss : List Session)
      → select_one (has_key key) ss ≡ old
      → upsert_session key r protocol up down at (upsert_session key r protocol up down at ss)
        ≡ upsert_session key r protocol up down at ss
  upserted_twice none up down at ss known =
      rw
        (
          exists-none (has_key key) ss known,
          exists-insert_row (has_key key) (new_session key r protocol up down at) ss,
          exists-none (has_key key) ss known,
          (eq_iff key key).1 refl,
        )
        (update_where-insert_row (has_key key) (set_counters up down at) _ ss
          (exists-none (has_key key) ss known) refl)
  upserted_twice (some s) up down at ss known =
      rw
        (
          exists-some (has_key key) s ss known,
          exists-some (has_key key) (set_counters up down at s) _ (
              select_one-update_where (has_key key) (has_key key) (set_counters up down at) s ss
                (λ a. refl) known (select_one-fits (has_key key) s ss known)),
        )
        (update_where-absorb (has_key key) (set_counters up down at) (λ a. refl)
          (set_counters up down at) ss (λ a. refl))

  row_matches :
      (old : Option Session) (up down at : ℕ)
      → mismatched r old ≡ false
      → (mismatched r (some (sampled_row key r protocol old up down at)) ≡ false)
        × (traffic_of (some (sampled_row key r protocol old up down at)) ≡ (up, down))
  row_matches none up down at matches = ground arith
  row_matches (some s) up down at matches = (matches, refl)

larger_stale : (up' up before : ℕ) → up' ≤ up → larger up' (larger up before) ≡ larger up before
larger_stale up' up before h = ground (arith, h)

sub_self : (n : ℕ) → n - n ≡ 0
sub_self n = omega arith

-- A panel without its times: when a client was last seen, when a session was last written, and what
-- the clock reads.
abbrev pub without_times : Panel → Panel
without_times p = record p {
  traffics = map (λ (t : Traffic). record t { last_online = 0 }) p.traffics;
  sessions = map (λ (x : Session). record x { updated = 0 }) p.sessions;
  clock_ms = 0;
}

abbrev pub timeless : Result (Unit {0} × Panel) → Result (Unit {0} × Panel)
timeless (ok (u, p)) = ok (u, without_times p)
timeless (err e) = err e

abbrev pub at_clock : ℕ → Panel → Panel
at_clock later p = record p { clock_ms = later }

map-retimed :
    {A B : Type 0} (h : A → B) (w : A → Bool) (f g : A → A) (xs : List A)
    → ((a : A) → h (f a) ≡ h (g a))
    → map h (update_where w f xs) ≡ map h (update_where w g xs)
map-retimed h w f g [] same = refl
map-retimed h w f g (x ∷ xs) same = elim (Bool-cases (w x)) [
  | inl own ↦ rw (own, same x, map-retimed h w f g xs same) refl
  | inr other ↦ rw (other, map-retimed h w f g xs same) refl
]

idle_sample :
    (key protocol : String) (up down later : ℕ) (r : Client) (s : Session) (q : Panel)
    → select_one (has_key key) q.sessions ≡ some s
    → mismatched r (some s) ≡ false
    → larger up s.up ≡ s.up
    → larger down s.down ≡ s.down
    → (count (has_email r.email) q.traffics == 1) ≡ true
    → update_where (has_email r.email) (add_traffic 0 0 q.clock_ms) q.traffics ≡ q.traffics
    → upsert_session key r protocol s.up s.down (q.clock_ms / 1000) q.sessions ≡ q.sessions
    → timeless (credit_client key protocol up down (some r) (at_clock later q))
      ≡ ok (tt, without_times q)
unfolding credit_client write_sample ◌>>=◌
idle_sample key protocol up down later r s q found matches big big' one traffics sessions =
    rw (found, matches, one, big, big', sub_self s.up, sub_self s.down)
      (ap
          (λ ts. ok (
            tt,
            record q {
              traffics = ts;
              sessions =
                  map (λ (x : Session). record x { updated = 0 })
                    (upsert_session key r protocol s.up s.down (later / 1000) q.sessions);
              clock_ms = 0;
            },
          ))
          (map-retimed _ (has_email r.email) _ (add_traffic 0 0 q.clock_ms) q.traffics (λ t. refl)
            ∙ ap (map _) traffics)
        ∙ ap (λ ss. ok (tt, record (without_times q) { sessions = ss }))
            (retimed_sessions ∙ ap (map _) sessions))
  where
    kept : exists (has_key key) q.sessions ≡ true
    kept = exists-some (has_key key) s q.sessions found

    retimed_sessions :
        map
          (λ (x : Session). record x { updated = 0 })
          (upsert_session key r protocol s.up s.down (later / 1000) q.sessions)
        ≡ map
            (λ (x : Session). record x { updated = 0 })
            (upsert_session key r protocol s.up s.down (q.clock_ms / 1000) q.sessions)
    retimed_sessions = rw kept (
        map-retimed _ (has_key key) (set_counters s.up s.down (later / 1000))
          (set_counters s.up s.down (q.clock_ms / 1000)) q.sessions (λ x. refl))

add_0 : (n : ℕ) → n + 0 ≡ n
add_0 n = omega arith

larger_twice : (a b : ℕ) → larger (larger a b) b ≡ larger a b
larger_twice a b = ground arith

traffic_idle :
    (a b at : ℕ) (t : Traffic) → add_traffic 0 0 at (add_traffic a b at t) ≡ add_traffic a b at t
traffic_idle a b at t =
    rw (add_0 (t.up + a), add_0 (t.down + b), larger_twice t.last_online at) refl

-- A sample that is no larger than one already counted changes times only.
counted_again :
    (key protocol : String) (up down up' down' later : ℕ) (r : Client) (p : Panel)
    (old : Option Session)
    → select_one (has_key key) p.sessions ≡ old
    → mismatched r old ≡ false
    → (count (has_email r.email) p.traffics == 1) ≡ true
    → up' ≤ up
    → down' ≤ down
    → timeless (
        credit_client key protocol up' down'
          (some r)
          (at_clock later (sampled key r protocol old up down p)))
      ≡ ok (tt, without_times (sampled key r protocol old up down p))
counted_again key protocol up down up' down' later r p old known matches one lo lo' =
    let u = larger up (traffic_of old).0 in
    let d = larger down (traffic_of old).1 in
    let at = p.clock_ms / 1000 in
    let (fits, same) = row_matches key protocol r old u d at matches in
    idle_sample key protocol up' down' later r (sampled_row key r protocol old u d at)
      (sampled key r protocol old up down p) (upserted key protocol r old u d at p.sessions known)
      fits (rw (ap (λ z. z.0) same) (larger_stale up' up (traffic_of old).0 lo))
      (rw (ap (λ z. z.1) same) (larger_stale down' down (traffic_of old).1 lo'))
      (rw
        (count-update_where (has_email r.email) (add_traffic _ _ p.clock_ms) (λ t. refl)
          (has_email r.email) p.traffics)
        one)
      (update_where-absorb (has_email r.email) _ (λ t. refl) _ p.traffics
        (traffic_idle _ _ p.clock_ms))
      (rw (ap (λ z. z.0) same, ap (λ z. z.1) same)
        (upserted_twice key protocol r old u d at p.sessions known))

abbrev SameRegister : Panel → Panel → Type 0
SameRegister p q = (q.clients ≡ p.clients) × (q.accounts ≡ p.accounts)

client_again :
    (key protocol : String) (up down up' down' later : ℕ) (o : Option Client) (p q : Panel)
    → credit_client key protocol up down o p ≡ ok (tt, q)
    → up' ≤ up
    → down' ≤ down
    → SameRegister p q
      × (timeless (credit_client key protocol up' down' o (at_clock later q))
          ≡ ok (tt, without_times q))
unfolding credit_client ◌>>=◌
client_again key protocol up down up' down' later none p q h lo lo' =
    let same : q ≡ p = ground (arith, h) in
    ((ap (λ (x : Panel). x.clients) same, ap (λ (x : Panel). x.accounts) same), refl)
client_again key protocol up down up' down' later (some r) p q h lo lo' =
    let s = of_Yields _ p (sample_yields key protocol up down r p) refl h in
    (
      rw s.result (refl, refl),
      rw s.result (
          counted_again key protocol up down up' down' later r p s.old s.known s.matches s.one_row
            lo lo'),
    )

account_again :
    (key protocol : String) (up down up' down' later : ℕ) (o : Option Account) (p q : Panel)
    → credit_account key protocol up down o p ≡ ok (tt, q)
    → up' ≤ up
    → down' ≤ down
    → SameRegister p q
      × (timeless (credit_account key protocol up' down' o (at_clock later q))
          ≡ ok (tt, without_times q))
unfolding credit_account ◌>>=◌
account_again key protocol up down up' down' later none p q h lo lo' =
    let same : q ≡ p = ground (arith, h) in
    ((ap (λ (x : Panel). x.clients) same, ap (λ (x : Panel). x.accounts) same), refl)
account_again key protocol up down up' down' later (some a) p q h lo lo' =
    let (kept, again) =
      client_again key protocol up down up' down' later (select_one (is_client a) p.clients) p q h
        lo lo' in
    (
      kept,
      subst
          (λ cs.
            timeless (
              credit_client key protocol up' down' (select_one (is_client a) cs) (at_clock later q))
            ≡ ok (tt, without_times q))
          (sym kept.0) again,
    )

bounds_below :
    (up down up' down' : ℤ)
    → in_bounds up down ≡ true
    → pos 0 ≤ℤ up'
    → up' ≤ℤ up
    → pos 0 ≤ℤ down'
    → down' ≤ℤ down
    → in_bounds up' down' ≡ true
bounds_below up down up' down' h z le z' le' = ground (arith, h, z, le, z', le')

part_below : (a b : ℤ) → pos 0 ≤ℤ a → a ≤ℤ b → pos_part a ≤ pos_part b
part_below a b z le = ground (arith, z, le)

pub let_through :
    (digest : String → String) (name protocol session : String) (up down : ℤ) (p q : Panel)
    → credit digest name protocol session up down p ≡ ok (tt, q)
    → (mem_text protocol protocols ≡ true)
      × (in_bounds up down ≡ true)
      × (credit_account
            (digest (protocol <> ":" <> session))
            protocol
            (pos_part up)
            (pos_part down)
            (select_one (λ a. str_eq a.username name) p.accounts)
            p
          ≡ ok (tt, q))
unfolding credit ◌>>=◌
let_through digest name protocol session up down p q h = ground (arith, h)

credit_accepted :
    (digest : String → String) (name protocol session : String) (up down : ℤ) (p : Panel)
    → mem_text protocol protocols ≡ true
    → in_bounds up down ≡ true
    → credit digest name protocol session up down p
      ≡ credit_account
          (digest (protocol <> ":" <> session))
          protocol
          (pos_part up)
          (pos_part down)
          (select_one (λ a. str_eq a.username name) p.accounts)
          p
unfolding credit ◌>>=◌
credit_accepted digest name protocol session up down p known bounds = rw (known, bounds) refl

-- Duplicate and late samples are safe: once a sample of a session was accepted, one of the same session
-- whose counters are no larger is accepted at any other time, and changes nothing but times: no counter,
-- no session, no client and no account.
pub credit_stale :
    (digest : String → String) (name protocol session : String) (up down up' down' : ℤ) (later : ℕ)
    (p q : Panel)
    → credit digest name protocol session up down p ≡ ok (tt, q)
    → pos 0 ≤ℤ up'
    → up' ≤ℤ up
    → pos 0 ≤ℤ down'
    → down' ≤ℤ down
    → timeless (credit digest name protocol session up' down' (at_clock later q))
      ≡ ok (tt, without_times q)
credit_stale digest name protocol session up down up' down' later p q h z le z' le' =
    let (known, bounds, went) = let_through digest name protocol session up down p q h in
    let (kept, again) =
      account_again (digest (protocol <> ":" <> session)) protocol (pos_part up) (pos_part down)
        (pos_part up') (pos_part down') later _ p q went (part_below up' up z le)
        (part_below down' down z' le') in
    ap timeless (
      credit_accepted digest name protocol session up' down' (at_clock later q) known
        (bounds_below up down up' down' bounds z le z' le'))
    ∙ subst
        (λ rows.
          timeless (
            credit_account (digest (protocol <> ":" <> session)) protocol (pos_part up')
              (pos_part down') (select_one (λ a. str_eq a.username name) rows) (at_clock later q))
          ≡ ok (tt, without_times q))
        (sym kept.1) again
