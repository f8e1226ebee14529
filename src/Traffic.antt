-- ===== src/Traffic.antt =====
-- Usage of the VPN protocols in runtime/unified.py: `credit` counts a cumulative sample of a session
-- into the panel's traffic row of its client; `permitted` says who may connect.
pub mod Sums
pub mod Credit
pub mod Accounts
pub mod Frame
pub mod Access
use masih_panel.Base.Text.{mem_text}
use masih_panel.Tx.{
  modify, bad_counters, no_traffic_row, session_mismatch, raise_if, gets, ◌>>◌, pure, ◌>>=◌, Tx,
}
use masih_panel.Base.Int.{pos_part, ltb_ℤ, pos, leb_ℤ, ℤ}
use masih_panel.Base.{
  ◌/◌, ◌-◌, ◌<>◌, ltb, count, insert_row, ◌||◌, ◌^◌, [], update_where, not, none, ◌==◌, false, ◌∷◌,
  leb, ◌&&◌, exists, some, str_eq, String, Option, select_one, if◌then◌else◌, Bool, List, ◌+◌, ℕ,
}

-- a row of the panel's `clients`; the expiry is in milliseconds, 0 or below for none
pub record Client : Type 0 where
  pub id : ℕ
  pub created_at : ℕ
  pub email : String
  pub enable : Bool
  pub expiry_time : ℤ
  pub total_gb : ℕ

-- a row of the panel's `client_traffics`
pub record Traffic : Type 0 where
  pub email : String
  pub up : ℕ
  pub down : ℕ
  pub expiry_time : ℤ
  pub enable : Bool
  pub last_online : ℕ

-- a row of `masiha_accounts`
pub record Account : Type 0 where
  pub client_id : ℕ
  pub generation : ℕ
  pub username : String

-- a row of `masiha_sessions`
pub record Session : Type 0 where
  pub session : String
  pub client_id : ℕ
  pub generation : ℕ
  pub protocol : String
  pub up : ℕ
  pub down : ℕ
  pub updated : ℕ

-- The panel's database, and what `time.time()` reads, in milliseconds.
pub record Panel : Type 0 where
  pub clients : List Client
  pub traffics : List Traffic
  pub accounts : List Account
  pub sessions : List Session
  pub clock_ms : ℕ

abbrev pub protocols : List String
protocols = "openvpn" ∷ "openconnect" ∷ "ikev2" ∷ "l2tp" ∷ []

abbrev pub has_email : String → Traffic → Bool
has_email email t = str_eq t.email email

abbrev pub has_key : String → Session → Bool
has_key key s = str_eq s.session key

abbrev pub is_client : Account → Client → Bool
is_client a r = r.id == a.client_id && r.created_at == a.generation

-- `max` of two counters
abbrev pub larger : ℕ → ℕ → ℕ
larger a b = if leb a b then b else a

abbrev pub traffic_of : Option Session → ℕ × ℕ
traffic_of none = (0, 0)
traffic_of (some s) = (s.up, s.down)

abbrev pub mismatched : Client → Option Session → Bool
mismatched r none = false
mismatched r (some s) = not (s.client_id == r.id) || not (s.generation == r.created_at)

-- `UPDATE client_traffics`
abbrev pub add_traffic : ℕ → ℕ → ℕ → Traffic → Traffic
add_traffic up down at t = record t {
  up = t.up + up;
  down = t.down + down;
  last_online = larger t.last_online at;
}

abbrev pub set_counters : ℕ → ℕ → ℕ → Session → Session
set_counters up down at s = record s { up = up; down = down; updated = at }

abbrev pub new_session : String → Client → String → ℕ → ℕ → ℕ → Session
new_session key r protocol up down at = record {
  session = key;
  client_id = r.id;
  generation = r.created_at;
  protocol = protocol;
  up = up;
  down = down;
  updated = at;
}

-- `INSERT INTO masiha_sessions … ON CONFLICT(session) DO UPDATE`
abbrev pub upsert_session : String → Client → String → ℕ → ℕ → ℕ → List Session → List Session
upsert_session key r protocol up down at ss =
    if exists (has_key key) ss
    then update_where (has_key key) (set_counters up down at) ss
    else insert_row (new_session key r protocol up down at) ss

-- the statements of `credit` on the rows, with the counters of the session before and after
pub write_sample : String → Client → String → ℕ × ℕ → ℕ × ℕ → Tx Panel (Unit {0})
write_sample key r protocol before after = do
  updated ← gets (λ p. count (has_email r.email) p.traffics)
  raise_if (not (updated == 1)) no_traffic_row
  modify (λ p. record p {
    traffics =
        update_where (has_email r.email)
          (add_traffic (after.0 - before.0) (after.1 - before.1) p.clock_ms) p.traffics;
    sessions = upsert_session key r protocol after.0 after.1 (p.clock_ms / 1000) p.sessions;
  })

pub credit_client : String → String → ℕ → ℕ → Option Client → Tx Panel (Unit {0})
unfolding write_sample
credit_client key protocol up down none = pure tt
credit_client key protocol up down (some r) = do
  old ← gets (λ p. select_one (has_key key) p.sessions)
  raise_if (mismatched r old) session_mismatch
  let before = traffic_of old
  write_sample key r protocol before (larger up before.0, larger down before.1)

pub credit_account : String → String → ℕ → ℕ → Option Account → Tx Panel (Unit {0})
unfolding credit_client
credit_account key protocol up down none = pure tt
credit_account key protocol up down (some a) = do
  r ← gets (λ p. select_one (is_client a) p.clients)
  credit_client key protocol up down r

-- no counter below 0 or above `2**60`
abbrev pub in_bounds : ℤ → ℤ → Bool
in_bounds up down =
    leb_ℤ (pos 0) up && leb_ℤ (pos 0) down && leb_ℤ up (pos (2 ^ 60)) && leb_ℤ down (pos (2 ^ 60))

module _ (digest : String → String) where
  -- `credit(name, protocol, session, up, down)`, for `digest` the hexadecimal SHA-256
  unfoldable pub credit : String → String → String → ℤ → ℤ → Tx Panel (Unit {0})
  unfolding credit_account
  credit name protocol session up down = do
    raise_if (not (mem_text protocol protocols) || not (in_bounds up down)) bad_counters
    a ← gets (λ p. select_one (λ a. str_eq a.username name) p.accounts)
    credit_account (digest (protocol <> ":" <> session)) protocol (pos_part up) (pos_part down) a

-- a row of `clients(c)`: a client with its traffic row, if there is one
pub record ClientRow : Type 0 where
  pub client : Client
  pub traffic : Option Traffic

abbrev pub client_row : Panel → Client → ClientRow
client_row p r = record { client = r; traffic = select_one (has_email r.email) p.traffics }

abbrev pub deadline : ClientRow → ℤ
deadline r = elim r.traffic [ none ↦ r.client.expiry_time | some t ↦ t.expiry_time ]

abbrev enabled_traffic : Option Traffic → Bool
enabled_traffic none = false
enabled_traffic (some t) = t.enable

abbrev used_traffic : Option Traffic → ℕ
used_traffic none = 0
used_traffic (some t) = t.up + t.down

-- `permitted(r)` at the time `now`, in milliseconds
abbrev pub permitted : ℕ → ClientRow → Bool
permitted now r =
    r.client.enable
    && enabled_traffic r.traffic
    && (leb_ℤ (deadline r) (pos 0) || ltb_ℤ (pos now) (deadline r))
    && (r.client.total_gb == 0 || ltb (used_traffic r.traffic) r.client.total_gb)
