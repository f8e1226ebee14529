-- ===== src/Worker/Outbox.antt =====
-- The part of `tick` of runtime/sales_worker.py that delivers the queued messages.
pub mod Pass
pub mod Progress
use Prim.Native.Char.{code}
use masih_panel.Worker.Telegram.{is_accepted, Telegram, deliver_outbox_message}
use masih_panel.Shop.Labels.{all_chars}
use masih_panel.Base.Text.{str}
use masih_panel.Queue.{audit, known_user}
use masih_panel.Tx.{settle}
use masih_panel.Store.{Method, Db, Settings, User, Message, Delivery, Payload}
use masih_panel.Base.{
  ℕ, ◌+◌, ◌^◌, min, ltb, leb, ◌==◌, Bool, true, false, not, ◌&&◌, ◌||◌, if◌then◌else◌, String, ◌<>◌,
  starts_with, List, [], ◌∷◌, Option, none, some, take, select_all, update_where, exists,
}

abbrev pub is_message : ℕ → Message → Bool
is_message ident m = m.id == ident

abbrev pub is_queued : Delivery → Bool
is_queued Delivery.queued = true
is_queued _ = false

-- `u.id>0 AND TRIM(COALESCE(u.phone,''))<>''`
abbrev has_phone : Option User → Bool
has_phone none = false
has_phone (some u) = ltb 0 u.id && not (all_chars (λ c. code c == 32) u.phone)

-- the keys of messages that need no phone number, all in lower case
abbrev exempt_keys : List String
exempt_keys =
    "phone-gate:" ∷ "channel-gate:" ∷ "new-user:" ∷ "channel-post:" ∷ "channel-reply:"
    ∷ "channel-review:" ∷ "channel-private-ai:" ∷ []

abbrev is_exempt : String → Bool
is_exempt key = exists (λ prefix. starts_with key prefix) exempt_keys

-- The condition of the query, for the clock and the users at its time.
unfoldable pub is_due : ℕ → Settings → List User → Message → Bool
is_due at s us m =
    is_queued m.done
    && leb m.next_try at
    && (not s.require_contact || has_phone (known_user m.chat us) || is_exempt m.dedupe)

-- a publication of the channel manager, which waits while its channel is paused or unverified
abbrev pub is_held : Bool → Message → Bool
is_held posting_ready m =
    (starts_with m.dedupe "channel-post:" || starts_with m.dedupe "channel-reply:")
    && not posting_ready

-- `min(3600,2**min(new_attempts,11))`
abbrev pub backoff : ℕ → ℕ
backoff attempts = min 3600 (2 ^ min attempts 11)

abbrev pub outcome_of : ℕ → Delivery
outcome_of attempts = if leb 16 attempts then Delivery.dead else Delivery.queued

abbrev pub mark_sent : Message → Message
mark_sent m = record m { done = Delivery.sent; payload = none }

-- `m` is the row as the query has read it
abbrev pub mark_failed : ℕ → Message → Message → Message
mark_failed at m row = record row {
  attempts = m.attempts + 1;
  next_try = at + backoff (m.attempts + 1);
  done = outcome_of (m.attempts + 1);
}

abbrev is_upload : Method → Bool
is_upload Method.upload_text = true
is_upload Method.upload_document = true
is_upload Method.upload_code = true
is_upload _ = false

-- A message without a payload cannot be read.
unfoldable pub is_delivered : Telegram → Message → Option Payload → Bool
unfolding deliver_outbox_message
is_delivered t m none = false
is_delivered t m (some p) =
    if is_upload m.method
    then is_accepted (t.upload m.id m.method p)
    else (deliver_outbox_message t m.id m.method p).delivered

abbrev set_message : ℕ → (Message → Message) → Db → Db
set_message ident f d = record d { outbox = update_where (is_message ident) f d.outbox }

abbrev pub fail_message : Message → Db → Db
fail_message m d =
    let failed = set_message m.id (mark_failed d.clock m) d in
    if leb 16 (m.attempts + 1)
    then settle failed (audit "telegram_delivery_failed" ("outbox:" <> str m.id) failed)
    else failed

-- one round of the loop, with its commit
pub deliver_one : Telegram → Bool → Message → Db → Db
unfolding is_delivered audit
deliver_one t posting_ready m d =
    if is_held posting_ready m
    then d
    else if is_delivered t m m.payload
    then set_message m.id mark_sent d
    else fail_message m d

pub deliver_each : Telegram → Bool → List Message → Db → Db
unfolding deliver_one
deliver_each t posting_ready [] d = d
deliver_each t posting_ready (m ∷ ms) d =
    deliver_each t posting_ready ms (deliver_one t posting_ready m d)

-- The loop: fifteen messages at most, in order of their numbers.
unfoldable pub deliver_outbox : Telegram → Bool → Db → Db
unfolding is_due deliver_each
deliver_outbox t posting_ready d =
    deliver_each t posting_ready (take 15 (select_all (is_due d.clock d.settings d.users) d.outbox))
      d
