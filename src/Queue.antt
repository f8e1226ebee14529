-- ===== src/Queue.antt =====
-- `enqueue`, `audit` and the random texts of runtime/sales.py: how a handler leaves a message for the
-- worker to deliver.
pub mod Frame
use masih_panel.Base.{
  ℕ, ◌+◌, Bool, true, false, not, ◌&&◌, ◌||◌, if◌then◌else◌, ◌==◌, String, str_eq, starts_with,
  List, [], ◌∷◌, ◌++◌, map, Option, none, some, select_one, exists, insert_row, next_id,
}
use masih_panel.Base.Text.{nonempty, mem_text, take_chars}
use masih_panel.Tx.{Tx, Error, integrity, pure, raise, gets, ◌>>=◌, ◌>>◌, raise_if, modify, when}
use masih_panel.Store.{
  Db, User, Chat, account, channel, group, Notice, Button, Method, Payload, Message, Nav, Delivery,
  AuditEntry,
}

-- `secrets.token_hex(…)`, `secrets.token_urlsafe(…)`, `uuid.uuid4()`: the next random text
unfoldable pub draw : Tx Db String
draw = do
  token ← gets (λ d. d.random d.drawn)
  modify (λ d. record d { drawn = d.drawn + 1 })
  pure token

-- `audit(c, a, d)`
unfoldable pub audit : String → String → Tx Db (Unit {0})
audit action detail = modify λ d. record d {
  audit_log =
      insert_row (record { action = action; detail = take_chars 500 detail; created = d.clock })
        d.audit_log;
}

abbrev pub button : String → String → Button
button label callback = record { label = label; callback = callback }

-- the values in the first column of the callbacks of a keyboard
abbrev row_callbacks : List Button → List String
row_callbacks = map λ b. b.callback

pub callbacks : List (List Button) → List String
callbacks [] = []
callbacks (row ∷ rows) = row_callbacks row ++ callbacks rows

-- While a text is awaited: where the one extra button leads.
pub back_button : String → Button
back_button state =
    if starts_with state "a:"
    then button "back to management" "a:home"
    else if starts_with state "ai:"
    then button "back to entertainment" "fun"
    else button "cancel / main menu" "home"

abbrev unless_present : List String → Button → List Button → List Button
unless_present present b bs = if mem_text b.callback present then bs else b ∷ bs

pub quick_row : List String → List Button
quick_row present = unless_present present (button "main menu" "home") (
    unless_present present (button "entertainment" "fun")
      (unless_present present (button "points" "fun:points") []))

abbrev add_row : List Button → List (List Button) → List (List Button)
add_row [] rows = rows
add_row (b ∷ bs) rows = rows ++ (b ∷ bs) ∷ []

-- The keyboard of a message to an account that the shop knows, whose state is `state`.
pub keyboard : String → Bool → List (List Button) → List (List Button)
unfolding callbacks back_button quick_row
keyboard state quick_nav keys =
    let present = callbacks keys in
    if nonempty state
    then (if mem_text (back_button state).callback present
          || mem_text "a:home" present
          || mem_text "home" present
          || mem_text "fun" present
        then keys
        else add_row (back_button state ∷ []) keys)
    else (if quick_nav then add_row (quick_row present) keys else keys)

pub known_user : Chat → List User → Option User
known_user (account n) users = select_one (λ u. u.id == n) users
known_user (channel s) users = none
known_user (group z) users = none

pub full_keyboard : Option User → Bool → List (List Button) → List (List Button)
unfolding keyboard
full_keyboard none quick_nav keys = keys
full_keyboard (some u) quick_nav keys = keyboard u.state quick_nav keys

abbrev pub has_dedupe : String → List Message → Bool
has_dedupe key = exists λ m. str_eq m.dedupe key

abbrev next_message : List Message → ℕ
next_message = next_id λ m. m.id

abbrev queued : ℕ → String → Chat → Method → Payload → Message
queued ident key chat method payload = record {
  id = ident;
  dedupe = key;
  chat = chat;
  method = method;
  payload = some payload;
  done = Delivery.queued;
  attempts = 0;
  next_try = 0;
}

-- `INSERT INTO outbox`, which the unique key may refuse
pub insert_message : String → Chat → Method → Payload → Tx Db (Unit {0})
insert_message key chat method payload = do
  taken ← gets (λ d. has_dedupe key d.outbox)
  raise_if taken integrity
  modify (λ d. record d {
    outbox = insert_row (queued (next_message d.outbox) key chat method payload) d.outbox;
  })

-- `INSERT OR IGNORE INTO outbox`
unfoldable pub insert_message_once : String → Chat → Method → Payload → Tx Db (Unit {0})
insert_message_once key chat method payload = do
  taken ← gets (λ d. has_dedupe key d.outbox)
  when (not taken) (
      modify (λ d. record d {
        outbox = insert_row (queued (next_message d.outbox) key chat method payload) d.outbox;
      }))

-- the context, if this message answers the button press
pub answering : Chat → Option String → Option Nav → Option Nav
answering (account n) none (some nav) = if n == nav.chat && not nav.used then some nav else none
answering _ _ _ = none

abbrev hidden_buttons : Chat → ℕ → Payload
hidden_buttons chat message = record {
  chat_id = chat;
  notice = none;
  buttons = [];
  message_id = some message;
  file = "";
}

abbrev used_up : Nav → Nav
used_up nav = record nav { used = true }

-- The method and the message to edit; a message that cannot be edited loses its buttons.
pub navigate : Chat → Option Nav → Tx Db (Method × Option ℕ)
unfolding draw insert_message
navigate chat none = pure (Method.send_message, none)
navigate chat (some nav) = do
  modify (λ d. record d { nav = some (used_up nav) })
  if nav.editable then pure (Method.edit_message_text, some nav.id) else (do
    key ← draw
    insert_message key chat Method.edit_message_reply_markup (hidden_buttons chat nav.id)
    pure (Method.send_message, none))

-- `key or secrets.token_hex(12)`
pub dedupe_key : Option String → Tx Db String
unfolding draw
dedupe_key none = draw
dedupe_key (some key) = if nonempty key then pure key else draw

-- `enqueue(c, chat, body, keys, key, quick_nav)`
unfoldable pub enqueue :
    Chat → Notice → List (List Button) → Option String → Bool → Tx Db (Unit {0})
unfolding known_user full_keyboard answering navigate dedupe_key insert_message_once
enqueue chat notice keys key quick_nav = do
  user ← gets (λ d. known_user chat d.users)
  context ← gets (λ d. answering chat key d.nav)
  (method, message) ← navigate chat context
  dedupe ← dedupe_key key
  insert_message_once dedupe chat method (record {
    chat_id = chat;
    notice = some notice;
    buttons = full_keyboard user quick_nav keys;
    message_id = message;
    file = "";
  })

-- with the defaults `key=None` and `quick_nav=True`
unfoldable pub notify : Chat → Notice → List (List Button) → Tx Db (Unit {0})
unfolding enqueue
notify chat notice keys = enqueue chat notice keys none true
