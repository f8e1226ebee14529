-- ===== src/Posting/Drafts.antt =====
-- The drafts of runtime/channel_manager.py: `_notify` and `_make_one_draft`.
use Prim.Native.Char.{Char, code}
use masih_panel.Base.{
  ℕ, ◌==◌, ltb, in_range, Bool, true, false, not, ◌&&◌, ◌||◌, if◌then◌else◌, String, ◌<>◌, List, [],
  ◌∷◌, Option, none, some, select_one, exists, insert_row, next_id,
}
use masih_panel.Base.Text.{str, nonempty}
use masih_panel.AiSales.Models.{text_response}
use masih_panel.Posting.Commands.{post_callback, PostCommand}
use masih_panel.Posting.{
  Outside, slot_timestamp, today, set_posts, is_post, posting_ready, channel_model,
}
use masih_panel.Queue.{button, enqueue}
use masih_panel.Shop.Labels.{Unicode, char_count}
use masih_panel.Store.{Db, Button, Notice, ChannelPost, PostStatus, account}
use masih_panel.Tx.{Tx, bad_draft, integrity, pure, gets, require, ◌>>=◌, ◌>>◌, raise_if, modify}

abbrev pub review_keys : ℕ → List (List Button)
review_keys ident =
    (button "approve" (post_callback PostCommand.approve ident)
      ∷ button "edit" (post_callback PostCommand.edit ident)
      ∷ [])
    ∷ (button "reject" (post_callback PostCommand.reject ident) ∷ [])
    ∷ (button "channel" "ch:home" ∷ [])
    ∷ []

unfoldable pub notify_each : ChannelPost → List ℕ → Tx Db (Unit {0})
unfolding enqueue
notify_each p [] = pure tt
notify_each p (uid ∷ uids) = do
  enqueue (account uid) (Notice.channel_draft p) (review_keys p.id)
      (some ("channel-review:" <> str p.id <> ":" <> str uid)) false
  notify_each p uids

-- `_notify(c, post_id)`
unfoldable pub notify_admins : Option ChannelPost → Tx Db (Unit {0})
unfolding notify_each
notify_admins none = pure tt
notify_admins (some p) = do admins ← gets (λ d. d.settings.admins); notify_each p admins

abbrev pub at_slot : ℕ → ℕ → ChannelPost → Bool
at_slot day slot p = p.day == day && p.slot == slot

-- whether a draft is missing for the slot, and still in time
abbrev pub is_open_slot : Outside → Db → ℕ → Bool
is_open_slot o d slot =
    not (exists (at_slot (today o d) slot) d.posting.posts)
    && ltb d.clock (slot_timestamp o (today o d) slot)

-- `next_slot`
abbrev pub next_slot : Outside → Db → Option ℕ
next_slot o d = select_one (is_open_slot o d) (0 ∷ 1 ∷ 2 ∷ [])

abbrev is_word_char : Char → Bool
is_word_char c =
    in_range 48 57 (code c) || in_range 65 90 (code c) || in_range 97 122 (code c) || code c == 95

-- `re.sub(r"[^A-Za-z0-9_]", "", s)`
word_chars : String → String
word_chars String.[] = ""
word_chars (String.◌∷◌ c s) =
    let rest = word_chars s in if is_word_char c then String.◌∷◌ c rest else rest

-- the text with the address of the bot; "bot" stands for the label of the source
signature : Unicode → String → String → String
unfolding word_chars
signature u name content =
    let bot = word_chars name in
    if nonempty bot then u.strip content <> "\n\nbot: https://t.me/" <> bot else content

abbrev pub new_draft : ℕ → ℕ → String → Db → ChannelPost
new_draft day slot body d = record {
  id = next_id (λ p. p.id) d.posting.posts;
  day = day;
  slot = slot;
  topic = slot;
  body = body;
  status = PostStatus.review;
  approved_by = 0;
  approved_at = 0;
  outbox_id = 0;
  created = d.clock;
  updated = d.clock;
}

-- `INSERT OR IGNORE INTO channel_manager_posts`
abbrev pub insert_draft : ℕ → ℕ → String → Db → Db
insert_draft day slot body d =
    if exists (at_slot day slot) d.posting.posts
    then d
    else set_posts (insert_row (new_draft day slot body d)) d

-- what follows the choice of the slot
unfoldable pub draft : Unicode → Outside → ℕ → Tx Db (Unit {0})
unfolding channel_model text_response signature notify_admins char_count
draft u o slot = do
  day ← gets (today o)
  model ← channel_model
  content ← text_response u model (o.completion model slot) false
  raise_if (not (in_range 40 3200 (char_count (u.strip content)))) bad_draft
  name ← gets (λ d. d.posting.config.bot_username)
  modify (insert_draft day slot (u.strip (signature u name content)))
  post ← require integrity (λ d. select_one (at_slot day slot) d.posting.posts)
  saved ← gets (λ d. select_one (is_post post.id) d.posting.posts)
  notify_admins saved

-- `_make_one_draft(c)`
unfoldable pub make_one_draft : Unicode → Outside → Tx Db Bool
unfolding draft
make_one_draft u o = do
  ready ← gets posting_ready
  slot ← gets (next_slot o)
  if not ready
      then pure false
      else elim slot [ none ↦ pure false | some n ↦ (do draft u o n; pure true) ]
