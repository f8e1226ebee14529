-- ===== src/Posting/Publish.antt =====
-- From an approved post to a published one in runtime/channel_manager.py: `_stage_approved`,
-- `_complete_outbox`, `_reply_once`.
use masih_panel.Base.{
  ◌++◌, str_eq, ℕ, ◌+◌, ◌==◌, ltb, leb, max, Bool, true, false, not, ◌&&◌, ◌||◌, if◌then◌else◌,
  String, ◌<>◌, List, [], ◌∷◌, Option, none, some, select_one, select_all, exists, count,
  update_where,
}
use masih_panel.Base.Text.{str, take_chars}
use masih_panel.Base.Text.Numerals.{read_int}
use masih_panel.Posting.{
  Outside, max_posts, slot_timestamp, today, set_posts, is_post, posting_ready,
}
use masih_panel.Queue.{insert_message_once}
use masih_panel.Store.{
  Db, Notice, Method, Message, Delivery, ChannelPost, PostStatus, ChannelReply, ReplyStatus, group,
}
use masih_panel.Tx.{when, Tx, bad_number, pure, gets, require, ◌>>=◌, ◌>>◌, modify}

abbrev pub is_review : PostStatus → Bool
is_review PostStatus.review = true
is_review _ = false

abbrev pub is_approved : PostStatus → Bool
is_approved PostStatus.approved = true
is_approved _ = false

abbrev pub is_staged : PostStatus → Bool
is_staged PostStatus.queued = true
is_staged _ = false

abbrev pub is_published : PostStatus → Bool
is_published PostStatus.published = true
is_published _ = false

-- `status IN ('review','approved') AND day<?`
abbrev pub is_overdue : ℕ → ChannelPost → Bool
is_overdue day p = (is_review p.status || is_approved p.status) && ltb p.day day

abbrev pub set_status : PostStatus → ℕ → ChannelPost → ChannelPost
set_status status at p = record p { status = status; updated = at }

abbrev pub expire_posts : ℕ → Db → Db
expire_posts day d =
    set_posts (update_where (is_overdue day) (set_status PostStatus.expired d.clock)) d

-- `day=? AND status IN ('queued','published')`
abbrev pub goes_out : ℕ → ChannelPost → Bool
goes_out day p = p.day == day && (is_staged p.status || is_published p.status)

-- `MAX(updated)`, or 0
pub last_update : List ChannelPost → ℕ
last_update [] = 0
last_update (p ∷ ps) = max p.updated (last_update ps)

-- at most two hours after the last post of the day
abbrev pub is_close : ℕ → Db → Bool
is_close day d =
    let last = last_update (select_all (goes_out day) d.posting.posts) in
    not (last == 0) && ltb d.clock (last + 7200)

abbrev pub is_ready : ℕ → ChannelPost → Bool
is_ready day p = p.day == day && is_approved p.status

-- `ORDER BY slot`, for the three slots that the table allows
abbrev pub in_slot : ℕ → ChannelPost → Bool
in_slot slot p = p.slot == slot

abbrev pub by_slot : List ChannelPost → List ChannelPost
by_slot ps = select_all (in_slot 0) ps ++ select_all (in_slot 1) ps ++ select_all (in_slot 2) ps

abbrev pub post_key : ℕ → String
post_key ident = "channel-post:" <> str ident

abbrev pub has_key_of : ℕ → Message → Bool
has_key_of ident m = str_eq m.dedupe (post_key ident)

abbrev pub stage : ℕ → ℕ → ChannelPost → ChannelPost
stage message at p = record p { status = PostStatus.queued; outbox_id = message; updated = at }

abbrev pub mark_staged : ℕ → Option Message → Db → Db
mark_staged ident none d = d
mark_staged ident (some m) d = set_posts (update_where (is_post ident) (stage m.id d.clock)) d

-- the end of the loop's body
unfoldable pub stage_one : ChannelPost → Tx Db (Unit {0})
unfolding read_int insert_message_once last_update
stage_one p = do
  chat ← require bad_number (λ d. read_int d.posting.config.channel_id)
  insert_message_once (post_key p.id) (group chat) Method.send_message (record {
    chat_id = group chat;
    notice = some (Notice.channel_post (take_chars 4000 p.body));
    buttons = [];
    message_id = none;
    file = "";
  })
  m ← gets (λ d. select_one (has_key_of p.id) d.outbox)
  modify (mark_staged p.id m)

-- the loop
unfoldable pub stage_each : Outside → ℕ → List ChannelPost → Tx Db (Unit {0})
unfolding stage_one
stage_each o day [] = pure tt
stage_each o day (p ∷ ps) = do
  early ← gets (λ d. ltb d.clock (slot_timestamp o p.day p.slot))
  full ← gets (λ d. leb max_posts (count (goes_out day) d.posting.posts))
  close ← gets (is_close day)
  if early
      then stage_each o day ps
      else if full || close
      then pure tt
      else (do stage_one p; stage_each o day ps)

-- `_stage_approved(c)`
unfoldable pub stage_approved : Outside → Tx Db (Unit {0})
unfolding stage_each
stage_approved o = do
  ready ← gets posting_ready
  day ← gets (today o)
  when ready (do
    modify (expire_posts day)
    rows ← gets (λ d. by_slot (select_all (is_ready day) d.posting.posts))
    stage_each o day rows)

abbrev pub is_sent : Delivery → Bool
is_sent Delivery.sent = true
is_sent _ = false

abbrev pub is_dead : Delivery → Bool
is_dead Delivery.dead = true
is_dead _ = false

-- `EXISTS(SELECT 1 FROM outbox o WHERE o.id=? AND o.done=?)`
abbrev pub has_outcome : (Delivery → Bool) → List Message → ℕ → Bool
has_outcome done ms ident = exists (λ m. m.id == ident && done m.done) ms

abbrev pub complete_posts : (Delivery → Bool) → PostStatus → Db → Db
complete_posts done status d =
    set_posts
      (update_where (λ p. is_staged p.status && has_outcome done d.outbox p.outbox_id)
        (set_status status d.clock))
      d

abbrev pub set_replies : (List ChannelReply → List ChannelReply) → Db → Db
set_replies f d = record d { posting = record d.posting { replies = f d.posting.replies } }

abbrev pub is_reply : ReplyStatus → ReplyStatus → Bool
is_reply ReplyStatus.pending ReplyStatus.pending = true
is_reply ReplyStatus.queued ReplyStatus.queued = true
is_reply ReplyStatus.sent ReplyStatus.sent = true
is_reply ReplyStatus.failed ReplyStatus.failed = true
is_reply _ _ = false

abbrev pub set_reply : ReplyStatus → ChannelReply → ChannelReply
set_reply status r = record r { status = status }

abbrev pub complete_replies : (Delivery → Bool) → ReplyStatus → Db → Db
complete_replies done status d =
    set_replies
      (update_where
        (λ r. is_reply ReplyStatus.queued r.status && has_outcome done d.outbox r.outbox_id)
        (set_reply status))
      d

-- `_complete_outbox(c)`
unfoldable pub complete_outbox : Tx Db (Unit {0})
complete_outbox = do
  modify (complete_posts is_sent PostStatus.published)
  modify (complete_posts is_dead PostStatus.failed)
  modify (complete_replies is_sent ReplyStatus.sent)
  modify (complete_replies is_dead ReplyStatus.failed)

-- `_reply_once(c)`
unfoldable pub retire_replies : Tx Db (Unit {0})
retire_replies = modify (
    set_replies
      (update_where (λ r. is_reply ReplyStatus.pending r.status) (set_reply ReplyStatus.failed)))
