-- ===== src/Posting/Round.antt =====
-- `tick` of runtime/channel_manager.py, which runtime/channel_manager_worker.py runs and commits.
use masih_panel.Base.{
  ◌+◌, ltb, leb, Bool, true, false, ◌&&◌, ◌||◌, if◌then◌else◌, String, update_where, delete_where,
}
use masih_panel.Base.Text.{nonempty}
use masih_panel.Posting.{Outside, posting_ready}
use masih_panel.Posting.Verify.{verify}
use masih_panel.Posting.Drafts.{make_one_draft}
use masih_panel.Posting.Publish.{
  stage_approved, complete_outbox, retire_replies, set_replies, is_reply, set_reply,
}
use masih_panel.Queue.{audit}
use masih_panel.Shop.Labels.{Unicode}
use masih_panel.Store.{Db, ReplyStatus}
use masih_panel.Tx.{Tx, Error, ok, err, integrity, pure, gets, ◌>>=◌, ◌>>◌, modify}

-- An exception that the round catches: all that the modelled code raises but SQLite's.
abbrev pub is_caught : Error → Bool
is_caught integrity = false
is_caught _ = true

-- `try: m` with `except (RuntimeError, ValueError, TimeoutError)`, where `m` raises before it writes
unfoldable pub attempt : {A : Type 0} → Tx Db A → Tx Db A → Tx Db A
attempt m handler d = elim (m d) [ ok r ↦ ok r | err e ↦ if is_caught e then handler d else err e ]

-- the name of the exception of every error that is caught
abbrev pub exception_name : String
exception_name = "ValueError"

-- the replies that came too late, and those that are old
abbrev pub tidy_replies : Db → Db
tidy_replies d =
    set_replies
      (λ rs.
        delete_where
          (λ r.
            (is_reply ReplyStatus.sent r.status || is_reply ReplyStatus.failed r.status)
            && ltb (r.created + 2592000) d.clock)
          (update_where
            (λ r. is_reply ReplyStatus.pending r.status && ltb (r.created + 3600) d.clock)
            (set_reply ReplyStatus.failed) rs))
      d

-- what follows once the channel is known to be ready
unfoldable pub produce : Unicode → Outside → Tx Db (Unit {0})
unfolding stage_approved make_one_draft audit retire_replies attempt
produce u o = do
  stage_approved o
  _ ← attempt (make_one_draft u o) (do audit "channel_draft_failed" exception_name; pure false)
  retire_replies

-- `verify`, unless the last one is recent; false where it raises
unfoldable pub recheck : Outside → Tx Db Bool
unfolding verify audit attempt
recheck o = do
  g ← gets (λ d. d.posting.config)
  now ← gets (λ d. d.clock)
  if g.enabled && nonempty g.channel_id && leb (g.verified_at + 43200) now
      then attempt (do _ ← verify o; pure true)
          (do audit "channel_permissions_unavailable" exception_name; pure false)
      else pure true

-- `tick(c)`
unfoldable pub tick : Unicode → Outside → Tx Db (Unit {0})
unfolding complete_outbox recheck produce
tick u o = do
  modify tidy_replies
  complete_outbox
  granted ← recheck o
  ready ← gets posting_ready
  if granted && ready then produce u o else pure tt
