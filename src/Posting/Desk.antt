-- ===== src/Posting/Desk.antt =====
-- What the administrators do with the channel in runtime/channel_manager.py: `menu`, `admin_callback`.
use masih_panel.Base.{
  ℕ, ◌+◌, ◌==◌, ltb, leb, Bool, true, false, not, ◌&&◌, ◌||◌, if◌then◌else◌, String, ◌<>◌, str_eq,
  List, [], ◌∷◌, ◌++◌, map, Option, none, some, select_one, select_all, exists, count, update_where,
  delete_where, take, length,
}
use masih_panel.Base.Order.{order_by}
use masih_panel.Base.Text.{str, take_chars}
use masih_panel.AiSales.Models.{has_credentials, same_modality, same_provider}
use masih_panel.Posting.{
  Outside, max_posts, today, set_config, set_posts, is_post, admin_only, is_fresh, posting_ready,
  model_key, text_model, channel_model,
}
use masih_panel.Posting.Commands.{Command, PostCommand, post_callback, parse_command}
use masih_panel.Posting.Publish.{is_review, is_approved, is_staged, by_slot, post_key, set_status}
use masih_panel.Posting.Verify.{verify}
use masih_panel.Queue.{button, enqueue}
use masih_panel.Store.{
  Db, Button, Notice, Message, AiModel, Modality, Provider, ChannelPost, PostStatus, account,
}
use masih_panel.Tx.{
  Tx, bad_command, bad_option, not_verified, posting_closed, post_missing, not_editable, not_review,
  not_decidable, raise, gets, require, ◌>>=◌, ◌>>◌, raise_if, modify,
}
use masih_panel.Wallet.{set_state}
use masih_panel.Worker.Outbox.{is_queued}

abbrev view_button : ChannelPost → List Button
view_button p = button ("slot " <> str (p.slot + 1)) (post_callback PostCommand.view p.id) ∷ []

abbrev is_of_day : ℕ → ChannelPost → Bool
is_of_day day p = p.day == day

abbrev switch_button : Bool → List Button
switch_button true = button "pause" "ch:pause" ∷ []
switch_button false = button "resume" "ch:resume" ∷ []

abbrev home_keys : Bool → List ChannelPost → List (List Button)
home_keys enabled ps =
    map view_button ps
    ++ ((button "set the channel" "ch:config" ∷ button "check the rights" "ch:verify" ∷ [])
        ∷ (button "model" "ch:models" ∷ [])
        ∷ (button "drafts" "ch:pending" ∷ button "make drafts" "ch:draft" ∷ [])
        ∷ switch_button enabled
        ∷ (button "management" "a:home" ∷ [])
        ∷ [])

abbrev pub tell : ℕ → Notice → List (List Button) → Tx Db (Unit {0})
tell uid notice keys = enqueue (account uid) notice keys none true

abbrev home_row : List Button
home_row = button "channel" "ch:home" ∷ []

-- `menu(c, uid)`
unfoldable pub menu : Outside → ℕ → Tx Db (Unit {0})
unfolding admin_only enqueue
menu o uid = do
  admin_only uid
  g ← gets (λ d. d.posting.config)
  key ← gets model_key
  rows ← gets (λ d. by_slot (select_all (is_of_day (today o d)) d.posting.posts))
  enqueue (account uid) (Notice.channel_home g key rows) (home_keys g.enabled rows) none false

abbrev is_offered : Db → AiModel → Bool
is_offered d m =
    same_modality m.modality Modality.text && m.active && has_credentials d.settings m.provider

abbrev model_button : AiModel → List Button
model_button m = button (take_chars 40 m.title) ("ch:model:" <> m.model_key) ∷ []

abbrev provider_name : Provider → String
provider_name Provider.openai = "openai"
provider_name Provider.google = "google"
provider_name Provider.groq = "groq"
provider_name Provider.cloudflare = "cloudflare"
provider_name Provider.fal = "fal"

-- `ORDER BY provider, title`
abbrev model_before : Outside → AiModel → AiModel → Bool
model_before o m n =
    if same_provider m.provider n.provider
    then o.text_leb m.title n.title
    else o.text_leb (provider_name m.provider) (provider_name n.provider)

-- the branch `models`
unfoldable pub show_models : Outside → ℕ → Tx Db (Unit {0})
unfolding has_credentials enqueue order_by
show_models o uid = do
  models ← gets (λ d. order_by (model_before o) (select_all (is_offered d) d.ai.models))
  tell uid (Notice.channel_models (ltb 0 (length models)))
      (map model_button (take 15 models) ++ (home_row ∷ []))

-- the branch `model`
unfoldable pub choose_model : Outside → ℕ → Option String → Tx Db (Unit {0})
unfolding text_model menu
choose_model o uid none = raise bad_command
choose_model o uid (some key) = do
  _ ← text_model key
  modify (λ d. record d { posting = record d.posting { channel_model = key } })
  menu o uid

-- the branch `config`
unfoldable pub ask_channel : ℕ → Tx Db (Unit {0})
unfolding enqueue
ask_channel uid = do
  modify (set_state uid "ch:config")
  tell uid Notice.channel_ask_id (home_row ∷ [])

-- the branch `verify`
unfoldable pub check_rights : Outside → ℕ → Tx Db (Unit {0})
unfolding verify menu enqueue
check_rights o uid = do
  (name, linked) ← verify o
  tell uid (Notice.channel_verified name linked) []
  menu o uid

-- the branch `resume`
unfoldable pub resume : Outside → ℕ → Tx Db (Unit {0})
unfolding channel_model menu
resume o uid = do
  since ← gets (λ d. d.posting.config.verified_at)
  fresh ← gets is_fresh
  raise_if (since == 0 || not fresh) not_verified
  _ ← channel_model
  modify (set_config (λ g. record g { enabled = true }))
  menu o uid

abbrev pub cancels : List ChannelPost → Message → Bool
cancels ps m =
    is_queued m.done && exists (λ p. is_staged p.status && str_eq m.dedupe (post_key p.id)) ps

abbrev pub has_message : ℕ → List Message → Bool
has_message ident = exists λ m. m.id == ident

abbrev pub unstage : ChannelPost → ChannelPost
unstage p = record p { status = PostStatus.approved; outbox_id = 0 }

-- the messages not yet delivered, and then the posts that have lost theirs
abbrev pub cancel_messages : Db → Db
cancel_messages d = record d { outbox = delete_where (cancels d.posting.posts) d.outbox }

abbrev pub unstage_posts : Db → Db
unstage_posts d =
    set_posts
      (update_where (λ p. is_staged p.status && not (has_message p.outbox_id d.outbox)) unstage) d

-- the branch `pause`
unfoldable pub pause : Outside → ℕ → Tx Db (Unit {0})
unfolding menu
pause o uid = do
  modify (set_config (λ g. record g { enabled = false }))
  modify cancel_messages
  modify unstage_posts
  menu o uid

-- `ORDER BY day DESC, slot`
abbrev is_before : ChannelPost → ChannelPost → Bool
is_before p q = ltb q.day p.day || p.day == q.day && leb p.slot q.slot

abbrev pending_row : ChannelPost → List Button
pending_row p =
    button (str p.day <> " | slot " <> str (p.slot + 1)) (post_callback PostCommand.view p.id) ∷ []

-- the branch `pending`
unfoldable pub show_pending : ℕ → Tx Db (Unit {0})
unfolding enqueue order_by
show_pending uid = do
  rows ←
      gets
        (λ d. take 20 (order_by is_before (select_all (λ p. is_review p.status) d.posting.posts)))
  tell uid (Notice.channel_pending (length rows)) (map pending_row rows ++ (home_row ∷ []))

-- the branch `draft`
unfoldable pub request_drafts : Outside → ℕ → Tx Db (Unit {0})
unfolding enqueue
request_drafts o uid = do
  ready ← gets posting_ready
  raise_if (not ready) posting_closed
  filled ← gets (λ d. count (is_of_day (today o d)) d.posting.posts)
  tell uid (Notice.channel_drafting (leb max_posts filled))
      ((button "drafts" "ch:pending" ∷ home_row) ∷ [])

abbrev view_keys : ℕ → List (List Button)
view_keys ident =
    (button "approve" (post_callback PostCommand.approve ident)
      ∷ button "edit" (post_callback PostCommand.edit ident)
      ∷ [])
    ∷ (button "reject" (post_callback PostCommand.reject ident) ∷ [])
    ∷ home_row
    ∷ []

abbrev pub is_rejected : PostStatus → Bool
is_rejected PostStatus.rejected = true
is_rejected _ = false

-- `status IN ('review','approved','rejected')`
abbrev pub is_editable : PostStatus → Bool
is_editable s = is_review s || is_approved s || is_rejected s

abbrev pub sign : ℕ → ℕ → ChannelPost → ChannelPost
sign uid at p = record p {
  status = PostStatus.approved;
  approved_by = uid;
  approved_at = at;
  updated = at;
}

-- the branch `approve`
unfoldable pub approve_post : ℕ → ChannelPost → Tx Db (Unit {0})
unfolding enqueue
approve_post uid p = do
  enabled ← gets (λ d. d.posting.config.enabled)
  fresh ← gets is_fresh
  raise_if (not enabled || not fresh) not_verified
  raise_if (not (is_review p.status)) not_review
  modify (λ d. set_posts (update_where (is_post p.id) (sign uid d.clock)) d)
  tell uid Notice.channel_approved (home_row ∷ [])

-- the branches on one post, which is there
unfoldable pub handle_post : ℕ → PostCommand → ChannelPost → Tx Db (Unit {0})
unfolding enqueue approve_post
handle_post uid PostCommand.view p = tell uid (Notice.channel_view p) (view_keys p.id)
handle_post uid PostCommand.edit p = do
  raise_if (not (is_editable p.status)) not_editable
  modify (set_state uid ("ch:edit:" <> str p.id))
  tell uid Notice.channel_ask_body []
handle_post uid PostCommand.approve p = approve_post uid p
handle_post uid PostCommand.reject p = do
  raise_if (not (is_review p.status || is_approved p.status)) not_decidable
  modify (λ d. set_posts (update_where (is_post p.id) (set_status PostStatus.rejected d.clock)) d)
  tell uid Notice.channel_rejected (home_row ∷ [])
handle_post uid PostCommand.other p = raise bad_option

-- the branches of `admin_callback`
unfoldable pub perform : Outside → ℕ → Command → Tx Db (Unit {0})
unfolding menu show_models choose_model ask_channel check_rights resume pause show_pending
    request_drafts handle_post
perform o uid Command.home = menu o uid
perform o uid Command.models = show_models o uid
perform o uid Command.config = ask_channel uid
perform o uid Command.verify = check_rights o uid
perform o uid Command.resume = resume o uid
perform o uid Command.pause = pause o uid
perform o uid Command.pending = show_pending uid
perform o uid Command.draft = request_drafts o uid
perform o uid (Command.model key) = choose_model o uid key
perform o uid (Command.on_post op ident) = do
  p ← require post_missing (λ d. select_one (is_post ident) d.posting.posts)
  handle_post uid op p

-- `admin_callback(c, uid, cmd)`
unfoldable pub admin_callback : Outside → ℕ → String → Tx Db (Unit {0})
unfolding admin_only perform parse_command
admin_callback o uid cmd = do admin_only uid; perform o uid (parse_command cmd)
