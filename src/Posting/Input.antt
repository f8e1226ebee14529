-- ===== src/Posting/Input.antt =====
-- `admin_input` of runtime/channel_manager.py: the texts that an administrator sends.
use masih_panel.Base.{
  ℕ, ◌==◌, in_range, Bool, false, not, ◌&&◌, if◌then◌else◌, String, str_eq, starts_with, [], ◌∷◌,
  count, update_where,
}
use masih_panel.Base.Int.{pos}
use masih_panel.Base.Text.{drop_chars}
use masih_panel.Base.Text.Numerals.{read_nat}
use masih_panel.Posting.{set_config, set_posts, admin_only}
use masih_panel.Posting.Commands.{PostCommand, post_callback, before_colon}
use masih_panel.Posting.Names.{normalize_channel}
use masih_panel.Posting.Desk.{is_editable}
use masih_panel.Queue.{button, notify}
use masih_panel.Shop.Labels.{Unicode, char_count}
use masih_panel.Store.{Db, Notice, ChannelPost, PostStatus, account}
use masih_panel.Tx.{
  Tx, bad_number, bad_text, bad_step, not_editable, raise, gets, require, lift, ◌>>=◌, ◌>>◌,
  raise_if, modify,
}
use masih_panel.Wallet.{set_state}

-- the state `ch:config`: another channel has to be verified and enabled anew
unfoldable pub set_channel : Unicode → ℕ → String → Tx Db (Unit {0})
unfolding normalize_channel notify
set_channel u uid body = do
  name ← lift (normalize_channel u body)
  modify (
      set_config (λ g. record g {
        channel_id = name;
        discussion_id = pos 0;
        verified_at = 0;
        bot_id = 0;
        bot_username = "";
        enabled = false;
      }))
  modify (set_state uid "")
  notify (account uid) Notice.channel_saved ((button "check the rights" "ch:verify" ∷ []) ∷ [])

abbrev pub rewritten : String → ℕ → ChannelPost → ChannelPost
rewritten body at p = record p {
  body = body;
  status = PostStatus.review;
  approved_by = 0;
  approved_at = 0;
  updated = at;
}

abbrev pub can_rewrite : ℕ → ChannelPost → Bool
can_rewrite ident p = p.id == ident && is_editable p.status

-- the states `ch:edit:` and a number
unfoldable pub rewrite_post : Unicode → ℕ → ℕ → String → Tx Db (Unit {0})
unfolding notify char_count
rewrite_post u uid ident body = do
  raise_if (not (in_range 20 3500 (char_count (u.strip body)))) bad_text
  found ← gets (λ d. count (can_rewrite ident) d.posting.posts)
  modify (λ d. set_posts (update_where (can_rewrite ident) (rewritten (u.strip body) d.clock)) d)
  raise_if (found == 0) not_editable
  modify (set_state uid "")
  notify (account uid) Notice.channel_edited
      ((button "look and approve" (post_callback PostCommand.view ident) ∷ []) ∷ [])

-- `admin_input(c, uid, state, body)`
unfoldable pub admin_input : Unicode → ℕ → String → String → Tx Db (Unit {0})
unfolding admin_only set_channel rewrite_post read_nat before_colon
admin_input u uid state body = do
  admin_only uid
  if str_eq state "ch:config"
      then set_channel u uid body
      else if starts_with state "ch:edit:"
      then (do
        ident ← require bad_number (λ d. read_nat (before_colon (drop_chars 8 state)))
        rewrite_post u uid ident body)
      else raise bad_step
