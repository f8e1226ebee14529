-- ===== src/Posting/Verify.antt =====
-- `verify` of runtime/channel_manager.py: the channel, the bot's right to post and the linked group.
use masih_panel.Base.{◌==◌, true, Bool, not, ◌&&◌, String, str_eq, ◌∷◌, []}
use masih_panel.Base.Int.{negsuc, pos, ℤ}
use masih_panel.Base.Text.{nonempty, mem_text}
use masih_panel.Base.Text.Numerals.{str_ℤ}
use masih_panel.Posting.{Outside, BotIdentity, ChatInfo, set_config}
use masih_panel.Store.{Db}
use masih_panel.Tx.{
  Tx, no_channel, not_channel, no_post_right, bad_group, not_in_group, pure, gets, lift, ◌>>=◌,
  ◌>>◌, raise_if, modify, when,
}

abbrev pub is_linked : ℤ → Bool
is_linked (pos n) = not (n == 0)
is_linked (negsuc n) = true

-- the branch `if linked:`
unfoldable pub check_group : Outside → BotIdentity → ℤ → Tx Db (Unit {0})
check_group o me linked = do
  group ← lift (o.numbered_chat linked)
  raise_if (not (mem_text group.kind ("group" ∷ "supergroup" ∷ []))) bad_group
  seen ← lift (o.member linked me.id)
  raise_if (not (mem_text seen.status ("member" ∷ "administrator" ∷ "creator" ∷ []))) not_in_group

abbrev pub verified : BotIdentity → ChatInfo → Db → Db
verified me chat d =
    set_config
      (λ g. record g {
        channel_id = str_ℤ chat.id;
        discussion_id = chat.linked_chat_id;
        bot_id = me.id;
        bot_username = me.username;
        verified_at = d.clock;
      })
      d

-- `verify(c)`
unfoldable pub verify : Outside → Tx Db (String × ℤ)
unfolding check_group
verify o = do
  name ← gets (λ d. d.posting.config.channel_id)
  raise_if (not (nonempty name)) no_channel
  me ← lift o.me
  chat ← lift (o.named_chat name)
  raise_if (not (str_eq chat.kind "channel")) not_channel
  seen ← lift (o.member chat.id me.id)
  raise_if (not (str_eq seen.status "administrator" && seen.can_post_messages)) no_post_right
  when (is_linked chat.linked_chat_id) (check_group o me chat.linked_chat_id)
  modify (verified me chat)
  pure (chat.title, chat.linked_chat_id)
