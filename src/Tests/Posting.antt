-- ===== src/Tests/Posting.antt =====
-- The channel of the small shop: a draft, its approval, its publication.
use masih_panel.Posting.Approvals.{approve_effect, Approved}
use masih_panel.Social.Chat.{is_admin}
use masih_panel.Posting.Orderly.{is_among, is_signed}
use masih_panel.Posting.Runs.{Step, Run, Run-IsSigned}
use masih_panel.Tests.{shop, shop_settings, ascii}
use masih_panel.AiSales.Models.{catalog_rows}
use masih_panel.Posting.{Outside}
use masih_panel.Posting.Commands.{PostCommand, Command, post_callback, parse_command}
use masih_panel.Posting.Printed.{parse_command-post_callback}
use masih_panel.Posting.Desk.{admin_callback}
use masih_panel.Posting.Round.{tick}
use masih_panel.Store.{Db, ChannelPost, PostStatus, Provider}
use masih_panel.Tx.{not_review, ◌>>=◌, settle, ok, err, not_admin}
use masih_panel.Base.{ℕ, arith, All, ◌+◌, ◌*◌, ◌/◌, ◌≡◌, refl, true, List, [], ◌∷◌, map}
use masih_panel.Base.Int.{pos}
use masih_panel.Base.Text.{take_chars, str}

-- days of 86400 seconds, and a provider that writes one text
abbrev world : Outside
world = record {
  me = ok (record { id = 9; username = "shop_bot" });
  named_chat = λ name. err not_admin;
  numbered_chat = λ z. err not_admin;
  member = λ z n. err not_admin;
  local_day = λ t. t / 86400;
  moment = λ day hour minute. day * 86400 + hour * 3600 + minute * 60;
  completion = λ m topic. ok "three practical hints for a safe connection to the network";
  text_leb = λ s t. true;
}

abbrev open_channel : Db
open_channel = record shop {
  settings = record shop_settings { ai_keys = Provider.openai ∷ [] };
  ai = record shop.ai { models = catalog_rows };
  posting = record shop.posting {
    config = record {
      channel_id = "-1001234567";
      discussion_id = pos 0;
      bot_id = 9;
      bot_username = "shop_bot";
      verified_at = 90;
      enabled = true;
    };
  };
}

abbrev drafted : Db
drafted = settle open_channel (tick ascii world open_channel)

abbrev approved_draft : Db
approved_draft =
    settle drafted (admin_callback world 7 (post_callback PostCommand.approve 1) drafted)

abbrev at_ten : Db
at_ten = record approved_draft {
  clock = 36100;
  settings = record approved_draft.settings { admins = [] };
  outbox = approved_draft.outbox;
  users = approved_draft.users;
}

abbrev staged_post : Db
staged_post = settle at_ten (tick ascii world at_ten)

abbrev statuses : Db → List PostStatus
statuses d = map (λ (p : ChannelPost). p.status) d.posting.posts

drafts : statuses drafted ≡ PostStatus.review ∷ []
unfolding tick ◌>>=◌ take_chars str
drafts = refl

stages : statuses staged_post ≡ PostStatus.queued ∷ PostStatus.review ∷ []
unfolding tick admin_callback ◌>>=◌ take_chars str
stages = refl

day_of_work : Run ascii (7 ∷ []) open_channel staged_post
day_of_work =
    Run.goes
      (Run.goes
        (Run.goes (Run.goes (Run.starts open_channel) (Step.ticks world open_channel))
          (Step.presses world 7 (post_callback PostCommand.approve 1) drafted))
        (Step.elsewhere approved_draft at_ten refl (λ uid own. ground (arith, own))))
      (Step.ticks world at_ten)

admin_7 : (uid : ℕ) → is_admin uid shop_settings ≡ true → is_among uid (7 ∷ []) ≡ true
admin_7 uid own = ground (arith, own)

Run-IsSigned_example : All (λ p. is_signed (7 ∷ []) p ≡ true) staged_post.posting.posts
Run-IsSigned_example = Run-IsSigned ascii (7 ∷ []) open_channel staged_post refl admin_7 day_of_work

approves_draft :
    admin_callback world 7 (post_callback PostCommand.approve 1) drafted ≡ ok (tt, approved_draft)
unfolding tick admin_callback ◌>>=◌ take_chars str
approves_draft = refl

approve_effect_example : Approved 7 1 drafted approved_draft
approve_effect_example = approve_effect world 7 1 drafted approved_draft approves_draft

-- A second press finds the post approved already.
refuses_again :
    admin_callback world 7 (post_callback PostCommand.approve 1) approved_draft ≡ err not_review
unfolding tick admin_callback ◌>>=◌ take_chars str
refuses_again = refl

parse_command-post_callback_example :
    parse_command (post_callback PostCommand.edit 17) ≡ Command.on_post PostCommand.edit 17
parse_command-post_callback_example = parse_command-post_callback PostCommand.edit 17
