-- ===== src/Tests/Social.antt =====
-- The club of the small shop.
use masih_panel.Social.Rewards.Caps.{reward_like-IsCapped, IsCapped}
use masih_panel.Social.Rewards.{
  earned_points, reward_like, like_kinds, score, reward_post, reaction,
}
use masih_panel.Shop.Labels.{char_count}
use masih_panel.Base.Text.{str}
use masih_panel.Tx.{insufficient_funds, err, settle, ◌>>=◌}
use masih_panel.Queue.{notify, draw, audit, enqueue}
use masih_panel.Base.Int.{◌-ℤ◌, pos, ◌+ℤ◌}
use masih_panel.Store.{ReactionKind, Visibility, Db, AdminOperation, ChatRoute}
use masih_panel.Tests.{shop, ascii}
use masih_panel.Tests.Sales.{shop-IsBooked}
use masih_panel.Social.Accounts.{Adjustment, adjust_account}
use masih_panel.Social.Accounts.Funds.{adjust_account-IsBooked, adjust_account-IsSolvent}
use masih_panel.Social.Chat.{
  chat_cost, charge_once, discover, route_for, can_view, is_blocked, end_chat, chat_message,
  active_chat,
}
use masih_panel.Loyalty.{award, balance}
use masih_panel.Loyalty.Points.{IsSolvent}
use masih_panel.Wallet.Books.{IsBooked}
use masih_panel.Base.{
  true, inr, arith, inl, ◌==◌, Bool-cases, false, refl, ◌∷◌, [], none, ◌≡◌, length,
}

abbrev gift : Adjustment
gift = record {
  code = "MS-0000AA11";
  operation = AdminOperation.points_sub;
  amount = 15;
  request_id = "request-0000000001";
  note = "";
  manager = "web-admin";
}

abbrev gifted : Db
gifted = settle shop (adjust_account ascii gift shop)

takes_points : balance 1 gifted ≡ pos 25
unfolding adjust_account balance enqueue audit ◌>>=◌ ◌+ℤ◌ str char_count
takes_points = refl

-- A repeated request changes nothing.
answers_again : settle gifted (adjust_account ascii gift gifted) ≡ gifted
unfolding adjust_account balance enqueue audit ◌>>=◌ ◌+ℤ◌ str char_count
answers_again = refl

refuses_overdraft : adjust_account ascii (record gift { amount = 41 }) shop ≡ err insufficient_funds
unfolding adjust_account balance ◌>>=◌ ◌+ℤ◌ char_count
refuses_overdraft = refl

shop-IsSolvent : IsSolvent shop
unfolding balance ◌+ℤ◌
shop-IsSolvent uid = elim (Bool-cases (1 == uid)) [
  | inl own ↦ rw own (omega arith)
  | inr other ↦ rw other (omega arith)
]

adjust_account-IsBooked_example : IsBooked (settle shop (adjust_account ascii gift shop))
adjust_account-IsBooked_example = adjust_account-IsBooked ascii gift shop shop-IsBooked

adjust_account-IsSolvent_example : IsSolvent (settle shop (adjust_account ascii gift shop))
adjust_account-IsSolvent_example = adjust_account-IsSolvent ascii gift shop shop-IsSolvent

abbrev paired : Db
paired = record shop {
  social = record shop.social {
    pairs =
        record {
          id = 1;
          first_user = 1;
          second_user = 2;
          created = 50;
          closed = 0;
          with_friend = false;
        }
        ∷ [];
  };
}

charges_a_chat :
    balance 1 (settle shop (charge_once 1 (chat_cost ChatRoute.direct 1 shop) 1 shop)) ≡ pos 35
unfolding charge_once balance chat_cost ◌>>=◌ ◌+ℤ◌ str
charges_a_chat = refl

says : length (settle paired (chat_message ascii 2 "hello" 1 paired)).social.lines ≡ 1
unfolding chat_message enqueue draw ◌>>=◌ str char_count notify
says = refl

ends : active_chat 1 (settle paired (end_chat 2 paired)) ≡ none
unfolding end_chat enqueue draw notify ◌>>=◌ str
ends = refl

finds : route_for 1 2 (settle shop (discover 1 2 ChatRoute.near shop)) ≡ ChatRoute.near
unfolding discover route_for ◌>>=◌
finds = refl

is_open : is_blocked 1 2 shop ≡ false
unfolding is_blocked
is_open = refl

shows :
    can_view 2
      (record {
        user_id = 1;
        code = "";
        display_name = "";
        gender = "";
        age = 0;
        in_province = false;
        interests = [];
        discoverable = true;
        visibility = Visibility.friends;
      })
      shop
    ≡ false
unfolding can_view
shows = refl

-- after a like of the owner's music
abbrev liked : Db
liked = settle shop (reaction 2 ReactionKind.music 3 true shop)

-- A second equal vote takes the first back, and the points stay.
takes_back :
    score ReactionKind.music 3 (settle liked (reaction 2 ReactionKind.music 3 true liked)) ≡ (0, 0)
unfolding reaction score is_blocked award ◌>>=◌ ◌+ℤ◌ ◌-ℤ◌ str
takes_back = refl

rewards_the_owner : balance 1 liked ≡ pos 42
unfolding reaction balance is_blocked award ◌>>=◌ ◌+ℤ◌ ◌-ℤ◌ str
rewards_the_owner = refl

rewards_a_post : balance 1 (settle shop (reward_post 1 ReactionKind.music 3 shop)) ≡ pos 70
unfolding reward_post balance award ◌>>=◌ ◌+ℤ◌ ◌-ℤ◌ str
rewards_a_post = refl

shop-IsCapped : IsCapped like_kinds 20 shop
unfolding earned_points
shop-IsCapped uid = elim (Bool-cases (1 == uid)) [
  | inl own ↦ rw own (omega arith)
  | inr other ↦ rw other (omega arith)
]

reward_like-IsCapped_example :
    IsCapped like_kinds 20 (settle shop (reward_like 2 1 ReactionKind.music 3 shop))
reward_like-IsCapped_example = reward_like-IsCapped 2 1 ReactionKind.music 3 shop shop-IsCapped
