-- ===== src/Tests/Matching.antt =====
-- Two members of the club look for a chat.
use masih_panel.Social.Matching.Invites.{press_answer, press_search, answer_invite}
use masih_panel.Social.Matching.Chats.{at_time, ChatStep, ChatRun, ChatRun-IsAlone}
use masih_panel.Tests.{ascii, shop, customer, earned}
use masih_panel.Social.Matching.Funds.{press_answer-IsSolvent, start_matching-IsSolvent}
use masih_panel.Loyalty.Points.{IsSolvent}
use masih_panel.Queue.{notify}
use masih_panel.Loyalty.{balance}
use masih_panel.Social.Matching.{start_matching}
use masih_panel.Social.Matching.Alone.{IsAlone}
use masih_panel.Store.{InviteStatus, Db, ChatRoute, SocialProfile, Visibility}
use masih_panel.Tx.{invite_over, err, settle, ◌>>=◌}
use masih_panel.Base.{inr, inl, ◌==◌, Bool-cases, ℕ, ◌≡◌, refl, true, [], ◌∷◌, arith}
use masih_panel.Base.Int.{pos, ◌+ℤ◌}
use masih_panel.Base.Text.{str}

abbrev member : ℕ → SocialProfile
member uid = record {
  user_id = uid;
  code = str uid;
  display_name = "Nika";
  gender = "f";
  age = 30;
  in_province = true;
  interests = "music" ∷ [];
  discoverable = true;
  visibility = Visibility.public;
}

abbrev club : Db
club = record shop {
  users = customer ∷ record customer { id = 2 } ∷ [];
  loyalty_points =
      earned ∷ record earned { user_id = 2; points = pos 7; reference = "purchase:p" } ∷ [];
  social = record shop.social { profiles = member 1 ∷ member 2 ∷ [] };
}

abbrev one_waits : Db
one_waits = settle club (start_matching 1 ChatRoute.filtered club)

abbrev matched : Db
matched =
    settle (at_time 100 one_waits) (start_matching 2 ChatRoute.filtered (at_time 100 one_waits))

-- Waiting costs nothing, and the chat costs both of them 5 points.
matching_costs :
    balance 1 one_waits ∷ balance 2 one_waits ∷ balance 1 matched ∷ balance 2 matched ∷ []
    ≡ pos 40 ∷ pos 7 ∷ pos 35 ∷ pos 2 ∷ []
unfolding start_matching balance ◌>>=◌ str ◌+ℤ◌ notify
matching_costs = refl

-- Member 1 presses the button of the search, then member 2 does.
abbrev searched : Db
searched = settle (at_time 100 club) (press_search 1 ChatRoute.filtered (at_time 100 club))

abbrev met : Db
met = settle (at_time 130 searched) (press_search 2 ChatRoute.filtered (at_time 130 searched))

meeting : ChatRun ascii club met
meeting =
    ChatRun.goes
      (ChatRun.goes (ChatRun.starts club)
        (ChatStep.looks 100 1 ChatRoute.filtered club (omega arith)))
      (ChatStep.looks 130 2 ChatRoute.filtered searched (omega arith))

ChatRun-IsAlone_example : IsAlone met
ChatRun-IsAlone_example = ChatRun-IsAlone ascii club met refl meeting

-- Member 2 accepts an invitation of member 1 while member 2 waits in the queue.
abbrev invited : Db
invited = record club {
  social = record club.social {
    profiles = record (member 1) { code = "MS-0000AA11" } ∷ member 2 ∷ [];
    invites =
        record {
          requester = 1;
          recipient = 2;
          created = 60;
          status = InviteStatus.pending;
          route = ChatRoute.direct;
          points = 5;
        }
        ∷ [];
  };
}

abbrev accepted_chat : Db
accepted_chat = settle invited (answer_invite true 2 "MS-0000AA11" invited)

-- The requester alone pays, and the second press comes too late.
invitation_costs :
    (balance 1 accepted_chat ≡ pos 35)
    × (balance 2 accepted_chat ≡ pos 7)
    × (answer_invite true 2 "MS-0000AA11" accepted_chat ≡ err invite_over)
unfolding answer_invite balance ◌>>=◌ str ◌+ℤ◌ notify
invitation_costs = (refl, refl, refl)

club-IsSolvent : IsSolvent club
unfolding balance ◌+ℤ◌
club-IsSolvent uid = elim (Bool-cases (1 == uid)) [
  | inl first ↦ elim (Bool-cases (2 == uid)) [
    | inl second ↦ ground (arith, first, second)
    | inr other ↦ rw (first, other) (omega arith)
  ]
  | inr other ↦ elim (Bool-cases (2 == uid)) [
    | inl second ↦ rw (other, second) (omega arith)
    | inr neither ↦ rw (other, neither) (omega arith)
  ]
]

one_waits-IsSolvent : IsSolvent one_waits
one_waits-IsSolvent = start_matching-IsSolvent 1 ChatRoute.filtered club club-IsSolvent

later-IsSolvent : IsSolvent (at_time 100 one_waits)
unfolding balance
later-IsSolvent = one_waits-IsSolvent

start_matching-IsSolvent_example : IsSolvent matched
start_matching-IsSolvent_example =
    start_matching-IsSolvent 2 ChatRoute.filtered (at_time 100 one_waits) later-IsSolvent

invited-IsSolvent : IsSolvent invited
unfolding balance
invited-IsSolvent = club-IsSolvent

press_answer-IsSolvent_example :
    IsSolvent (settle invited (press_answer true 2 "MS-0000AA11" invited))
press_answer-IsSolvent_example =
    press_answer-IsSolvent true 2 "MS-0000AA11" invited invited-IsSolvent
