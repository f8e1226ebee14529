-- ===== src/Social/Matching/Funds.antt =====
-- The points behind the matching of a chat.
use masih_panel.Social.Matching.Friends.{by_code-Keeps}
use masih_panel.Social.Matching.Invites.{
  set_invite, answer_invite, accept_invite, welcome, join_chat, reject_invite, press_answer, arrive,
  start_chat,
}
use masih_panel.Loyalty.{balance}
use masih_panel.Base.{Bool, ℕ, Option, none, some, List, [], ◌∷◌, String}
use masih_panel.Loyalty.Points.{IsSolvent}
use masih_panel.Queue.Frame.{notify-Keeps}
use masih_panel.Social.Chat.{leave, close_chat}
use masih_panel.Social.Chat.Funds.{charge_once-Keeps}
use masih_panel.Social.Matching.{
  find_partner, open_pair, Candidate, pair_up, match_each, settle_match, start_matching,
}
use masih_panel.Social.Matching.Aside.{
  set_state-Keeps, IsAside, profile-Keeps, require_complete-Keeps, meets-Keeps, tell_price-Keeps,
  wait-Keeps, affordable-Keeps,
}
use masih_panel.Store.{InviteStatus, SocialTables, Db, ChatPair, ChatRoute}
use masih_panel.Tx.{modify, settle}
use masih_panel.Tx.Keeps.{
  Keeps-require, Keeps, Keeps-pure, Keeps-gets, Keeps-bind, Keeps-modify, Keeps-if, Keeps-raise_if,
  settle-Keeps,
}

-- The points are not among the tables of the club.
social_apart : (d : Db) (t : SocialTables) → IsSolvent d → IsSolvent (record d { social = t })
unfolding balance
social_apart d t h = h

points-IsAside : IsAside IsSolvent
unfolding balance
points-IsAside = record {
  quiet = record {
    outbox = λ d o h. h;
    nav = λ d n h. h;
    drawn = λ d n h. h;
    audit_log = λ d a h. h;
  };
  users = λ d us h. h;
  profiles = λ d ps h. h;
  waiting = λ d ws h. h;
}

close_chat-Keeps : (uid : ℕ) (c : Option ChatPair) → Keeps IsSolvent (close_chat uid c)
unfolding close_chat
close_chat-Keeps uid none = Keeps-pure tt
close_chat-Keeps uid (some c) =
    Keeps-bind _ _ (Keeps-modify _ (λ d h. social_apart d _ h))
      (λ _. notify-Keeps points-IsAside.quiet _ _ _)

leave-Keeps : (uid : ℕ) → Keeps IsSolvent (leave uid)
unfolding leave
leave-Keeps uid = Keeps-bind _ _ (Keeps-modify _ (λ d h. social_apart d _ h)) λ _.
    Keeps-bind _ _ (Keeps-gets _) λ c.
      Keeps-bind _ _ (close_chat-Keeps uid c)
        λ _. Keeps-bind _ _ (Keeps-modify _ (λ d h. points-IsAside.users d _ h)) (λ _. Keeps-pure c)

open_pair-Keeps : (uid peer : ℕ) → Keeps IsSolvent (modify (open_pair uid peer))
open_pair-Keeps uid peer =
    Keeps-modify (open_pair uid peer) (λ d h. social_apart d (open_pair uid peer d).social h)

pair_up-Keeps : (uid price : ℕ) (r : Candidate) → Keeps IsSolvent (pair_up uid price r)
unfolding pair_up
pair_up-Keeps uid price r = Keeps-bind _ _ (affordable-Keeps uid price) λ _.
    Keeps-bind _ _ (Keeps-gets _) λ chat. Keeps-bind _ _ (open_pair-Keeps uid r.user_id) λ _.
      Keeps-bind _ _ (charge_once-Keeps uid price chat) λ _.
        Keeps-bind _ _ (charge_once-Keeps r.user_id r.points chat) λ _.
          Keeps-bind _ _ (set_state-Keeps points-IsAside _ _) λ _.
            Keeps-bind _ _ (set_state-Keeps points-IsAside _ _) λ _.
              Keeps-bind _ _ (tell_price-Keeps points-IsAside uid price) λ _.
                Keeps-bind _ _ (tell_price-Keeps points-IsAside r.user_id r.points)
                  (λ _. Keeps-pure chat)

match_each-Keeps :
    (uid : ℕ) (mode : ChatRoute) (price : ℕ) (interests : List String) (rs : List Candidate)
    → Keeps IsSolvent (match_each uid mode price interests rs)
unfolding match_each
match_each-Keeps uid mode price interests [] = Keeps-pure none
match_each-Keeps uid mode price interests (r ∷ rs) =
    Keeps-bind _ _ (meets-Keeps points-IsAside uid mode interests r) λ fits.
      Keeps-if _ _ _ (Keeps-bind _ _ (pair_up-Keeps uid price r) (λ chat. Keeps-pure (some chat)))
        (match_each-Keeps uid mode price interests rs)

settle_match-Keeps :
    (uid : ℕ) (mode : ChatRoute) (price : ℕ) (found : Option ℕ)
    → Keeps IsSolvent (settle_match uid mode price found)
unfolding settle_match
settle_match-Keeps uid mode price (some chat) = Keeps-pure (some chat)
settle_match-Keeps uid mode price none =
    Keeps-bind _ _ (wait-Keeps points-IsAside uid mode price) (λ _. Keeps-pure none)

find_partner-Keeps : (uid : ℕ) (mode : ChatRoute) → Keeps IsSolvent (find_partner uid mode)
unfolding find_partner
find_partner-Keeps uid mode = Keeps-bind _ _ (Keeps-gets _) λ price.
    Keeps-bind _ _ (affordable-Keeps uid price) λ _. Keeps-bind _ _ (leave-Keeps uid) λ _.
      Keeps-bind _ _ (profile-Keeps points-IsAside uid) λ _.
        Keeps-bind _ _ (profile-Keeps points-IsAside uid) λ mine.
          Keeps-bind _ _ (Keeps-gets _) λ rows.
            Keeps-bind _ _ (match_each-Keeps uid mode price mine.interests rows)
              (λ found. settle_match-Keeps uid mode price found)

start_matching-Keeps : (uid : ℕ) (mode : ChatRoute) → Keeps IsSolvent (start_matching uid mode)
unfolding start_matching
start_matching-Keeps uid mode = Keeps-bind _ _ (Keeps-raise_if _ _) λ _.
    Keeps-bind _ _ (require_complete-Keeps points-IsAside uid)
      λ ready. Keeps-if _ _ _ (Keeps-pure none) (find_partner-Keeps uid mode)

-- If no account has fewer than no points, that stays so whoever looks for a chat, whether it finds a
-- partner, waits or is refused.
pub start_matching-IsSolvent :
    (uid : ℕ) (mode : ChatRoute) (d : Db)
    → IsSolvent d
    → IsSolvent (settle d (start_matching uid mode d))
start_matching-IsSolvent uid mode d h = settle-Keeps _ d (start_matching-Keeps uid mode) h

welcome-Keeps : (chat receiver other : ℕ) → Keeps IsSolvent (welcome chat receiver other)
unfolding welcome
welcome-Keeps chat receiver other =
    Keeps-bind _ _ (set_state-Keeps points-IsAside _ _)
      λ _. Keeps-bind _ _ (Keeps-gets _) (λ name. notify-Keeps points-IsAside.quiet _ _ _)

set_invite-Keeps :
    (origin uid : ℕ) (status : InviteStatus)
    → Keeps IsSolvent (modify (set_invite origin uid status))
set_invite-Keeps origin uid status =
    Keeps-modify _ (λ d h. social_apart d (set_invite origin uid status d).social h)

start_chat-Keeps : (origin uid points : ℕ) → Keeps IsSolvent (start_chat origin uid points)
unfolding start_chat
start_chat-Keeps origin uid points = Keeps-bind _ _ (set_invite-Keeps origin uid _) λ _.
    Keeps-bind _ _ (leave-Keeps uid) λ _. Keeps-bind _ _ (leave-Keeps origin) λ _.
      Keeps-bind _ _ (Keeps-gets _) λ chat. Keeps-bind _ _ (open_pair-Keeps origin uid) λ _.
        Keeps-bind _ _ (charge_once-Keeps origin points chat)
          λ _. Keeps-bind _ _ (welcome-Keeps chat uid origin) (λ _. welcome-Keeps chat origin uid)

join_chat-Keeps : (origin uid points : ℕ) → Keeps IsSolvent (join_chat origin uid points)
unfolding join_chat
join_chat-Keeps origin uid points = Keeps-bind _ _ (profile-Keeps points-IsAside uid) λ p.
    Keeps-bind _ _ (Keeps-gets _) λ seen. Keeps-bind _ _ (Keeps-gets _) λ barred.
      Keeps-bind _ _ (Keeps-raise_if _ _) λ _. Keeps-bind _ _ (Keeps-gets _) λ busy.
        Keeps-bind _ _ (Keeps-raise_if _ _) λ _.
          Keeps-bind _ _ (affordable-Keeps origin points) (λ _. start_chat-Keeps origin uid points)

accept_invite-Keeps : (origin uid points : ℕ) → Keeps IsSolvent (accept_invite origin uid points)
unfolding accept_invite
accept_invite-Keeps origin uid points =
    Keeps-bind _ _ (require_complete-Keeps points-IsAside uid)
      (λ ready. Keeps-if _ _ _ (join_chat-Keeps origin uid points) (Keeps-pure tt))

reject_invite-Keeps : (origin uid : ℕ) → Keeps IsSolvent (reject_invite origin uid)
unfolding reject_invite
reject_invite-Keeps origin uid =
    Keeps-bind _ _ (set_invite-Keeps origin uid _) (λ _. notify-Keeps points-IsAside.quiet _ _ _)

answer_invite-Keeps :
    (accepts : Bool) (uid : ℕ) (public_code : String)
    → Keeps IsSolvent (answer_invite accepts uid public_code)
unfolding answer_invite
answer_invite-Keeps accepts uid public_code = Keeps-bind _ _ (by_code-Keeps public_code) λ origin.
    Keeps-bind _ _ (Keeps-gets _) λ at. Keeps-bind _ _ (Keeps-require _ _) λ i.
      Keeps-bind _ _ (Keeps-raise_if _ _) λ _.
        Keeps-if _ _ _ (accept_invite-Keeps origin uid i.points) (reject_invite-Keeps origin uid)

arrive-Keeps : (uid : ℕ) → Keeps IsSolvent (arrive uid)
unfolding arrive
arrive-Keeps uid = Keeps-bind _ _ (profile-Keeps points-IsAside uid) λ p.
    Keeps-bind _ _ (Keeps-gets _) λ busy.
      Keeps-if _ _ _ (Keeps-bind _ _ (leave-Keeps uid) (λ had. Keeps-pure tt)) (Keeps-pure tt)

press_answer-Keeps :
    (accepts : Bool) (uid : ℕ) (public_code : String)
    → Keeps IsSolvent (press_answer accepts uid public_code)
unfolding press_answer
press_answer-Keeps accepts uid public_code =
    Keeps-bind _ _ (arrive-Keeps uid) (λ _. answer_invite-Keeps accepts uid public_code)

-- If no account has fewer than no points, that stays so whoever answers an invitation, whether a chat
-- begins or the answer is refused.
pub press_answer-IsSolvent :
    (accepts : Bool) (uid : ℕ) (public_code : String) (d : Db)
    → IsSolvent d
    → IsSolvent (settle d (press_answer accepts uid public_code d))
press_answer-IsSolvent accepts uid public_code d h =
    settle-Keeps _ d (press_answer-Keeps accepts uid public_code) h
