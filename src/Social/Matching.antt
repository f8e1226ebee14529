-- ===== src/Social/Matching.antt =====
-- The matching of chats in runtime/social.py: `start_matching`.
pub mod Aside
pub mod Funds
pub mod Newest
pub mod Alone
pub mod Invites
pub mod Friends
pub mod Chats
use masih_panel.Loyalty.{balance}
use masih_panel.Wallet.{is_user, set_state}
use masih_panel.Base.Int.{pos, ltb_ℤ}
use masih_panel.Base.{
  ◌||◌, count, ◌++◌, ℕ, zero, suc, ◌==◌, leb, Bool, true, false, not, ◌&&◌, if◌then◌else◌, String,
  ◌<>◌, str_eq, List, [], ◌∷◌, Option, none, some, select_one, select_all, exists, delete_where,
  insert_row, next_id, take,
}
use masih_panel.Base.Order.{order_by}
use masih_panel.Base.Text.{str, nonempty, mem_text}
use masih_panel.Queue.{button, draw, notify}
use masih_panel.Social.Profiles.{profile, is_complete, require_complete}
use masih_panel.Social.Chat.{
  chat_cost, charge_once, active_chat, leave, is_blocked, affordable, is_admin,
}
use masih_panel.Store.{
  User, Db, Notice, SocialProfile, Visibility, ChatRoute, ChatPair, Waiting, account,
}
use masih_panel.Tx.{
  bad_chat_mode, raise_if, Tx, no_code_left, integrity, pure, raise, gets, require, ◌>>=◌, ◌>>◌,
  modify,
}

-- a row of the query for candidates
pub record Candidate : Type 0 where
  pub user_id : ℕ
  pub points : ℕ
  pub interests : List String

abbrev same_mode : ChatRoute → ChatRoute → Bool
same_mode ChatRoute.random ChatRoute.random = true
same_mode ChatRoute.filtered ChatRoute.filtered = true
same_mode _ _ = false

-- the rows of one waiting person: one for the profile that can be discovered, if there is one
abbrev pub joined : List SocialProfile → Waiting → List Candidate
joined [] w = []
joined (p ∷ ps) w =
    if p.user_id == w.user_id && p.discoverable
    then record { user_id = w.user_id; points = w.points; interests = p.interests } ∷ joined ps w
    else joined ps w

pub join_all : List SocialProfile → List Waiting → List Candidate
join_all ps [] = []
join_all ps (w ∷ ws) = joined ps w ++ join_all ps ws

abbrev came_before : Waiting → Waiting → Bool
came_before w v = leb w.joined v.joined

-- the query for candidates
pub candidates : ChatRoute → ℕ → Db → List Candidate
unfolding join_all order_by
candidates mode uid d = take 100 (
    join_all d.social.profiles (
      order_by came_before
        (select_all (λ w. same_mode w.mode mode && not (w.user_id == uid)) d.social.waiting)))

-- `interests.intersection(…)`
abbrev pub have_common : List String → List String → Bool
have_common xs ys = exists (λ x. mem_text x ys) xs

abbrev pub leave_queue : ℕ → Db → Db
leave_queue uid d = record d {
  social = record d.social { waiting = delete_where (λ w. w.user_id == uid) d.social.waiting };
}

abbrev pub waits_for : ChatRoute → ℕ → Waiting → Bool
waits_for mode uid w = w.user_id == uid && same_mode w.mode mode

-- `with_friend` stands for the type "friend"; the type is the mode or the route of the chat, which never
-- has that name.
abbrev pub new_pair : ℕ → ℕ → Db → ChatPair
new_pair uid peer d = record {
  id = next_id (λ (c : ChatPair). c.id) d.social.pairs;
  first_user = uid;
  second_user = peer;
  created = d.clock;
  closed = 0;
  with_friend = false;
}

abbrev pub open_pair : ℕ → ℕ → Db → Db
open_pair uid peer d = record d {
  social = record d.social { pairs = insert_row (new_pair uid peer d) d.social.pairs };
}

-- what one of the two is told
pub tell_price : ℕ → ℕ → Tx Db (Unit {0})
tell_price person price = do
  s ← gets (λ d. d.settings)
  notify (account person) (Notice.chat_charged (if is_admin person s then 0 else price)) []
  notify (account person) Notice.chat_safety
      ((button "end the chat" "soc:leave" ∷ button "report" "soc:chatreport" ∷ []) ∷ [])

-- whether the candidate has a complete profile, or needs none
pub is_ready : ℕ → Tx Db Bool
unfolding profile
is_ready peer = do
  s ← gets (λ d. d.settings)
  if is_admin peer s then pure true else (do p ← profile peer; pure (is_complete p))

abbrev pub can_chat : Option User → Bool
can_chat none = false
can_chat (some u) = not u.blocked

abbrev pub is_busy : Option ChatPair → Bool
is_busy none = false
is_busy (some c) = true

-- A candidate who cannot pay leaves the queue.
pub drop : ℕ → Tx Db (Unit {0})
drop peer = do
  modify (leave_queue peer)
  modify (set_state peer "")
  notify (account peer) Notice.chat_dropped
      ((button "points and discount" "points_discount" ∷ button "the club" "soc:home" ∷ []) ∷ [])

abbrev pub cannot_pay : Candidate → Db → Bool
cannot_pay r d = not (is_admin r.user_id d.settings) && ltb_ℤ (balance r.user_id d) (pos r.points)

-- `DELETE … WHERE user_id=? AND mode=?`, and whether it has deleted one row
pub take_waiting : ChatRoute → ℕ → Tx Db Bool
take_waiting mode peer = do
  n ← gets (λ d. count (waits_for mode peer) d.social.waiting)
  modify (λ d. record d {
    social = record d.social { waiting = delete_where (waits_for mode peer) d.social.waiting };
  })
  pure (n == 1)

abbrev pub is_filtered : ChatRoute → Bool
is_filtered ChatRoute.filtered = true
is_filtered _ = false

-- the checks of one round of the loop
pub meets : ℕ → ChatRoute → List String → Candidate → Tx Db Bool
unfolding is_blocked is_ready active_chat drop take_waiting balance
meets uid mode interests r = do
  barred ← gets (is_blocked uid r.user_id)
  if barred then pure false else (do
    ready ← is_ready r.user_id
    busy ← gets (λ d. is_busy (active_chat r.user_id d))
    user ← gets (λ d. select_one (is_user r.user_id) d.users)
    poor ← gets (cannot_pay r)
    if not ready || busy || not (can_chat user)
        then pure false
        else if poor
        then drop r.user_id >> pure false
        else if is_filtered mode && not (have_common interests r.interests)
        then pure false
        else take_waiting mode r.user_id)

-- the end of the loop's body: the chat, and the payment of both
pub pair_up : ℕ → ℕ → Candidate → Tx Db ℕ
unfolding affordable charge_once tell_price
pair_up uid price r = do
  affordable uid price
  chat ← gets (λ d. next_id (λ (c : ChatPair). c.id) d.social.pairs)
  modify (open_pair uid r.user_id)
  charge_once uid price chat
  charge_once r.user_id r.points chat
  modify (set_state uid ("soc:chat:" <> str chat))
  modify (set_state r.user_id ("soc:chat:" <> str chat))
  tell_price uid price
  tell_price r.user_id r.points
  pure chat

-- the loop
pub match_each : ℕ → ChatRoute → ℕ → List String → List Candidate → Tx Db (Option ℕ)
unfolding meets pair_up
match_each uid mode price interests [] = pure none
match_each uid mode price interests (r ∷ rs) = do
  fits ← meets uid mode interests r
  if fits
      then (do chat ← pair_up uid price r; pure (some chat))
      else match_each uid mode price interests rs

abbrev pub join_queue : ℕ → ChatRoute → ℕ → Db → List Waiting
join_queue uid mode price d =
    insert_row (record { user_id = uid; mode = mode; joined = d.clock; points = price })
      (delete_where (λ w. w.user_id == uid) d.social.waiting)

-- `ON CONFLICT(user_id) DO UPDATE`; the person has just left the queue
pub wait : ℕ → ChatRoute → ℕ → Tx Db (Unit {0})
wait uid mode price = do
  modify (λ d. record d { social = record d.social { waiting = join_queue uid mode price d } })
  modify (set_state uid "soc:waiting")
  notify (account uid) (Notice.chat_waiting (is_filtered mode) price)
      ((button "leave the queue" "soc:leave" ∷ []) ∷ [])

abbrev pub is_mode : ChatRoute → Bool
is_mode ChatRoute.random = true
is_mode ChatRoute.filtered = true
is_mode _ = false

pub settle_match : ℕ → ChatRoute → ℕ → Option ℕ → Tx Db (Option ℕ)
unfolding wait
settle_match uid mode price (some chat) = pure (some chat)
settle_match uid mode price none = do wait uid mode price; pure none

-- what follows the check of the profile
pub find_partner : ℕ → ChatRoute → Tx Db (Option ℕ)
unfolding chat_cost affordable leave profile candidates match_each settle_match
find_partner uid mode = do
  price ← gets (chat_cost mode uid)
  affordable uid price
  _ ← leave uid
  _ ← profile uid
  mine ← profile uid
  rows ← gets (candidates mode uid)
  found ← match_each uid mode price mine.interests rows
  settle_match uid mode price found

-- `start_matching(c, uid, mode)`
unfoldable pub start_matching : ℕ → ChatRoute → Tx Db (Option ℕ)
unfolding require_complete find_partner
start_matching uid mode = do
  raise_if (not (is_mode mode)) bad_chat_mode
  ready ← require_complete uid
  if not ready then pure none else find_partner uid mode
