-- ===== src/Social/Matching/Invites.antt =====
-- The beginning of `callback` in runtime/social.py, and two of its operations: the answers `acceptfriend` and
-- `rejectfriend` to an invitation.
use masih_panel.Base.{
  Option, exists, ◌&&◌, false, ◌==◌, true, next_id, ℕ, ◌-◌, ltb, Bool, not, ◌||◌, if◌then◌else◌,
  String, ◌<>◌, [], ◌∷◌, select_one, update_where,
}
use masih_panel.Base.Text.{str}
use masih_panel.Queue.{button, notify}
use masih_panel.Social.Accounts.{by_code}
use masih_panel.Social.Chat.{
  active_chat, affordable, can_view, charge_once, is_blocked, leave, public_name,
}
use masih_panel.Social.Matching.{start_matching, is_busy, open_pair}
use masih_panel.Social.Profiles.{profile, require_complete}
use masih_panel.Store.{ChatRoute, ChatInvite, ChatPair, Db, InviteStatus, Notice, account}
use masih_panel.Tx.{
  Tx, in_chat, invite_over, no_access, pure, gets, require, ◌>>=◌, ◌>>◌, raise_if, modify,
}
use masih_panel.Wallet.{set_state}

abbrev is_invite : ℕ → ℕ → ChatInvite → Bool
is_invite origin uid i = i.requester == origin && i.recipient == uid

abbrev is_pending : InviteStatus → Bool
is_pending InviteStatus.pending = true
is_pending _ = false

abbrev pub set_invite : ℕ → ℕ → InviteStatus → Db → Db
set_invite origin uid status d = record d {
  social = record d.social {
    invites =
        update_where (is_invite origin uid) (λ i. record i { status = status }) d.social.invites;
  };
}

-- one round of the loop over the receivers
unfoldable pub welcome : ℕ → ℕ → ℕ → Tx Db (Unit {0})
unfolding public_name
welcome chat receiver other = do
  modify (set_state receiver ("soc:chat:" <> str chat))
  name ← gets (public_name other)
  notify (account receiver) (Notice.chat_started name)
      ((button "end the chat" "soc:leave" ∷ button "report" "soc:chatreport" ∷ []) ∷ [])

-- from the mark of the invitation on
unfoldable pub start_chat : ℕ → ℕ → ℕ → Tx Db (Unit {0})
unfolding leave charge_once welcome
start_chat origin uid points = do
  modify (set_invite origin uid InviteStatus.accepted)
  _ ← leave uid
  _ ← leave origin
  chat ← gets (λ d. next_id (λ (c : ChatPair). c.id) d.social.pairs)
  modify (open_pair origin uid)
  charge_once origin points chat
  welcome chat uid origin
  welcome chat origin uid

-- the checks behind that of the profile
unfoldable pub join_chat : ℕ → ℕ → ℕ → Tx Db (Unit {0})
unfolding profile can_view is_blocked active_chat affordable start_chat
join_chat origin uid points = do
  p ← profile uid
  seen ← gets (can_view origin p)
  barred ← gets (is_blocked origin uid)
  raise_if (not seen || barred) no_access
  busy ← gets (λ d. is_busy (active_chat uid d) || is_busy (active_chat origin d))
  raise_if busy in_chat
  affordable origin points
  start_chat origin uid points

unfoldable pub accept_invite : ℕ → ℕ → ℕ → Tx Db (Unit {0})
unfolding require_complete join_chat
accept_invite origin uid points = do
  ready ← require_complete uid
  if ready then join_chat origin uid points else pure tt

unfoldable pub reject_invite : ℕ → ℕ → Tx Db (Unit {0})
reject_invite origin uid = do
  modify (set_invite origin uid InviteStatus.rejected)
  notify (account uid) Notice.chat_declined []

-- `acceptfriend` if `accepts`, else `rejectfriend`, for the public code of the requester
unfoldable pub answer_invite : Bool → ℕ → String → Tx Db (Unit {0})
unfolding by_code accept_invite reject_invite
answer_invite accepts uid public_code = do
  origin ← by_code public_code
  at ← gets (λ d. d.clock)
  i ←
      require invite_over
        (λ d. select_one (λ i. is_invite origin uid i && is_pending i.status) d.social.invites)
  raise_if (ltb 86400 (at - i.created)) invite_over
  if accepts then accept_invite origin uid i.points else reject_invite origin uid

-- What every press does first, but those of `leave` and `chatreport`: it ends a chat, and leaves the queue.
unfoldable pub arrive : ℕ → Tx Db (Unit {0})
unfolding profile active_chat leave
arrive uid = do
  _ ← profile uid
  busy ← gets (λ d. is_busy (active_chat uid d) || exists (λ w. w.user_id == uid) d.social.waiting)
  if busy then (leave uid >> pure tt) else pure tt

-- `callback` for an answer
unfoldable pub press_answer : Bool → ℕ → String → Tx Db (Unit {0})
unfolding arrive answer_invite
press_answer accepts uid public_code = do arrive uid; answer_invite accepts uid public_code

-- `callback` for a search
unfoldable pub press_search : ℕ → ChatRoute → Tx Db (Option ℕ)
unfolding arrive
press_search uid mode = do arrive uid; start_matching uid mode
