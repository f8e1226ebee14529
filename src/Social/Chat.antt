-- ===== src/Social/Chat.antt =====
-- Chats of runtime/social.py: `chat_cost`, `_affordable`, `_charge_once`, `_discover`, `_route_for`, `_can_view`,
-- `_blocked`, `_active_chat`, `_leave`, `end_chat`, `_chat_message`.
pub mod Funds
use masih_panel.Base.Int.{pos, neg, ltb_ℤ}
use masih_panel.Base.Text.{str, mem_text, nonempty, take_chars}
use masih_panel.Loyalty.{balance, has_points_reference, with_points}
use masih_panel.Queue.{button, notify}
use masih_panel.Shop.Labels.{Unicode, char_count}
use masih_panel.Wallet.{set_state, is_user}
use masih_panel.Tx.{
  Tx, not_enough_points, chat_over, too_fast, bad_text, pure, gets, require, ◌>>=◌, ◌>>◌, raise_if,
  modify, when,
}
use masih_panel.Store.{
  Db, Settings, Notice, account, SocialProfile, Visibility, Link, ChatRoute, Discovery, ChatPair,
  ChatLine,
}
use masih_panel.Base.{
  ℕ, ◌-◌, ◌==◌, leb, ltb, max, in_range, Bool, true, false, not, ◌&&◌, ◌||◌, if◌then◌else◌, String,
  ◌<>◌, List, [], ◌∷◌, Option, none, some, select_one, exists, update_where, delete_where,
  insert_row,
}

abbrev pub is_admin : ℕ → Settings → Bool
is_admin uid s = exists (λ n. n == uid) s.admins

-- A direct link costs as much as the dearest way to find somebody.
pub route_cost : (ChatRoute → ℕ) → ChatRoute → ℕ
route_cost price ChatRoute.direct = max (price ChatRoute.direct) (
    max (price ChatRoute.search)
      (max (price ChatRoute.near) (max (price ChatRoute.following) (price ChatRoute.followers))))
route_cost price route = price route

-- `chat_cost(c, route, uid)`
unfoldable pub chat_cost : ChatRoute → ℕ → Db → ℕ
unfolding route_cost
chat_cost route uid d = if is_admin uid d.settings then 0 else route_cost d.social.chat_cost route

-- `_affordable(c, uid, amount)`
unfoldable pub affordable : ℕ → ℕ → Tx Db (Unit {0})
unfolding balance
affordable uid amount = do
  s ← gets (λ d. d.settings)
  held ← gets (balance uid)
  raise_if (not (is_admin uid s) && ltb_ℤ held (pos amount)) not_enough_points

abbrev pub charge_key : ℕ → ℕ → String
charge_key chat uid = "social:chat:" <> str chat <> ":" <> str uid

-- `_charge_once(c, uid, amount, chat_id)`
unfoldable pub charge_once : ℕ → ℕ → ℕ → Tx Db (Unit {0})
unfolding affordable
charge_once uid amount chat = do
  s ← gets (λ d. d.settings)
  paid ← gets (λ d. has_points_reference (charge_key chat uid) d.loyalty_points)
  when (not (is_admin uid s || amount == 0) && not paid) (do
    affordable uid amount
    modify (with_points uid (neg amount) "social_chat" (charge_key chat uid)))

abbrev is_pair_of : ℕ → ℕ → Discovery → Bool
is_pair_of viewer target r = r.viewer == viewer && r.target == target

abbrev upsert_discovery : Discovery → List Discovery → List Discovery
upsert_discovery r rs =
    if exists (is_pair_of r.viewer r.target) rs
    then update_where (is_pair_of r.viewer r.target) (λ _. r) rs
    else insert_row r rs

-- the routes in `DISCOVERY_ROUTES`
abbrev is_discovery : ChatRoute → Bool
is_discovery ChatRoute.search = true
is_discovery ChatRoute.near = true
is_discovery ChatRoute.following = true
is_discovery ChatRoute.followers = true
is_discovery _ = false

-- `_discover(c, uid, target, route)`
unfoldable pub discover : ℕ → ℕ → ChatRoute → Tx Db (Unit {0})
discover uid target route = do
  raise_if (not (is_discovery route)) bad_text
  modify (λ d. record d {
    social = record d.social {
      discoveries =
          upsert_discovery
            (record { viewer = uid; target = target; route = route; created = d.clock })
            d.social.discoveries;
    };
  })

-- `_route_for(c, uid, target)`
unfoldable pub route_for : ℕ → ℕ → Db → ChatRoute
route_for uid target d = elim (select_one (is_pair_of uid target) d.social.discoveries) [
  | none ↦ ChatRoute.direct
  | some r ↦ if leb (d.clock - r.created) 1800 then r.route else ChatRoute.direct
]

abbrev links : ℕ → ℕ → Link → Bool
links a b l = l.source == a && l.target == b

-- `_is_friend(c, a, b)`
abbrev pub is_friend : ℕ → ℕ → Db → Bool
is_friend a b d = exists (links a b) d.social.follows && exists (links b a) d.social.follows

abbrev pub sees : Visibility → Bool → Bool
sees Visibility.public friend = true
sees Visibility.friends friend = friend
sees Visibility.hidden friend = false

-- `_can_view(c, viewer, p)`
unfoldable pub can_view : ℕ → SocialProfile → Db → Bool
can_view viewer p d =
    viewer == p.user_id
    || is_admin viewer d.settings
    || sees p.visibility (is_friend viewer p.user_id d)

-- `_blocked(c, a, b)`
unfoldable pub is_blocked : ℕ → ℕ → Db → Bool
is_blocked a b d = exists (λ l. links a b l || links b a l) d.social.blocks

-- the newest row that fits
unfoldable pub latest : {A : Type 0} → (A → Bool) → List A → Option A
latest p [] = none
latest p (x ∷ xs) =
    let rest = latest p xs in elim rest [ some y ↦ some y | none ↦ if p x then some x else none ]

abbrev pub takes_part : ℕ → ChatPair → Bool
takes_part uid c = c.closed == 0 && (c.first_user == uid || c.second_user == uid)

-- `_active_chat(c, uid)`
unfoldable pub active_chat : ℕ → Db → Option ChatPair
unfolding latest
active_chat uid d = latest (takes_part uid) d.social.pairs

abbrev pub peer_of : ℕ → ChatPair → ℕ
peer_of uid c = if c.first_user == uid then c.second_user else c.first_user

abbrev pub close_pair : ChatPair → Db → Db
close_pair c d = record d {
  social = record d.social {
    pairs =
        update_where (λ x. x.id == c.id && x.closed == 0) (λ x. record x { closed = d.clock })
          d.social.pairs;
  };
}

unfoldable pub close_chat : ℕ → Option ChatPair → Tx Db (Unit {0})
close_chat uid none = pure tt
close_chat uid (some c) = do
  modify (close_pair c)
  notify (account (peer_of uid c)) Notice.chat_ended
      ((button "back to the club" "soc:home" ∷ []) ∷ [])

-- `_leave(c, uid)`
unfoldable pub leave : ℕ → Tx Db (Option ChatPair)
unfolding close_chat active_chat
leave uid = do
  modify (λ d. record d {
    social = record d.social { waiting = delete_where (λ w. w.user_id == uid) d.social.waiting };
  })
  c ← gets (active_chat uid)
  close_chat uid c
  modify (set_state uid "")
  pure c

abbrev farewell : Option ChatPair → Notice
farewell none = Notice.queue_left
farewell (some c) = Notice.chat_over

-- `end_chat(c, uid)`
unfoldable pub end_chat : ℕ → Tx Db (Unit {0})
unfolding leave
end_chat uid = do
  had ← leave uid
  notify (account uid) (farewell had)
      ((button "the club" "soc:home" ∷ button "a new chat" "soc:random" ∷ []) ∷ [])

-- `_public_name(c, uid)`; "member" and "archive" stand for the fixed names of the source
unfoldable pub public_name : ℕ → Db → String
public_name uid d =
    if uid == 0 then "archive" else (elim (select_one (λ p. p.user_id == uid) d.social.profiles) [
      | none ↦ "member"
      | some p ↦ if nonempty p.display_name then take_chars 48 p.display_name else "member"
    ])

-- the words that end a chat; "end of chat" stands for the Persian one
abbrev ends_chat : String → Bool
ends_chat body = mem_text body ("/stop" ∷ "/end" ∷ "end of chat" ∷ [])

abbrev too_soon : ℕ → Option ChatLine → Bool
too_soon at none = false
too_soon at (some l) = ltb (at - l.created) 1

unfoldable pub say : ℕ → ℕ → ChatPair → String → Tx Db (Unit {0})
unfolding latest public_name
say uid chat c body = do
  raise_if (not (in_range 1 1200 (char_count body))) bad_text
  at ← gets (λ d. d.clock)
  before ← gets (λ d. latest (λ l. l.sender == uid) d.social.lines)
  raise_if (too_soon at before) too_fast
  modify (λ d. record d {
    social = record d.social {
      lines =
          insert_row (record { conversation = chat; sender = uid; body = body; created = d.clock })
            d.social.lines;
    };
  })
  name ← gets (λ d. if c.with_friend then public_name uid d else "the other")
  notify (account (peer_of uid c)) (Notice.chat_line name body)
      ((button "end the chat" "soc:leave" ∷ button "report" "soc:chatreport" ∷ []) ∷ [])

-- `_chat_message(c, uid, m, chat_id)`
unfoldable pub chat_message : Unicode → ℕ → String → ℕ → Tx Db (Unit {0})
unfolding active_chat is_blocked end_chat say
chat_message txt uid message chat = do
  c ← require chat_over (active_chat uid)
  raise_if (not (c.id == chat)) chat_over
  barred ← gets (is_blocked uid (peer_of uid c))
  let body = txt.strip message
  if barred || ends_chat body then end_chat uid else say uid chat c body
