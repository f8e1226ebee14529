-- ===== src/Social/Matching/Friends.antt =====
-- The answer to an invitation in runtime/social.py leaves nobody in two open chats.
use masih_panel.Social.Matching.Newest.{latest-none, latest-absent}
use masih_panel.Social.Matching.{is_busy}
use masih_panel.Base.{◌∙◌, arith, ◌||◌, String, ℕ, ◌≡◌, Bool, false, none, exists}
use masih_panel.Queue.Frame.{notify-Keeps}
use masih_panel.Social.Accounts.{by_code}
use masih_panel.Social.Chat.{active_chat, leave, takes_part}
use masih_panel.Social.Matching.Alone.{
  start_matching-Yields, leave-Yields, idle, IsAlone, Lives, BothFree, alone_aside, both_aside,
  lives_aside, charge_once-Lives, open_pair-IsAlone,
}
use masih_panel.Social.Matching.Aside.{
  IsAside, affordable-Keeps, profile-Keeps, require_complete-Keeps, set_state-Keeps,
}
use masih_panel.Social.Matching.Invites.{
  arrive, press_search, press_answer, answer_invite, accept_invite, join_chat, reject_invite,
  start_chat, welcome,
}
use masih_panel.Store.{ChatRoute, Db}
use masih_panel.Tx.{◌>>=◌}
use masih_panel.Tx.Keeps.{
  Keeps-raise_if, Keeps-require, Keeps, Keeps-bind, Keeps-gets, Keeps-modify, Keeps-pure,
}
use masih_panel.Tx.Yields.{
  raise_if-Yields, seen-Yields, Yields, Yields-from, Yields-if, Yields-kept, Yields-modify,
  Yields-pure, bind-Yields, keeps-Yields,
}

-- Who is in no open chat leaves none.
leave-Keeps :
    {P : Db → Type 0} (uid : ℕ)
    → IsAside P
    → ((d : Db) → P d → active_chat uid d ≡ none)
    → Keeps P (leave uid)
unfolding leave active_chat ◌>>=◌
leave-Keeps {P = P} uid q idle = record {
  at = λ d h. rw (idle d h) (q.users _ _ (q.waiting d _ h));
}

no_chat :
    (uid : ℕ) (d : Db) → exists (takes_part uid) d.social.pairs ≡ false → active_chat uid d ≡ none
unfolding active_chat
no_chat uid d h = latest-absent (takes_part uid) d.social.pairs h

welcome-Keeps : (chat receiver other : ℕ) → Keeps IsAlone (welcome chat receiver other)
unfolding welcome
welcome-Keeps chat receiver other =
    Keeps-bind _ _ (set_state-Keeps alone_aside _ _)
      λ _. Keeps-bind _ _ (Keeps-gets _) (λ name. notify-Keeps alone_aside.quiet _ _ _)

start_chat-Yields :
    (origin uid points : ℕ)
    → Yields (BothFree origin uid) (start_chat origin uid points) (λ _ d. IsAlone d)
unfolding start_chat
start_chat-Yields origin uid points = keeps-Yields _ _ (Keeps-modify _ (λ d h. h)) λ _.
    keeps-Yields _ _ (leave-Keeps uid (both_aside origin uid) (λ d h. no_chat uid d h.1)) λ _.
      keeps-Yields _ _ (leave-Keeps origin (both_aside origin uid) (λ d h. no_chat origin d h.0.1))
        λ _. keeps-Yields _ _ (Keeps-gets _) λ chat.
          bind-Yields {R = λ _ d. IsAlone d} _ _
            (Yields-modify _ (λ d h. open_pair-IsAlone origin uid d h))
            λ _. Yields-kept _ (
              Keeps-bind _ _ (charge_once-Lives origin points chat) λ _.
                Keeps-bind _ _ (welcome-Keeps chat uid origin) (λ _. welcome-Keeps chat origin uid))

both_free :
    (origin uid : ℕ) (d : Db)
    → Lives d
    → (is_busy (active_chat uid d) || is_busy (active_chat origin d)) ≡ false
    → BothFree origin uid d
unfolding active_chat
both_free origin uid d h idle_both = (
  (h, latest-none (takes_part origin) d.social.pairs (idle _ (ground (arith, idle_both)))),
  latest-none (takes_part uid) d.social.pairs (idle _ (ground (arith, idle_both))),
)

join_chat-Yields :
    (origin uid points : ℕ) → Yields Lives (join_chat origin uid points) (λ _ d. IsAlone d)
unfolding join_chat
join_chat-Yields origin uid points = keeps-Yields _ _ (profile-Keeps lives_aside uid) λ p.
    keeps-Yields _ _ (Keeps-gets _) λ seen. keeps-Yields _ _ (Keeps-gets _) λ barred.
      keeps-Yields _ _ (Keeps-raise_if _ _) λ _.
        seen-Yields (λ d. is_busy (active_chat uid d) || is_busy (active_chat origin d)) _
          λ busy. raise_if-Yields _ _ _ λ free.
            Yields-from _ (λ d h. both_free origin uid d h.0 (h.1 ∙ free))
              (keeps-Yields _ _ (affordable-Keeps origin points)
                (λ _. start_chat-Yields origin uid points))

accept_invite-Yields :
    (origin uid points : ℕ) → Yields Lives (accept_invite origin uid points) (λ _ d. IsAlone d)
unfolding accept_invite
accept_invite-Yields origin uid points =
    keeps-Yields _ _ (require_complete-Keeps lives_aside uid) λ ready.
      Yields-if _ _ _ (λ _. join_chat-Yields origin uid points) (λ _. Yields-pure tt (λ d h. h.0))

reject_invite-Keeps : (origin uid : ℕ) → Keeps IsAlone (reject_invite origin uid)
unfolding reject_invite
reject_invite-Keeps origin uid =
    Keeps-bind _ _ (Keeps-modify _ (λ d h. h)) (λ _. notify-Keeps alone_aside.quiet _ _ _)

pub by_code-Keeps : {P : Db → Type 0} (public_code : String) → Keeps P (by_code public_code)
unfolding by_code
by_code-Keeps public_code =
    Keeps-bind _ _ (Keeps-raise_if _ _) λ _. Keeps-bind _ _ (Keeps-require _ _) (λ p. Keeps-pure _)

answer_invite-Yields :
    (accepts : Bool) (uid : ℕ) (public_code : String)
    → Yields Lives (answer_invite accepts uid public_code) (λ _ d. IsAlone d)
unfolding answer_invite
answer_invite-Yields accepts uid public_code =
    keeps-Yields _ _ (by_code-Keeps public_code) λ origin. keeps-Yields _ _ (Keeps-gets _) λ at.
      keeps-Yields _ _ (Keeps-require _ _) λ i. keeps-Yields _ _ (Keeps-raise_if _ _) λ _.
        Yields-if _ _ _ (λ _. accept_invite-Yields origin uid i.points)
          (λ _. Yields-from _ (λ d h. h.0) (Yields-kept _ (reject_invite-Keeps origin uid)))

pub arrive-Yields : (uid : ℕ) → Yields Lives (arrive uid) (λ _ d. Lives d)
unfolding arrive
arrive-Yields uid = keeps-Yields _ _ (profile-Keeps lives_aside uid) λ p.
    keeps-Yields _ _ (Keeps-gets _) λ busy.
      Yields-if _ _ _ (λ _. bind-Yields _ _ (leave-Yields uid) (λ had. Yields-pure tt (λ d h. h.0)))
        (λ _. Yields-pure tt (λ d h. h))

pub press_answer-Yields :
    (accepts : Bool) (uid : ℕ) (public_code : String)
    → Yields Lives (press_answer accepts uid public_code) (λ _ d. IsAlone d)
unfolding press_answer
press_answer-Yields accepts uid public_code =
    bind-Yields _ _ (arrive-Yields uid) (λ _. answer_invite-Yields accepts uid public_code)

pub press_search-Yields :
    (uid : ℕ) (mode : ChatRoute) → Yields Lives (press_search uid mode) (λ _ d. IsAlone d)
unfolding press_search
press_search-Yields uid mode =
    bind-Yields _ _ (arrive-Yields uid) (λ _. start_matching-Yields uid mode)
