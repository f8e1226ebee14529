-- ===== src/Social/Matching/Chats.antt =====
-- Everything that happens to the chats of runtime/social.py: searches, invitations, ends and messages
-- of anybody, and what a manager closes, in any order, each in its own transaction.
use masih_panel.Base.Keys.{All-every, count-update-le}
use masih_panel.Social.Matching.Friends.{press_answer-Yields, arrive-Yields, press_search-Yields}
use masih_panel.Social.Matching.Invites.{press_answer, arrive, press_search}
use masih_panel.Base.{
  true, update_where, Bool, ℕ, ◌≤◌, ◌<◌, ◌≡◌, sym, subst, String, [], count, arith,
}
use masih_panel.Queue.Frame.{notify-Keeps}
use masih_panel.Shop.Labels.{Unicode}
use masih_panel.Social.Chat.{leave, end_chat, say, chat_message, takes_part}
use masih_panel.Social.Matching.Alone.{IsAlone, Lives, alone_aside, leave-Yields, committed}
use masih_panel.Store.{Db, ChatPair, ChatRoute}
use masih_panel.Tx.{err, ok, Result, settle}
use masih_panel.Tx.Keeps.{
  Returns, Keeps, Keeps-gets, Keeps-require, Keeps-bind, Keeps-modify, Keeps-raise_if,
}
use masih_panel.Tx.Yields.{
  Yields-mono, Yields, Yields-kept, Yields-from, Yields-if, keeps-Yields, bind-Yields,
}

end_chat-Yields : (uid : ℕ) → Yields Lives (end_chat uid) (λ _ d. IsAlone d)
unfolding end_chat
end_chat-Yields uid =
    bind-Yields _ _ (leave-Yields uid)
      λ had. Yields-from _ (λ d h. h.0.0) (Yields-kept _ (notify-Keeps alone_aside.quiet _ _ _))

say-Keeps : (uid chat : ℕ) (c : ChatPair) (body : String) → Keeps IsAlone (say uid chat c body)
unfolding say
say-Keeps uid chat c body = Keeps-bind _ _ (Keeps-raise_if _ _) λ _.
    Keeps-bind _ _ (Keeps-gets _) λ at. Keeps-bind _ _ (Keeps-gets _) λ before.
      Keeps-bind _ _ (Keeps-raise_if _ _) λ _.
        Keeps-bind _ _ (Keeps-modify _ (λ d h. h))
          λ _. Keeps-bind _ _ (Keeps-gets _) (λ name. notify-Keeps alone_aside.quiet _ _ _)

chat_message-Yields :
    (txt : Unicode) (uid : ℕ) (message : String) (chat : ℕ)
    → Yields Lives (chat_message txt uid message chat) (λ _ d. IsAlone d)
unfolding chat_message
chat_message-Yields txt uid message chat = keeps-Yields _ _ (Keeps-require _ _) λ c.
    keeps-Yields _ _ (Keeps-raise_if _ _) λ _. keeps-Yields _ _ (Keeps-gets _) λ barred.
      Yields-if _ _ _ (λ _. end_chat-Yields uid)
        (λ _. Yields-from _ (λ d h. h.0) (Yields-kept _ (say-Keeps uid chat c (txt.strip message))))

-- the database at the time of the next transaction
abbrev pub at_time : ℕ → Db → Db
at_time clock d = record d { clock = clock }

-- `UPDATE social_chat_pairs SET closed=? WHERE closed=0 AND (first_user=? OR second_user=?)`
abbrev pub close_chats : ℕ → Db → Db
close_chats target d = record d {
  social = record d.social {
    pairs = update_where (takes_part target) (λ c. record c { closed = d.clock }) d.social.pairs;
  };
}

close_chats-IsAlone : (target : ℕ) (d : Db) → IsAlone d → IsAlone (close_chats target d)
close_chats-IsAlone target d h uid = omega (
  arith,
  h uid,
  count-update-le (takes_part uid) (takes_part target) (λ c. record c { closed = d.clock })
      d.social.pairs (All-every _ _ still),
)
  where
    still :
        (c : ChatPair)
        → takes_part target c ≡ true
        → takes_part uid (record c { closed = d.clock }) ≡ true
        → takes_part uid c ≡ true
    still c hit part = ground (arith, hit, part)

returned :
    {A : Type 0} (r : Result (A × Db)) → Returns (λ _ d. Lives d) r → Returns (λ _ d. IsAlone d) r
returned (ok (a, d)) h = h.0
returned (err e) h = tt

module _ (txt : Unicode) where
  -- One transaction. `blocks` is the decision on a report in runtime/sales.py that closes the chats of a
  -- member, and `elsewhere` is whatever the rest of the program does, which writes no chat.
  pub data ChatStep : Db → Db → Type 0 where
    looks :
        (clock uid : ℕ) (mode : ChatRoute) (d : Db)
        → 0 < clock
        → ChatStep d (settle (at_time clock d) (press_search uid mode (at_time clock d)))
    -- a press of any other button of the club
    arrives :
        (clock uid : ℕ) (d : Db)
        → 0 < clock
        → ChatStep d (settle (at_time clock d) (arrive uid (at_time clock d)))
    -- the menu of the club, and what else ends a chat without a word
    leaves :
        (clock uid : ℕ) (d : Db)
        → 0 < clock
        → ChatStep d (settle (at_time clock d) (leave uid (at_time clock d)))
    ends :
        (clock uid : ℕ) (d : Db)
        → 0 < clock
        → ChatStep d (settle (at_time clock d) (end_chat uid (at_time clock d)))
    says :
        (clock uid : ℕ) (message : String) (chat : ℕ) (d : Db)
        → 0 < clock
        → ChatStep d
            (settle (at_time clock d) (chat_message txt uid message chat (at_time clock d)))
    answers :
        (clock uid : ℕ) (accepts : Bool) (public_code : String) (d : Db)
        → 0 < clock
        → ChatStep d
            (settle (at_time clock d) (press_answer accepts uid public_code (at_time clock d)))
    blocks :
        (clock target : ℕ) (d : Db) → 0 < clock → ChatStep d (close_chats target (at_time clock d))
    elsewhere : (d e : Db) → e.social.pairs ≡ d.social.pairs → ChatStep d e

  pub data ChatRun : Db → Db → Type 0 where
    starts : (d : Db) → ChatRun d d
    goes : {d e f : Db} → ChatRun d e → ChatStep e f → ChatRun d f

  ChatStep-IsAlone : {d e : Db} → ChatStep d e → IsAlone d → IsAlone e
  ChatStep-IsAlone (ChatStep.looks clock uid mode d now) h =
      committed (at_time clock d) (press_search uid mode (at_time clock d))
        ((press_search-Yields uid mode).at (at_time clock d) (h, now)) h
  ChatStep-IsAlone (ChatStep.arrives clock uid d now) h =
      committed (at_time clock d) (arrive uid (at_time clock d))
        (returned (arrive uid (at_time clock d))
          ((arrive-Yields uid).at (at_time clock d) (h, now)))
        h
  ChatStep-IsAlone (ChatStep.leaves clock uid d now) h =
      committed (at_time clock d) (leave uid (at_time clock d))
        ((Yields-mono _ (leave-Yields uid) (λ c e k. k.0.0)).at (at_time clock d) (h, now)) h
  ChatStep-IsAlone (ChatStep.ends clock uid d now) h =
      committed (at_time clock d) (end_chat uid (at_time clock d))
        ((end_chat-Yields uid).at (at_time clock d) (h, now)) h
  ChatStep-IsAlone (ChatStep.says clock uid message chat d now) h =
      committed (at_time clock d) (chat_message txt uid message chat (at_time clock d))
        ((chat_message-Yields txt uid message chat).at (at_time clock d) (h, now)) h
  ChatStep-IsAlone (ChatStep.answers clock uid accepts public_code d now) h =
      committed (at_time clock d) (press_answer accepts uid public_code (at_time clock d))
        ((press_answer-Yields accepts uid public_code).at (at_time clock d) (h, now)) h
  ChatStep-IsAlone (ChatStep.blocks clock target d now) h =
      close_chats-IsAlone target (at_time clock d) h
  ChatStep-IsAlone (ChatStep.elsewhere d e same) h =
      λ uid. subst (λ cs. count (takes_part uid) cs ≤ 1) (sym same) (h uid)

  ChatRun-kept : {d e : Db} → ChatRun d e → IsAlone d → IsAlone e
  ChatRun-kept (ChatRun.starts d) h = h
  ChatRun-kept (ChatRun.goes run step) h = ChatStep-IsAlone step (ChatRun-kept run h)

  -- From a club without chats, over all searches, answers to invitations, ends and messages of members, all
  -- decisions of managers on reports, and whatever else writes no chat, in any order and at any times
  -- above 0: nobody is in two open chats.
  pub ChatRun-IsAlone : (d e : Db) → d.social.pairs ≡ [] → ChatRun d e → IsAlone e
  ChatRun-IsAlone d e empty run =
      ChatRun-kept run
        (λ uid. subst (λ cs. count (takes_part uid) cs ≤ 1) (sym empty) (omega arith))
