-- ===== src/Tests/Worker.antt =====
-- The queue of messages of the small shop.
use masih_panel.Tx.{◌>>=◌}
use masih_panel.Tests.{shop}
use masih_panel.Worker.Telegram.{Call, Telegram, accepted, failed, deliver_outbox_message}
use masih_panel.Worker.Outbox.{deliver_outbox, is_due, is_message}
use masih_panel.Worker.Outbox.Pass.{attempted, attempt_first, deliver_outbox-attempt_first, IsKeyed}
use masih_panel.Worker.Outbox.Progress.{
  deliver_outbox_progress, deliver_outbox_settled, deliver_outbox-IsRetried, IsRetried,
}
use masih_panel.Store.{Db, Message, Payload, Method, Delivery, Notice, account}
use masih_panel.Base.{
  ◌≤◌, ◌<◌, ℕ, ◌-◌, true, arith, ◌==◌, ◌+◌, select_one, if◌then◌else◌, All, List, count, false,
  refl, ◌∷◌, [], none, some, ◌≡◌, map,
}

abbrev body : Payload
body = record {
  chat_id = account 1;
  notice = some (Notice.payment_credited 5);
  buttons = [];
  message_id = some 44;
  file = "";
}

abbrev waiting : Message
waiting = record {
  id = 1;
  dedupe = "k1";
  chat = account 1;
  method = Method.send_message;
  payload = some body;
  done = Delivery.queued;
  attempts = 0;
  next_try = 0;
}

abbrev failing : Message
failing = record waiting { id = 2; dedupe = "k2"; attempts = 15 }

abbrev was_sent : Message
was_sent = record waiting { id = 3; dedupe = "k3"; payload = none; done = Delivery.sent }

abbrev posted : Message
posted = record waiting { id = 4; dedupe = "channel-post:1" }

abbrev queue : Db
queue = record shop { outbox = waiting ∷ failing ∷ was_sent ∷ posted ∷ [] }

-- Telegram accepts the first message only.
abbrev moody : Telegram
moody = record {
  answer = λ ident call. if ident == 1 then accepted else failed;
  upload = λ ident method p. failed;
  rewrite = λ p. p;
}

abbrev silent : Telegram
silent = record {
  answer = λ ident call. failed;
  upload = λ ident method p. failed;
  rewrite = λ p. p;
}

abbrev outcomes : Db → List Delivery
outcomes d = map (λ (m : Message). m.done) d.outbox

runs :
    outcomes (deliver_outbox moody false queue)
    ≡ Delivery.sent ∷ Delivery.dead ∷ Delivery.sent ∷ Delivery.queued ∷ []
unfolding deliver_outbox ◌>>=◌
runs = refl

-- A message that can no longer be edited is not sent anew: the one call is the edit, and the attempt fails.
edits_once :
    map
      (λ (c : Call). c.method)
      (deliver_outbox_message moody 2 Method.edit_message_text body).calls
    ≡ Method.edit_message_text ∷ []
unfolding deliver_outbox_message
edits_once = refl

edit_fails : (deliver_outbox_message moody 2 Method.edit_message_text body).delivered ≡ false
unfolding deliver_outbox_message
edit_fails = refl

queue-IsKeyed : IsKeyed queue.outbox
queue-IsKeyed = (refl, (refl, (refl, (refl, tt))))

deliver_outbox-attempt_first_example :
    (deliver_outbox moody false queue).outbox
    ≡ attempt_first 15
        (is_due queue.clock queue.settings queue.users)
        (attempted moody false queue.clock)
        queue.outbox
deliver_outbox-attempt_first_example = deliver_outbox-attempt_first moody false queue queue-IsKeyed

deliver_outbox_progress_example :
    count (is_due queue.clock queue.settings queue.users) (deliver_outbox moody true queue).outbox
    ≡ count (is_due queue.clock queue.settings queue.users) queue.outbox - 15
deliver_outbox_progress_example = deliver_outbox_progress moody queue queue-IsKeyed

deliver_outbox_settled_example :
    select_one (is_message 3) (deliver_outbox silent true queue).outbox ≡ some was_sent
deliver_outbox_settled_example =
    deliver_outbox_settled silent true queue 3 was_sent queue-IsKeyed refl refl

deliver_outbox-IsRetried_example :
    All (IsRetried queue.clock) (deliver_outbox moody true queue).outbox
deliver_outbox-IsRetried_example = deliver_outbox-IsRetried moody true queue queue-IsKeyed (
  early 0 (omega arith),
  (early 15 (omega arith), ((λ q. ground (arith, q)), (early 0 (omega arith), tt))),
)
  where
    early : (n : ℕ) → n < 16 → true ≡ true → (n < 16) × (0 ≤ 100 + 2048)
    early n h q = (h, omega arith)
