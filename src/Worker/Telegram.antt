-- ===== src/Worker/Telegram.antt =====
-- `deliver_outbox_message` of runtime/sales_worker.py: one message over the interface of Telegram.
use masih_panel.Store.{Method, Payload}
use masih_panel.Base.{ℕ, Bool, true, false, List, [], ◌∷◌}

-- How a call of `tg` of runtime/sales.py ends: whatever goes wrong, a refusal of Telegram among it, `tg`
-- raises a `ValueError`.
pub data Answer : Type 0 where
  accepted failed : Answer

pub record Call : Type 0 where
  pub method : Method
  pub payload : Payload

-- Telegram's answers while the message of a number is delivered, and `rewrite_payload`
pub record Telegram : Type 0 where
  pub answer : ℕ → Call → Answer
  -- how the upload of a file ends that the payload describes
  pub upload : ℕ → Method → Payload → Answer
  pub rewrite : Payload → Payload

-- the calls of a delivery, and whether it ends without an exception
pub record Attempt : Type 0 where
  pub calls : List Call
  pub delivered : Bool

abbrev pub is_accepted : Answer → Bool
is_accepted accepted = true
is_accepted failed = false

module _ (t : Telegram) (ident : ℕ) where
  -- `tg(s, method, rewrite_payload(p))`
  abbrev pub send : Method → Payload → Attempt
  send method p =
      let call : Call = record { method = method; payload = t.rewrite p } in
      record { calls = call ∷ []; delivered = is_accepted (t.answer ident call) }

  -- The branch of an edit handles an `HTTPError` of status 400. `tg` raises no such error, so the branch
  -- is never taken, and an edit fails as any other call does.
  unfoldable pub deliver_outbox_message : Method → Payload → Attempt
  deliver_outbox_message method p = send method p
