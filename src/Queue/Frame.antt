-- ===== src/Queue/Frame.antt =====
-- Messages touch the outbox, the navigation context and the random texts, and nothing else.
use masih_panel.Base.{ℕ, String, List, Option, none, some, Bool, true}
use masih_panel.Tx.Keeps.{
  Keeps, Keeps-pure, Keeps-gets, Keeps-if, Keeps-bind, Keeps-modify, Keeps-raise_if, Keeps-when,
}
use masih_panel.Store.{Db, Chat, Notice, Button, Method, Payload, Message, Nav, AuditEntry}
use masih_panel.Queue.{
  draw, audit, insert_message, insert_message_once, navigate, dedupe_key, enqueue, notify,
}

-- `P` does not look at what messages and audit entries change.
pub record IsQuiet (P : Db → Type 0) : Type 0 where
  pub outbox : (d : Db) (o : List Message) → P d → P (record d { outbox = o })
  pub nav : (d : Db) (n : Option Nav) → P d → P (record d { nav = n })
  pub drawn : (d : Db) (n : ℕ) → P d → P (record d { drawn = n })
  pub audit_log : (d : Db) (a : List AuditEntry) → P d → P (record d { audit_log = a })

module _ {P : Db → Type 0} (q : IsQuiet P) where
  pub draw-Keeps : Keeps P draw
  unfolding draw
  draw-Keeps =
      Keeps-bind _ _ (Keeps-gets _)
        λ token. Keeps-bind _ _ (Keeps-modify _ (λ d. q.drawn d _)) (λ _. Keeps-pure token)

  pub audit-Keeps : (action detail : String) → Keeps P (audit action detail)
  unfolding audit
  audit-Keeps action detail = Keeps-modify _ (λ d. q.audit_log d _)

  pub insert_message-Keeps :
      (key : String) (chat : Chat) (method : Method) (payload : Payload)
      → Keeps P (insert_message key chat method payload)
  unfolding insert_message
  insert_message-Keeps key chat method payload =
      Keeps-bind _ _ (Keeps-gets _)
        λ taken. Keeps-bind _ _ (Keeps-raise_if taken _) λ _. Keeps-modify _ (λ d. q.outbox d _)

  pub insert_message_once-Keeps :
      (key : String) (chat : Chat) (method : Method) (payload : Payload)
      → Keeps P (insert_message_once key chat method payload)
  unfolding insert_message_once
  insert_message_once-Keeps key chat method payload =
      Keeps-bind _ _ (Keeps-gets _) λ taken. Keeps-when _ _ (Keeps-modify _ (λ d. q.outbox d _))

  navigate-Keeps : (chat : Chat) (context : Option Nav) → Keeps P (navigate chat context)
  unfolding navigate
  navigate-Keeps chat none = Keeps-pure _
  navigate-Keeps chat (some nav) = Keeps-bind _ _ (Keeps-modify _ (λ d. q.nav d _)) λ _.
      Keeps-if _ _ _ (Keeps-pure _) (
        Keeps-bind _ _ draw-Keeps
          λ key. Keeps-bind _ _ (insert_message-Keeps key chat _ _) (λ _. Keeps-pure _))

  dedupe_key-Keeps : (key : Option String) → Keeps P (dedupe_key key)
  unfolding dedupe_key
  dedupe_key-Keeps none = draw-Keeps
  dedupe_key-Keeps (some key) = Keeps-if _ _ _ (Keeps-pure key) draw-Keeps

  pub enqueue-Keeps :
      (chat : Chat) (notice : Notice) (keys : List (List Button)) (key : Option String)
      (quick_nav : Bool)
      → Keeps P (enqueue chat notice keys key quick_nav)
  unfolding enqueue
  enqueue-Keeps chat notice keys key quick_nav = Keeps-bind _ _ (Keeps-gets _) λ user.
      Keeps-bind _ _ (Keeps-gets _) λ context.
        Keeps-bind _ _ (navigate-Keeps chat context) λ target.
          Keeps-bind _ _ (dedupe_key-Keeps key) λ dedupe. insert_message_once-Keeps dedupe chat _ _

  pub notify-Keeps :
      (chat : Chat) (notice : Notice) (keys : List (List Button))
      → Keeps P (notify chat notice keys)
  unfolding notify
  notify-Keeps chat notice keys = enqueue-Keeps chat notice keys none true
