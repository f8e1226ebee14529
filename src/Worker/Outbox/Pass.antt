-- ===== src/Worker/Outbox/Pass.antt =====
-- The loop over copies of rows, as one pass over the queue.
use masih_panel.Worker.Outbox.{
  is_due, deliver_outbox, is_message, is_held, is_delivered, mark_sent, mark_failed, fail_message,
  deliver_one, deliver_each,
}
use masih_panel.Worker.Telegram.{Telegram}
use masih_panel.Queue.{audit}
use masih_panel.Tx.{◌>>=◌}
use masih_panel.Store.{Db, Message}
use masih_panel.Base.{
  subst, true, select_all, take, arith, ℕ, zero, suc, leb, ◌+◌, Bool, false, if◌then◌else◌, List,
  [], ◌∷◌, update_where, exists, Bool-cases, inl, inr, ◌≡◌, refl, sym, ap, ◌∙◌,
}

-- the numbers are distinct, as the primary key demands
abbrev pub IsKeyed : List Message → Type 0
IsKeyed [] = Unit
IsKeyed (m ∷ ms) = (exists (is_message m.id) ms ≡ false) × IsKeyed ms

-- what becomes of a message that is attempted
unfoldable pub attempted : Telegram → Bool → ℕ → Message → Message
unfolding is_delivered
attempted t posting_ready at m =
    if is_held posting_ready m
    then m
    else if is_delivered t m m.payload
    then mark_sent m
    else mark_failed at m m

-- The first so many messages that fit are attempted, where they stand.
unfoldable pub attempt_first :
    ℕ → (Message → Bool) → (Message → Message) → List Message → List Message
attempt_first zero p f ms = ms
attempt_first (suc n) p f [] = []
attempt_first (suc n) p f (m ∷ ms) =
    let here = f m ∷ attempt_first n p f ms in
    let later = m ∷ attempt_first (suc n) p f ms in if p m then here else later

-- the row that a round writes for the copy `m`
abbrev written : Telegram → Bool → ℕ → Message → Message → Message
written t posting_ready at m =
    if is_held posting_ready m
    then (λ row. row)
    else if is_delivered t m m.payload
    then mark_sent
    else mark_failed at m

-- the rounds, seen by the queue alone
rounds : Telegram → Bool → ℕ → List Message → List Message → List Message
rounds t posting_ready at [] ms = ms
rounds t posting_ready at (c ∷ cs) ms =
    rounds t posting_ready at cs (update_where (is_message c.id) (written t posting_ready at c) ms)

update-idle : (p : Message → Bool) (ms : List Message) → update_where p (λ r. r) ms ≡ ms
update-idle p [] = refl
update-idle p (m ∷ ms) = elim (Bool-cases (p m)) [
  | inl own ↦ rw (own, update-idle p ms) refl
  | inr other ↦ rw (other, update-idle p ms) refl
]

module _ (t : Telegram) (posting_ready : Bool) where
  record IsRound (c : Message) (d e : Db) : Type 0 where
    queue : e.outbox ≡ update_where (is_message c.id) (written t posting_ready d.clock c) d.outbox
    clock : e.clock ≡ d.clock

  failed_round :
      (c : Message) (d : Db)
      → ((fail_message c d).outbox
          ≡ update_where (is_message c.id) (mark_failed d.clock c) d.outbox)
        × ((fail_message c d).clock ≡ d.clock)
  unfolding audit ◌>>=◌
  failed_round c d = elim (Bool-cases (leb 16 (c.attempts + 1))) [
    | inl last ↦ rw last (refl, refl)
    | inr more ↦ rw more (refl, refl)
  ]

  one-IsRound : (c : Message) (d : Db) → IsRound c d (deliver_one t posting_ready c d)
  unfolding deliver_one
  one-IsRound c d = elim (Bool-cases (is_held posting_ready c)) [
    | inl held ↦ record {
      queue = rw held (sym (update-idle (is_message c.id) d.outbox));
      clock = rw held refl;
    }
    | inr free ↦ elim (Bool-cases (is_delivered t c c.payload)) [
      | inl sent ↦ record { queue = rw (free, sent) refl; clock = rw (free, sent) refl }
      | inr failed ↦ record {
        queue = rw (free, failed) (failed_round c d).0;
        clock = rw (free, failed) (failed_round c d).1;
      }
    ]
  ]

  all_rounds :
      (cs : List Message) (d : Db)
      → (deliver_each t posting_ready cs d).outbox ≡ rounds t posting_ready d.clock cs d.outbox
  unfolding deliver_each rounds
  all_rounds [] d = refl
  all_rounds (c ∷ cs) d =
      let r : IsRound c d (deliver_one t posting_ready c d) = one-IsRound c d in
      all_rounds cs (deliver_one t posting_ready c d)
      ∙ ap (λ n. rounds t posting_ready n cs (deliver_one t posting_ready c d).outbox) r.clock
      ∙ ap (rounds t posting_ready d.clock cs) r.queue

-- Distinct numbers: an update of another message passes a message by.
update_apart :
    (c : Message) (f : Message → Message) (ms : List Message)
    → exists (is_message c.id) ms ≡ false
    → update_where (is_message c.id) f ms ≡ ms
update_apart c f [] h = refl
update_apart c f (m ∷ ms) h = elim (Bool-cases (is_message c.id m)) [
  | inl own ↦ ground (arith, h, own)
  | inr other ↦ rw (other, update_apart c f ms (ground (arith, h, other))) refl
]

-- none of these copies has the number
abbrev Apart : ℕ → List Message → Type 0
Apart n [] = Unit
Apart n (c ∷ cs) = (is_message c.id (record c { id = n }) ≡ false) × Apart n cs

module _ (t : Telegram) (posting_ready : Bool) (at : ℕ) where
  rounds-Apart :
      (cs : List Message) (m : Message) (ms : List Message)
      → Apart m.id cs
      → rounds t posting_ready at cs (m ∷ ms) ≡ m ∷ rounds t posting_ready at cs ms
  unfolding rounds
  rounds-Apart [] m ms h = refl
  rounds-Apart (c ∷ cs) m ms h = rw h.0 (rounds-Apart cs m _ h.1)

  chosen-Apart :
      (n k : ℕ) (p : Message → Bool) (ms : List Message)
      → exists (is_message n) ms ≡ false
      → Apart n (take k (select_all p ms))
  chosen-Apart n zero p ms h = tt
  chosen-Apart n (suc k) p [] h = tt
  chosen-Apart n (suc k) p (m ∷ ms) h = elim (Bool-cases (p m)) [
    | inl own ↦ rw own (ground (arith, h), chosen-Apart n k p ms (ground (arith, h)))
    | inr other ↦ rw other (chosen-Apart n (suc k) p ms (ground (arith, h)))
  ]

  same_id : (m : Message) → (attempted t posting_ready at m).id ≡ m.id
  unfolding attempted
  same_id m = elim (Bool-cases (is_held posting_ready m)) [
    | inl held ↦ rw held refl
    | inr free ↦ elim (Bool-cases (is_delivered t m m.payload)) [
      | inl sent ↦ rw (free, sent) refl
      | inr failed ↦ rw (free, failed) refl
    ]
  ]

  written_own : (m : Message) → written t posting_ready at m m ≡ attempted t posting_ready at m
  unfolding attempted
  written_own m = elim (Bool-cases (is_held posting_ready m)) [
    | inl held ↦ rw held refl
    | inr free ↦ elim (Bool-cases (is_delivered t m m.payload)) [
      | inl sent ↦ rw (free, sent) refl
      | inr failed ↦ rw (free, failed) refl
    ]
  ]

  headed :
      (m : Message) (ms : List Message)
      → exists (is_message m.id) ms ≡ false
      → update_where (is_message m.id) (written t posting_ready at m) (m ∷ ms)
        ≡ attempted t posting_ready at m ∷ ms
  headed m ms h =
      let self : is_message m.id m ≡ true = ground arith in
      rw (self, update_apart m (written t posting_ready at m) ms h, written_own m) refl

  one_pass :
      (k : ℕ) (p : Message → Bool) (ms : List Message)
      → IsKeyed ms
      → rounds t posting_ready at (take k (select_all p ms)) ms
        ≡ attempt_first k p (attempted t posting_ready at) ms
  unfolding rounds attempt_first
  one_pass zero p ms h = refl
  one_pass (suc k) p [] h = refl
  one_pass (suc k) p (m ∷ ms) h = elim (Bool-cases (p m)) [
    | inl own ↦ rw own (
        ap (rounds t posting_ready at (take k (select_all p ms))) (headed m ms h.0)
        ∙ rounds-Apart (take k (select_all p ms)) (attempted t posting_ready at m) ms (
            subst (λ n. Apart n (take k (select_all p ms))) (sym (same_id m))
              (chosen-Apart m.id k p ms h.0))
        ∙ ap (λ x. attempted t posting_ready at m ∷ x) (one_pass k p ms h.1))
    | inr other ↦ rw other (
        rounds-Apart _ m ms (chosen-Apart m.id (suc k) p ms h.0)
        ∙ ap (λ x. m ∷ x) (one_pass (suc k) p ms h.1))
  ]

-- Where the numbers of the messages are distinct, the delivery of the queue, which reads copies of
-- fifteen rows at most and writes each row by its number, is one pass over the queue that attempts
-- the first fifteen messages that are due, where they stand, and touches no other.
pub deliver_outbox-attempt_first :
    (t : Telegram) (posting_ready : Bool) (d : Db)
    → IsKeyed d.outbox
    → (deliver_outbox t posting_ready d).outbox
      ≡ attempt_first 15
          (is_due d.clock d.settings d.users)
          (attempted t posting_ready d.clock)
          d.outbox
unfolding deliver_outbox
deliver_outbox-attempt_first t posting_ready d keyed =
    all_rounds t posting_ready _ d
    ∙ one_pass t posting_ready d.clock 15 (is_due d.clock d.settings d.users) d.outbox keyed
