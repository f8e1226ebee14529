-- ===== src/Worker/Outbox/Progress.antt =====
-- What the delivery of the queue guarantees, whatever Telegram answers.
use native.Mathlib.Nat.{one-le-pow, pow-le-pow_right}
use masih_panel.Worker.Outbox.{
  is_due, is_queued, is_held, is_delivered, is_message, backoff, deliver_outbox,
}
use masih_panel.Worker.Outbox.Pass.{attempted, attempt_first, deliver_outbox-attempt_first, IsKeyed}
use masih_panel.Worker.Telegram.{Telegram}
use masih_panel.Store.{Db, Settings, User, Message}
use masih_panel.Base.{
  ℕ, zero, suc, ◌+◌, ◌-◌, ◌≤◌, ◌<◌, min, leb, Bool, true, false, List, [], ◌∷◌, count, All,
  select_one, some, Bool-cases, inl, inr, ◌≡◌, refl, sym, ap, ◌∙◌, subst, arith,
}

backoff_positive : (n : ℕ) → 1 ≤ backoff n
backoff_positive n = omega (arith, one-le-pow (min n 11) 2 (omega arith))

not_due :
    (t : Telegram) (d : Db) (s : Settings) (us : List User) (m : Message)
    → is_due d.clock s us (attempted t true d.clock m) ≡ false
unfolding is_due attempted
not_due t d s us m =
    let free : is_held true m ≡ false = ground arith in
    elim (Bool-cases (is_delivered t m m.payload)) [
      | inl sent ↦ rw (free, sent) refl
      | inr failed ↦
          let later : leb (d.clock + backoff (m.attempts + 1)) d.clock ≡ false =
            ground (arith, backoff_positive (m.attempts + 1)) in
          rw (free, failed) (ground (arith, later))
    ]

rest_due :
    (f : Message → Message) (p : Message → Bool) (n : ℕ) (ms : List Message)
    → ((m : Message) → p (f m) ≡ false)
    → count p (attempt_first n p f ms) ≡ count p ms - n
unfolding attempt_first
rest_due f p zero ms h = omega arith
rest_due f p (suc n) [] h = omega arith
rest_due f p (suc n) (m ∷ ms) h = elim (Bool-cases (p m)) [
  | inl own ↦ rw (own, h m, rest_due f p n ms h) (omega arith)
  | inr other ↦ rw (other, other, rest_due f p (suc n) ms h) refl
]

-- Where the numbers of the messages are distinct and the channel may be posted to, a delivery leaves
-- fifteen fewer messages due at its time than there were, or none, whatever Telegram answers.
pub deliver_outbox_progress :
    (t : Telegram) (d : Db)
    → IsKeyed d.outbox
    → count (is_due d.clock d.settings d.users) (deliver_outbox t true d).outbox
      ≡ count (is_due d.clock d.settings d.users) d.outbox - 15
deliver_outbox_progress t d keyed =
    ap (count (is_due d.clock d.settings d.users)) (deliver_outbox-attempt_first t true d keyed)
    ∙ rest_due (attempted t true d.clock) (is_due d.clock d.settings d.users) 15 d.outbox
        (λ m. not_due t d d.settings d.users m)

settled_row :
    (f : Message → Message) (p : Message → Bool) (n ident : ℕ) (m : Message) (ms : List Message)
    → ((x : Message) → (f x).id ≡ x.id)
    → p m ≡ false
    → select_one (is_message ident) ms ≡ some m
    → select_one (is_message ident) (attempt_first n p f ms) ≡ some m
unfolding attempt_first
settled_row f p zero ident m ms same idle found = found
settled_row f p (suc n) ident m [] same idle found = found
settled_row f p (suc n) ident m (x ∷ ms) same idle found = elim (Bool-cases (is_message ident x)) [
  | inl own ↦
      let here : x ≡ m = ground (arith, found, own) in
      rw (subst (λ y. p y ≡ false) (sym here) idle, own) (ap some here)
  | inr other ↦
      let later : select_one (is_message ident) ms ≡ some m = ground (arith, found, other) in
      elim (Bool-cases (p x)) [
        | inl hit ↦ rw (hit, same x, other) (settled_row f p n ident m ms same idle later)
        | inr miss ↦ rw (miss, other) (settled_row f p (suc n) ident m ms same idle later)
      ]
]

same_id :
    (t : Telegram) (posting_ready : Bool) (at : ℕ) (m : Message)
    → (attempted t posting_ready at m).id ≡ m.id
unfolding attempted
same_id t posting_ready at m = elim (Bool-cases (is_held posting_ready m)) [
  | inl held ↦ rw held refl
  | inr free ↦ elim (Bool-cases (is_delivered t m m.payload)) [
    | inl sent ↦ rw (free, sent) refl
    | inr failed ↦ rw (free, failed) refl
  ]
]

not_queued :
    (at : ℕ) (s : Settings) (us : List User) (m : Message)
    → is_queued m.done ≡ false
    → is_due at s us m ≡ false
unfolding is_due
not_queued at s us m h = ground (arith, h)

-- Where the numbers of the messages are distinct, the row of a message that is sent, dead or cancelled is
-- as it was after every delivery.
pub deliver_outbox_settled :
    (t : Telegram) (posting_ready : Bool) (d : Db) (ident : ℕ) (m : Message)
    → IsKeyed d.outbox
    → select_one (is_message ident) d.outbox ≡ some m
    → is_queued m.done ≡ false
    → select_one (is_message ident) (deliver_outbox t posting_ready d).outbox ≡ some m
deliver_outbox_settled t posting_ready d ident m keyed found over =
    ap (select_one (is_message ident)) (deliver_outbox-attempt_first t posting_ready d keyed)
    ∙ settled_row (attempted t posting_ready d.clock) (is_due d.clock d.settings d.users) 15 ident m
        d.outbox (same_id t posting_ready d.clock) (not_queued d.clock d.settings d.users m over)
        found

-- A queued message has been refused fewer than sixteen times, and waits 2048 seconds at most.
abbrev pub IsRetried : ℕ → Message → Type 0
IsRetried at m = is_queued m.done ≡ true → (m.attempts < 16) × (m.next_try ≤ at + 2048)

backoff_bound : (n : ℕ) → backoff n ≤ 2048
backoff_bound n =
    omega (arith, pow-le-pow_right {n = 2} (omega arith) {i = min n 11} {j = 11} (omega arith))

kept-IsRetried :
    (t : Telegram) (posting_ready : Bool) (at : ℕ) (m : Message)
    → IsRetried at m
    → IsRetried at (attempted t posting_ready at m)
unfolding attempted
kept-IsRetried t posting_ready at m h = elim (Bool-cases (is_held posting_ready m)) [
  | inl held ↦ rw held h
  | inr free ↦ elim (Bool-cases (is_delivered t m m.payload)) [
    | inl sent ↦ rw (free, sent) (λ q. ground (arith, q))
    | inr failed ↦ rw (free, failed) (λ q. ground (arith, q, backoff_bound (m.attempts + 1)))
  ]
]

All-IsRetried :
    (f : Message → Message) (p : Message → Bool) (n at : ℕ) (ms : List Message)
    → ((m : Message) → IsRetried at m → IsRetried at (f m))
    → All (IsRetried at) ms
    → All (IsRetried at) (attempt_first n p f ms)
unfolding attempt_first
All-IsRetried f p zero at ms h a = a
All-IsRetried f p (suc n) at [] h a = tt
All-IsRetried f p (suc n) at (m ∷ ms) h a = elim (Bool-cases (p m)) [
  | inl own ↦ rw own (h m a.0, All-IsRetried f p n at ms h a.1)
  | inr other ↦ rw other (a.0, All-IsRetried f p (suc n) at ms h a.1)
]

-- Where the numbers of the messages are distinct and every queued message has been refused fewer than
-- sixteen times and waits 2048 seconds at most, this holds after every delivery.
pub deliver_outbox-IsRetried :
    (t : Telegram) (posting_ready : Bool) (d : Db)
    → IsKeyed d.outbox
    → All (IsRetried d.clock) d.outbox
    → All (IsRetried d.clock) (deliver_outbox t posting_ready d).outbox
deliver_outbox-IsRetried t posting_ready d keyed a =
    subst (All (IsRetried d.clock)) (sym (deliver_outbox-attempt_first t posting_ready d keyed)) (
      All-IsRetried (attempted t posting_ready d.clock) (is_due d.clock d.settings d.users) 15
        d.clock d.outbox (kept-IsRetried t posting_ready d.clock) a)
