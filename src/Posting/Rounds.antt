-- ===== src/Posting/Rounds.antt =====
-- `tick` of runtime/channel_manager.py keeps the posts orderly.
use masih_panel.Base.Text.{str}
use masih_panel.Base.Int.{ℤ}
use masih_panel.Base.{
  arith, ◌≡◌, ltb, select_one, ◌<>◌, not, ℕ, refl, Bool, true, false, if◌then◌else◌, String, List,
  [], ◌∷◌, Option, none, some, exists, Bool-cases, inl, inr,
}
use masih_panel.Posting.{posting_ready, BotIdentity, Outside, channel_model, text_model}
use masih_panel.Posting.Drafts.{
  is_open_slot, next_slot, review_keys, notify_each, notify_admins, draft, make_one_draft,
  insert_draft, at_slot,
}
use masih_panel.Posting.Kept.{
  IsOrderly, IsOrderly-IsQuiet, stage_approved-Keeps, complete_outbox-Keeps, retire_replies-Keeps,
}
use masih_panel.Posting.Orderly.{insert-Orderly}
use masih_panel.Posting.Round.{tick, produce, recheck, attempt, is_caught}
use masih_panel.Posting.Verify.{verify, check_group}
use masih_panel.AiSales.Models.{select_model, text_response}
use masih_panel.Queue.Frame.{enqueue-Keeps, audit-Keeps}
use masih_panel.Shop.Labels.{Unicode}
use masih_panel.Store.{Notice, account, AiModel, Db, ChannelPost}
use masih_panel.Tx.{◌>>=◌, Tx, Result, ok, err, pure, ◌>>◌, modify}
use masih_panel.Tx.Keeps.{
  Keeps, Keeps-pure, Keeps-gets, Keeps-require, Keeps-lift, Keeps-bind, Keeps-modify, Keeps-when,
  Keeps-raise_if, Keeps-if, Returns,
}

module _ {A : Type 0} (P : Db → Type 0) where
  attempted :
      (r : Result (A × Db)) (handled : Result (A × Db))
      → Returns (λ _ t. P t) r
      → Returns (λ _ t. P t) handled
      → Returns
          (λ _ t. P t)
          (elim r [ ok x ↦ ok x | err e ↦ if is_caught e then handled else err e ])
  attempted (ok x) handled h k = h
  attempted (err e) handled h k = elim (Bool-cases (is_caught e)) [
    | inl own ↦ rw own k
    | inr other ↦ rw other tt
  ]

  attempt-Keeps : (m handler : Tx Db A) → Keeps P m → Keeps P handler → Keeps P (attempt m handler)
  unfolding attempt
  attempt-Keeps m handler km kh = record {
    at = λ d h. attempted (m d) (handler d) (km.at d h) (kh.at d h);
  }

pub text_model-Keeps : (P : Db → Type 0) (key : String) → Keeps P (text_model key)
unfolding text_model select_model
text_model-Keeps P key =
    Keeps-bind _ _ (Keeps-require _ _) λ m.
      Keeps-bind _ _ (Keeps-gets _) λ s. Keeps-bind _ _ (Keeps-raise_if _ _) (λ _. Keeps-pure _)

pub channel_model-Keeps : (P : Db → Type 0) → Keeps P channel_model
unfolding channel_model
channel_model-Keeps P = Keeps-bind _ _ (Keeps-gets _) (λ key. text_model-Keeps P key)

text_response-Keeps :
    (P : Db → Type 0) (u : Unicode) (m : AiModel) (reply : Result String) (expanded : Bool)
    → Keeps P (text_response u m reply expanded)
unfolding text_response
text_response-Keeps P u m reply expanded = Keeps-bind _ _ (Keeps-gets _) λ s.
    Keeps-bind _ _ (Keeps-raise_if _ _) λ _. Keeps-bind _ _ (Keeps-raise_if _ _) λ _.
      Keeps-bind _ _ (Keeps-raise_if _ _) λ _.
        Keeps-bind _ _ (Keeps-lift reply)
          λ answer. Keeps-bind _ _ (Keeps-raise_if _ _) (λ _. Keeps-pure _)

-- The slot that is chosen is one of the table's.
slot_small : (p : ℕ → Bool) (n : ℕ) → select_one p (0 ∷ 1 ∷ 2 ∷ []) ≡ some n → ltb n 3 ≡ true
slot_small p n h = elim (Bool-cases (p 0)) [
  | inl first ↦ ground (arith, h, first)
  | inr no_first ↦ elim (Bool-cases (p 1)) [
    | inl second ↦ ground (arith, h, no_first, second)
    | inr no_second ↦ elim (Bool-cases (p 2)) [
      | inl third ↦ ground (arith, h, no_first, no_second, third)
      | inr no_third ↦ ground (arith, h, no_first, no_second, no_third)
    ]
  ]
]

module _ (ever : List ℕ) where
  notify_each-Keeps :
      (p : ChannelPost) (uids : List ℕ) → Keeps (IsOrderly ever) (notify_each p uids)
  unfolding notify_each
  notify_each-Keeps p [] = Keeps-pure tt
  notify_each-Keeps p (uid ∷ uids) =
      Keeps-bind _ _
        (enqueue-Keeps (IsOrderly-IsQuiet ever) (account uid) (Notice.channel_draft p)
          (review_keys p.id) (some ("channel-review:" <> str p.id <> ":" <> str uid)) false)
        (λ _. notify_each-Keeps p uids)

  notify_admins-Keeps : (p : Option ChannelPost) → Keeps (IsOrderly ever) (notify_admins p)
  unfolding notify_admins
  notify_admins-Keeps none = Keeps-pure tt
  notify_admins-Keeps (some p) =
      Keeps-bind _ _ (Keeps-gets _) (λ admins. notify_each-Keeps p admins)

  insert_draft-Keeps :
      (day slot : ℕ) (body : String)
      → ltb slot 3 ≡ true
      → Keeps (IsOrderly ever) (modify (insert_draft day slot body))
  insert_draft-Keeps day slot body small = Keeps-modify _ λ d h.
      elim (Bool-cases (exists (at_slot day slot) d.posting.posts)) [
        | inl taken ↦ rw taken h
        | inr missing ↦ rw missing (insert-Orderly ever _ _ refl refl small missing h.0, h.1)
      ]

  draft-Keeps :
      (u : Unicode) (o : Outside) (slot : ℕ)
      → ltb slot 3 ≡ true
      → Keeps (IsOrderly ever) (draft u o slot)
  unfolding draft
  draft-Keeps u o slot small = Keeps-bind _ _ (Keeps-gets _) λ day.
      Keeps-bind _ _ (channel_model-Keeps (IsOrderly ever)) λ model.
        Keeps-bind _ _
          (text_response-Keeps (IsOrderly ever) u model (o.completion model slot) false)
          λ content. Keeps-bind _ _ (Keeps-raise_if _ _) λ _. Keeps-bind _ _ (Keeps-gets _) λ name.
            Keeps-bind _ _ (insert_draft-Keeps day slot _ small) λ _.
              Keeps-bind _ _ (Keeps-require _ _)
                λ post. Keeps-bind _ _ (Keeps-gets _) λ saved. notify_admins-Keeps saved

  chosen-Keeps :
      (u : Unicode) (o : Outside) (ready : Bool) (slot : Option ℕ)
      → ((n : ℕ) → slot ≡ some n → ltb n 3 ≡ true)
      → Keeps (IsOrderly ever) (
          if not ready
          then pure false
          else elim slot [ none ↦ pure false | some n ↦ (do draft u o n; pure true) ])
  chosen-Keeps u o false slot small = Keeps-pure false
  chosen-Keeps u o true none small = Keeps-pure false
  chosen-Keeps u o true (some n) small =
      Keeps-bind _ _ (draft-Keeps u o n (small n refl)) (λ _. Keeps-pure true)

  pub make_one_draft-Keeps :
      (u : Unicode) (o : Outside) → Keeps (IsOrderly ever) (make_one_draft u o)
  unfolding make_one_draft ◌>>=◌
  make_one_draft-Keeps u o = record {
    at = λ d h.
        (chosen-Keeps u o (posting_ready d) (next_slot o d)
            (λ n e. slot_small (is_open_slot o d) n e)).at
          d h;
  }

  produce-Keeps : (u : Unicode) (o : Outside) → Keeps (IsOrderly ever) (produce u o)
  unfolding produce
  produce-Keeps u o = Keeps-bind _ _ (stage_approved-Keeps ever o) λ _.
      Keeps-bind _ _
        (attempt-Keeps (IsOrderly ever) _ _ (make_one_draft-Keeps u o)
          (Keeps-bind _ _ (audit-Keeps (IsOrderly-IsQuiet ever) _ _) (λ _. Keeps-pure false)))
        (λ _. (retire_replies-Keeps ever))

  check_group-Keeps :
      (o : Outside) (me : BotIdentity) (linked : ℤ)
      → Keeps (IsOrderly ever) (check_group o me linked)
  unfolding check_group
  check_group-Keeps o me linked = Keeps-bind _ _ (Keeps-lift _) λ group.
      Keeps-bind _ _ (Keeps-raise_if _ _)
        λ _. Keeps-bind _ _ (Keeps-lift _) (λ seen. Keeps-raise_if _ _)

  pub verify-Keeps : (o : Outside) → Keeps (IsOrderly ever) (verify o)
  unfolding verify
  verify-Keeps o = Keeps-bind _ _ (Keeps-gets _) λ name. Keeps-bind _ _ (Keeps-raise_if _ _) λ _.
      Keeps-bind _ _ (Keeps-lift _) λ me. Keeps-bind _ _ (Keeps-lift _) λ chat.
        Keeps-bind _ _ (Keeps-raise_if _ _) λ _. Keeps-bind _ _ (Keeps-lift _) λ seen.
          Keeps-bind _ _ (Keeps-raise_if _ _) λ _.
            Keeps-bind _ _ (Keeps-when _ _ (check_group-Keeps o me _))
              λ _. Keeps-bind _ _ (Keeps-modify _ (λ d h. h)) (λ _. Keeps-pure _)

  recheck-Keeps : (o : Outside) → Keeps (IsOrderly ever) (recheck o)
  unfolding recheck
  recheck-Keeps o = Keeps-bind _ _ (Keeps-gets _) λ g. Keeps-bind _ _ (Keeps-gets _) λ now.
      Keeps-if _ _ _
        (attempt-Keeps (IsOrderly ever) _ _ (Keeps-bind _ _ (verify-Keeps o) (λ _. Keeps-pure true))
          (Keeps-bind _ _ (audit-Keeps (IsOrderly-IsQuiet ever) _ _) (λ _. Keeps-pure false)))
        (Keeps-pure true)

  -- A round keeps the posts orderly.
  pub tick-IsOrderly : (u : Unicode) (o : Outside) → Keeps (IsOrderly ever) (tick u o)
  unfolding tick
  tick-IsOrderly u o = Keeps-bind _ _ (Keeps-modify _ (λ d h. h)) λ _.
      Keeps-bind _ _ (complete_outbox-Keeps ever) λ _. Keeps-bind _ _ (recheck-Keeps o) λ granted.
        Keeps-bind _ _ (Keeps-gets _) λ ready. Keeps-if _ _ _ (produce-Keeps u o) (Keeps-pure tt)
