-- ===== src/Posting/Kept.antt =====
-- The round and the handlers of runtime/channel_manager.py keep the posts orderly.
use masih_panel.Social.Chat.{is_admin}
use masih_panel.Base.{
  ℕ, ◌<◌, ◌≡◌, refl, leb, ltb, Bool, true, false, not, ◌||◌, List, [], ◌∷◌, Option, none, some,
  count, select_all, All, Bool-cases, inl, inr, arith,
}
use masih_panel.Base.Keys.{All-map}
use masih_panel.Posting.{Outside, slot_timestamp}
use masih_panel.Posting.Orderly.{
  is_among, Orderly, needs_signature, Vouched, update-Orderly, stage-Orderly, stage-Vouched,
  rows-Vouched,
}
use masih_panel.Posting.Publish.{
  is_staged, goes_out, is_ready, by_slot, expire_posts, complete_posts, mark_staged, stage_one,
  stage_each, stage_approved, complete_outbox, retire_replies, is_close,
}
use masih_panel.Queue.Frame.{IsQuiet, insert_message_once-Keeps}
use masih_panel.Store.{Db, Message, Delivery, ChannelPost, PostStatus}
use masih_panel.Tx.{gets, ◌>>=◌, modify}
use masih_panel.Tx.Keeps.{Keeps, Keeps-gets, Keeps-require, Keeps-bind, Keeps-modify, Keeps-when}
use masih_panel.Tx.Yields.{Yields, keeps-Yields, bind-Yields, Yields-modify}

-- Rows that fit are staged, and their signature stays.
pub staged_signed :
    (status : PostStatus) (b : Bool)
    → is_staged status ≡ true
    → (not (needs_signature status) || b) ≡ true
    → b ≡ true
staged_signed PostStatus.queued b own h = h
staged_signed PostStatus.review b own h = ground (arith, own)
staged_signed PostStatus.approved b own h = ground (arith, own)
staged_signed PostStatus.published b own h = ground (arith, own)
staged_signed PostStatus.rejected b own h = ground (arith, own)
staged_signed PostStatus.expired b own h = ground (arith, own)
staged_signed PostStatus.failed b own h = ground (arith, own)

or_true : (b : Bool) → (b || true) ≡ true
or_true true = refl
or_true false = refl

-- `ever` are the accounts that may have been administrators.
module _ (ever : List ℕ) where
  -- the administrators of the settings are among them
  abbrev pub Covers : Db → Type 0
  Covers d = (uid : ℕ) → is_admin uid d.settings ≡ true → is_among uid ever ≡ true

  abbrev pub IsOrderly : Db → Type 0
  IsOrderly d = Orderly ever d.posting.posts × Covers d

  pub IsOrderly-IsQuiet : IsQuiet IsOrderly
  IsOrderly-IsQuiet = record {
    outbox = λ d o h. h;
    nav = λ d n h. h;
    drawn = λ d n h. h;
    audit_log = λ d a h. h;
  }

  expire_posts-Keeps : (day : ℕ) → Keeps IsOrderly (modify (expire_posts day))
  expire_posts-Keeps day = Keeps-modify _ λ d h. (
    update-Orderly ever _ _ _ (λ p. (refl, refl, refl)) (λ p hit signed. refl)
        (λ n p hit out. ground (arith, out)) h.0,
    h.1,
  )

  complete_posts-Keeps :
      (done : Delivery → Bool) (status : PostStatus)
      → Keeps IsOrderly (modify (complete_posts done status))
  complete_posts-Keeps done status = Keeps-modify _ λ d h. (
    update-Orderly ever _ _ _ (λ p. (refl, refl, refl))
        (λ p hit signed. rw (staged_signed p.status _ (ground (arith, hit)) signed) (or_true _))
        (λ n p hit out. ground (arith, hit, out)) h.0,
    h.1,
  )

  pub complete_outbox-Keeps : Keeps IsOrderly complete_outbox
  unfolding complete_outbox
  complete_outbox-Keeps = Keeps-bind _ _ (complete_posts-Keeps _ _) λ _.
      Keeps-bind _ _ (complete_posts-Keeps _ _)
        λ _. Keeps-bind _ _ (Keeps-modify _ (λ d h. h)) (λ _. Keeps-modify _ (λ d h. h))

  pub retire_replies-Keeps : Keeps IsOrderly retire_replies
  unfolding retire_replies
  retire_replies-Keeps = Keeps-modify _ (λ d h. h)

  -- before a row is staged, and after
  module _ (day : ℕ) (p : ChannelPost) (ps : List ChannelPost) where
    abbrev Waits : Db → Type 0
    Waits d =
        IsOrderly d
        × Vouched ever day d.posting.posts p
        × All (Vouched ever day d.posting.posts) ps
        × (count (goes_out day) d.posting.posts < 3)

    Waits-IsQuiet : IsQuiet Waits
    Waits-IsQuiet = record {
      outbox = λ d o h. h;
      nav = λ d n h. h;
      drawn = λ d n h. h;
      audit_log = λ d a h. h;
    }

  abbrev Goes : ℕ → List ChannelPost → Db → Type 0
  Goes day ps d = IsOrderly d × All (Vouched ever day d.posting.posts) ps

  staged :
      (day : ℕ) (p : ChannelPost) (ps : List ChannelPost) (m : Option Message) (d : Db)
      → Waits day p ps d
      → Goes day ps (mark_staged p.id m d)
  staged day p ps none d h = (h.0, h.2)
  staged day p ps (some m) d h = (
    (stage-Orderly ever day m.id d.clock p _ h.1 h.3 h.0.0, h.0.1),
    All-map _ _ ps (λ q k. stage-Vouched ever day m.id d.clock p q _ k) h.2,
  )

  stage_one-Yields :
      (day : ℕ) (p : ChannelPost) (ps : List ChannelPost)
      → Yields (Waits day p ps) (stage_one p) (λ _ d. Goes day ps d)
  unfolding stage_one
  stage_one-Yields day p ps = keeps-Yields _ _ (Keeps-require _ _) λ chat.
      keeps-Yields _ _ (insert_message_once-Keeps (Waits-IsQuiet day p ps) _ _ _ _)
        λ _. keeps-Yields _ _ (Keeps-gets _) λ m. Yields-modify _ (λ d h. staged day p ps m d h)

  stage_each-Yields :
      (o : Outside) (day : ℕ) (ps : List ChannelPost)
      → Yields (Goes day ps) (stage_each o day ps) (λ _ d. IsOrderly d)
  unfolding stage_each ◌>>=◌
  stage_each-Yields o day [] = record { at = λ d h. h.0 }
  stage_each-Yields o day (p ∷ ps) = record {
    at = λ d h. elim (Bool-cases (ltb d.clock (slot_timestamp o p.day p.slot))) [
      | inl early ↦ rw early ((stage_each-Yields o day ps).at d (h.0, h.1.1))
      | inr due ↦
          elim (Bool-cases (leb 3 (count (goes_out day) d.posting.posts) || is_close day d)) [
            | inl stop ↦ rw (due, stop) h.0
            | inr go ↦
                rw (due, go)
                  ((bind-Yields _ _ (stage_one-Yields day p ps)
                      (λ _. stage_each-Yields o day ps)).at
                    d (h.0, h.1.0, h.1.1, ground (arith, go)))
          ]
    ];
  }

  staged_rows-Keeps :
      (o : Outside) (day : ℕ)
      → Keeps IsOrderly (do
        rows ← gets (λ d. by_slot (select_all (is_ready day) d.posting.posts))
        stage_each o day rows)
  unfolding ◌>>=◌
  staged_rows-Keeps o day = record {
    at = λ d h.
        (stage_each-Yields o day (by_slot (select_all (is_ready day) d.posting.posts))).at d
          (h, rows-Vouched ever day d.posting.posts h.0);
  }

  pub stage_approved-Keeps : (o : Outside) → Keeps IsOrderly (stage_approved o)
  unfolding stage_approved
  stage_approved-Keeps o = Keeps-bind _ _ (Keeps-gets _) λ ready.
      Keeps-bind _ _ (Keeps-gets _) λ day.
        Keeps-when _ _ (Keeps-bind _ _ (expire_posts-Keeps day) (λ _. staged_rows-Keeps o day))
