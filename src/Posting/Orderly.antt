-- ===== src/Posting/Orderly.antt =====
-- What stays true of the posts of runtime/channel_manager.py, and the changes of the table that keep it.
use masih_panel.Posting.Drafts.{at_slot}
use masih_panel.Base.{
  sym, count-absent, ap, ltb, subst, ◌∙◌, ℕ, ◌≤◌, ◌<◌, ◌≡◌, ◌==◌, refl, Bool, true, false, not,
  ◌&&◌, ◌||◌, List, [], ◌∷◌, exists, count, select_all, update_where, insert_row, next_id, All,
  All-append, count-insert_row, Bool-cases, inl, inr, arith,
}
use masih_panel.Base.Keys.{
  next_id-new, exists-weaken, IsKeyed, exists-update_where, All-update_where, All-select_all,
  All-map, All-zip, All-every, All-absent, count-update-le, count-update-add, update_where-IsKeyed,
  insert_row-IsKeyed, count-IsKeyed, select_all-IsKeyed,
}
use masih_panel.Posting.{is_post}
use masih_panel.Posting.Publish.{in_slot, is_approved, goes_out, stage, is_ready, by_slot}
use masih_panel.Store.{ChannelPost, PostStatus}

-- the states that an approval alone leads to
abbrev pub needs_signature : PostStatus → Bool
needs_signature PostStatus.approved = true
needs_signature PostStatus.queued = true
needs_signature PostStatus.published = true
needs_signature PostStatus.failed = true
needs_signature _ = false

abbrev pub is_among : ℕ → List ℕ → Bool
is_among uid uids = exists (λ n. n == uid) uids

-- by one of the given accounts
abbrev pub is_signed : List ℕ → ChannelPost → Bool
is_signed ever p = not (needs_signature p.status) || is_among p.approved_by ever

-- The numbers are distinct, the slots are those of the table and taken once a day, no post goes out
-- without the approval of one of the accounts in `ever`, and at most three go out on a day.
pub record Orderly (ever : List ℕ) (ps : List ChannelPost) : Type 0 where
  pub keyed : IsKeyed (λ p. p.id) ps
  pub slotted : All (λ p. ltb p.slot 3 ≡ true) ps
  pub taken : (day slot : ℕ) → count (at_slot day slot) ps ≤ 1
  pub signed : All (λ p. is_signed ever p ≡ true) ps
  pub rationed : (day : ℕ) → count (goes_out day) ps ≤ 3

approved_signed :
    (status : PostStatus) (b : Bool)
    → is_approved status ≡ true
    → (not (needs_signature status) || b) ≡ true
    → b ≡ true
approved_signed PostStatus.approved b own h = h
approved_signed PostStatus.review b own h = ground (arith, own)
approved_signed PostStatus.queued b own h = ground (arith, own)
approved_signed PostStatus.published b own h = ground (arith, own)
approved_signed PostStatus.rejected b own h = ground (arith, own)
approved_signed PostStatus.expired b own h = ground (arith, own)
approved_signed PostStatus.failed b own h = ground (arith, own)

-- an update keeps the number, the day and the slot
abbrev pub StaysPut : (ChannelPost → ChannelPost) → ChannelPost → Type 0
StaysPut f p = ((f p).id ≡ p.id) × ((f p).day ≡ p.day) × ((f p).slot ≡ p.slot)

taken_update :
    (q : ChannelPost → Bool) (f : ChannelPost → ChannelPost) (ps : List ChannelPost)
    → ((p : ChannelPost) → StaysPut f p)
    → (day slot : ℕ) → count (at_slot day slot) ps ≤ 1
    → count (at_slot day slot) (update_where q f ps) ≤ 1
taken_update q f ps same day slot h = omega (
  arith,
  h,
  count-update-le (at_slot day slot) q f ps
      (All-every _ ps (λ p hit there. sym (rw ((same p).1, (same p).2) refl) ∙ there)),
)

slotted_update :
    (q : ChannelPost → Bool) (f : ChannelPost → ChannelPost) (ps : List ChannelPost)
    → ((p : ChannelPost) → StaysPut f p)
    → All (λ p. ltb p.slot 3 ≡ true) ps
    → All (λ p. ltb p.slot 3 ≡ true) (update_where q f ps)
slotted_update q f ps same h =
    All-update_where (λ p. ltb p.slot 3 ≡ true) q f ps
      (λ p hit small. ap (λ n. ltb n 3) (same p).2 ∙ small) h

module _ (ever : List ℕ) where
  -- an update that lets no post go out
  pub update-Orderly :
      (q : ChannelPost → Bool) (f : ChannelPost → ChannelPost) (ps : List ChannelPost)
      → ((p : ChannelPost) → StaysPut f p)
      → ((p : ChannelPost) → q p ≡ true → is_signed ever p ≡ true → is_signed ever (f p) ≡ true)
      → ((day : ℕ) (p : ChannelPost)
          → q p ≡ true
          → goes_out day (f p) ≡ true
          → goes_out day p ≡ true)
      → Orderly ever ps
      → Orderly ever (update_where q f ps)
  update-Orderly q f ps same signs back h = record {
    keyed = update_where-IsKeyed (λ p. p.id) q f ps (λ p. (same p).0) h.keyed;
    slotted = slotted_update q f ps same h.slotted;
    taken = λ day slot. taken_update q f ps same day slot (h.taken day slot);
    signed = All-update_where (λ p. is_signed ever p ≡ true) q f ps signs h.signed;
    rationed = λ day.
        omega (
          arith,
          h.rationed day,
          count-update-le (goes_out day) q f ps (All-every _ ps (back day)),
        );
  }

  abbrev pub is_vouched : ℕ → ChannelPost → Bool
  is_vouched day r = r.day == day && is_among r.approved_by ever

  -- where the number of `p` stands in the table, there stands an approved post of the day
  abbrev pub Vouched : ℕ → List ChannelPost → ChannelPost → Type 0
  Vouched day ps p = exists (λ r. is_post p.id r && not (is_vouched day r)) ps ≡ false

  ready_vouched :
      (day : ℕ) (r : ChannelPost)
      → is_signed ever r ≡ true
      → is_ready day r ≡ true
      → is_vouched day r ≡ true
  ready_vouched day r signed ready =
      let own : is_approved r.status ≡ true = ground (arith, ready) in
      let name : is_among r.approved_by ever ≡ true =
        approved_signed r.status (is_among r.approved_by ever) own signed in
      rw name (ground (arith, ready))

  -- Every row that the loop has read is vouched for.
  pub rows-Vouched :
      (day : ℕ) (ps : List ChannelPost)
      → Orderly ever ps
      → All (Vouched day ps) (by_slot (select_all (is_ready day) ps))
  rows-Vouched day ps h =
      let read : All (Vouched day ps) (select_all (is_ready day) ps) =
        All-map _ _ _
          (λ p absent.
            exists-weaken _ _ ps (All-map _ _ ps (λ r signed hit. vouches p r signed hit) h.signed)
              absent)
          (select_all-IsKeyed (λ p. p.id) (is_ready day) ps h.keyed) in
      All-append (Vouched day ps) _ _
        (All-append (Vouched day ps) _ _ (All-select_all (Vouched day ps) (in_slot 0) _ read)
          (All-select_all (Vouched day ps) (in_slot 1) _ read))
        (All-select_all (Vouched day ps) (in_slot 2) _ read)
    where
      vouches :
          (p r : ChannelPost)
          → is_signed ever r ≡ true
          → (is_post p.id r && not (is_vouched day r)) ≡ true
          → ((r.id == p.id) && not (is_ready day r)) ≡ true
      vouches p r signed hit = elim (Bool-cases (is_ready day r)) [
        | inl ready ↦
            let own : is_vouched day r ≡ true = ready_vouched day r signed ready in
            ground (arith, hit, own)
        | inr other ↦ rw other (ground (arith, hit))
      ]

  pub stage-Vouched :
      (day message at : ℕ) (p q : ChannelPost) (ps : List ChannelPost)
      → Vouched day ps q
      → Vouched day (update_where (is_post p.id) (stage message at) ps) q
  stage-Vouched day message at p q ps h =
      exists-update_where _ (is_post p.id) (stage message at) ps (λ r. refl) ∙ h

  pub stage-Orderly :
      (day message at : ℕ) (p : ChannelPost) (ps : List ChannelPost)
      → Vouched day ps p
      → count (goes_out day) ps < 3
      → Orderly ever ps
      → Orderly ever (update_where (is_post p.id) (stage message at) ps)
  stage-Orderly day message at p ps vouched free h = record {
    keyed =
        update_where-IsKeyed (λ r. r.id) (is_post p.id) (stage message at) ps (λ r. refl) h.keyed;
    slotted =
        slotted_update (is_post p.id) (stage message at) ps (λ r. (refl, refl, refl)) h.slotted;
    taken = λ n slot.
        taken_update (is_post p.id) (stage message at) ps (λ r. (refl, refl, refl)) n slot
          (h.taken n slot);
    signed =
        All-map _ _ _ (λ r both. both.0)
          (All-update_where Known (is_post p.id) (stage message at) ps staged known);
    rationed = ration;
  }
    where
      Known : ChannelPost → Type 0
      Known r = (is_signed ever r ≡ true) × ((is_post p.id r && not (is_vouched day r)) ≡ false)

      known : All Known ps
      known = All-zip _ _ _ ps (λ r own absent. (own, absent)) h.signed (All-absent _ ps vouched)

      staged : (r : ChannelPost) → is_post p.id r ≡ true → Known r → Known (stage message at r)
      staged r hit k = (ground (arith, hit, k.1), k.1)

      other_day :
          (day' : ℕ) (r : ChannelPost)
          → (day' == day) ≡ false
          → Known r
          → is_post p.id r ≡ true
          → goes_out day' (stage message at r) ≡ true
          → goes_out day' r ≡ true
      other_day day' r other k hit out = ground (arith, other, k.1, hit, out)

      ration :
          (day' : ℕ) → count (goes_out day') (update_where (is_post p.id) (stage message at) ps) ≤ 3
      ration day' = elim (Bool-cases (day' == day)) [
        | inl own ↦
            let same : day ≡ day' = ground (arith, own) in
            subst (λ n. count (goes_out n) (update_where (is_post p.id) (stage message at) ps) ≤ 3)
              same
              (omega (
                arith,
                free,
                count-update-add (goes_out day) (is_post p.id) (stage message at) ps,
                count-IsKeyed (λ r. r.id) p.id ps h.keyed,
              ))
        | inr other ↦ omega (
          arith,
          h.rationed day',
          count-update-le (goes_out day') (is_post p.id) (stage message at) ps
              (All-map _ _ ps (λ r k. other_day day' r other k) known),
        )
      ]

  no_outing : (day : ℕ) (p : ChannelPost) → p.status ≡ PostStatus.review → goes_out day p ≡ false
  no_outing day p draft = rw draft (ground arith)

  inserted :
      (p : ChannelPost) (ps : List ChannelPost) (day slot : ℕ)
      → exists (at_slot p.day p.slot) ps ≡ false
      → count (at_slot day slot) ps ≤ 1
      → count (at_slot day slot) (insert_row p ps) ≤ 1
  inserted p ps day slot open_slot h = elim (Bool-cases (at_slot day slot p)) [
    | inl own ↦
        let same_day : p.day ≡ day = ground (arith, own) in
        let same_slot : p.slot ≡ slot = ground (arith, own) in
        let missing : exists (at_slot day slot) ps ≡ false =
          subst (λ n. exists (at_slot n slot) ps ≡ false) same_day
            (subst (λ n. exists (at_slot p.day n) ps ≡ false) same_slot open_slot) in
        rw
          (
            count-insert_row (at_slot day slot) p ps,
            own,
            count-absent (at_slot day slot) ps missing,
          )
          (omega arith)
    | inr other ↦ rw (count-insert_row (at_slot day slot) p ps, other) h
  ]

  pub insert-Orderly :
      (p : ChannelPost) (ps : List ChannelPost)
      → p.id ≡ next_id (λ r. r.id) ps
      → p.status ≡ PostStatus.review
      → ltb p.slot 3 ≡ true
      → exists (at_slot p.day p.slot) ps ≡ false
      → Orderly ever ps
      → Orderly ever (insert_row p ps)
  insert-Orderly p ps new draft small open_slot h = record {
    slotted = All-append _ ps (p ∷ []) h.slotted (small, tt);
    taken = λ day slot. inserted p ps day slot open_slot (h.taken day slot);
    keyed = insert_row-IsKeyed (λ r. r.id) p ps (rw new (next_id-new (λ r. r.id) ps)) h.keyed;
    signed = All-append _ ps (p ∷ []) h.signed (rw draft refl, tt);
    rationed = λ day.
        ground (arith, h.rationed day, count-insert_row (goes_out day) p ps, no_outing day p draft);
  }
