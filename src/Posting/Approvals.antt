-- ===== src/Posting/Approvals.antt =====
-- What an approval in runtime/channel_manager.py needs, and what it does.
use masih_panel.Base.{
  select_one-fits, arith, ◌∙◌, ℕ, ◌≡◌, refl, sym, subst, ap, Bool, true, false, none, some,
  select_one, update_where,
}
use masih_panel.Posting.{Outside, admin_only, is_fresh, is_post, set_posts}
use masih_panel.Posting.Commands.{Command, PostCommand, post_callback}
use masih_panel.Posting.Desk.{admin_callback, approve_post, handle_post, perform, sign}
use masih_panel.Posting.Printed.{parse_command-post_callback}
use masih_panel.Posting.Publish.{is_review}
use masih_panel.Queue.Frame.{IsQuiet, enqueue-Keeps}
use masih_panel.Social.Chat.{is_admin}
use masih_panel.Store.{ChannelPost, Db, Notice}
use masih_panel.Tx.{ok}
use masih_panel.Tx.Yields.{
  Yields, Yields-kept, Yields-modify, Yields-mono, Yields-raise_if, bind-Yields, facts-Yields,
  gets-Yields, of_Yields, raise_if-Yields, require-Yields,
}

abbrev waits_for_review : ℕ → Db → Bool
waits_for_review ident d = elim (select_one (is_post ident) d.posting.posts) [
  | none ↦ false
  | some p ↦ is_review p.status
]

abbrev with_signature : ℕ → ℕ → Db → Db
with_signature uid ident d = set_posts (update_where (is_post ident) (sign uid d.clock)) d

module _ (uid ident : ℕ) (d : Db) where
  -- what a committed approval tells of the states before and after it
  abbrev pub Approved : Db → Type 0
  Approved e =
      (is_admin uid d.settings ≡ true)
      × (d.posting.config.enabled ≡ true)
      × (is_fresh d ≡ true)
      × (waits_for_review ident d ≡ true)
      × (e.posting ≡ (with_signature uid ident d).posting)

  abbrev posting-IsQuiet : IsQuiet (λ e. e.posting ≡ (with_signature uid ident d).posting)
  posting-IsQuiet = record {
    outbox = λ e o h. h;
    nav = λ e n h. h;
    drawn = λ e n h. h;
    audit_log = λ e a h. h;
  }

  known_admin :
      Yields (λ e. e ≡ d) (admin_only uid) (λ _ e. (is_admin uid d.settings ≡ true) × (e ≡ d))
  unfolding admin_only
  known_admin =
      gets-Yields _ d.settings _ (λ e h. ap (λ (x : Db). x.settings) h)
        λ s seen.
          Yields-raise_if _ _
            λ own e h. (subst (λ t. is_admin uid t ≡ true) seen (ground (arith, own)), h)

  signs :
      (p : ChannelPost)
      → is_admin uid d.settings ≡ true
      → select_one (is_post ident) d.posting.posts ≡ some p
      → p.id ≡ ident
      → Yields (λ e. e ≡ d) (approve_post uid p) (λ _ e. Approved e)
  unfolding approve_post
  signs p own found same =
      gets-Yields _ d.posting.config.enabled _ (λ e h. ap (λ (x : Db). x.posting.config.enabled) h)
        λ enabled on.
          gets-Yields _ (is_fresh d) _ (λ e h. ap is_fresh h)
            λ fresh new. raise_if-Yields _ _ _ λ usable. raise_if-Yields _ _ _ λ review.
              bind-Yields {R = λ _ e. e.posting ≡ (with_signature uid ident d).posting} _ _
                (Yields-modify _ (λ e h. rw (h, same) refl))
                λ _.
                  Yields-mono _
                    (Yields-kept _
                      (enqueue-Keeps posting-IsQuiet _ Notice.channel_approved _ none true))
                    λ _ e h. (
                      own,
                      sym on ∙ ground (arith, usable),
                      sym new ∙ ground (arith, usable),
                      rw (waits_for_review, found) (ground (arith, review)),
                      h,
                    )

  performs :
      (o : Outside)
      → is_admin uid d.settings ≡ true
      → Yields
          (λ e. e ≡ d)
          (perform o uid (Command.on_post PostCommand.approve ident))
          (λ _ e. Approved e)
  unfolding perform handle_post
  performs o own =
      require-Yields _ _ (select_one (is_post ident) d.posting.posts) _
        (λ e h. ap (λ (x : Db). select_one (is_post ident) x.posting.posts) h)
        λ p found.
          signs p own found
            (ground (arith, select_one-fits (is_post ident) p d.posting.posts found))

  approves :
      (o : Outside)
      → Yields
          (λ e. e ≡ d)
          (admin_callback o uid (post_callback PostCommand.approve ident))
          (λ _ e. Approved e)
  unfolding admin_callback
  approves o = facts-Yields _ _ known_admin λ _ own.
      subst (λ c. Yields (λ e. e ≡ d) (perform o uid c) (λ _ e. Approved e))
        (sym (parse_command-post_callback PostCommand.approve ident)) (performs o own)

-- A press of an approval button that is committed is an administrator's, while the channel is enabled
-- and its rights are freshly checked, on a post that waits for a review; it signs this post with the
-- administrator's number and the time, and leaves the other posts and tables of the channel as they are.
pub approve_effect :
    (o : Outside) (uid ident : ℕ) (d e : Db)
    → admin_callback o uid (post_callback PostCommand.approve ident) d ≡ ok (tt, e)
    → Approved uid ident d e
approve_effect o uid ident d e h = of_Yields _ d (approves uid ident d o) refl h
