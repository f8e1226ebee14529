-- ===== src/Posting/Desks.antt =====
-- `admin_callback` and `admin_input` of runtime/channel_manager.py keep the posts orderly.
use masih_panel.Tx.Yields.{Yields-kept, Yields-mono, Yields-from, keeps-Yields, bind-Yields, Yields}
use masih_panel.Base.{
  ◌≡◌, inr, inl, Bool-cases, update_where, List, ℕ, refl, true, false, String, Option, none, some,
  arith,
}
use masih_panel.Posting.{Outside, admin_only, set_posts, is_post}
use masih_panel.Posting.Commands.{parse_command, Command, PostCommand}
use masih_panel.Posting.Desk.{
  tell, menu, show_models, choose_model, ask_channel, check_rights, resume, pause, unstage_posts,
  show_pending, request_drafts, sign, approve_post, handle_post, perform, admin_callback,
}
use masih_panel.Posting.Input.{rewritten, can_rewrite, set_channel, rewrite_post, admin_input}
use masih_panel.Posting.Publish.{set_status}
use masih_panel.Posting.Kept.{IsOrderly, IsOrderly-IsQuiet, staged_signed}
use masih_panel.Posting.Orderly.{update-Orderly}
use masih_panel.Posting.Rounds.{channel_model-Keeps, text_model-Keeps, verify-Keeps}
use masih_panel.Queue.Frame.{IsQuiet, enqueue-Keeps, notify-Keeps}
use masih_panel.Shop.Labels.{Unicode}
use masih_panel.Social.Chat.{is_admin}
use masih_panel.Store.{PostStatus, Button, Db, Notice, ChannelPost}
use masih_panel.Tx.{◌>>=◌, Tx, modify}
use masih_panel.Tx.Keeps.{
  Keeps, Keeps-raise, Keeps-gets, Keeps-require, Keeps-lift, Keeps-bind, Keeps-modify,
  Keeps-raise_if, Keeps-if,
}

module _ (ever : List ℕ) where
  -- to tell an administrator something
  told :
      (uid : ℕ) (notice : Notice) (keys : List (List Button))
      → Keeps (IsOrderly ever) (tell uid notice keys)
  told uid notice keys = enqueue-Keeps (IsOrderly-IsQuiet ever) _ notice keys none true

  admin_only-Keeps : (uid : ℕ) → Keeps (IsOrderly ever) (admin_only uid)
  unfolding admin_only
  admin_only-Keeps uid = Keeps-bind _ _ (Keeps-gets _) (λ s. Keeps-raise_if _ _)

  menu-Keeps : (o : Outside) (uid : ℕ) → Keeps (IsOrderly ever) (menu o uid)
  unfolding menu
  menu-Keeps o uid = Keeps-bind _ _ (admin_only-Keeps uid) λ _. Keeps-bind _ _ (Keeps-gets _) λ g.
      Keeps-bind _ _ (Keeps-gets _) λ key.
        Keeps-bind _ _ (Keeps-gets _)
          λ rows. enqueue-Keeps (IsOrderly-IsQuiet ever) _ _ _ none false

  choose_model-Keeps :
      (o : Outside) (uid : ℕ) (key : Option String)
      → Keeps (IsOrderly ever) (choose_model o uid key)
  unfolding choose_model
  choose_model-Keeps o uid none = Keeps-raise _
  choose_model-Keeps o uid (some key) =
      Keeps-bind _ _ (text_model-Keeps (IsOrderly ever) key)
        λ _. Keeps-bind _ _ (Keeps-modify _ (λ d h. h)) (λ _. menu-Keeps o uid)

  check_rights-Keeps : (o : Outside) (uid : ℕ) → Keeps (IsOrderly ever) (check_rights o uid)
  unfolding check_rights
  check_rights-Keeps o uid =
      Keeps-bind _ _ (verify-Keeps ever o)
        λ seen. Keeps-bind _ _ (told uid _ _) (λ _. menu-Keeps o uid)

  resume-Keeps : (o : Outside) (uid : ℕ) → Keeps (IsOrderly ever) (resume o uid)
  unfolding resume
  resume-Keeps o uid = Keeps-bind _ _ (Keeps-gets _) λ since. Keeps-bind _ _ (Keeps-gets _) λ fresh.
      Keeps-bind _ _ (Keeps-raise_if _ _) λ _.
        Keeps-bind _ _ (channel_model-Keeps (IsOrderly ever))
          λ _. Keeps-bind _ _ (Keeps-modify _ (λ d h. h)) (λ _. menu-Keeps o uid)

  -- A post that goes back to `approved` has its signature.
  unstage_posts-Keeps : Keeps (IsOrderly ever) (modify unstage_posts)
  unstage_posts-Keeps = Keeps-modify _ λ d h. (
    update-Orderly ever _ _ _ (λ p. (refl, refl, refl))
        (λ p hit signed. staged_signed p.status _ (ground (arith, hit)) signed)
        (λ n p hit out. ground (arith, out)) h.0,
    h.1,
  )

  pause-Keeps : (o : Outside) (uid : ℕ) → Keeps (IsOrderly ever) (pause o uid)
  unfolding pause
  pause-Keeps o uid = Keeps-bind _ _ (Keeps-modify _ (λ d h. h)) λ _.
      Keeps-bind _ _ (Keeps-modify _ (λ d h. h))
        λ _. Keeps-bind _ _ unstage_posts-Keeps (λ _. menu-Keeps o uid)

  -- `P` with the fact that the caller is an administrator
  abbrev ByAdmin : ℕ → Db → Type 0
  ByAdmin uid d = IsOrderly ever d × (is_admin uid d.settings ≡ true)

  sign-Orderly :
      (uid ident : ℕ) (d : Db)
      → ByAdmin uid d
      → ByAdmin uid (set_posts (update_where (is_post ident) (sign uid d.clock)) d)
  sign-Orderly uid ident d h = (
    (
      update-Orderly ever _ _ _ (λ p. (refl, refl, refl)) (λ p hit signed. h.0.1 uid h.1)
          (λ n p hit out. ground (arith, out)) h.0.0,
      h.0.1,
    ),
    h.1,
  )

  abbrev byadmin-IsQuiet : (uid : ℕ) → IsQuiet (ByAdmin uid)
  byadmin-IsQuiet uid = record {
    outbox = λ d o h. h;
    nav = λ d n h. h;
    drawn = λ d n h. h;
    audit_log = λ d a h. h;
  }

  approve_post-Keeps : (uid : ℕ) (p : ChannelPost) → Keeps (ByAdmin uid) (approve_post uid p)
  unfolding approve_post
  approve_post-Keeps uid p = Keeps-bind _ _ (Keeps-gets _) λ enabled.
      Keeps-bind _ _ (Keeps-gets _) λ fresh. Keeps-bind _ _ (Keeps-raise_if _ _) λ _.
        Keeps-bind _ _ (Keeps-raise_if _ _) λ _.
          Keeps-bind _ _ (Keeps-modify _ (λ d h. sign-Orderly uid p.id d h))
            λ _. enqueue-Keeps (byadmin-IsQuiet uid) _ Notice.channel_approved _ none true

  reject_post-Keeps :
      (ident : ℕ)
      → Keeps (IsOrderly ever) (
          modify (λ d.
            set_posts (update_where (is_post ident) (set_status PostStatus.rejected d.clock)) d))
  reject_post-Keeps ident = Keeps-modify _ λ d h. (
    update-Orderly ever _ _ _ (λ p. (refl, refl, refl)) (λ p hit signed. refl)
        (λ n p hit out. ground (arith, out)) h.0,
    h.1,
  )

  -- what does not need the administrator's name
  anyway :
      {A : Type 0} (uid : ℕ) (m : Tx Db A)
      → Keeps (IsOrderly ever) m
      → Yields (ByAdmin uid) m (λ _ d. IsOrderly ever d)
  anyway uid m k = Yields-from m (λ d h. h.0) (Yields-kept m k)

  show_models-Keeps : (o : Outside) (uid : ℕ) → Keeps (IsOrderly ever) (show_models o uid)
  unfolding show_models
  show_models-Keeps o uid = Keeps-bind _ _ (Keeps-gets _) (λ models. told uid _ _)

  ask_channel-Keeps : (uid : ℕ) → Keeps (IsOrderly ever) (ask_channel uid)
  unfolding ask_channel
  ask_channel-Keeps uid = Keeps-bind _ _ (Keeps-modify _ (λ d h. h)) (λ _. told uid _ _)

  show_pending-Keeps : (uid : ℕ) → Keeps (IsOrderly ever) (show_pending uid)
  unfolding show_pending
  show_pending-Keeps uid = Keeps-bind _ _ (Keeps-gets _) (λ rows. told uid _ _)

  request_drafts-Keeps : (o : Outside) (uid : ℕ) → Keeps (IsOrderly ever) (request_drafts o uid)
  unfolding request_drafts
  request_drafts-Keeps o uid = Keeps-bind _ _ (Keeps-gets _) λ ready.
      Keeps-bind _ _ (Keeps-raise_if _ _)
        λ _. Keeps-bind _ _ (Keeps-gets _) (λ filled. told uid _ _)

  handle_post-Yields :
      (uid : ℕ) (op : PostCommand) (p : ChannelPost)
      → Yields (ByAdmin uid) (handle_post uid op p) (λ _ d. IsOrderly ever d)
  unfolding handle_post
  handle_post-Yields uid PostCommand.view p = anyway uid _ (told uid _ _)
  handle_post-Yields uid PostCommand.edit p = anyway uid _ (
      Keeps-bind _ _ (Keeps-raise_if _ _)
        λ _. Keeps-bind _ _ (Keeps-modify _ (λ d h. h)) (λ _. told uid _ _))
  handle_post-Yields uid PostCommand.approve p =
      Yields-mono _ (Yields-kept _ (approve_post-Keeps uid p)) (λ _ d h. h.0)
  handle_post-Yields uid PostCommand.reject p = anyway uid _ (
      Keeps-bind _ _ (Keeps-raise_if _ _)
        λ _. Keeps-bind _ _ (reject_post-Keeps p.id) (λ _. told uid _ _))
  handle_post-Yields uid PostCommand.other p = anyway uid _ (Keeps-raise _)

  perform-Yields :
      (o : Outside) (uid : ℕ) (c : Command)
      → Yields (ByAdmin uid) (perform o uid c) (λ _ d. IsOrderly ever d)
  unfolding perform
  perform-Yields o uid Command.home = anyway uid _ (menu-Keeps o uid)
  perform-Yields o uid Command.models = anyway uid _ (show_models-Keeps o uid)
  perform-Yields o uid Command.config = anyway uid _ (ask_channel-Keeps uid)
  perform-Yields o uid Command.verify = anyway uid _ (check_rights-Keeps o uid)
  perform-Yields o uid Command.resume = anyway uid _ (resume-Keeps o uid)
  perform-Yields o uid Command.pause = anyway uid _ (pause-Keeps o uid)
  perform-Yields o uid Command.pending = anyway uid _ (show_pending-Keeps uid)
  perform-Yields o uid Command.draft = anyway uid _ (request_drafts-Keeps o uid)
  perform-Yields o uid (Command.model key) = anyway uid _ (choose_model-Keeps o uid key)
  perform-Yields o uid (Command.on_post op ident) =
      keeps-Yields _ _ (Keeps-require _ _) (λ p. handle_post-Yields uid op p)

  admin_only-Yields : (uid : ℕ) → Yields (IsOrderly ever) (admin_only uid) (λ _ d. ByAdmin uid d)
  unfolding admin_only ◌>>=◌
  admin_only-Yields uid = record {
    at = λ d h. elim (Bool-cases (is_admin uid d.settings)) [
      | inl own ↦ rw own (h, own)
      | inr other ↦ rw other tt
    ];
  }

  -- What an administrator does keeps the posts orderly.
  pub admin_callback-IsOrderly :
      (o : Outside) (uid : ℕ) (cmd : String) → Keeps (IsOrderly ever) (admin_callback o uid cmd)
  unfolding admin_callback
  admin_callback-IsOrderly o uid cmd = record {
    at =
        (bind-Yields _ _ (admin_only-Yields uid)
          (λ _. perform-Yields o uid (parse_command cmd))).at;
  }

  set_channel-Keeps :
      (u : Unicode) (uid : ℕ) (body : String) → Keeps (IsOrderly ever) (set_channel u uid body)
  unfolding set_channel
  set_channel-Keeps u uid body = Keeps-bind _ _ (Keeps-lift _) λ name.
      Keeps-bind _ _ (Keeps-modify _ (λ d h. h)) λ _.
        Keeps-bind _ _ (Keeps-modify _ (λ d h. h))
          (λ _. notify-Keeps (IsOrderly-IsQuiet ever) _ _ _)

  -- A rewritten post waits for another approval.
  rewrite_post-Keeps :
      (u : Unicode) (uid ident : ℕ) (body : String)
      → Keeps (IsOrderly ever) (rewrite_post u uid ident body)
  unfolding rewrite_post
  rewrite_post-Keeps u uid ident body = Keeps-bind _ _ (Keeps-raise_if _ _) λ _.
      Keeps-bind _ _ (Keeps-gets _) λ found.
        Keeps-bind _ _
          (Keeps-modify _ (λ d h. (
            update-Orderly ever (can_rewrite ident) (rewritten (u.strip body) d.clock)
                d.posting.posts (λ p. (refl, refl, refl)) (λ p hit signed. refl)
                (λ n p hit out. ground (arith, out)) h.0,
            h.1,
          )))
          λ _. Keeps-bind _ _ (Keeps-raise_if _ _) λ _.
            Keeps-bind _ _ (Keeps-modify _ (λ d h. h))
              (λ _. notify-Keeps (IsOrderly-IsQuiet ever) _ _ _)

  pub admin_input-IsOrderly :
      (u : Unicode) (uid : ℕ) (state body : String)
      → Keeps (IsOrderly ever) (admin_input u uid state body)
  unfolding admin_input
  admin_input-IsOrderly u uid state body = Keeps-bind _ _ (admin_only-Keeps uid) λ _.
      Keeps-if _ _ _ (set_channel-Keeps u uid body) (
        Keeps-if _ _ _
          (Keeps-bind _ _ (Keeps-require _ _) (λ ident. rewrite_post-Keeps u uid ident body))
          (Keeps-raise _))
