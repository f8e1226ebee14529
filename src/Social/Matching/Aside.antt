-- ===== src/Social/Matching/Aside.antt =====
-- What the search for a chat in runtime/social.py does beside the pairs and the points: to the queue, the
-- profiles, the users and the messages.
use masih_panel.Base.{ℕ, zero, suc, true, false, Option, none, some, String, List}
use masih_panel.Queue.Frame.{IsQuiet, draw-Keeps, notify-Keeps}
use masih_panel.Social.Chat.{affordable}
use masih_panel.Social.Profiles.{free_code, ensure_profile, profile, my_profile, require_complete}
use masih_panel.Social.Matching.{Candidate, is_ready, drop, take_waiting, meets, tell_price, wait}
use masih_panel.Wallet.{set_state}
use masih_panel.Tx.{modify}
use masih_panel.Store.{Db, User, SocialProfile, Waiting, ChatRoute}
use masih_panel.Tx.Keeps.{
  Keeps, Keeps-pure, Keeps-raise, Keeps-gets, Keeps-require, Keeps-bind, Keeps-modify, Keeps-if,
  Keeps-raise_if,
}

-- `P` looks neither at messages nor at users, profiles and those who wait.
pub record IsAside (P : Db → Type 0) : Type 0 where
  pub quiet : IsQuiet P
  pub users : (d : Db) (us : List User) → P d → P (record d { users = us })
  pub profiles :
      (d : Db) (ps : List SocialProfile)
      → P d
      → P (record d { social = record d.social { profiles = ps } })
  pub waiting :
      (d : Db) (ws : List Waiting)
      → P d
      → P (record d { social = record d.social { waiting = ws } })

module _ {P : Db → Type 0} (q : IsAside P) where
  free_code-Keeps : (tries : ℕ) → Keeps P (free_code tries)
  unfolding free_code
  free_code-Keeps zero = Keeps-raise _
  free_code-Keeps (suc tries) = Keeps-bind _ _ (draw-Keeps q.quiet) λ token.
      Keeps-bind _ _ (Keeps-gets _) λ taken. Keeps-if _ _ _ (free_code-Keeps tries) (Keeps-pure _)

  ensure_profile-Keeps :
      (uid : ℕ) (found : Option SocialProfile) → Keeps P (ensure_profile uid found)
  unfolding ensure_profile
  ensure_profile-Keeps uid (some p) = Keeps-pure p
  ensure_profile-Keeps uid none =
      Keeps-bind _ _ (free_code-Keeps 8)
        λ code. Keeps-bind _ _ (Keeps-modify _ (λ d h. q.profiles d _ h)) (λ _. Keeps-require _ _)

  pub profile-Keeps : (uid : ℕ) → Keeps P (profile uid)
  unfolding profile
  profile-Keeps uid = Keeps-bind _ _ (Keeps-gets _) (λ found. ensure_profile-Keeps uid found)

  my_profile-Keeps : (uid : ℕ) → Keeps P (my_profile uid)
  unfolding my_profile
  my_profile-Keeps uid = Keeps-bind _ _ (profile-Keeps uid) (λ p. notify-Keeps q.quiet _ _ _)

  pub require_complete-Keeps : (uid : ℕ) → Keeps P (require_complete uid)
  unfolding require_complete
  require_complete-Keeps uid = Keeps-bind _ _ (Keeps-gets _) λ s. Keeps-if _ _ _ (Keeps-pure true) (
      Keeps-bind _ _ (profile-Keeps uid) λ p.
        Keeps-if _ _ _ (Keeps-pure true)
          (Keeps-bind _ _ (my_profile-Keeps uid) (λ _. Keeps-pure false)))

  pub is_ready-Keeps : (peer : ℕ) → Keeps P (is_ready peer)
  unfolding is_ready
  is_ready-Keeps peer = Keeps-bind _ _ (Keeps-gets _) λ s.
      Keeps-if _ _ _ (Keeps-pure true) (Keeps-bind _ _ (profile-Keeps peer) (λ p. Keeps-pure _))

  pub drop-Keeps : (peer : ℕ) → Keeps P (drop peer)
  unfolding drop
  drop-Keeps peer =
      Keeps-bind _ _ (Keeps-modify _ (λ d h. q.waiting d _ h)) λ _.
        Keeps-bind _ _ (Keeps-modify _ (λ d h. q.users d _ h)) (λ _. notify-Keeps q.quiet _ _ _)

  pub take_waiting-Keeps : (mode : ChatRoute) (peer : ℕ) → Keeps P (take_waiting mode peer)
  unfolding take_waiting
  take_waiting-Keeps mode peer =
      Keeps-bind _ _ (Keeps-gets _)
        λ n. Keeps-bind _ _ (Keeps-modify _ (λ d h. q.waiting d _ h)) (λ _. Keeps-pure _)

  pub meets-Keeps :
      (uid : ℕ) (mode : ChatRoute) (interests : List String) (r : Candidate)
      → Keeps P (meets uid mode interests r)
  unfolding meets
  meets-Keeps uid mode interests r = Keeps-bind _ _ (Keeps-gets _) λ barred.
      Keeps-if _ _ _ (Keeps-pure false) (
        Keeps-bind _ _ (is_ready-Keeps _) λ ready. Keeps-bind _ _ (Keeps-gets _) λ busy.
          Keeps-bind _ _ (Keeps-gets _) λ user. Keeps-bind _ _ (Keeps-gets _) λ poor.
            Keeps-if _ _ _ (Keeps-pure false) (
              Keeps-if _ _ _ (Keeps-bind _ _ (drop-Keeps _) (λ _. Keeps-pure false))
                (Keeps-if _ _ _ (Keeps-pure false) (take_waiting-Keeps mode _))))

  pub set_state-Keeps : (uid : ℕ) (step : String) → Keeps P (modify (set_state uid step))
  set_state-Keeps uid step =
      Keeps-modify (set_state uid step) (λ d h. q.users d (set_state uid step d).users h)

  pub tell_price-Keeps : (person price : ℕ) → Keeps P (tell_price person price)
  unfolding tell_price
  tell_price-Keeps person price =
      Keeps-bind _ _ (Keeps-gets _)
        λ s. Keeps-bind _ _ (notify-Keeps q.quiet _ _ _) (λ _. notify-Keeps q.quiet _ _ _)

  pub wait-Keeps : (uid : ℕ) (mode : ChatRoute) (price : ℕ) → Keeps P (wait uid mode price)
  unfolding wait
  wait-Keeps uid mode price =
      Keeps-bind _ _ (Keeps-modify _ (λ d h. q.waiting d _ h)) λ _.
        Keeps-bind _ _ (Keeps-modify _ (λ d h. q.users d _ h)) (λ _. notify-Keeps q.quiet _ _ _)

pub affordable-Keeps : {P : Db → Type 0} (uid amount : ℕ) → Keeps P (affordable uid amount)
unfolding affordable
affordable-Keeps uid amount =
    Keeps-bind _ _ (Keeps-gets _) λ s. Keeps-bind _ _ (Keeps-gets _) (λ held. Keeps-raise_if _ _)
