-- ===== src/Social/Matching/Alone.antt =====
-- Nobody is in two open chats of runtime/social.py.
use masih_panel.Wallet.{is_user, set_state}
use masih_panel.Tx.Keeps.{
  Returns, Keeps-raise_if, Keeps-pure, Keeps-modify, Keeps-when, Keeps-gets, Keeps-bind, Keeps,
}
use masih_panel.Tx.{err, ok, Result, settle, pure, modify, ◌>>◌, ◌>>=◌}
use masih_panel.Tx.Yields.{
  seen-Yields, Yields-mono, Yields-from, Yields-if, Yields-kept, Yields-modify, bind-Yields,
  keeps-Yields, Yields-pure, Yields,
}
use masih_panel.Social.Matching.{
  can_chat, cannot_pay, find_partner, take_waiting, have_common, is_filtered, drop, settle_match,
  match_each, start_matching, new_pair, is_busy, meets, Candidate, open_pair, pair_up,
}
use masih_panel.Base.{
  select_one, ◌∙◌, String, count-insert_row, count-absent, subst, ◌||◌, ℕ, ◌≤◌, ◌<◌, ◌==◌, ◌≡◌,
  refl, Bool, true, false, not, ◌&&◌, if◌then◌else◌, List, [], ◌∷◌, Option, none, some, exists,
  count, Bool-cases, inl, inr, arith,
}
use masih_panel.Base.Keys.{All-every, count-update-le}
use masih_panel.Queue.Frame.{notify-Keeps, IsQuiet}
use masih_panel.Social.Matching.Newest.{latest-none, only_latest, closed_all}
use masih_panel.Social.Chat.{
  is_blocked, close_pair, close_chat, leave, active_chat, charge_once, takes_part,
}
use masih_panel.Social.Matching.Aside.{
  take_waiting-Keeps, drop-Keeps, profile-Keeps, require_complete-Keeps, wait-Keeps, is_ready-Keeps,
  tell_price-Keeps, set_state-Keeps, affordable-Keeps, IsAside,
}
use masih_panel.Store.{ChatRoute, Db, ChatPair}

-- everybody is in one open chat at most
abbrev pub IsAlone : Db → Type 0
IsAlone d = (uid : ℕ) → count (takes_part uid) d.social.pairs ≤ 1

abbrev pub Lives : Db → Type 0
Lives d = IsAlone d × (0 < d.clock)

-- nobody of this number is in an open chat
abbrev pub Free : ℕ → Db → Type 0
Free uid d = Lives d × (exists (takes_part uid) d.social.pairs ≡ false)

abbrev pub BothFree : ℕ → ℕ → Db → Type 0
BothFree uid peer d = Free uid d × (exists (takes_part peer) d.social.pairs ≡ false)

abbrev pairs-IsQuiet : (P : List ChatPair → ℕ → Type 0) → IsQuiet (λ d. P d.social.pairs d.clock)
pairs-IsQuiet P = record {
  outbox = λ d o h. h;
  nav = λ d n h. h;
  drawn = λ d n h. h;
  audit_log = λ d a h. h;
}

abbrev pairs-IsAside : (P : List ChatPair → ℕ → Type 0) → IsAside (λ d. P d.social.pairs d.clock)
pairs-IsAside P = record {
  quiet = record {
    outbox = λ d o h. h;
    nav = λ d n h. h;
    drawn = λ d n h. h;
    audit_log = λ d a h. h;
  };
  users = λ d us h. h;
  profiles = λ d ps h. h;
  waiting = λ d ws h. h;
}

abbrev free_aside : (uid : ℕ) → IsAside (Free uid)
free_aside uid = pairs-IsAside λ cs at.
    (((v : ℕ) → count (takes_part v) cs ≤ 1) × (0 < at)) × (exists (takes_part uid) cs ≡ false)

abbrev pub both_aside : (uid peer : ℕ) → IsAside (BothFree uid peer)
both_aside uid peer = pairs-IsAside λ cs at.
    ((((v : ℕ) → count (takes_part v) cs ≤ 1) × (0 < at)) × (exists (takes_part uid) cs ≡ false))
    × (exists (takes_part peer) cs ≡ false)

abbrev pub lives_aside : IsAside Lives
lives_aside = pairs-IsAside (λ cs at. ((v : ℕ) → count (takes_part v) cs ≤ 1) × (0 < at))

abbrev pub alone_aside : IsAside IsAlone
alone_aside = pairs-IsAside (λ cs at. (v : ℕ) → count (takes_part v) cs ≤ 1)

-- A closed chat is nobody's any more, and nobody gets into another.
close_pair-Free :
    (uid : ℕ) (c : ChatPair) (d : Db)
    → Lives d
    → active_chat uid d ≡ some c
    → Free uid (close_pair c d)
unfolding active_chat
close_pair-Free uid c d h found = (
  (
    λ v. omega (
      arith,
      h.0 v,
      count-update-le (takes_part v) (λ x. x.id == c.id && x.closed == 0)
          (λ x. record x { closed = d.clock }) d.social.pairs (All-every _ _ (still v)),
    ),
    h.1,
  ),
  closed_all uid d.clock c d.social.pairs h.1 (only_latest uid c d.social.pairs (h.0 uid) found),
)
  where
    still :
        (v : ℕ) (x : ChatPair)
        → (x.id == c.id && x.closed == 0) ≡ true
        → takes_part v (record x { closed = d.clock }) ≡ true
        → takes_part v x ≡ true
    still v x hit part = ground (arith, hit, part)

close_chat-Yields :
    (uid : ℕ) (c : Option ChatPair)
    → Yields (λ d. Lives d × (active_chat uid d ≡ c)) (close_chat uid c) (λ _ d. Free uid d)
unfolding close_chat active_chat
close_chat-Yields uid none =
    Yields-pure tt (λ d h. (h.0, latest-none (takes_part uid) d.social.pairs h.1))
close_chat-Yields uid (some c) =
    bind-Yields {R = λ _ d. Free uid d} _ _
      (Yields-modify _ (λ d h. close_pair-Free uid c d h.0 h.1))
      (λ _. Yields-kept _ (notify-Keeps (free_aside uid).quiet _ _ _))

pub leave-Yields : (uid : ℕ) → Yields Lives (leave uid) (λ _ d. Free uid d)
unfolding leave ◌>>=◌
leave-Yields uid = record {
  at = λ d h.
      (left (active_chat uid d)).at (record d { social = record d.social { waiting = _ } })
        (h, refl);
}
  where
    left :
        (c : Option ChatPair)
        → Yields
            (λ d. Lives d × (active_chat uid d ≡ c))
            (do close_chat uid c; modify (set_state uid ""); pure c)
            (λ _ d. Free uid d)
    left c = bind-Yields _ _ (close_chat-Yields uid c) λ _.
        keeps-Yields _ _ (set_state-Keeps (free_aside uid) uid "") (λ _. Yields-pure c (λ d h. h))

-- the payment looks at points only
pub charge_once-Lives : (uid amount chat : ℕ) → Keeps IsAlone (charge_once uid amount chat)
unfolding charge_once
charge_once-Lives uid amount chat = Keeps-bind _ _ (Keeps-gets _) λ s.
    Keeps-bind _ _ (Keeps-gets _) λ paid.
      Keeps-when _ _ (Keeps-bind _ _ (affordable-Keeps uid amount) (λ _. Keeps-modify _ (λ d h. h)))

named_free :
    (uid peer v : ℕ) (d : Db)
    → BothFree uid peer d
    → (uid == v || peer == v) ≡ true
    → exists (takes_part v) d.social.pairs ≡ false
named_free uid peer v d h own = elim (Bool-cases (uid == v)) [
  | inl first ↦
      let same : uid ≡ v = ground (arith, first) in
      subst (λ n. exists (takes_part n) d.social.pairs ≡ false) same h.0.1
  | inr other ↦
      let same : peer ≡ v = ground (arith, own, other) in
      subst (λ n. exists (takes_part n) d.social.pairs ≡ false) same h.1
]

pub open_pair-IsAlone :
    (uid peer : ℕ) (d : Db) → BothFree uid peer d → IsAlone (open_pair uid peer d)
open_pair-IsAlone uid peer d h v = elim (Bool-cases (uid == v || peer == v)) [
  | inl own ↦
      let none_before : count (takes_part v) d.social.pairs ≡ 0 =
        count-absent (takes_part v) d.social.pairs (named_free uid peer v d h own) in
      ground
        (arith, count-insert_row (takes_part v) (new_pair uid peer d) d.social.pairs, none_before)
  | inr other ↦ ground (
    arith,
    count-insert_row (takes_part v) (new_pair uid peer d) d.social.pairs,
    h.0.0.0 v,
    other,
  )
]

pair_up-Yields :
    (uid price : ℕ) (r : Candidate)
    → Yields (BothFree uid r.user_id) (pair_up uid price r) (λ _ d. IsAlone d)
unfolding pair_up
pair_up-Yields uid price r = keeps-Yields _ _ (affordable-Keeps uid price) λ _.
    keeps-Yields _ _ (Keeps-gets _) λ chat.
      bind-Yields {R = λ _ d. IsAlone d} _ _
        (Yields-modify _ (λ d h. open_pair-IsAlone uid r.user_id d h))
        λ _. Yields-kept _ (
          Keeps-bind _ _ (charge_once-Lives uid price chat) λ _.
            Keeps-bind _ _ (charge_once-Lives r.user_id r.points chat) λ _.
              Keeps-bind _ _ (set_state-Keeps alone_aside _ _) λ _.
                Keeps-bind _ _ (set_state-Keeps alone_aside _ _) λ _.
                  Keeps-bind _ _ (tell_price-Keeps alone_aside uid price) λ _.
                    Keeps-bind _ _ (tell_price-Keeps alone_aside r.user_id r.points)
                      (λ _. Keeps-pure chat))

-- what a round says of the candidate, if it takes the candidate
abbrev Met : ℕ → ℕ → Bool → Db → Type 0
Met uid peer fits d =
    Free uid d × ((not fits || not (exists (takes_part peer) d.social.pairs)) ≡ true)

refused : (uid peer : ℕ) (d : Db) → Free uid d → Met uid peer false d
refused uid peer d h = (h, refl)

pub idle : (busy : Option ChatPair) → is_busy busy ≡ false → busy ≡ none
idle none h = refl
idle (some c) h = ground (arith, h)

or_true : (b : Bool) → (b || true) ≡ true
or_true true = refl
or_true false = refl

accepted : (uid peer : ℕ) (fits : Bool) (d : Db) → BothFree uid peer d → Met uid peer fits d
accepted uid peer fits d h = (h.0, rw h.1 (or_true (not fits)))

not_busy :
    (uid peer : ℕ) (busy : Bool) (d : Db)
    → busy ≡ false
    → Free uid d × (is_busy (active_chat peer d) ≡ busy)
    → BothFree uid peer d
unfolding active_chat
not_busy uid peer busy d none_open h =
    (h.0, latest-none (takes_part peer) d.social.pairs (idle _ (h.1 ∙ none_open)))

chosen :
    (uid : ℕ) (mode : ChatRoute) (interests : List String) (r : Candidate) (poor : Bool)
    → Yields
        (BothFree uid r.user_id)
        (if poor
          then drop r.user_id >> pure false
          else if is_filtered mode && not (have_common interests r.interests)
          then pure false
          else take_waiting mode r.user_id)
        (λ fits d. Met uid r.user_id fits d)
chosen uid mode interests r poor =
    Yields-if poor _ _
      (λ _.
        keeps-Yields _ _ (drop-Keeps (both_aside uid r.user_id) r.user_id)
          (λ _. Yields-pure false (λ d h. refused uid r.user_id d h.0)))
      λ _.
        Yields-if (is_filtered mode && not (have_common interests r.interests)) _ _
          (λ _. Yields-pure false (λ d h. refused uid r.user_id d h.0))
          λ _.
            Yields-mono (take_waiting mode r.user_id)
              (Yields-kept _ (take_waiting-Keeps (both_aside uid r.user_id) mode r.user_id))
              (λ fits d h. accepted uid r.user_id fits d h)

meets-Yields :
    (uid : ℕ) (mode : ChatRoute) (interests : List String) (r : Candidate)
    → Yields (Free uid) (meets uid mode interests r) (λ fits d. Met uid r.user_id fits d)
unfolding meets
meets-Yields uid mode interests r =
    keeps-Yields _ _ (Keeps-gets (is_blocked uid r.user_id)) λ barred.
      Yields-if barred _ _ (λ _. Yields-pure false (λ d h. refused uid r.user_id d h))
        λ _. keeps-Yields _ _ (is_ready-Keeps (free_aside uid) r.user_id) λ ready.
          seen-Yields (λ d. is_busy (active_chat r.user_id d)) _
            λ busy.
              keeps-Yields _ _ (Keeps-gets (λ d. select_one (is_user r.user_id) d.users)) λ user.
                keeps-Yields _ _ (Keeps-gets (cannot_pay r)) λ poor.
                  Yields-if (not ready || busy || not (can_chat user)) _ _
                    (λ _. Yields-pure false (λ d h. refused uid r.user_id d h.0))
                    λ free.
                      Yields-from _ (λ d h. not_busy uid r.user_id busy d (ground (arith, free)) h)
                        (chosen uid mode interests r poor)

match_each-Yields :
    (uid : ℕ) (mode : ChatRoute) (price : ℕ) (interests : List String) (rs : List Candidate)
    → Yields (Free uid) (match_each uid mode price interests rs) (λ _ d. IsAlone d)
unfolding match_each
match_each-Yields uid mode price interests [] = Yields-pure none (λ d h. h.0.0)
match_each-Yields uid mode price interests (r ∷ rs) =
    bind-Yields _ _ (meets-Yields uid mode interests r) λ fits.
      Yields-if _ _ _
        (λ own.
          Yields-from _ (λ d h. (h.0, ground (arith, own, h.1)))
            (bind-Yields {R = λ _ d. IsAlone d} _ _ (pair_up-Yields uid price r)
              (λ chat. Yields-pure (some chat) (λ d h. h))))
        (λ other. Yields-from _ (λ d h. h.0) (match_each-Yields uid mode price interests rs))

settle_match-Alone :
    (uid : ℕ) (mode : ChatRoute) (price : ℕ) (found : Option ℕ)
    → Keeps IsAlone (settle_match uid mode price found)
unfolding settle_match
settle_match-Alone uid mode price (some chat) = Keeps-pure (some chat)
settle_match-Alone uid mode price none =
    Keeps-bind _ _ (wait-Keeps alone_aside uid mode price) (λ _. Keeps-pure none)

find_partner-Yields :
    (uid : ℕ) (mode : ChatRoute) → Yields Lives (find_partner uid mode) (λ _ d. IsAlone d)
unfolding find_partner
find_partner-Yields uid mode = keeps-Yields _ _ (Keeps-gets _) λ price.
    keeps-Yields _ _ (affordable-Keeps uid price) λ _. bind-Yields _ _ (leave-Yields uid) λ _.
      keeps-Yields _ _ (profile-Keeps (free_aside uid) uid) λ _.
        keeps-Yields _ _ (profile-Keeps (free_aside uid) uid) λ mine.
          keeps-Yields _ _ (Keeps-gets _) λ rows.
            bind-Yields {R = λ _ d. IsAlone d} _ _
              (match_each-Yields uid mode price mine.interests rows)
              (λ found. Yields-kept _ (settle_match-Alone uid mode price found))

pub start_matching-Yields :
    (uid : ℕ) (mode : ChatRoute) → Yields Lives (start_matching uid mode) (λ _ d. IsAlone d)
unfolding start_matching
start_matching-Yields uid mode = keeps-Yields _ _ (Keeps-raise_if _ _) λ _.
    keeps-Yields _ _ (require_complete-Keeps lives_aside uid) λ ready.
      Yields-if _ _ _ (λ _. Yields-pure none (λ d h. h.0)) (λ _. find_partner-Yields uid mode)

pub committed :
    {A : Type 0} (d : Db) (r : Result (A × Db))
    → Returns (λ _ t. IsAlone t) r
    → IsAlone d
    → IsAlone (settle d r)
committed d (ok (a, t)) new old = new
committed d (err e) new old = old
