-- ===== src/Social/Rewards/Caps.antt =====
-- How many points posts and likes earn in a day.
use masih_panel.Base.Int.{ℤ, pos, ◌+ℤ◌, ◌-ℤ◌, ◌≤ℤ◌, int_laws}
use masih_panel.Loyalty.{award, with_points, points_entry}
use masih_panel.Social.Rewards.{
  earns, earned_points, room, day_start, post_kinds, like_kinds, post_reward, reward_post,
  like_room, reward_like, is_profile,
}
use masih_panel.Tx.{Tx, pure, settle, ◌>>=◌}
use masih_panel.Store.{Db, PointsEntry, ReactionKind}
use masih_panel.Base.{
  ℕ, ◌≤◌, min, ◌==◌, Bool, true, false, ◌||◌, if◌then◌else◌, String, List, [], ◌∷◌, insert_row,
  Bool-cases, inl, inr, ◌≡◌, subst, arith,
}

earned_points-insert_row :
    (kinds : List String) (uid since : ℕ) (e : PointsEntry) (es : List PointsEntry)
    → earned_points kinds uid since (insert_row e es) ≡ (
        if earns kinds uid since e
        then earned_points kinds uid since es +ℤ e.points
        else earned_points kinds uid since es)
unfolding earned_points
earned_points-insert_row kinds uid since e [] = grind int_laws
earned_points-insert_row kinds uid since e (x ∷ es) =
    grind (int_laws, earned_points-insert_row kinds uid since e es)

-- what is left of a cap is enough for what is added
within : (cap n : ℕ) (x : ℤ) → x ≤ℤ pos cap → n ≤ room cap x → x +ℤ pos n ≤ℤ pos cap
unfolding room ◌+ℤ◌ ◌-ℤ◌
within cap n x h small = ground (arith, h, small)

either_paid :
    (P : Db → Type 0) (b : Bool) (m : Tx Db Bool) (d : Db)
    → P d
    → P (settle d (m d))
    → P (settle d ((if b then pure false else m) d))
unfolding ◌>>=◌
either_paid P true m d old new = old
either_paid P false m d old new = new

award_either :
    (P : Db → Type 0) (uid : ℕ) (points : ℤ) (kind ref : String) (d : Db)
    → P d
    → P (with_points uid points kind ref d)
    → P (settle d (award uid points kind ref d))
unfolding award ◌>>=◌
award_either P uid points kind ref d old new = ground (arith, old, new)

module _ (kinds : List String) (cap : ℕ) where
  -- Nobody has earned more today than the cap.
  abbrev pub IsCapped : Db → Type 0
  IsCapped d = (n : ℕ) → earned_points kinds n (day_start d.clock) d.loyalty_points ≤ℤ pos cap

  added-IsCapped :
      (uid points : ℕ) (kind ref : String) (d : Db)
      → points ≤ room cap (earned_points kinds uid (day_start d.clock) d.loyalty_points)
      → IsCapped d
      → IsCapped (with_points uid (pos points) kind ref d)
  added-IsCapped uid points kind ref d small h n =
      rw
        (earned_points-insert_row kinds n (day_start d.clock)
          (points_entry uid (pos points) kind ref d.clock) d.loyalty_points)
        (elim (Bool-cases
          (earns kinds n (day_start d.clock) (points_entry uid (pos points) kind ref d.clock))) [
            | inl counts ↦
                let e : uid ≡ n = ground (arith, counts) in
                rw counts (
                  within cap points (earned_points kinds n (day_start d.clock) d.loyalty_points)
                    (h n)
                    (subst
                      (λ m.
                        points
                        ≤ room cap (earned_points kinds m (day_start d.clock) d.loyalty_points))
                      e small))
            | inr not_counted ↦ rw not_counted (h n)
          ])

  award-IsCapped :
      (uid points : ℕ) (kind ref : String) (d : Db)
      → points ≤ room cap (earned_points kinds uid (day_start d.clock) d.loyalty_points)
      → IsCapped d
      → IsCapped (settle d (award uid (pos points) kind ref d))
  award-IsCapped uid points kind ref d small h =
      award_either IsCapped uid (pos points) kind ref d h
        (added-IsCapped uid points kind ref d small h)

-- If nobody has earned more than fifty points by posts today, nobody has after a post is rewarded.
pub reward_post-IsCapped :
    (uid : ℕ) (kind : ReactionKind) (item : ℕ) (d : Db)
    → IsCapped post_kinds 50 d
    → IsCapped post_kinds 50 (settle d (reward_post uid kind item d))
unfolding reward_post post_reward ◌>>=◌
reward_post-IsCapped uid kind item d h =
    let small : post_reward uid kind d
        ≤ room 50 (earned_points post_kinds uid (day_start d.clock) d.loyalty_points) =
      omega arith in
    either_paid (IsCapped post_kinds 50) (uid == 0 || is_profile kind) _ d h
      (award-IsCapped post_kinds 50 uid (post_reward uid kind d) "social_post" _ d small h)

-- If nobody has earned more than twenty points by likes today, nobody has after a like is rewarded.
pub reward_like-IsCapped :
    (uid owner : ℕ) (kind : ReactionKind) (item : ℕ) (d : Db)
    → IsCapped like_kinds 20 d
    → IsCapped like_kinds 20 (settle d (reward_like uid owner kind item d))
unfolding reward_like like_room ◌>>=◌
reward_like-IsCapped uid owner kind item d h =
    let small : min (d.social.like_points kind) (like_room owner d)
        ≤ room 20 (earned_points like_kinds owner (day_start d.clock) d.loyalty_points) =
      omega arith in
    either_paid (IsCapped like_kinds 20) (owner == 0 || owner == uid || like_room owner d == 0) _ d
      h
      (award-IsCapped like_kinds 20 owner (min (d.social.like_points kind) (like_room owner d))
        "social_like" _ d small h)
