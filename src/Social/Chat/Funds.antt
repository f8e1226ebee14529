-- ===== src/Social/Chat/Funds.antt =====
-- The points behind a chat.
use masih_panel.Base.Int.{ℤ, pos, neg, ltb_ℤ, +ℤ_neg}
use masih_panel.Loyalty.{balance, with_points}
use masih_panel.Loyalty.Points.{IsSolvent, with_points-IsSolvent}
use masih_panel.Social.Chat.{is_admin, affordable, charge_once, charge_key}
use masih_panel.Tx.{settle}
use masih_panel.Tx.Keeps.{Keeps, Keeps-gets, settle-Keeps}
use masih_panel.Tx.Yields.{
  Yields, Yields-modify, Yields-when, Yields-raise_if, keeps-Yields, gets-Yields, facts-Yields,
}
use masih_panel.Store.{Db}
use masih_panel.Base.{
  ℕ, ◌==◌, Bool, true, false, not, ◌&&◌, ◌||◌, ◌≡◌, refl, sym, ap, ◌∙◌, subst, arith,
}

affords :
    (a b : Bool) (held x : ℤ) (amount : ℕ)
    → a ≡ b
    → held ≡ x
    → b ≡ false
    → (not a && ltb_ℤ held (pos amount)) ≡ false
    → ltb_ℤ x (pos amount) ≡ false
affords a b held x amount same is_held plain enough =
    subst (λ y. ltb_ℤ y (pos amount) ≡ false) is_held
      (subst (λ c. (not c && ltb_ℤ held (pos amount)) ≡ false) (same ∙ plain) enough)

plain_user : (a b zero paid : Bool) → a ≡ b → (not (a || zero) && not paid) ≡ true → b ≡ false
plain_user a b zero paid same charged = ground (arith, same, charged)

module _ (d : Db) (solvent : IsSolvent d) where
  affordable_yields :
      (uid amount : ℕ)
      → is_admin uid d.settings ≡ false
      → Yields
          (λ e. e ≡ d)
          (affordable uid amount)
          (λ _ e. (ltb_ℤ (balance uid d) (pos amount) ≡ false) × (e ≡ d))
  unfolding affordable balance
  affordable_yields uid amount plain =
      gets-Yields _ d.settings _ (λ e h. ap (λ (x : Db). x.settings) h)
        λ s seen.
          gets-Yields _ (balance uid d) _ (λ e h. ap (balance uid) h)
            λ held is_held. Yields-raise_if _ _ (λ enough e h. (
              affords (is_admin uid s) (is_admin uid d.settings) held (balance uid d) amount
                  (ap (is_admin uid) seen) is_held plain enough,
              h,
            ))

  charge_yields :
      (uid amount chat : ℕ) → Yields (λ e. e ≡ d) (charge_once uid amount chat) (λ _ e. IsSolvent e)
  unfolding charge_once balance
  charge_yields uid amount chat =
      gets-Yields _ d.settings _ (λ e h. ap (λ (x : Db). x.settings) h)
        λ s seen. keeps-Yields _ _ (Keeps-gets _) λ paid.
          Yields-when _ _
            (λ charged.
              facts-Yields _ _
                (affordable_yields uid amount (
                  plain_user (is_admin uid s) (is_admin uid d.settings) (amount == 0) paid
                    (ap (is_admin uid) seen) charged))
                λ _ enough. Yields-modify _ λ e h.
                  subst
                    (λ x.
                      IsSolvent
                        (with_points uid (neg amount) "social_chat" (charge_key chat uid) x))
                    (sym h)
                    (with_points-IsSolvent uid (neg amount) "social_chat" (charge_key chat uid) d
                      solvent (+ℤ_neg (balance uid d) amount enough)))
            (λ free e h. subst IsSolvent (sym h) solvent)

pub charge_once-Keeps : (uid amount chat : ℕ) → Keeps IsSolvent (charge_once uid amount chat)
charge_once-Keeps uid amount chat = record {
  at = λ e h. (charge_yields e h uid amount chat).at e refl;
}

-- The payment of a chat, committed or rolled back, leaves no user with fewer than no points, if none
-- had fewer before it.
pub charge_once-IsSolvent :
    (uid amount chat : ℕ) (d : Db)
    → IsSolvent d
    → IsSolvent (settle d (charge_once uid amount chat d))
charge_once-IsSolvent uid amount chat d =
    settle-Keeps (charge_once uid amount chat) d (charge_once-Keeps uid amount chat)
