-- ===== src/Traffic/Frame.antt =====
-- What the two statements of a sample keep, `credit` keeps.
use masih_panel.Tx.Yields.{Yields-mono}
use masih_panel.Tx.Keeps.{Keeps-gets, Keeps-raise_if, Keeps-bind, Keeps-pure, Keeps}
use masih_panel.Base.Int.{ℤ}
use masih_panel.Traffic.Credit.{sample_yields, sampled}
use masih_panel.Traffic.{
  Account, credit_account, credit, credit_client, has_email, has_key, Session, Client, Panel,
}
use masih_panel.Base.{
  refl, sym, subst, none, some, true, ◌==◌, count, ◌≡◌, select_one, Option, String, ℕ,
}

module _ {P : Panel → Type 0}
    (step : (key protocol : String) (up down : ℕ) (r : Client) (old : Option Session) (p : Panel)
      → select_one (has_key key) p.sessions ≡ old
      → (count (has_email r.email) p.traffics == 1) ≡ true
      → P p
      → P (sampled key r protocol old up down p)) where
  client-Keeps :
      (key protocol : String) (up down : ℕ) (o : Option Client)
      → Keeps P (credit_client key protocol up down o)
  unfolding credit_client
  client-Keeps key protocol up down none = Keeps-pure tt
  client-Keeps key protocol up down (some r) = record {
    at = λ p h.
        (Yields-mono {Q = λ _ q. P q} _ (sample_yields key protocol up down r p) (λ _ q s.
            subst P (sym s.result) (step key protocol up down r s.old p s.known s.one_row h))).at
          p refl;
  }

  account-Keeps :
      (key protocol : String) (up down : ℕ) (o : Option Account)
      → Keeps P (credit_account key protocol up down o)
  unfolding credit_account
  account-Keeps key protocol up down none = Keeps-pure tt
  account-Keeps key protocol up down (some a) =
      Keeps-bind _ _ (Keeps-gets _) λ r. client-Keeps key protocol up down r

  pub credit-Keeps :
      (digest : String → String) (name protocol session : String) (up down : ℤ)
      → Keeps P (credit digest name protocol session up down)
  unfolding credit
  credit-Keeps digest name protocol session up down =
      Keeps-bind _ _ (Keeps-raise_if _ _)
        λ _. Keeps-bind _ _ (Keeps-gets _) λ a. account-Keeps _ protocol _ _ a
