-- ===== src/Tx/Yields.antt =====
-- What a handler yields when it commits: from states where `P` holds, values and states where `Q` holds.
-- Each rule runs the first step of a handler, and hands the rest what that step has read or tested.
use masih_panel.Base.{subst, sym, ◌≡◌, refl, Bool, true, false, if◌then◌else◌, Option, none, some}
use masih_panel.Tx.{
  settle, Error, Result, ok, err, Tx, pure, raise, gets, require, lift, continue, ◌>>=◌, raise_if,
  modify, when,
}
use masih_panel.Tx.Keeps.{Keeps, Returns}

pub record Yields {ℓ} {S A : Type ℓ} (P : S → Type ℓ) (m : Tx S A) (Q : A → S → Type ℓ)
    : Type ℓ where
  pub at : (s : S) → P s → Returns Q (m s)

module _ {ℓ} {S A : Type ℓ} {P : S → Type ℓ} {Q : A → S → Type ℓ} where
  pub Yields-pure : (a : A) → ((s : S) → P s → Q a s) → Yields P (pure a) Q
  unfolding pure
  Yields-pure a h = record { at = h }

  pub Yields-raise : (e : Error) → Yields P (raise e) Q
  unfolding raise
  Yields-raise e = record { at = λ s h. tt }

  pub Yields-if :
      (b : Bool) (m n : Tx S A)
      → (b ≡ true → Yields P m Q)
      → (b ≡ false → Yields P n Q)
      → Yields P (if b then m else n) Q
  Yields-if true m n ym yn = ym refl
  Yields-if false m n ym yn = yn refl

module _ {ℓ} {S A B : Type ℓ} where
  continued :
      {R : A → S → Type ℓ} (Q : B → S → Type ℓ) (r : Result (A × S)) (f : A → Tx S B)
      → Returns R r
      → ((a : A) → Yields (R a) (f a) Q)
      → Returns Q (continue r f)
  continued Q (ok (a, s)) f h k = (k a).at s h
  continued Q (err e) f h k = tt

  required :
      {P : S → Type ℓ} (Q : B → S → Type ℓ) (o p : Option A) (e : Error) (k : A → Tx S B) (s : S)
      → p ≡ o
      → P s
      → ((a : A) → o ≡ some a → Yields P (k a) Q)
      → Returns Q (continue (elim p [ none ↦ err e | some a ↦ ok (a, s) ]) k)
  required Q o none e k s same h y = tt
  required Q o (some a) e k s same h y = (y a (sym same)).at s h

  lifted :
      {P : S → Type ℓ} (Q : B → S → Type ℓ) (r q : Result A) (k : A → Tx S B) (s : S)
      → r ≡ q
      → P s
      → ((a : A) → r ≡ ok a → Yields P (k a) Q)
      → Returns Q (continue (elim q [ err e ↦ err e | ok a ↦ ok (a, s) ]) k)
  lifted Q r (err e) k s same h y = tt
  lifted Q r (ok a) k s same h y = (y a same).at s h

module _ {ℓ} {S A B : Type ℓ} {P : S → Type ℓ} {Q : B → S → Type ℓ} where
  pub bind-Yields :
      {R : A → S → Type ℓ} (m : Tx S A) (k : A → Tx S B)
      → Yields P m R
      → ((a : A) → Yields (R a) (k a) Q)
      → Yields P (m >>= k) Q
  unfolding ◌>>=◌
  bind-Yields m k ym yk = record { at = λ s h. continued Q (m s) k (ym.at s h) yk }

  pub keeps-Yields :
      (m : Tx S A) (k : A → Tx S B)
      → Keeps P m
      → ((a : A) → Yields P (k a) Q)
      → Yields P (m >>= k) Q
  keeps-Yields m k km yk = bind-Yields m k (record { at = km.at }) yk

  -- the first step establishes a fact beside `P`
  pub facts-Yields :
      {F : A → Type ℓ} (m : Tx S A) (k : A → Tx S B)
      → Yields P m (λ a s. F a × P s)
      → ((a : A) → F a → Yields P (k a) Q)
      → Yields P (m >>= k) Q
  facts-Yields m k ym yk = bind-Yields m k ym (λ a. record { at = λ s h. (yk a h.0).at s h.1 })

  -- what is read is remembered
  pub seen-Yields :
      (f : S → A) (k : A → Tx S B)
      → ((a : A) → Yields (λ s. P s × (f s ≡ a)) (k a) Q)
      → Yields P (gets f >>= k) Q
  unfolding ◌>>=◌
  seen-Yields f k y = record { at = λ s h. (y (f s)).at s (h, refl) }

  pub gets-Yields :
      (f : S → A) (seen : A) (k : A → Tx S B)
      → ((s : S) → P s → f s ≡ seen)
      → ((a : A) → a ≡ seen → Yields P (k a) Q)
      → Yields P (gets f >>= k) Q
  unfolding ◌>>=◌
  gets-Yields f seen k same y = record { at = λ s h. (y (f s) (same s h)).at s h }

  pub require-Yields :
      (e : Error) (f : S → Option A) (seen : Option A) (k : A → Tx S B)
      → ((s : S) → P s → f s ≡ seen)
      → ((a : A) → seen ≡ some a → Yields P (k a) Q)
      → Yields P (require e f >>= k) Q
  unfolding ◌>>=◌
  require-Yields e f seen k same y = record {
    at = λ s h. required Q seen (f s) e k s (same s h) h y;
  }

  pub lift-Yields :
      (r : Result A) (k : A → Tx S B)
      → ((a : A) → r ≡ ok a → Yields P (k a) Q)
      → Yields P (lift r >>= k) Q
  unfolding ◌>>=◌
  lift-Yields r k y = record { at = λ s h. lifted Q r r k s refl h y }

module _ {S B : Type 0} {P : S → Type 0} {Q : B → S → Type 0} where
  pub raise_if-Yields :
      (b : Bool) (e : Error) (k : Unit {0} → Tx S B)
      → (b ≡ false → Yields P (k tt) Q)
      → Yields P (raise_if b e >>= k) Q
  unfolding ◌>>=◌
  raise_if-Yields true e k y = record { at = λ s h. tt }
  raise_if-Yields false e k y = record { at = λ s h. (y refl).at s h }

module _ {S : Type 0} {P : S → Type 0} {Q : Unit {0} → S → Type 0} where
  pub Yields-modify : (f : S → S) → ((s : S) → P s → Q tt (f s)) → Yields P (modify f) Q
  unfolding modify
  Yields-modify f h = record { at = h }

  -- a check that ends a handler
  pub Yields-raise_if :
      (b : Bool) (e : Error) → (b ≡ false → (s : S) → P s → Q tt s) → Yields P (raise_if b e) Q
  unfolding raise_if
  Yields-raise_if true e y = record { at = λ s h. tt }
  Yields-raise_if false e y = record { at = y refl }

  pub Yields-when :
      (b : Bool) (m : Tx S (Unit {0}))
      → (b ≡ true → Yields P m Q)
      → (b ≡ false → (s : S) → P s → Q tt s)
      → Yields P (when b m) Q
  unfolding when
  Yields-when true m ym h = ym refl
  Yields-when false m ym h = record { at = h refl }

module _ {ℓ} {S A : Type ℓ} where
  weakened :
      (R Q : A → S → Type ℓ) (r : Result (A × S))
      → Returns R r
      → ((a : A) (s : S) → R a s → Q a s)
      → Returns Q r
  weakened R Q (ok (a, s)) h k = k a s h
  weakened R Q (err e) h k = tt

  pub Yields-mono :
      {P : S → Type ℓ} {R Q : A → S → Type ℓ} (m : Tx S A)
      → Yields P m R
      → ((a : A) (s : S) → R a s → Q a s)
      → Yields P m Q
  Yields-mono {R = R} {Q = Q} m y k = record { at = λ s h. weakened R Q (m s) (y.at s h) k }

  pub Yields-from :
      {P R : S → Type ℓ} {Q : A → S → Type ℓ} (m : Tx S A)
      → ((s : S) → P s → R s)
      → Yields R m Q
      → Yields P m Q
  Yields-from m k y = record { at = λ s h. y.at s (k s h) }

  pub Yields-keeps :
      {P : S → Type ℓ} {F : Type ℓ} (m : Tx S A) → Keeps P m → F → Yields P m (λ _ s. F × P s)
  Yields-keeps {P = P} {F = F} m k f = record {
    at = λ s h. weakened (λ _ t. P t) (λ _ t. F × P t) (m s) (k.at s h) (λ a t p. (f, p));
  }

  pub Yields-kept : {P : S → Type ℓ} (m : Tx S A) → Keeps P m → Yields P m (λ _ s. P s)
  Yields-kept m k = record { at = k.at }

  -- What a handler yields, read off a commit.
  pub of_Yields :
      {P : S → Type ℓ} {Q : A → S → Type ℓ} (m : Tx S A) (s : S) {a : A} {t : S}
      → Yields P m Q
      → P s
      → m s ≡ ok (a, t)
      → Q a t
  of_Yields {Q = Q} m s y h e = subst (Returns Q) e (y.at s h)

module _ {S : Type 0} {A : Type 0} where
  settled_at : (s : S) (r q : Result (A × S)) → q ≡ r → Returns (λ (_ : A) t. t ≡ settle s q) r
  settled_at s (ok (a, t)) q e = rw e refl
  settled_at s (err x) q e = tt

  -- A commit leaves the state that the caller settles on.
  pub Yields-settle : (m : Tx S A) (s : S) → Yields (λ t. t ≡ s) m (λ _ t. t ≡ settle s (m s))
  Yields-settle m s = record {
    at = λ t same.
        subst (λ u. Returns (λ _ v. v ≡ settle s (m s)) (m u)) (sym same)
          (settled_at s (m s) (m s) refl);
  }
