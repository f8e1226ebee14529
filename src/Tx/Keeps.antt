-- ===== src/Tx/Keeps.antt =====
-- A property of the database that a handler keeps when it commits, with one rule for each way to
-- build a handler.
use masih_panel.Base.{refl, ◌≡◌, Bool, true, false, if◌then◌else◌, Option, none, some}
use masih_panel.Tx.{
  Error, Result, ok, err, Tx, pure, raise, gets, require, lift, continue, ◌>>=◌, raise_if, modify,
  when, settle,
}

-- `Q` holds of the value and the state of a commit; a raise has neither.
abbrev pub Returns {ℓ} : {S A : Type ℓ} → (A → S → Type ℓ) → Result (A × S) → Type ℓ
Returns Q (ok (a, s)) = Q a s
Returns Q (err e) = Unit

pub record Keeps {ℓ} {S A : Type ℓ} (P : S → Type ℓ) (m : Tx S A) : Type ℓ where
  pub at : (s : S) → P s → Returns (λ _ t. P t) (m s)

module _ {ℓ} {S A : Type ℓ} where
  required :
      (P : S → Type ℓ) (o : Option A) (e : Error) (s : S)
      → P s
      → Returns (λ (_ : A) t. P t) (elim o [ none ↦ err e | some a ↦ ok (a, s) ])
  required P none e s h = tt
  required P (some a) e s h = h

  lifted :
      (P : S → Type ℓ) (r : Result A) (s : S)
      → P s
      → Returns (λ (_ : A) t. P t) (elim r [ err e ↦ err e | ok a ↦ ok (a, s) ])
  lifted P (err e) s h = tt
  lifted P (ok a) s h = h

module _ {ℓ} {S A : Type ℓ} {P : S → Type ℓ} where
  pub Keeps-pure : (a : A) → Keeps P (pure a)
  unfolding pure
  Keeps-pure a = record { at = λ s h. h }

  pub Keeps-raise : (e : Error) → Keeps P (raise {A = A} e)
  unfolding raise
  Keeps-raise e = record { at = λ s h. tt }

  pub Keeps-gets : (f : S → A) → Keeps P (gets f)
  unfolding gets
  Keeps-gets f = record { at = λ s h. h }

  pub Keeps-require : (e : Error) (f : S → Option A) → Keeps P (require e f)
  unfolding require
  Keeps-require e f = record { at = λ s h. required P (f s) e s h }

  pub Keeps-lift : (r : Result A) → Keeps P (lift r)
  unfolding lift
  Keeps-lift r = record { at = λ s h. lifted P r s h }

  pub Keeps-if : (b : Bool) (m n : Tx S A) → Keeps P m → Keeps P n → Keeps P (if b then m else n)
  Keeps-if true m n km kn = km
  Keeps-if false m n km kn = kn

module _ {ℓ} {S A B : Type ℓ} {P : S → Type ℓ} where
  continued :
      (r : Result (A × S)) (f : A → Tx S B)
      → Returns (λ _ t. P t) r
      → ((a : A) → Keeps P (f a))
      → Returns (λ _ t. P t) (continue r f)
  continued (ok (a, s)) f h k = (k a).at s h
  continued (err e) f h k = tt

  pub Keeps-bind :
      (m : Tx S A) (f : A → Tx S B) → Keeps P m → ((a : A) → Keeps P (f a)) → Keeps P (m >>= f)
  unfolding ◌>>=◌
  Keeps-bind m f km kf = record { at = λ s h. continued (m s) f (km.at s h) kf }

module _ {S : Type 0} where
  returned :
      {A : Type 0} (P : S → Type 0) (r : Result (A × S)) (s : S)
      → P (settle s r)
      → Returns (λ _ t. P t) r
  returned P (ok (a, t)) s p = p
  returned P (err e) s p = tt

  settled :
      {A : Type 0} (P : S → Type 0) (r : Result (A × S)) (s : S)
      → Returns (λ _ t. P t) r
      → P s
      → P (settle s r)
  settled P (ok (a, t)) s p h = p
  settled P (err e) s p h = h

module _ {S : Type 0} {P : S → Type 0} where
  pub Keeps-modify : (f : S → S) → ((s : S) → P s → P (f s)) → Keeps P (modify f)
  unfolding modify
  Keeps-modify f k = record { at = λ s h. k s h }

  pub Keeps-raise_if : (b : Bool) (e : Error) → Keeps P (raise_if b e)
  unfolding raise_if
  Keeps-raise_if true e = record { at = λ s h. tt }
  Keeps-raise_if false e = record { at = λ s h. h }

  pub Keeps-when : (b : Bool) (m : Tx S (Unit {0})) → Keeps P m → Keeps P (when b m)
  unfolding when
  Keeps-when true m k = k
  Keeps-when false m k = record { at = λ s h. h }

  -- A caller that rolls back on a raise keeps what the handler keeps.
  pub settle-Keeps : {A : Type 0} (m : Tx S A) (s : S) → Keeps P m → P s → P (settle s (m s))
  settle-Keeps m s k h = settled P (m s) s (k.at s h) h

  pub Keeps-settle : {A : Type 0} (m : Tx S A) → ((s : S) → P s → P (settle s (m s))) → Keeps P m
  Keeps-settle m k = record { at = λ s h. returned P (m s) s (k s h) }

pub ruleset keeps_rules = (
  Keeps-pure, Keeps-raise, Keeps-gets, Keeps-require, Keeps-lift, Keeps-if, Keeps-bind,
  Keeps-raise_if, Keeps-when,
)

module _ {S A : Type 0} {P : S → Type 0} where
  -- What every commit keeps, the handler keeps.
  pub Keeps-commit : (m : Tx S A) → ((s t : S) (a : A) → m s ≡ ok (a, t) → P s → P t) → Keeps P m
  Keeps-commit m kept = record { at = λ s h. committed s (m s) refl h }
    where
      committed : (s : S) (r : Result (A × S)) → m s ≡ r → P s → Returns (λ _ t. P t) r
      committed s (ok (a, t)) e h = kept s t a e h
      committed s (err x) e h = tt
