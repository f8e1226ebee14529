-- ===== src/Tx.antt =====
-- A handler of the source reads and writes one database inside a transaction and may raise. The
-- callers open the transaction and roll it back when the handler raises (`with conn()`,
-- `c.rollback()`), so a raise carries no state.
pub mod Keeps
pub mod Yields
use masih_panel.Base.{◌≡◌, refl, Bool, true, false, Option, none, some}

-- What is raised, by the reason that the source gives. `integrity` is SQLite's refusal of a row that
-- breaks a constraint of its table.
pub data Error : Type 0 where
  integrity insufficient_funds user_blocked sales_closed plan_missing trial_route trial_closed :
      Error
  trial_used trial_not_payable order_in_progress not_renewable sold_out bad_inbounds : Error
  no_active_inbound bad_label label_exhausted already_decided bad_receipt_order : Error
  quote_expired plan_changed bulk_closed card_closed label_needed bad_points no_user : Error
  not_enough_points bad_number order_missing not_awaiting not_preview not_review : Error
  not_activating bad_reason not_admin stock_empty email_needed receipt_needed : Error
  payment_missing payment_refused gateway_refused gateway_closed bad_operation : Error
  request_reused balance_mismatch bad_counters session_mismatch no_traffic_row bad_plan : Error
  plan_has_orders capacity_below_sold panel_failed vpn_failed panel_incomplete : Error
  out_of_stock wallet_refused bad_chat_mode outbox_missing not_cancellable : Error
  bad_protocol bad_action user_exists user_missing bad_expiry past_expiry bad_password : Error
  bad_authority model_missing bad_code bad_email no_connection bad_command : Error
  bad_text bad_plan_inbounds trial_fixed ticket_missing plan_used : Error
  bad_public_code no_account bad_amount bad_request bad_note bad_manager chat_over too_fast
        item_missing own_item user_barred invite_over no_access in_chat :
      Error
  bad_channel no_channel not_channel no_post_right bad_group not_in_group key_missing bad_draft
        provider_failed bad_provider not_verified posting_closed post_missing not_editable
        not_decidable bad_option bad_step no_code_left :
      Error

pub data Result {ℓ} (A : Type ℓ) : Type ℓ where
  ok : A → Result A
  err : Error → Result A

abbrev pub Tx {ℓ} : Type ℓ → Type ℓ → Type ℓ
Tx S A = S → Result (A × S)

module _ {ℓ} {S A : Type ℓ} where
  pub pure : A → Tx S A
  pure a s = ok (a, s)

  pub raise : Error → Tx S A
  raise e s = err e

  pub gets : (S → A) → Tx S A
  gets f s = ok (f s, s)

  -- the row of a `fetchone()`, which the source requires
  pub require : Error → (S → Option A) → Tx S A
  require e f s = elim (f s) [ none ↦ err e | some a ↦ ok (a, s) ]

  -- a pure function that may raise
  pub lift : Result A → Tx S A
  lift r s = elim r [ err e ↦ err e | ok a ↦ ok (a, s) ]

module _ {S : Type 0} where
  -- `if b: raise e`
  pub raise_if : Bool → Error → Tx S (Unit {0})
  raise_if true e s = err e
  raise_if false e s = ok (tt, s)

  pub modify : (S → S) → Tx S (Unit {0})
  modify f s = ok (tt, f s)

  -- `if b: m`
  pub when : Bool → Tx S (Unit {0}) → Tx S (Unit {0})
  when true m s = m s
  when false m s = ok (tt, s)

  -- what the caller's commit or rollback leaves
  abbrev pub settle : {A : Type 0} → S → Result (A × S) → S
  settle s (ok (a, t)) = t
  settle s (err e) = s

module _ {ℓ} {S A B : Type ℓ} where
  abbrev pub continue : Result (A × S) → (A → Tx S B) → Result (B × S)
  continue (ok (a, s)) f = f a s
  continue (err e) f = err e

  infixl 5 ◌>>=◌ ◌>>◌
  -- to unfold this is to unfold the other ways to build a handler too
  unfoldable pub ◌>>=◌ : Tx S A → (A → Tx S B) → Tx S B
  unfolding pure raise gets require lift raise_if modify when
  ◌>>=◌ m f s = continue (m s) f

  abbrev pub ◌>>◌ : Tx S A → Tx S B → Tx S B
  m >> k = m >>= λ _. k
