-- ===== src/Shop/Failures.antt =====
-- `record_provision_failure` and `eligible_review_retry` of runtime/sales.py.
pub mod Bounds
use masih_panel.Base.Text.{str}
use masih_panel.Shop.Receipts.{set_status}
use masih_panel.Queue.{button, audit, enqueue}
use masih_panel.Tx.{gets, ◌>>=◌, modify, ◌>>◌, pure, Tx}
use masih_panel.Store.{Notice, account, ProvisionFailure, Db, OrderStatus, Order}
use masih_panel.Base.{
  ◌/◌, [], ◌<>◌, insert_row, ◌&&◌, none, update_where, leb, ◌∷◌, ◌-◌, select_one, exists, some,
  str_eq, ◌+◌, if◌then◌else◌, ◌^◌, false, true, Bool, ◌*◌, List, min, String, Option, ℕ,
}

abbrev pub is_failure_of : String → ProvisionFailure → Bool
is_failure_of ident f = str_eq f.order_id ident

abbrev pub is_paid : OrderStatus → Bool
is_paid OrderStatus.paid = true
is_paid _ = false

-- `status IN ('paid','review')`
abbrev pub may_review : OrderStatus → Bool
may_review OrderStatus.paid = true
may_review OrderStatus.review = true
may_review _ = false

abbrev pub first_failure : String → String → ℕ → ProvisionFailure
first_failure ident reason at = record {
  order_id = ident;
  attempts = 1;
  last_error = reason;
  last_attempt = at;
  resolved = false;
}

abbrev pub fail_again : String → ℕ → ProvisionFailure → ProvisionFailure
fail_again reason at f = record f {
  attempts = f.attempts + 1;
  last_error = reason;
  last_attempt = at;
  resolved = false;
}

-- `INSERT INTO provision_failures … ON CONFLICT(order_id) DO UPDATE`
abbrev pub upsert_failure : String → String → ℕ → List ProvisionFailure → List ProvisionFailure
upsert_failure ident reason at fs =
    if exists (is_failure_of ident) fs
    then update_where (is_failure_of ident) (fail_again reason at) fs
    else insert_row (first_failure ident reason at) fs

-- the loop over the admins
pub tell_review : Order → String → ℕ → List ℕ → Tx Db (Unit {0})
tell_review o reason now [] = pure tt
tell_review o reason now (n ∷ ns) = do
  enqueue (account n) (Notice.order_needs_review o.id reason)
      ((button "retry the delivery" ("a:retry:" <> o.id) ∷ [])
        ∷ (button "the order" ("a:order:" <> o.id) ∷ [])
        ∷ [])
      (some ("provision-review:" <> o.id <> ":" <> str (min 3 (now / 3600)))) true
  tell_review o reason now ns

-- `record_provision_failure(c, o, exc)`, for the reason that `provision_failure_reason(exc)` gives
unfoldable pub record_provision_failure : Order → String → Tx Db (Unit {0})
unfolding tell_review
record_provision_failure o reason = do
  modify (λ d. record d {
    provision_failures = upsert_failure o.id reason d.clock d.provision_failures;
    orders =
        update_where (λ p. str_eq p.id o.id && may_review p.status) (set_status OrderStatus.review)
          d.orders;
  })
  audit "provision_failed" (o.id <> " | " <> reason)
  admins ← gets (λ d. d.settings.admins)
  now ← gets (λ d. d.clock)
  tell_review o reason now admins
  enqueue (account o.user_id) Notice.order_on_hold [] (some ("provision-hold:" <> o.id)) true

-- `min(3600, 300*(2**min(4, max(0, attempts-1))))`
pub retry_delay : ℕ → ℕ
retry_delay attempts = min 3600 (300 * 2 ^ min 4 (attempts - 1))

-- for the failure of the order, if there is one
abbrev pub due : ℕ → Option ProvisionFailure → Bool
due ts none = true
due ts (some f) =
    if leb 7 f.attempts then false else leb (f.last_attempt + retry_delay f.attempts) ts

-- `eligible_review_retry(c, o, ts)`
unfoldable pub eligible_review_retry : Order → ℕ → Db → Bool
unfolding retry_delay
eligible_review_retry o ts d =
    if is_paid o.status then true else due ts (select_one (is_failure_of o.id) d.provision_failures)
