-- ===== src/Shop/Provision.antt =====
-- `provision` of runtime/sales.py: the delivery of a paid order.
pub mod Retry
pub mod Funds
use masih_panel.Shop.Labels.{text_or_empty}
use masih_panel.Base.Int.{pos}
use masih_panel.Wallet.{money, is_user}
use masih_panel.Loyalty.{purchase}
use masih_panel.Shop.Inbounds.{resolve_inbound_ids, has_id}
use masih_panel.Shop.Checkout.{is_order, same_protocol}
use masih_panel.Base.Text.{str, take_chars, nonempty}
use masih_panel.Tx.{
  panel_incomplete, raise_if, settle, no_user, require, modify, ok, lift, gets, pure, when, ◌>>◌,
  ◌>>=◌, err, Tx, Result,
}
use masih_panel.Queue.{button, enqueue, draw}
use masih_panel.Store.{
  Notice, channel, account, Protocol, User, Service, Db, Settings, ProvisionFailure, Order, Target,
  OrderStatus,
}
use masih_panel.Base.{
  ◌/◌, [], ◌==◌, ◌&&◌, update_where, ◌-◌, delete_where, not, ◌∷◌, select_one, str_eq, ◌+◌,
  insert_row, ◌^◌, false, some, Bool, none, ◌<>◌, true, leb, ◌*◌, if◌then◌else◌, Option, min,
  String, List, ℕ,
}

-- What the VPN panel and the VPN manager answer; a call that fails raises.
pub record Backend : Type 0 where
  -- whether the panel has the client, or `err` for another reason than that it has none
  pub has_client : String → Result Bool
  pub add_client : String → ℕ → Target → List ℕ → Result (Unit {0})
  pub update_client : String → ℕ → Target → Result (Unit {0})
  pub attached_inbounds : String → Result (List ℕ)
  pub client_links : String → Result (Unit {0})
  pub has_account : Protocol → String → Result Bool
  pub write_account : Protocol → Bool → String → Target → Result (Unit {0})

abbrev pub is_service : String → Service → Bool
is_service sid v = str_eq v.id sid

-- `1024**3`
abbrev pub gibibyte : ℕ
gibibyte = 1073741824

abbrev max_of : ℕ → ℕ → ℕ
max_of a b = if leb a b then b else a

abbrev or_name : Option String → String → String
or_name none name = name
or_name (some s) name = if nonempty s then s else name

-- `p.get("_display_name") or p["name"]`
abbrev label_for : Order → String
label_for o = or_name o.plan.display_name o.plan.plan.name

abbrev with_label : Order → Target → Target
with_label o t =
    if nonempty (text_or_empty t.label) then t else record t { label = some (label_for o) }

-- `data` before its target: that of the service, or with new secrets
pub account_data : Order → Option Service → Tx Db Target
unfolding draw
account_data o (some old) = pure (with_label o old.body)
account_data o none = do
  uuid ← draw
  password ← draw
  sub_id ← draw
  pure (record {
    uuid = uuid;
    password = password;
    sub_id = sub_id;
    label = some (label_for o);
    expires = 0;
    total_bytes = 0;
  })

-- where the new period starts, if that is not now
abbrev current_end : Order → Option Service → ℕ
current_end o none = 0
current_end o (some old) = if nonempty o.renew_id then old.expires else 0

abbrev pub new_target : Order → Option Service → ℕ → Target → Target
new_target o old now held = record held {
  expires = max_of now (current_end o old) + o.plan.plan.days * 86400;
  total_bytes = elim old [
    | none ↦ o.plan.plan.gb * gibibyte
    | some v ↦ held.total_bytes + o.plan.plan.gb * gibibyte
  ];
}

abbrev pub set_target : Target → Order → Order
set_target t o = record o { target = some t }

pub persist_target : Order → Option Service → Target → Option Target → Tx Db Target
persist_target o old held (some t) = pure t
persist_target o old held none = do
  now ← gets (λ d. d.clock)
  modify (λ d. record d {
    orders = update_where (is_order o.id) (set_target (new_target o old now held)) d.orders;
  })
  pure (new_target o old now held)

-- the part of `provision` up to its commit: the target that the order is to reach
unfoldable pub reserve : Order → Tx Db Target
unfolding account_data persist_target
reserve o = do
  old ← gets (λ d. select_one (is_service o.service_id) d.services)
  held ← account_data o old
  persist_target o old held o.target

-- `set(selected).issubset(set(attached))`
abbrev subset : List ℕ → List ℕ → Bool
subset [] attached = true
subset (n ∷ ns) attached = has_id n attached && subset ns attached

-- the account's name at the backends
pub account_name : Order → String
account_name o = "ms-" <> take_chars 20 o.service_id

module _ (b : Backend) where
  pub install_xray : Order → Target → Tx Db (Unit {0})
  unfolding account_name
  install_xray o t = do
    current ← lift (b.has_client (account_name o))
    live ← gets (λ d. d.live)
    selected ← lift (resolve_inbound_ids o.plan.plan.inbounds live)
    lift (
        if current
        then b.update_client (account_name o) o.user_id t
        else b.add_client (account_name o) o.user_id t selected)
    attached ← lift (b.attached_inbounds (account_name o))
    raise_if (not (subset selected attached)) panel_incomplete
    lift (b.client_links (account_name o))

  pub install_account : Order → Target → Tx Db (Unit {0})
  unfolding account_name
  install_account o t = do
    known ← lift (b.has_account o.plan.plan.protocol (account_name o))
    lift (b.write_account o.plan.plan.protocol known (account_name o) t)

  pub install : Order → Target → Tx Db (Unit {0})
  unfolding install_xray install_account
  install o t =
      if same_protocol o.plan.plan.protocol Protocol.xray
      then install_xray o t
      else install_account o t

abbrev pub service_row : Order → Target → Service
service_row o t = record {
  id = o.service_id;
  user_id = o.user_id;
  protocol = o.plan.plan.protocol;
  username = account_name o;
  plan = o.plan;
  expires = t.expires;
  body = t;
  deleted = false;
}

abbrev pub finish : Order → Order
finish o = record o { status = OrderStatus.fulfilled; target = none }

abbrev pub resolve_failure : ProvisionFailure → ProvisionFailure
resolve_failure f = record f { resolved = true }

-- `INSERT OR REPLACE INTO services`, and the two updates
abbrev pub record_delivery : Order → Target → Db → Db
record_delivery o t d = record d {
  services = insert_row (service_row o t) (delete_where (is_service o.service_id) d.services);
  orders = update_where (is_order o.id) finish d.orders;
  provision_failures =
      update_where (λ f. str_eq f.order_id o.id) resolve_failure d.provision_failures;
}

pub pay_referrer : Order → Settings → User → Tx Db (Unit {0})
pay_referrer o s u =
    when (not (u.referrer == 0) && not (o.price == 0))
      (money u.referrer (pos (o.price * s.commission / 100)) "commission" (o.id <> ":commission"))

pub pay_commission : Order → Settings → Tx Db (Unit {0})
unfolding pay_referrer
pay_commission o s =
    when s.referrals
      (do u ← require no_user (λ d. select_one (is_user o.user_id) d.users); pay_referrer o s u)

pub tell_admins : Order → List ℕ → Tx Db (Unit {0})
tell_admins o [] = pure tt
tell_admins o (n ∷ ns) = do
  enqueue (account n) (Notice.order_delivered o.id o.price) [] (some (o.id <> ":admin:" <> str n))
      true
  tell_admins o ns

pub tell_channel : Order → String → Tx Db (Unit {0})
tell_channel o name = when (nonempty name) (
    enqueue (channel name) (Notice.order_delivered o.id o.price) []
      (some (o.id <> ":admin:" <> name)) true)

-- the part of `provision` behind its commit
pub deliver : Backend → Order → Target → Tx Db (Unit {0})
unfolding install pay_commission tell_admins tell_channel
deliver b o t = do
  install b o t
  modify (record_delivery o t)
  s ← gets (λ d. d.settings)
  awarded ← purchase (finish o) s
  pay_commission o s
  enqueue (account o.user_id) (Notice.service_ready (text_or_empty t.label))
      ((button "the service" ("service:" <> o.service_id) ∷ []) ∷ []) (some (o.id <> ":delivered"))
      true
  tell_admins o s.admins
  tell_channel o s.report_channel

abbrev pub deliver_committed : Backend → Order → Db → Result (Target × Db) → Db
deliver_committed b o d (err e) = d
deliver_committed b o d (ok (t, e)) = settle e (deliver b o t e)

-- `provision(c, o)` and the commit or rollback of its caller: the reserved target stays in either case.
unfoldable pub provision : Backend → Order → Db → Db
unfolding reserve deliver
provision b o d = deliver_committed b o d (reserve o d)
