-- ===== src/Tests/Delivery.antt =====
-- Deliveries in the small shop.
use masih_panel.Base.Int.{◌+ℤ◌}
use masih_panel.Shop.Inbounds.{resolve_inbound_ids}
use masih_panel.Wallet.{money}
use masih_panel.Base.Text.{str}
use masih_panel.Tests.Sales.{shop-IsBooked}
use masih_panel.Loyalty.{award, purchase}
use masih_panel.Shop.Provision.Funds.{provision-IsBooked}
use masih_panel.Shop.Provision.Retry.{reserve_retry}
use masih_panel.Tx.{settle, ◌>>=◌, ok}
use masih_panel.Queue.{enqueue, audit}
use masih_panel.Base.{map, length, none, refl, [], some, ◌∷◌, false, ◌≡◌}
use masih_panel.Wallet.Books.{IsBooked}
use masih_panel.Shop.Failures.{record_provision_failure, eligible_review_retry}
use masih_panel.Shop.Provision.{provision, Backend, reserve}
use masih_panel.Store.{OrderStatus, Protocol, Service, Db, ProvisionFailure, Order, Target}
use masih_panel.Tests.{shop_settings, plan, shop}

abbrev backend : Backend
backend = record {
  has_client = λ name. ok false;
  add_client = λ name uid t ids. ok tt;
  update_client = λ name uid t. ok tt;
  attached_inbounds = λ name. ok (5 ∷ []);
  client_links = λ name. ok tt;
  has_account = λ protocol name. ok false;
  write_account = λ protocol known name t. ok tt;
}

abbrev kept : Target
kept = record {
  uuid = "u";
  password = "p";
  sub_id = "s";
  label = some "phone";
  expires = 400;
  total_bytes = 10;
}

abbrev renewal : Order
renewal = record {
  id = "o7";
  user_id = 1;
  plan = record {
    plan = record plan { inbounds = 5 ∷ [] };
    coupon_code = none;
    display_name = some "phone";
  };
  price = 300;
  status = OrderStatus.paid;
  service_id = "s7";
  renew_id = "s7";
  created = 90;
  target = none;
  trial = false;
}

abbrev service : Service
service = record {
  id = "s7";
  user_id = 1;
  protocol = Protocol.xray;
  username = "ms-s7";
  plan = renewal.plan;
  expires = 400;
  body = kept;
  deleted = false;
}

abbrev renewing : Db
renewing = record shop { orders = renewal ∷ []; services = service ∷ [] }

abbrev target : Target
target = record kept { expires = 2592400; total_bytes = 21474836490 }

abbrev aimed : Order
aimed = record renewal { target = some target }

abbrev reserved : Db
reserved = record renewing { orders = aimed ∷ [] }

reserves : reserve renewal renewing ≡ ok (target, reserved)
unfolding reserve ◌>>=◌
reserves = refl

-- Later, with the service extended by somebody else.
abbrev later : Db
later = record reserved { clock = 90000; services = record service { expires = 9000000 } ∷ [] }

reserves_again : reserve aimed later ≡ ok (target, later)
unfolding reserve ◌>>=◌
reserves_again = refl

delivers :
    map (λ (v : Service). v.expires) (provision backend renewal renewing).services ≡ 2592400 ∷ []
unfolding provision purchase award money enqueue resolve_inbound_ids ◌>>=◌ ◌+ℤ◌ str
delivers = refl

reserve_retry_example : (target ≡ target) × (later.orders ≡ later.orders)
reserve_retry_example =
    reserve_retry renewing reserved later later renewal aimed target target refl reserves refl
      reserves_again

provision-IsBooked_example : IsBooked (provision backend renewal shop)
provision-IsBooked_example = provision-IsBooked backend renewal shop shop-IsBooked

abbrev failure : ProvisionFailure
failure = record {
  order_id = "o7";
  attempts = 2;
  last_error = "UPSTREAM_TIMEOUT";
  last_attempt = 50;
  resolved = false;
}

abbrev failing : Db
failing = record shop { provision_failures = failure ∷ [] }

abbrev reviewed : Order
reviewed = record renewal { status = OrderStatus.review }

-- The second failure waits for 600 seconds.
waits : eligible_review_retry reviewed 649 failing ≡ false
unfolding eligible_review_retry
waits = refl

-- An admin after the first is not told: the key of the message does not name the admin.
tells_one :
    length
      (settle failing (
        record_provision_failure reviewed "PROVISION_ERROR"
          (record failing { settings = record shop_settings { admins = 7 ∷ 8 ∷ [] } }))).outbox
    ≡ 2
unfolding record_provision_failure audit enqueue ◌>>=◌ str
tells_one = refl
