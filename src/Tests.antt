-- ===== src/Tests.antt =====
-- A small shop, and the theorems at work on it.
pub mod Sales
pub mod Payments
pub mod Usage
pub mod Delivery
pub mod Quotes
pub mod AiSales
pub mod Worker
pub mod Plans
pub mod Social
pub mod Posting
pub mod Matching
use Prim.Native.Char.{code}
use masih_panel.Base.{[], ◌∷◌, none, some, ltb, true, false, not}
use masih_panel.Base.Int.{pos, neg}
use masih_panel.Base.Text.{str}
use masih_panel.Shop.Labels.{Unicode}
use masih_panel.Shop.Checkout.{OrderArgs}
use masih_panel.Store.{
  Db, Settings, User, Plan, Protocol, LedgerEntry, Topup, TopupStatus, PointsEntry, Coupon,
  Visibility,
}

abbrev pub shop_settings : Settings
shop_settings = record {
  admins = 7 ∷ [];
  card = "6037";
  report_channel = "";
  merchant_id = "m";
  require_contact = false;
  buy = true;
  renew = true;
  wallet = true;
  trial = true;
  referrals = true;
  discounts = true;
  reseller = false;
  bulk = true;
  zarinpal = true;
  commission = 10;
  reseller_discount = 0;
  points_per_toman = 100;
  points_per_purchase_unit = 1;
  points_per_referral = 5;
  ai_keys = [];
  ai_api_key = true;
  cloudflare_account = false;
}

abbrev pub plan : Plan
plan = record {
  id = 10;
  name = "monthly";
  category = "vpn";
  protocol = Protocol.xray;
  price = 300;
  days = 30;
  gb = 20;
  inbounds = 4 ∷ 5 ∷ [];
  capacity = 2;
  active = true;
  is_trial = false;
}

abbrev pub trial_plan : Plan
trial_plan = record plan { id = 11; price = 0; capacity = 0; is_trial = true }

abbrev pub customer : User
customer = record {
  id = 1;
  balance = pos 500;
  blocked = false;
  reseller = false;
  referrer = 0;
  phone = "";
  state = "";
}

abbrev pub deposit : LedgerEntry
deposit = record {
  user_id = 1;
  amount = pos 500;
  reason = "topup";
  reference = "topup:1";
  created = 5;
}

abbrev pub receipt : Topup
receipt = record {
  id = 2;
  user_id = 1;
  amount = 200;
  receipt = "photo";
  status = TopupStatus.pending;
  created = 6;
}

abbrev pub earned : PointsEntry
earned = record {
  user_id = 1;
  points = pos 40;
  kind = "purchase";
  reference = "purchase:o";
  created = 5;
}

abbrev pub shop : Db
shop = record {
  settings = shop_settings;
  users = customer ∷ [];
  plans = plan ∷ trial_plan ∷ [];
  orders = [];
  services = [];
  ledger = deposit ∷ [];
  topups = receipt ∷ [];
  coupons = [];
  redeemed = [];
  receipt_orders = [];
  payments = [];
  quotes = [];
  tickets = [];
  provision_failures = [];
  loyalty_points = earned ∷ [];
  ai = record {
    models = [];
    families = [];
    plans = [];
    orders = [];
    subscriptions = [];
    stock = [];
    usage = [];
  };
  social = record {
    profiles =
        record {
          user_id = 1;
          code = "MS-0000AA11";
          display_name = "Nika";
          gender = "f";
          age = 30;
          in_province = true;
          interests = "music" ∷ [];
          discoverable = true;
          visibility = Visibility.public;
        }
        ∷ [];
    follows = [];
    blocks = [];
    discoveries = [];
    waiting = [];
    invites = [];
    pairs = [];
    lines = [];
    adjusted = [];
    chat_cost = λ route. 5;
    reactions = [];
    media_items =
        record { id = 3; owner_id = 1; kind = "music"; media_type = ""; published = true } ∷ [];
    playlists = [];
    media_likes = [];
    playlist_likes = [];
    post_points = λ kind. 30;
    like_points = λ kind. 2;
  };
  posting = record {
    config = record {
      channel_id = "";
      discussion_id = pos 0;
      bot_id = 0;
      bot_username = "";
      verified_at = 0;
      enabled = false;
    };
    posts = [];
    replies = [];
    channel_model = "";
    default_model = "";
  };
  outbox = [];
  audit_log = [];
  nav = none;
  live = 5 ∷ [];
  clock = 100;
  random = str;
  drawn = 0;
}

-- texts of ASCII letters, in lower case already
abbrev pub ascii : Unicode
ascii = record {
  squeeze = λ s. s;
  casefold = λ s. s;
  strip = λ s. s;
  lower = λ s. s;
  is_alnum = λ c. ltb 96 (code c);
}

abbrev pub purchase_args : OrderArgs
purchase_args = record {
  uid = 1;
  pid = 10;
  reference = "o1";
  renew = "";
  trial = false;
  card = false;
  label = some "phone";
}

abbrev pub trial_args : OrderArgs
trial_args = record purchase_args { pid = 11; reference = "o2"; trial = true }
