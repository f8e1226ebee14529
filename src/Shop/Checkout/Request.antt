-- ===== src/Shop/Checkout/Request.antt =====
-- The arguments of `order` in runtime/sales.py.
use masih_panel.Base.{ℕ, Bool, String, Option}

pub record OrderArgs : Type 0 where
  pub uid : ℕ
  pub pid : ℕ
  pub reference : String
  -- the service to renew, or nothing
  pub renew : String
  pub trial : Bool
  pub card : Bool
  pub label : Option String
