-- ===== src/Shop.antt =====
-- The shop of runtime/sales.py and runtime/sales_worker.py: labels, inbounds, checkout, receipts, payments,
-- delivery and its failures, quotes.
pub mod Labels
pub mod Inbounds
pub mod Checkout
pub mod Receipts
pub mod Payments
pub mod Provision
pub mod Failures
pub mod Quotes
pub mod Plans
pub mod Administration
