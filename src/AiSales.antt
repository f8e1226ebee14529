-- ===== src/AiSales.antt =====
-- runtime/ai_commerce.py and the registry of runtime/ai_models.py: subscriptions to AI, sold against a
-- receipt that an admin reviews, or against the wallet.
pub mod Models
pub mod Email
pub mod Catalog
pub mod Orders
pub mod Delivery
pub mod Lifecycle
pub mod Steps
pub mod Operations
pub mod Quota
pub mod Dialogue
