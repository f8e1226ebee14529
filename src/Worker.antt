-- ===== src/Worker.antt =====
-- runtime/sales_worker.py: the worker that delivers the messages and handles the updates of Telegram.
pub mod Telegram
pub mod Outbox
