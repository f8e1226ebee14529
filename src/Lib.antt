-- ===== src/Lib.antt =====
-- The core of the shop of Masih-panel: the sales database of runtime/sales.py and the handlers that
-- change it.
--
-- The program. The Telegram bot (runtime/sales_worker.py) and the panel (admin of runtime/sales.py)
-- serve one SQLite database. A handler runs inside one transaction, moves money and points through
-- the append-only tables `ledger` and `loyalty_points`, whose references are unique, and leaves its
-- messages in the table `outbox` for the worker to deliver.
--
-- The files.
--   * Base: names of the libraries, tables as lists of rows with what the SQL statements of the source
--     do to them (`select_one` is a fetchone, `count` a rowcount, `update_where` an UPDATE), Python's
--     integers (Base/Int) and texts (Base/Text).
--   * Tx: handlers as functions from a database to a result. A handler that raises carries no state,
--     since the callers roll the transaction back; `settle` is what commit or rollback leaves.
--     Tx/Keeps holds the rules for an invariant of a handler, Tx/Yields those for what it establishes.
--   * Store: the database that `conn` creates, a record for the row of a table; Store/Ai,
--     Store/Social and Store/Channel hold the tables of runtime/ai_commerce.py, runtime/social.py and
--     runtime/channel_manager.py.
--   * Queue: `audit` and `enqueue`, with the keyboard and the edited message.
--   * Wallet: `money`. Wallet/Books has the invariant of the books, Wallet/Moves the theorems.
--   * Loyalty: runtime/gamification.py, lines 36 to 79.
--   * Shop/Inbounds: `resolve_inbound_ids`. Shop/Labels: `subscription_label`, `label_taken`,
--     `unique_subscription_label`. Shop/Checkout: `order`, split into its checks, its price and its
--     row. Shop/Receipts: `restore_reserved_coupon`, `decide_receipt`, and `cancel_order` of `admin`.
--     Shop/Payments: `payment_create` and `payment_verify`.
--     Shop/Provision: `provision`, as `reserve` up to its commit and `deliver` behind it. Shop/Failures:
--     `record_provision_failure` and `eligible_review_retry`. Shop/Quotes: `quote` and
--     `purchase_quote` of
--     runtime/sales_worker.py.
--     Shop/Plans: `save_plan`, `plan_overview`, `repair_stale_inbound_plans`, and the actions of `admin`
--     on plans. Shop/Administration: its actions on users, coupons, tickets, orders and messages.
--   * AiSales: runtime/ai_commerce.py, and the registry of runtime/ai_models.py. AiSales/Catalog has
--     `plan`, `model` and `stock`, AiSales/Orders the buyer's side, AiSales/Delivery `_deliver`,
--     `admin_decide` and the payment from the wallet, AiSales/Quota the use of a subscription.
--     AiSales/Lifecycle is the state machine that an order follows, AiSales/Operations the handlers
--     one after another, AiSales/Dialogue the dialogues of the bot that lead to them.
--   * Worker: the delivery of the outbox by `tick` of runtime/sales_worker.py.
--   * Social: of runtime/social.py, Social/Accounts the adjustment of accounts, Social/Chat the
--     price, the
--     payment and the messages of a chat, Social/Profiles the profiles that a chat
--     needs, Social/Matching the search for a partner, Social/Matching/Invites the answers to an
--     invitation, Social/Matching/Chats what stays true of the chats, Social/Rewards the reactions
--     and what they earn.
--   * Posting: runtime/channel_manager.py, over the tables of Store/Channel. Posting/Verify has `verify`,
--     Posting/Drafts `_make_one_draft`, Posting/Publish `_stage_approved` and `_complete_outbox`,
--     Posting/Round
--     `tick`, Posting/Commands the callbacks of the buttons, Posting/Desk `menu` and `admin_callback`,
--     Posting/Input `admin_input`, Posting/Names `normalize_channel` of runtime/sales.py.
--     Posting/Approvals
--     is what an approval needs and does, Posting/Orderly what stays true of the posts,
--     Posting/Runs everything that happens to them in any order.
--   * Traffic: `credit`, `expiry` and `permitted` of runtime/unified.py, over the panel's own database
--     (`Panel`), which is another one than the shop's.
--   * Tests: a small shop, runs of the handlers on it, and the theorems applied to it.
--
-- How the code is read. A flag column is a Bool, a status column a data type, a JSON column the value
-- that it encodes. Numbers of users, plans, receipts and times are ℕ; a balance and an amount of a
-- ledger are ℤ. A price and a percentage are ℕ, the percentages at most 100 by the forms that store
-- them, so that 100 - percent is exact; the division `//` of numbers that are not negative is that
-- of ℕ. The texts of messages are constructors of `Notice`, which hold the values shown; the labels
-- of the buttons are given in English, their callbacks are those of the source. What `conn` finds in
-- the settings is one record.
--
-- Parameters. The Unicode tables of Python (normalisation with collapsed spaces, case folding,
-- lower case, white space at the ends, `isalnum`) are a record, `Unicode`. What `secrets` returns is the
-- sequence `Db.random`, and `drawn` counts the calls. The clock stands still within a transaction.
-- The enabled inbounds, which the code
-- reads from the panel's own database, are `Db.live`.
--
-- Of the channel manager, `Outside` holds what Telegram answers, the calendar of the time zone, the
-- answer of
-- an AI provider and SQLite's order of texts. Days are numbered in the order of their texts. A round
-- catches every exception but SQLite's; what it catches is raised before anything is written, and is a
-- ValueError in the modelled code, which is the name that the audit gets.
--
-- The payment gateway is a record of two functions from what is asked to the answer, if there is one
-- (`Gateway`). So are the answers of the VPN panel and the VPN manager to one delivery (`Backend`), whose
-- `has_client` fails but for the panel's explicit refusal, which means that the client does not exist;
-- the subscription and the links, which `provision` stores for display, are left out. The SHA-256 that
-- makes the key of a session is an argument of `credit`; no theorem needs that it is injective.
--
-- Telegram is a function from the calls of one message to how they end, as `tg` reports it, and from the
-- uploads of files to how these end (`Telegram`), with the rewriting of texts. The list of the
-- inbounds that the panel returns to `save_plan` is an argument, and so is
-- `str.upper` where a coupon is saved.
--
-- Loops and bounds. The loops over rows are structural. The search for a free label takes 64 tries,
-- as in the source. The decimal digits of a number n are made with n + 1 steps of fuel, one for each
-- digit, of which it has no more than that.
--
-- Not modelled: network calls, the pages of the bot that only show or list,
-- the contents of the files that the worker uploads, the import of media, backups, installation.
pub mod Base
pub mod Tx
pub mod Store
pub mod Queue
pub mod Wallet
pub mod Loyalty
pub mod Shop
pub mod Traffic
pub mod AiSales
pub mod Worker
pub mod Social
pub mod Posting
pub mod Tests
