-- ===== src/Social.antt =====
-- runtime/social.py: the club of the bot. Modelled are the adjustment of accounts by the managers, the
-- price, the search, the payment and the messages of a chat, and the reactions with their rewards.
pub mod Accounts
pub mod Chat
pub mod Profiles
pub mod Matching
pub mod Rewards
