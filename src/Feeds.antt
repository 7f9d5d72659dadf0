-- ===== src/Feeds.antt =====
-- The hooks that fetch from the backend, as functions of the answers in the order in which they come.
pub mod Prices
pub mod Notices
pub mod Latest
pub mod Polling
pub mod History
pub mod Faucet
pub mod Yield
