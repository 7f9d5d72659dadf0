-- ===== src/Execution.antt =====
-- frontend/src/lib/execution.ts and the wallet that it sends through.
pub mod Poll
pub mod Race
pub mod Wallet
pub mod Disconnect
pub mod Chain
pub mod Order
