-- ===== src/Deposit.antt =====
-- frontend/src/components/DepositModal.tsx: moving tokens into and out of the trading account.
pub mod Form
pub mod Handlers
pub mod Reasons
pub mod Ends
pub mod Session
pub mod Okb
pub mod Self
