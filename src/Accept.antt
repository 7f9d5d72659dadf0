-- ===== src/Accept.antt =====
-- frontend/src/components/AcceptModal.tsx: the dialog that sells one option.
pub mod Props
pub mod Handler
pub mod Outcomes
pub mod Sends
pub mod Reports
pub mod Ends
pub mod Failed
pub mod Session
