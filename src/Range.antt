-- ===== src/Range.antt =====
-- frontend/src/components/v2/RangeAcceptModal.tsx: the dialog that accepts a put and a call at once.
pub mod Handler
pub mod Funds
pub mod Legs
pub mod Notices
pub mod Order
pub mod Ends
pub mod Breaks
pub mod Prepare
pub mod Cover
pub mod Reasons
pub mod Safety
pub mod Tagging
pub mod Session
pub mod Bounds
