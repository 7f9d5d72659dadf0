-- ===== src/Portfolio.antt =====
-- The page of a user's positions, frontend/src/app/positions/page.tsx, and the components it shows.
pub mod Grouping
pub mod Pairing
pub mod Turn
pub mod Loop
pub mod Shown
pub mod Conservation
pub mod Newest
pub mod Log
pub mod Rows
pub mod Chart
pub mod Kept
