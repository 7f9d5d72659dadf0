-- ===== src/Cards.antt =====
-- The cards of the positions page: frontend/src/components/PositionCard.tsx (One),
-- RangePositionCard.tsx (Two) and PortfolioSummary.tsx (Summary), and the page that hands them their
-- positions (Page).
pub mod Defs
pub mod One
pub mod Two
pub mod Summary
pub mod Page
pub mod Agreement
pub mod Sections
pub mod Gain
pub mod Row
