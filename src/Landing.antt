-- ===== src/Landing.antt =====
-- The page that lets a visitor try the product: frontend/src/components/landing and
-- frontend/src/hooks/useSliderAnalytics.ts.
pub mod Slider
pub mod Clamp
pub mod Nearest
pub mod Strikes
pub mod Analytics
pub mod Signup
pub mod Story
