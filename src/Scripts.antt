-- ===== src/Scripts.antt =====
-- What the plotting scripts compute before they draw.
pub mod MotionRecord
