-- ===== src/Gcode.antt =====
-- The part programs under gcode/: their calls, statement by statement.
pub mod Script
pub mod SquareToRound
pub mod Part3
pub mod Samples
pub mod Mill
pub mod Suite
