-- ===== src/Rs274/Runs.antt =====
-- What holds of whole part programs.
pub mod Calls
pub mod Modes
pub mod Log
pub mod Each
pub mod Safety
pub mod Bounds
pub mod Groups
pub mod Ended
pub mod Refused
