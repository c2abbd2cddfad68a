-- ===== src/Rs274/Spec.antt =====
-- The specification of the interpreter, apart from how it builds its dicts.
pub mod Command
pub mod Sound
pub mod Modes
pub mod Outcome
