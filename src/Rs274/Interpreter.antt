-- ===== src/Rs274/Interpreter.antt =====
-- class RS274Interpreter: its state, its methods in two groups, and a part program as the calls
-- that it makes.
pub mod State
pub mod Modal
pub mod Motion
pub mod Program
