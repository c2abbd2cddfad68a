-- ===== src/Rs274/Refines.antt =====
-- Every method of the interpreter keeps to the specification.
pub mod Numbers
pub mod Modal
pub mod Ready
pub mod Reads
pub mod Motion
