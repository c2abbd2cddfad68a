-- ===== src/Rs274.antt =====
-- rs274.py: the interpreter object that a part program calls, and the command list it builds.
pub mod Enums
pub mod Errors
pub mod Points
pub mod Environment
pub mod Interpreter
pub mod Spec
pub mod Refines
pub mod Runs
pub mod Lint
