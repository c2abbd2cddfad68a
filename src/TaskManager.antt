-- ===== src/TaskManager.antt =====
-- App/TaskManager: from the command list, as JSON, to the tasks that the machine runs.
pub mod Json
pub mod Task
pub mod Converter
pub mod Dispatch
pub mod Accepts
pub mod Programs
pub mod Refuses
pub mod Instance
pub mod Runner
pub mod Machining
