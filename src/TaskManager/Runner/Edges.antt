-- ===== src/TaskManager/Runner/Edges.antt =====
-- Every step of GCodeRunner keeps to the diagram of its states.
use mathlib.Core.Option
use edm_project.Prelude.{Option}
use edm_project.TaskManager.Runner.{Runner}
