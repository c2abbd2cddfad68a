-- ===== src/Tests/Tasks.antt =====
-- The theorems on the converter at concrete part programs.
use edm_project.Prelude.{◌≡◌, refl, true, false, none, List, [], ◌∷◌, ◌++◌, map, All, arith}
use edm_project.Prelude.Int.{pos}
use edm_project.Python.Value.{
  null, bool, is_number, is_int, is_bool, is_null, lt_zero?, le_zero?, eq_minus_one, truthy,
}
use edm_project.Python.Exec.{ok}
use edm_project.Rs274.Enums.{CoordinateMode}
use edm_project.Rs274.Interpreter.State.{new_interpreter, nat}
use edm_project.Rs274.Interpreter.Program.{Call, run}
use edm_project.Rs274.Spec.Command.{Command, to_dict}
use edm_project.Rs274.Runs.Log.{Emission, Follows, dict_of}
use edm_project.Gcode.Script.{Statement, at, stacked-IsReadable}
use edm_project.Gcode.Suite.{suite_2}
use edm_project.TaskManager.Json.{value}
use edm_project.TaskManager.Dispatch.{make_gcode_task_list}
use edm_project.TaskManager.Programs.{run-tasks, commands_value, answer_of, IsPlainEmission}
use edm_project.TaskManager.Refuses.{bool_feed-refused}
use edm_project.TaskManager.Instance.{value_json, value_laws}
use edm_project.Tests.{own, source, running, run-lint, IsModal-new_interpreter}
use edm_project.Rs274.Environment.{new_environment}

run-tasks_example :
    (log : List Emission) × Follows new_interpreter.environment log
    × ((run (running suite_2) new_interpreter).1.command_list ≡ map dict_of log)
    × (All (IsPlainEmission value_json value_laws true) log
        → make_gcode_task_list value_json true
            (commands_value (run (running suite_2) new_interpreter).1.command_list)
          ≡ value (answer_of value_json value_laws true log))
run-tasks_example =
    run-tasks value_json value_laws true (running suite_2) (stacked-IsReadable own source suite_2)

-- i.g54(); i.f(True); i.g90(); i.g00(x=1), which the interpreter accepts.
abbrev bool_feed : List Statement
bool_feed =
    at 1 Call.g54
    ∷ at 2 (Call.f (bool true))
    ∷ at 3 Call.g90
    ∷ at 4 (Call.g00 (nat 1) null null null null null (bool false) (bool false))
    ∷ []

bool_feed-passes : (run (running bool_feed) new_interpreter).0 ≡ ok tt
unfolding new_interpreter new_environment is_number is_int is_bool is_null lt_zero? le_zero?
    eq_minus_one truthy
bool_feed-passes =
    (run-lint (running bool_feed) new_interpreter (stacked-IsReadable own source bool_feed)
        IsModal-new_interpreter).0
      refl

bool_feed-refused_example :
    make_gcode_task_list value_json true (
      commands_value (
        to_dict 1 "i.g90()" (Command.coordinate_index (nat 54)) ∷ []
        ++ to_dict 4 "i.g90()" (
            Command.g00 CoordinateMode.absolute_mode
              (nat 54)
              (bool false)
              (bool false)
              (bool true)
              (nat 1 ∷ null ∷ null ∷ null ∷ null ∷ null ∷ []))
          ∷ []))
    ≡ value none
bool_feed-refused_example =
    bool_feed-refused value_json value_laws true
      (to_dict 1 "i.g90()" (Command.coordinate_index (nat 54)) ∷ []) [] 4 "i.g90()"
      CoordinateMode.absolute_mode (pos 54) false false true
      (nat 1 ∷ null ∷ null ∷ null ∷ null ∷ null ∷ []) (omega arith) (omega arith)
