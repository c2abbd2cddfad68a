-- ===== src/TaskManager/Programs.antt =====
-- From a part program to its tasks: the interpreter's command list through the converter.
use edm_project.Prelude.{◌≡◌, refl, ap, ◌∙◌, Bool, Option, none, some, List, [], ◌∷◌, map, All}
use edm_project.Prelude.Int.{pos}
use edm_project.Python.Value.{Value, Fields, items, list, dict, is_list}
use edm_project.Python.Frames.{Stack}
use edm_project.Rs274.Interpreter.State.{new_interpreter}
use edm_project.Rs274.Interpreter.Program.{Call, run}
use edm_project.Rs274.Environment.{Environment}
use edm_project.Rs274.Spec.Sound.{effect}
use edm_project.Rs274.Runs.Modes.{IsModal-new_interpreter}
use edm_project.Rs274.Runs.Log.{Emission, Follows, IsReadable, dict_of, run-Logged}
use edm_project.TaskManager.Json.{value, JsonLib, JsonLaws, IsInt32}
use edm_project.TaskManager.Task.{Task}
use edm_project.TaskManager.Dispatch.{
  Made, task, ignored, push_made, make_elements, make_gcode_task_list,
}
use edm_project.TaskManager.Accepts.{IsPlain, made_of}
use edm_project.TaskManager.Accepts.Reads.{values-items}
use edm_project.TaskManager.Accepts.Elements.{make_command}

-- The command list as a Python value.
abbrev pub commands_value : List Fields → Value
commands_value commands = list (items (map dict commands))

module _ (J : JsonLib) (L : JsonLaws J) (drill_machine : Bool) where
  -- The line and the numbers of a command fit into the types of the task.
  abbrev pub IsPlainEmission : Emission → Type 0
  IsPlainEmission e = IsInt32 (pos e.line_number) × IsPlain J L e.command

  -- The tasks of a log, in its order.
  abbrev pub tasks_of : List Emission → List (Task J.Double)
  tasks_of [] = []
  tasks_of (e ∷ log) = elim (made_of J L drill_machine e) [
    | task t ↦ t ∷ tasks_of log
    | ignored ↦ tasks_of log
  ]

  -- What the converter answers: an empty list is refused.
  abbrev pub answer_of : List Emission → Option (List (Task J.Double))
  answer_of [] = none
  answer_of (e ∷ log) = some (tasks_of (e ∷ log))

  push_made-tasks :
      (m : Made (Task J.Double)) (ts : List (Task J.Double))
      → push_made J drill_machine (some m) (some ts)
        ≡ some (elim m [ task t ↦ t ∷ ts | ignored ↦ ts ])
  push_made-tasks (task t) ts = refl
  push_made-tasks ignored ts = refl

  make_elements-log :
      (g : Environment) (log : List Emission)
      → Follows g log
      → All IsPlainEmission log
      → make_elements J drill_machine (map L.json_of (map dict (map dict_of log)))
        ≡ some (tasks_of log)
  unfolding make_elements
  make_elements-log g [] h p = refl
  make_elements-log g (e ∷ log) (live, sound, agrees, h) ((line, plain), ps) =
      rw
        (
          make_command J L e.line_number e.code line drill_machine e.command sound plain,
          make_elements-log (effect e.command g) log h ps,
        )
        (push_made-tasks (made_of J L drill_machine e) (tasks_of log))

  -- The loop, on what the library reads.
  pub make_list-read :
      (vs : List Value)
      → make_gcode_task_list J drill_machine (L.json_of (list (items vs)))
        ≡ value (elim (map L.json_of vs) [
          | [] ↦ none
          | w ∷ ws ↦ make_elements J drill_machine (w ∷ ws)
        ])
  unfolding make_gcode_task_list is_list
  make_list-read vs =
      rw (L.is_array_law (list (items vs)), L.as_array_law (items vs), values-items vs) refl

  pub make_gcode_task_list-log :
      (g : Environment) (log : List Emission)
      → Follows g log
      → All IsPlainEmission log
      → make_gcode_task_list J drill_machine (L.json_of (commands_value (map dict_of log)))
        ≡ value (answer_of log)
  make_gcode_task_list-log g [] h p = make_list-read []
  make_gcode_task_list-log g (e ∷ log) h p =
      make_list-read (map dict (map dict_of (e ∷ log)))
      ∙ ap value (make_elements-log g (e ∷ log) h p)

  -- Any part program with readable source lines, on a new interpreter, also one that an exception cuts
  -- short: its command list is that of a log of sound commands in the modes in force. If every line
  -- and every number of the log fits into the type that its task has for it, the converter makes of
  -- the list, as the JSON library reads it back, the tasks of these commands, in their order; it
  -- refuses the empty list.
  pub run-tasks :
      (calls : List (Stack × Call))
      → All IsReadable calls
      → (log : List Emission) × Follows new_interpreter.environment log
        × ((run calls new_interpreter).1.command_list ≡ map dict_of log)
        × (All IsPlainEmission log
            → make_gcode_task_list J drill_machine
                (L.json_of (commands_value (run calls new_interpreter).1.command_list))
              ≡ value (answer_of log))
  unfolding new_interpreter
  run-tasks calls readable =
      let (log, follows, appended, same) =
        run-Logged calls new_interpreter readable IsModal-new_interpreter in
      (
        log,
        follows,
        appended,
        λ plain.
            ap (λ cs. make_gcode_task_list J drill_machine (L.json_of (commands_value cs))) appended
            ∙ make_gcode_task_list-log new_interpreter.environment log follows plain,
      )
