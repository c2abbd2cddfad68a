-- ===== src/TaskManager/Machining.antt =====
-- From a part program to the end of its machining: the interpreter, the converter and the runner.
use edm_project.TaskManager.Runner.Reach.{begin}
use edm_project.TaskManager.Runner.Finishes.{start-HasEnded}
use edm_project.TaskManager.Runner.Ends.{HasEnded, runs}
use edm_project.TaskManager.Runner.{World, new_runner, calm}
use edm_project.TaskManager.Runner.Operations.{back?, start}
use mathlib.Core.Bool.{false≢true}
use edm_project.Prelude.{
  ◌≡◌, refl, sym, ap, ◌∙◌, ℕ, suc, ◌*◌, String, Bool, true, false, List, [], ◌∷◌, map, All, length,
  some, Gives, if_elim, length-map,
}
use edm_project.Python.Frames.{Stack}
use edm_project.Rs274.Environment.{Environment}
use edm_project.Rs274.Interpreter.State.{new_interpreter}
use edm_project.Rs274.Interpreter.Program.{Call, run}
use edm_project.Rs274.Spec.Command.{Command}
use edm_project.Rs274.Spec.Sound.{effect}
use edm_project.Rs274.Runs.Log.{Emission, Follows, dict_of, replay}
use edm_project.TaskManager.Json.{value, JsonLib, JsonLaws}
use edm_project.TaskManager.Task.{Task, is_program_end}
use edm_project.TaskManager.Dispatch.{task, ignored, Made, make_gcode_task_list, task, Made}
use edm_project.TaskManager.Programs.{
  IsPlainEmission, tasks_of, commands_value, make_gcode_task_list-log, answer_of,
}
use edm_project.TaskManager.Runner.Valid.{IsEnded, HasSix}
use edm_project.Rs274.Spec.Sound.{IsSound}
use edm_project.TaskManager.Accepts.{coord_of, body_of}
use edm_project.Python.Value.{Value}
use edm_project.TaskManager.Runner.Ticks.{has_six}
use edm_project.Prelude.{◌==◌, Option}
use edm_project.TaskManager.Runner.Cooperative.{IsCooperative}

module _ {Double : Type 0} where
  cons-IsEnded : (t : Task Double) (ts : List (Task Double)) → IsEnded ts → IsEnded (t ∷ ts)
  unfolding back?
  cons-IsEnded t [] e = absurd e.lower
  cons-IsEnded t (u ∷ ts) e = e

  end-IsEnded : (t : Task Double) → is_program_end t.body ≡ true → IsEnded (t ∷ [])
  unfolding back?
  end-IsEnded t e = e

module _ (J : JsonLib) (L : JsonLaws J) (drill_machine : Bool) where
  -- One emission in front of a log whose tasks end the program.
  next-IsEnded :
      (n : ℕ) (code : String) (c : Command) (g : Environment) (log : List Emission)
      → g.program_end_flag ≡ false
      → Follows (effect c g) log
      → ((effect c g).program_end_flag ≡ false → IsEnded (tasks_of J L drill_machine log))
      → IsEnded
          (tasks_of J L drill_machine (record { line_number = n; code = code; command = c } ∷ log))
  next-IsEnded n code (Command.coordinate_mode m) g log live f k = cons-IsEnded _ _ (k live)
  next-IsEnded n code (Command.coordinate_index index) g log live f k = cons-IsEnded _ _ (k live)
  next-IsEnded n code (Command.feed_speed speed) g log live f k = cons-IsEnded _ _ (k live)
  next-IsEnded n code (Command.delay t) g log live f k = cons-IsEnded _ _ (k live)
  next-IsEnded n code (Command.eleparam index) g log live f k = cons-IsEnded _ _ (k live)
  next-IsEnded n code (Command.coord_set_zero axes) g log live f k = cons-IsEnded _ _ (k live)
  next-IsEnded n code Command.pause g log live f k = cons-IsEnded _ _ (k live)
  next-IsEnded n code (Command.g01 mode index options coords) g log live f k =
      cons-IsEnded _ _ (k live)
  next-IsEnded n code (Command.g00 mode index m05 touch feed coords) g log live f k =
      cons-IsEnded _ _ (k live)
  next-IsEnded n code (Command.g01_group index points) g log live f k = cons-IsEnded _ _ (k live)
  next-IsEnded n code (Command.drill depth holdtime touch breakout back spindle_speed) g log live f
        k =
      if_elim {A = Made (Task J.Double)}
        (λ m. IsEnded (elim m [
          | task t ↦ t ∷ tasks_of J L drill_machine log
          | ignored ↦ tasks_of J L drill_machine log
        ]))
        drill_machine (λ _. cons-IsEnded _ _ (k live)) (λ _. k live)
  next-IsEnded n code Command.program_end g [] live f k = end-IsEnded _ refl
  next-IsEnded n code Command.program_end g (e ∷ log) live f k = absurd (false≢true (sym f.0))

  tasks_of-IsEnded :
      (g : Environment) (log : List Emission)
      → g.program_end_flag ≡ false
      → Follows g log
      → (replay log g).program_end_flag ≡ true
      → IsEnded (tasks_of J L drill_machine log)
  tasks_of-IsEnded g [] live f e = absurd (false≢true (sym live ∙ e))
  tasks_of-IsEnded g (e ∷ log) live f x =
      next-IsEnded e.line_number e.code e.command g log live f.3
        (λ l. tasks_of-IsEnded (effect e.command g) log l f.3 x)

  map-six :
      (f : Value → Option J.Double) (vs : List Value)
      → length vs ≡ 6
      → (length (map f vs) == 6) ≡ true
  map-six f vs e = rw (length-map f vs, e) refl

  body_of-has_six : (c : Command) → IsSound c → has_six (body_of J L c) ≡ true
  body_of-has_six (Command.g01 mode index options coords) h = map-six (coord_of J L) coords h.3.0
  body_of-has_six (Command.g00 mode index m05 touch feed coords) h =
      map-six (coord_of J L) coords h.6.0
  body_of-has_six _ h = refl

  next-HasSix :
      (n : ℕ) (code : String) (c : Command) (log : List Emission)
      → IsSound c
      → HasSix (tasks_of J L drill_machine log)
      → HasSix
          (tasks_of J L drill_machine (record { line_number = n; code = code; command = c } ∷ log))
  next-HasSix n code (Command.drill depth holdtime touch breakout back spindle_speed) log h k =
      if_elim {A = Made (Task J.Double)}
        (λ m. HasSix (elim m [
          | task t ↦ t ∷ tasks_of J L drill_machine log
          | ignored ↦ tasks_of J L drill_machine log
        ]))
        drill_machine (λ _. (refl, k)) (λ _. k)
  next-HasSix n code (Command.g01 mode index options coords) log h k =
      (body_of-has_six (Command.g01 mode index options coords) h, k)
  next-HasSix n code (Command.g00 mode index m05 touch feed coords) log h k =
      (body_of-has_six (Command.g00 mode index m05 touch feed coords) h, k)
  next-HasSix n code _ log h k = (refl, k)

  tasks_of-HasSix :
      (g : Environment) (log : List Emission)
      → Follows g log
      → HasSix (tasks_of J L drill_machine log)
  tasks_of-HasSix g [] f = tt
  tasks_of-HasSix g (e ∷ log) f =
      next-HasSix e.line_number e.code e.command log f.1
        (tasks_of-HasSix (effect e.command g) log f.3)

  answer_of-tasks :
      (g : Environment) (log : List Emission)
      → g.program_end_flag ≡ false
      → (replay log g).program_end_flag ≡ true
      → answer_of J L drill_machine log ≡ some (tasks_of J L drill_machine log)
  answer_of-tasks g [] live x = absurd (false≢true (sym live ∙ x))
  answer_of-tasks g (e ∷ log) live x = refl

  -- A part program whose command list is that of a log which can come about, reaches the end of the
  -- program, and has lines and numbers that fit into the types of the tasks: the converter makes
  -- tasks of the list, as the JSON library reads it back, and on a machine that accepts every
  -- motion, is idle at the next look and reports no touch, with the indices existing and the
  -- settings accepted, and where runs of `_run_once` within a wait for the answer to a command
  -- change nothing of the runner but what they push and emit (`calm`), the new runner starts these
  -- tasks and after `1 + 2 * n` runs of `_run_once`, where `n` is their number, is stopped with no
  -- error and no pause pending.
  pub program-HasEnded :
      (calls : List (Stack × Call)) (log : List Emission) (w : World J.Double)
      → (run calls new_interpreter).1.command_list ≡ map dict_of log
      → Follows new_interpreter.environment log
      → (replay log new_interpreter.environment).program_end_flag ≡ true
      → All (IsPlainEmission J L drill_machine) log
      → IsCooperative w
      → (ts : List (Task J.Double)) × (make_gcode_task_list J drill_machine
            (L.json_of (commands_value (run calls new_interpreter).1.command_list))
          ≡ value (some ts))
        × Gives
            (λ a.
              (a.0 ≡ true) × Gives HasEnded (runs drill_machine (calm w) (suc (2 * length ts)) a.1))
            (start (calm w) ts new_runner)
  unfolding new_interpreter
  program-HasEnded calls log w same f x plain c = (
    tasks_of J L drill_machine log,
    ap (λ cs. make_gcode_task_list J drill_machine (L.json_of (commands_value cs))) same
        ∙ make_gcode_task_list-log J L drill_machine new_interpreter.environment log f plain
        ∙ ap value (answer_of-tasks new_interpreter.environment log refl x),
    start-HasEnded drill_machine w c (tasks_of J L drill_machine log) new_runner begin refl
        (tasks_of-IsEnded new_interpreter.environment log refl f x)
        (tasks_of-HasSix new_interpreter.environment log f),
  )
