-- ===== src/Tests/Runner.antt =====
-- The theorems on the runner at a concrete program and a concrete machine.
use mathlib.Core.Option
use edm_project.TaskManager.Runner.Ticks.{state_running, state_current_node_initing, prepare_motion}
use edm_project.TaskManager.Runner.Delays.{IsAsked, pause-IsAsked}
use edm_project.TaskManager.Machining.{program-HasEnded}
use edm_project.TaskManager.Json.{value}
use edm_project.TaskManager.Programs.{commands_value}
use edm_project.TaskManager.Dispatch.{make_gcode_task_list}
use edm_project.Rs274.Lint.Translate.{run-translate}
use edm_project.Rs274.Interpreter.Program.{run, Call}
use edm_project.Rs274.Environment.{new_environment}
use edm_project.Rs274.Interpreter.State.{new_interpreter}
use edm_project.Rs274.Runs.Log.{Emission, dict_of}
use edm_project.Gcode.Script.{Statement, at}
use edm_project.Prelude.{
  ℕ, ◌≡◌, refl, suc, ◌*◌, true, false, none, some, List, [], ◌∷◌, map, arith, length, Gives,
  replicate,
}
use edm_project.Prelude.Int.{pos, negsuc}
use edm_project.Tests.{running, IsModal-new_interpreter}
use edm_project.Rs274.Enums.{CoordinateMode}
use edm_project.Rs274.Spec.Command.{Command}
use edm_project.TaskManager.Instance.{value_json, value_laws}
use edm_project.TaskManager.Task.{Task, TaskBody, GCodeCoordinateMode}
use edm_project.TaskManager.Runner.{
  State, MotionMainMode, MotionAutoState, Preparation, World, Runner, new_runner, switch_to_state,
  abort, reset_state, calm, check_to_next_gcode,
}
use edm_project.TaskManager.Runner.Operations.{
  start, pause, pause_in, pause_task, stop, stop_in, stop_task,
}
use edm_project.TaskManager.Runner.Steps.{run_once, run_switch, run_state, delayed_pause}
use edm_project.TaskManager.Runner.Cooperative.{IsCooperative}
use edm_project.TaskManager.Runner.Ends.{HasEnded, runs}

-- A machine that accepts all and is idle again.
abbrev willing : {Double : Type 0} → World Double
willing = record {
  main_mode = MotionMainMode.idle;
  auto_state = MotionAutoState.stopped;
  touch_warning = false;
  sub_line_number = pos 0;
  pause_accepted = true;
  resume_accepted = true;
  stop_accepted = true;
  emergency_stop_accepted = true;
  clear_warning_accepted = true;
  exist_coordinate_index = λ i. true;
  exist_eleparam_index = λ i. true;
  set_current_eleparam_index = λ i. true;
  has_current_coord_offset = true;
  set_current_coord_offset = true;
  auto_record_data = true;
  prepare = λ t. Preparation.started;
  meanwhile = λ e r. r;
}

willing-IsCooperative : {Double : Type 0} → IsCooperative (willing {Double = Double})
willing-IsCooperative = record {
  starts_all = λ t. refl;
  idle_again = refl;
  untouched = refl;
  coordinate_exists = λ i. refl;
  eleparam_exists = λ i. refl;
  eleparam_set = λ i. refl;
  offset_read = refl;
  offset_set = refl;
}

-- The tasks of i.g90(); i.g04(1); i.m02(), with times in ℕ.
abbrev task_at : ℕ → TaskBody ℕ → Task ℕ
task_at n b = record {
  body = b;
  line_number = pos n;
  node_index = negsuc 0;
  gcode_str = "i.g90()";
  options = [];
}

abbrev tasks : List (Task ℕ)
tasks =
    task_at 1 TaskBody.coordinate_mode
    ∷ task_at 2 (TaskBody.delay 1)
    ∷ task_at 3 TaskBody.program_end
    ∷ []

-- The runner after the start of these tasks.
abbrev started_runner : Runner ℕ
started_runner = record {
  state = State.ready_to_start;
  gcode_list = tasks;
  curr_gcode_num = 0;
  last_error = none;
  delay_pause_flag = false;
  update_timer = true;
  fast_period = true;
  effects = [];
}

-- The delay is prepared.
abbrev preparing_runner : Runner ℕ
preparing_runner = record started_runner { state = State.current_node_initing; curr_gcode_num = 1 }

pause-IsAsked_example :
    Gives
      (λ a. (a.0 ≡ false) × Gives (IsAsked true true) (run_once true willing a.1))
      (pause willing preparing_runner)
pause-IsAsked_example =
    pause-IsAsked true willing (task_at 2 (TaskBody.delay 1)) preparing_runner refl refl
      (λ m. (refl, refl, refl))

-- i.g90(); i.m02()
abbrev short_program : List Statement
short_program = at 1 Call.g90 ∷ at 2 Call.m02 ∷ []

abbrev short_log : List Emission
short_log =
    record {
      line_number = 1;
      code = "i.g90()";
      command = Command.coordinate_mode CoordinateMode.absolute_mode;
    }
    ∷ record { line_number = 2; code = "i.g90()"; command = Command.program_end }
    ∷ []

short_program-log :
    (run (running short_program) new_interpreter).1.command_list ≡ map dict_of short_log
unfolding new_interpreter new_environment
short_program-log =
    run-translate (running short_program) new_interpreter ((1, _, refl), ((2, _, refl), tt))
      IsModal-new_interpreter

program-HasEnded_example :
    (ts : List (Task value_json.Double)) × (make_gcode_task_list value_json true
        (commands_value (run (running short_program) new_interpreter).1.command_list)
      ≡ value (some ts))
    × Gives
        (λ a. (a.0 ≡ true) × Gives HasEnded (runs true willing (suc (2 * length ts)) a.1))
        (start willing ts new_runner)
unfolding new_interpreter new_environment
program-HasEnded_example =
    program-HasEnded value_json value_laws true (running short_program) short_log willing
      short_program-log (refl, (λ e. cc), tt, (refl, tt, tt, tt)) refl
      ((omega arith, tt), ((omega arith, tt), tt)) willing-IsCooperative

-- A machine whose timer runs `_run_once` while the runner waits for an answer; what this run is
-- answered is `inner`, and it waits for nothing.
abbrev nested : World ℕ → World ℕ → World ℕ
nested inner w = record w {
  meanwhile = λ e r. elim (run_once true inner r) [ none ↦ r | some r' ↦ r' ];
}

-- A G00 in front of the program's end, with six coordinates.
abbrev moving_tasks : List (Task ℕ)
moving_tasks =
    task_at 1 (
      TaskBody.g00 true false (pos 1) (pos 0) GCodeCoordinateMode.absolute_mode
        (replicate 6 (some 0)))
    ∷ task_at 2 TaskBody.program_end
    ∷ []

abbrev moving_runner : State → Runner ℕ
moving_runner s = record started_runner { state = s; gcode_list = moving_tasks }

abbrev going_on : World ℕ
going_on = record willing {
  main_mode = MotionMainMode.auto;
  auto_state = MotionAutoState.normal_moving;
}

-- A run that looks at a motion which goes on changes nothing.
run_once-going_on :
    run_once true going_on (moving_runner State.running) ≡ some (moving_runner State.running)
unfolding run_once run_switch run_state state_running delayed_pause Option.bind
run_once-going_on = refl

-- Within the wait for a pause that is accepted it is as if it had not been.
pause-going_on :
    pause (nested going_on going_on) (moving_runner State.running)
    ≡ pause (calm going_on) (moving_runner State.running)
unfolding run_once run_switch run_state state_running delayed_pause Option.bind pause pause_in
    pause_task
pause-going_on = refl

abbrev touched : World ℕ
touched = record willing { touch_warning = true; pause_accepted = false }

-- The run within the wait for the pause aborts, and the pause is refused: the runner is stopped, and
-- the pause is pending.
pause-nested :
    Gives
      (λ a. (a.1.state ≡ State.stopped) × (a.1.delay_pause_flag ≡ true))
      (pause (nested touched touched) (moving_runner State.running))
unfolding pause pause_in pause_task run_once run_switch run_state state_running abort reset_state
    delayed_pause Option.bind
pause-nested = (refl, refl)

abbrev refusing : World ℕ
refusing = record willing { prepare = λ t. Preparation.refused true "abort: start g00 failed" }

-- The run within the wait for the start of a motion is refused and aborts, and the start that is
-- waited for is accepted: the runner is running, and its timer is off.
run_once-nested :
    Gives
      (λ r. (r.state ≡ State.running) × (r.update_timer ≡ false))
      (run_once true (nested refusing willing) (moving_runner State.current_node_initing))
unfolding run_once run_switch run_state state_current_node_initing prepare_motion abort reset_state
    switch_to_state delayed_pause Option.bind
run_once-nested = (refl, refl)

-- The run within the wait for the stop of a motion goes on to the program's end: the runner waits for
-- a stop at a task that is no motion, and the assertion on the task's class fails.
stop-nested :
    Gives
      (λ a. run_once true willing a.1 ≡ none)
      (stop (nested willing willing) (moving_runner State.running))
unfolding run_once run_switch run_state state_running delayed_pause Option.bind stop stop_in
    stop_task check_to_next_gcode switch_to_state
stop-nested = refl
