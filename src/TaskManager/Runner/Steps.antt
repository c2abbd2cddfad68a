-- ===== src/TaskManager/Runner/Steps.antt =====
-- `_run_once` of GCodeRunner, and a step of the runner: an operation, or a run of `_run_once`.
use mathlib.Core.Option
use edm_project.Prelude.{Bool, true, false, Option, none, some, List, if◌then◌else◌}
use edm_project.TaskManager.Task.{Task, is_motion_task}
use edm_project.TaskManager.Runner.Operations.{
  with_current, start, pause, resume, stop, estop, reset,
}
use edm_project.TaskManager.Runner.Waiting.{
  waiting_for_paused, waiting_for_resumed, waiting_for_stopped,
}
use edm_project.TaskManager.Runner.Ticks.{state_current_node_initing, state_running}
use edm_project.TaskManager.Runner.{
  State, Effect, World, Runner, emit, switch_to_state, end_program, drill_record_data,
}

-- What is done to the runner; `ticks` is `_run_once`, by the timer or by a signal.
pub data Event (Double : Type 0) : Type 0 where
  starts : List (Task Double) → Event Double
  pauses resumes stops estops resets ticks : Event Double

module _ {Double : Type 0} where
  -- `assert(curr_gcode->is_motion_task())` in front of the rest.
  abbrev pub on_motion : Task Double → Runner Double → Option (Runner Double)
  on_motion t r = if is_motion_task t.body then some r else none

  abbrev pub result : Option (Bool × Runner Double) → Option (Runner Double)
  result none = none
  result (some (b, r)) = some r

  -- The pause that was asked for before.
  abbrev pub cleared : Bool × Runner Double → Runner Double
  cleared (true, r) = record r { delay_pause_flag = false }
  cleared (false, r) = r

module _ {Double : Type 0} (drill_machine : Bool) (w : World Double) where
  -- The switch of `_run_once`, where the state reads the current task.
  unfoldable pub run_state : State → Task Double → Runner Double → Option (Runner Double)
  unfolding switch_to_state state_current_node_initing state_running waiting_for_paused
      waiting_for_resumed waiting_for_stopped end_program
  run_state State.current_node_initing t r = state_current_node_initing drill_machine w t r
  run_state State.running t r = state_running drill_machine w t r
  run_state State.waiting_for_paused t r =
      on_motion t (waiting_for_paused w w.main_mode w.auto_state r)
  run_state State.waiting_for_resumed t r =
      on_motion t (waiting_for_resumed w w.main_mode w.auto_state r)
  run_state State.waiting_for_stopped t r = on_motion t (
      waiting_for_stopped w w.main_mode w.auto_state
        (end_program (drill_record_data drill_machine w false t r)) r)
  run_state State.paused t r = some r
  run_state _ t r = some r

  unfoldable pub run_switch : State → Runner Double → Option (Runner Double)
  unfolding switch_to_state run_state
  run_switch State.ready_to_start r =
      some (emit Effect.sig_auto_started (switch_to_state State.current_node_initing r))
  run_switch s r = with_current r (λ t. run_state s t r)

  unfoldable pub delayed_pause : Runner Double → Option (Runner Double)
  unfolding pause
  delayed_pause r = if r.delay_pause_flag then Option.map cleared (pause w r) else some r

  unfoldable pub run_once : Runner Double → Option (Runner Double)
  unfolding run_switch delayed_pause Option.bind
  run_once r = Option.bind (run_switch r.state r) delayed_pause

  unfoldable pub step : Event Double → Runner Double → Option (Runner Double)
  unfolding start pause resume stop estop reset run_once
  step (starts gcode_list) r = result (start w gcode_list r)
  step pauses r = result (pause w r)
  step resumes r = result (resume w r)
  step stops r = result (stop w r)
  step estops r = result (estop w r)
  step resets r = some (reset r)
  step ticks r = run_once r
