-- ===== src/TaskManager/Runner/Ticks.antt =====
-- `_run_once` of GCodeRunner and what it calls in each state; `drill_machine` is the build's switch.
use edm_project.TaskManager.Runner.Operations.{with_current}
use edm_project.Prelude.{Bool, true, not, Option, none, some, length, ◌==◌, if◌then◌else◌}
use edm_project.TaskManager.Task.{Task, TaskBody, is_motion_task, is_g01_group}
use edm_project.TaskManager.Runner.Waiting.{to_paused}
use edm_project.TaskManager.Runner.{
  State, MotionMainMode, MotionAutoState, Effect, ErrorText, Preparation, World, Runner, emit,
  await, switch_to_state, abort, end_program, drill_record_data, check_to_next_gcode,
}

module _ {Double : Type 0} where
  -- assert(cmd_values().size() == 6)
  abbrev pub has_six : TaskBody Double → Bool
  has_six (TaskBody.g00 detect touch feed index mode xs) = length xs == 6
  has_six (TaskBody.g01 index mode xs) = length xs == 6
  has_six _ = true

module _ {Double : Type 0} (drill_machine : Bool) (w : World Double) where
  -- `_state_current_node_initing`, where `t` is the current task.
  -- Only a machine that drills has the class of drill tasks.
  abbrev pub prepared : Preparation → Task Double → Runner Double → Runner Double
  prepared Preparation.started t r =
      switch_to_state State.running
        (drill_record_data drill_machine w true t (await w Effect.push_start r))
  prepared Preparation.nothing_to_move t r = check_to_next_gcode drill_machine w t r
  prepared (Preparation.refused pushed e) t r =
      abort w (ErrorText.text e) (if pushed then await w Effect.push_start r else r)

  -- The abort of a motion whose coordinate system does not exist.
  abbrev pub missing_index : TaskBody Double → Option ErrorText
  missing_index (TaskBody.g00 detect touch feed index mode xs) =
      if w.exist_coordinate_index index
      then none
      else some (ErrorText.indexed "abort: g00 coord index not exist: " index)
  missing_index (TaskBody.g01 index mode xs) =
      if w.exist_coordinate_index index
      then none
      else some (ErrorText.indexed "abort: g01 coord index not exist: " index)
  missing_index (TaskBody.g01_group index points) =
      if w.exist_coordinate_index index
      then none
      else some (ErrorText.indexed "abort: g01 group coord index not exist: " index)
  missing_index _ = none

  -- Then the assertion on the coordinates, and the rest of the preparation.
  unfoldable pub prepare_motion :
      Option ErrorText → Task Double → Runner Double → Option (Runner Double)
  unfolding switch_to_state check_to_next_gcode abort
  prepare_motion (some e) t r = some (abort w e r)
  prepare_motion none t r = if has_six t.body then some (prepared (w.prepare t) t r) else none

  unfoldable pub state_current_node_initing : Task Double → Runner Double → Option (Runner Double)
  unfolding switch_to_state prepare_motion
  state_current_node_initing t r =
      let r' : Runner Double = emit (Effect.sig_autogcode_switched_to_line t.line_number) r in
      if not (is_motion_task t.body)
      then some (switch_to_state State.running r')
      else prepare_motion (missing_index t.body) t r'

  -- `_state_running_non_motion`, for the class of the task; nothing where an assertion fails.
  unfoldable pub running_non_motion :
      TaskBody Double → Task Double → Runner Double → Option (Runner Double)
  unfolding end_program check_to_next_gcode abort
  running_non_motion TaskBody.program_end t r = some (end_program r)
  running_non_motion (TaskBody.coordinate_index index) t r = some (
      if w.exist_coordinate_index index
      then check_to_next_gcode drill_machine w t (emit (Effect.sig_switch_coordindex index) r)
      else abort w (ErrorText.indexed "abort: coord index not exist: " index) r)
  running_non_motion (TaskBody.eleparam_set index) t r = some (
      if w.exist_eleparam_index index
      then (if w.set_current_eleparam_index index
          then check_to_next_gcode drill_machine w t r
          else abort w (ErrorText.indexed "abort: ele param set failed: " index) r)
      else abort w (ErrorText.indexed "abort: ele param not exist: " index) r)
  running_non_motion (TaskBody.coord_set_zero axes) t r = some (
      if w.has_current_coord_offset
      then (if w.set_current_coord_offset
          then check_to_next_gcode drill_machine w t (emit Effect.sig_coord_offset_changed r)
          else abort w (ErrorText.text "abort: CoordSetZeroCommand: set zero failed") r)
      else abort w (ErrorText.text "abort: CoordSetZeroCommand: original offset get failed") r)
  running_non_motion TaskBody.coordinate_mode t r = some (check_to_next_gcode drill_machine w t r)
  running_non_motion TaskBody.feed_speed_set t r = some (check_to_next_gcode drill_machine w t r)
  running_non_motion _ t r = none

  -- The touch warning of a G00 motion, then the next task: the current one is read anew.
  abbrev pub motion_over : TaskBody Double → Task Double → Runner Double → Option (Runner Double)
  motion_over (TaskBody.g00 detect touch feed index mode xs) t r =
      if w.touch_warning
      then (if touch
          then (let r' : Runner Double = await w Effect.push_clear_warning r in
              if w.clear_warning_accepted
              then with_current r' (λ u. some (check_to_next_gcode drill_machine w u r'))
              else some (abort w (ErrorText.text "Clear Warning Failed") r'))
          else some (abort w (ErrorText.text "***Touch Warning !!") r))
      else some (check_to_next_gcode drill_machine w t r)
  motion_over _ t r = some (check_to_next_gcode drill_machine w t r)

  abbrev pub running_motion :
      MotionMainMode → MotionAutoState → Task Double → Runner Double → Option (Runner Double)
  running_motion MotionMainMode.auto MotionAutoState.paused t r = some (to_paused r)
  running_motion MotionMainMode.auto _ t r = some r
  running_motion MotionMainMode.idle s t r = motion_over t.body t r
  running_motion MotionMainMode.manual s t r =
      some (abort w (ErrorText.text "_state_running err: detected MM=Manual") r)

  -- `_state_running`
  unfoldable pub state_running : Task Double → Runner Double → Option (Runner Double)
  unfolding running_non_motion check_to_next_gcode abort switch_to_state
  state_running t r =
      if not (is_motion_task t.body)
      then running_non_motion t.body t r
      else (let r' : Runner Double =
            if is_g01_group t.body
            then emit (Effect.sig_autogcode_switched_to_line w.sub_line_number) r
            else r in
          running_motion w.main_mode w.auto_state t r')
