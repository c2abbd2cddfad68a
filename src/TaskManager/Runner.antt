-- ===== src/TaskManager/Runner.antt =====
-- class GCodeRunner: its state, and the steps that its operations share. A function gives nothing
-- where the code indexes the task list out of range or an assertion fails.
pub mod Operations
pub mod Waiting
pub mod Ticks
pub mod Steps
pub mod Valid
pub mod Keeps
pub mod Starts
pub mod Runs
pub mod Initing
pub mod Waits
pub mod Reach
pub mod Cooperative
pub mod Comes
pub mod Ends
pub mod Finishes
pub mod Delays
pub mod Diagram
pub mod Moves
pub mod Follows
pub mod Edges
use edm_project.Prelude.{
  ℕ, suc, String, Bool, true, false, not, ◌||◌, ◌&&◌, Option, none, some, List, [], ◌∷◌, ◌++◌,
  get_elem?, length, ltb, if◌then◌else◌,
}
use edm_project.Prelude.Int.{ℤ}
use edm_project.TaskManager.Task.{Task, is_motion_task, is_drill, is_g01_group}

pub data State : Type 0 where
  ready_to_start current_node_initing running waiting_for_paused paused waiting_for_resumed
        waiting_for_stopped stopped :
      State

pub data MotionMainMode : Type 0 where
  idle manual auto : MotionMainMode

pub data MotionAutoState : Type 0 where
  normal_moving pausing paused resuming stopping stopped : MotionAutoState

-- The text of an error, with the value that is formatted into it.
pub data ErrorText : Type 0 where
  text : String → ErrorText
  indexed : String → ℤ → ErrorText
  -- with the name of the automatic state, GetAutoStateStr
  in_state : String → MotionAutoState → ErrorText
  -- "_check_to_next_gcode: gcode overflow"
  gcode_overflow : ErrorText

-- What the motion thread is told, and what the runner's signals say.
pub data Effect : Type 0 where
  push_pause push_resume push_stop push_emergency_stop push_clear_warning push_start : Effect
  sig_auto_started sig_auto_paused sig_auto_resumed sig_coord_offset_changed : Effect
  sig_auto_stopped : Bool → Effect
  -- Both signals of `_drill_record_data`: the motion data and the audio.
  sig_record_data : Bool → Effect
  sig_autogcode_switched_to_line sig_switch_coordindex : ℤ → Effect
  -- QTimer::singleShot(50, _run_once)
  run_once_soon : Effect

-- How the preparation of a motion task ends: its command is accepted; there is nothing to move; or
-- the runner aborts, with a command pushed or not.
pub data Preparation : Type 0 where
  started nothing_to_move : Preparation
  refused : Bool → String → Preparation

abbrev pub is_stopped : State → Bool
is_stopped State.stopped = true
is_stopped _ = false

module _ (Double : Type 0) where
  -- The fields but the timers of the tasks; `update_timer` says whether the timer runs, `fast_period`
  -- with which interval. `effects` is what has been pushed and emitted, in order.
  pub record Runner : Type 0 where
    pub state : State
    pub gcode_list : List (Task Double)
    pub curr_gcode_num : ℕ
    pub last_error : Option ErrorText
    pub delay_pause_flag : Bool
    pub update_timer : Bool
    pub fast_period : Bool
    pub effects : List Effect

  -- What the runner is answered during one call: the motion thread's info and its acceptance of
  -- commands, the coordinate system, the power manager, the settings. While the runner waits for the
  -- answer to a command (TaskHelper::WaitforCmdTobeAccepted), the event loop goes on without the
  -- user's input: `meanwhile` is what the runs of `_run_once` do to the runner that the timer or a
  -- signal makes in the wait for the answer to this command, where they return.
  pub record World : Type 0 where
    pub main_mode : MotionMainMode
    pub auto_state : MotionAutoState
    pub touch_warning : Bool
    pub sub_line_number : ℤ
    pub pause_accepted : Bool
    pub resume_accepted : Bool
    pub stop_accepted : Bool
    pub emergency_stop_accepted : Bool
    pub clear_warning_accepted : Bool
    pub exist_coordinate_index : ℤ → Bool
    pub exist_eleparam_index : ℤ → Bool
    pub set_current_eleparam_index : ℤ → Bool
    pub has_current_coord_offset : Bool
    pub set_current_coord_offset : Bool
    pub auto_record_data : Bool
    pub prepare : Task Double → Preparation
    pub meanwhile : Effect → Runner → Runner

module _ {Double : Type 0} where
  abbrev pub new_runner : Runner Double
  new_runner = record {
    state = State.stopped;
    gcode_list = [];
    curr_gcode_num = 0;
    last_error = none;
    delay_pause_flag = false;
    update_timer = false;
    fast_period = false;
    effects = [];
  }

  abbrev pub emit : Effect → Runner Double → Runner Double
  emit e r = record r { effects = r.effects ++ e ∷ [] }

  -- A command is pushed, and its answer waited for.
  abbrev pub await : World Double → Effect → Runner Double → Runner Double
  await w e r = w.meanwhile e (emit e r)

  -- The same machine, where the runs of `_run_once` while the runner waits change nothing of it but
  -- what they push and emit.
  abbrev pub calm : World Double → World Double
  calm w = record w { meanwhile = λ e r. record r { effects = (w.meanwhile e r).effects } }

  -- `gcode_list_[curr_gcode_num_]`
  abbrev pub current : Runner Double → Option (Task Double)
  current r = get_elem? r.gcode_list r.curr_gcode_num

  -- f_should_fast_peroid
  abbrev pub is_fast_running : Option (Task Double) → Bool
  is_fast_running none = false
  is_fast_running (some t) = is_g01_group t.body || not (is_motion_task t.body)

  abbrev pub should_fast_period : State → Runner Double → Bool
  should_fast_period State.ready_to_start r = true
  should_fast_period State.current_node_initing r = true
  should_fast_period State.waiting_for_paused r = true
  should_fast_period State.waiting_for_resumed r = true
  should_fast_period State.waiting_for_stopped r = true
  should_fast_period State.running r = is_fast_running (current r)
  should_fast_period _ r = false

  unfoldable pub switch_to_state : State → Runner Double → Runner Double
  switch_to_state s r = record r { fast_period = should_fast_period s r; state = s }

  unfoldable pub reset_state : Runner Double → Runner Double
  reset_state r = record r { state = State.stopped; update_timer = false; delay_pause_flag = false }

  unfoldable pub abort : World Double → ErrorText → Runner Double → Runner Double
  unfolding reset_state
  abort w error r =
      emit (sig_auto_stopped true)
        (record (reset_state (await w push_emergency_stop r)) { last_error = some error })

  unfoldable pub end_program : Runner Double → Runner Double
  unfolding reset_state switch_to_state
  end_program r =
      emit (sig_auto_stopped false)
        (record (reset_state (switch_to_state State.stopped r)) { last_error = none })

  -- `_drill_record_data`, on a machine that drills and for a drill task.
  abbrev pub drill_record_data :
      Bool → World Double → Bool → Task Double → Runner Double → Runner Double
  drill_record_data drill_machine w start t r =
      if drill_machine && is_drill t.body && w.auto_record_data
      then emit (sig_record_data start) r
      else r

  -- `_check_to_next_gcode`, where `t` is the current task.
  unfoldable pub check_to_next_gcode :
      Bool → World Double → Task Double → Runner Double → Runner Double
  unfolding abort switch_to_state
  check_to_next_gcode drill_machine w t r =
      let r' : Runner Double = drill_record_data drill_machine w false t r in
      let next : Runner Double = record r' { curr_gcode_num = suc r'.curr_gcode_num } in
      if ltb next.curr_gcode_num (length next.gcode_list)
      then emit run_once_soon (switch_to_state State.current_node_initing next)
      else abort w gcode_overflow next
