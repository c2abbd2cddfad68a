-- ===== src/TaskManager/Runner/Waiting.antt =====
-- The states of GCodeRunner that wait for the motion thread, and its pausing while a task runs.
-- The assertions on the current task are made by the caller.
use edm_project.Prelude.{false}
use edm_project.TaskManager.Runner.{
  State, MotionMainMode, MotionAutoState, Effect, ErrorText, World, Runner, emit, switch_to_state,
  abort,
}

module _ {Double : Type 0} where
  abbrev pub to_paused : Runner Double → Runner Double
  to_paused r =
      emit Effect.sig_auto_paused
        (record (switch_to_state State.paused r) { delay_pause_flag = false })

  abbrev pub to_resumed : Runner Double → Runner Double
  to_resumed r = emit Effect.sig_auto_resumed (switch_to_state State.running r)

  -- `_state_waiting_for_paused`
  unfoldable pub waiting_for_paused :
      World Double → MotionMainMode → MotionAutoState → Runner Double → Runner Double
  unfolding abort switch_to_state
  waiting_for_paused w MotionMainMode.auto MotionAutoState.paused r = to_paused r
  waiting_for_paused w MotionMainMode.auto MotionAutoState.pausing r = r
  waiting_for_paused w MotionMainMode.auto s r =
      abort w (ErrorText.in_state "_state_waiting_for_paused err: detected MM={}" s) r
  waiting_for_paused w MotionMainMode.idle s r =
      abort w (ErrorText.text "_state_waiting_for_paused err: detected MM=Idle") r
  waiting_for_paused w MotionMainMode.manual s r =
      abort w (ErrorText.text "_state_waiting_for_paused err: detected MM=Manual") r

  -- `_state_waiting_for_resumed`
  unfoldable pub waiting_for_resumed :
      World Double → MotionMainMode → MotionAutoState → Runner Double → Runner Double
  unfolding abort switch_to_state
  waiting_for_resumed w MotionMainMode.auto MotionAutoState.normal_moving r = to_resumed r
  waiting_for_resumed w MotionMainMode.auto MotionAutoState.stopping r = to_resumed r
  waiting_for_resumed w MotionMainMode.auto MotionAutoState.stopped r = to_resumed r
  waiting_for_resumed w MotionMainMode.auto MotionAutoState.paused r = r
  waiting_for_resumed w MotionMainMode.auto MotionAutoState.resuming r = r
  waiting_for_resumed w MotionMainMode.auto MotionAutoState.pausing r =
      abort w
        (ErrorText.in_state "_state_waiting_for_resumed err: detected MM={}"
          MotionAutoState.pausing)
        r
  waiting_for_resumed w MotionMainMode.idle s r = to_resumed r
  waiting_for_resumed w MotionMainMode.manual s r =
      abort w (ErrorText.text "_state_waiting_for_resumed err: detected MM=Manual") r

  -- `_state_waiting_for_stopped`; `ended` is what follows when the motion has stopped.
  unfoldable pub waiting_for_stopped :
      World Double
      → MotionMainMode
      → MotionAutoState
      → Runner Double
      → Runner Double
      → Runner Double
  unfolding abort
  waiting_for_stopped w MotionMainMode.auto MotionAutoState.stopping ended r = r
  waiting_for_stopped w MotionMainMode.auto MotionAutoState.stopped ended r = ended
  waiting_for_stopped w MotionMainMode.auto s ended r =
      abort w (ErrorText.in_state "_state_waiting_for_stopped err: detected MM={}" s) r
  waiting_for_stopped w MotionMainMode.idle s ended r = ended
  waiting_for_stopped w MotionMainMode.manual s ended r =
      abort w (ErrorText.text "_state_waiting_for_stopped err: detected MM=Manual") r
