-- ===== src/TaskManager/Runner/Moves.antt =====
-- What `_run_once` does keeps to the diagram of GCodeRunner's states.
use edm_project.TaskManager.Runner.Ticks.{
  prepared, state_current_node_initing, running_non_motion, motion_over, running_motion,
  state_running, prepare_motion, missing_index, has_six,
}
use edm_project.Prelude.{
  Option, none, some, ◌≡◌, refl, Bool, false, not, IfSome, if_elim, if◌then◌else◌, Option, some,
}
use edm_project.TaskManager.Task.{Task, TaskBody, is_motion_task, is_g01_group}
use edm_project.TaskManager.Runner.{
  State, Runner, World, ErrorText, Preparation, MotionMainMode, MotionAutoState, abort,
  switch_to_state, check_to_next_gcode, drill_record_data, calm, Effect, await,
}
use edm_project.TaskManager.Runner.Waiting.{
  waiting_for_paused, waiting_for_resumed, waiting_for_stopped, to_resumed,
}
use edm_project.TaskManager.Runner.Steps.{run_state, run_switch, on_motion}
use edm_project.TaskManager.Runner.Diagram.{
  Ticks, kept-Ticks, still-Ticks, abort-Ticks, end_program-Ticks, check_to_next_gcode-Ticks,
  with_current-IfSome,
}

module _ {Double : Type 0} where
  waiting_for_paused-Ticks :
      (w : World Double) (mode : MotionMainMode) (s : MotionAutoState) (r : Runner Double)
      → r.state ≡ State.waiting_for_paused
      → Ticks State.waiting_for_paused (waiting_for_paused (calm w) mode s r)
  unfolding waiting_for_paused switch_to_state
  waiting_for_paused-Ticks w MotionMainMode.auto MotionAutoState.paused r e =
      still-Ticks _ _ refl refl
  waiting_for_paused-Ticks w MotionMainMode.auto MotionAutoState.pausing r e = kept-Ticks _ r e
  waiting_for_paused-Ticks w MotionMainMode.auto _ r e = abort-Ticks w _ _ r
  waiting_for_paused-Ticks w MotionMainMode.idle s r e = abort-Ticks w _ _ r
  waiting_for_paused-Ticks w MotionMainMode.manual s r e = abort-Ticks w _ _ r

  to_resumed-Ticks : (r : Runner Double) → Ticks State.waiting_for_resumed (to_resumed r)
  unfolding switch_to_state
  to_resumed-Ticks r = record { edge = refl; pausable = λ l. (refl, refl) }

  waiting_for_resumed-Ticks :
      (w : World Double) (mode : MotionMainMode) (s : MotionAutoState) (r : Runner Double)
      → r.state ≡ State.waiting_for_resumed
      → Ticks State.waiting_for_resumed (waiting_for_resumed (calm w) mode s r)
  unfolding waiting_for_resumed
  waiting_for_resumed-Ticks w MotionMainMode.auto MotionAutoState.normal_moving r e =
      to_resumed-Ticks r
  waiting_for_resumed-Ticks w MotionMainMode.auto MotionAutoState.stopping r e = to_resumed-Ticks r
  waiting_for_resumed-Ticks w MotionMainMode.auto MotionAutoState.stopped r e = to_resumed-Ticks r
  waiting_for_resumed-Ticks w MotionMainMode.auto MotionAutoState.paused r e = kept-Ticks _ r e
  waiting_for_resumed-Ticks w MotionMainMode.auto MotionAutoState.resuming r e = kept-Ticks _ r e
  waiting_for_resumed-Ticks w MotionMainMode.auto MotionAutoState.pausing r e = abort-Ticks w _ _ r
  waiting_for_resumed-Ticks w MotionMainMode.idle s r e = to_resumed-Ticks r
  waiting_for_resumed-Ticks w MotionMainMode.manual s r e = abort-Ticks w _ _ r

  waiting_for_stopped-Ticks :
      (w : World Double) (mode : MotionMainMode) (s : MotionAutoState) (ended r : Runner Double)
      → Ticks State.waiting_for_stopped ended
      → r.state ≡ State.waiting_for_stopped
      → Ticks State.waiting_for_stopped (waiting_for_stopped (calm w) mode s ended r)
  unfolding waiting_for_stopped
  waiting_for_stopped-Ticks w MotionMainMode.auto MotionAutoState.stopping ended r h e =
      kept-Ticks _ r e
  waiting_for_stopped-Ticks w MotionMainMode.auto MotionAutoState.stopped ended r h e = h
  waiting_for_stopped-Ticks w MotionMainMode.auto _ ended r h e = abort-Ticks w _ _ r
  waiting_for_stopped-Ticks w MotionMainMode.idle s ended r h e = h
  waiting_for_stopped-Ticks w MotionMainMode.manual s ended r h e = abort-Ticks w _ _ r

  on_motion-Ticks :
      (s : State) (t : Task Double) (r : Runner Double)
      → Ticks s r
      → IfSome (Ticks s) (on_motion t r)
  on_motion-Ticks s t r h = if_elim (IfSome (Ticks s)) (is_motion_task t.body) (λ _. h) (λ _. tt)

module _ {Double : Type 0} (drill_machine : Bool) (w : World Double) where
  prepared-Ticks :
      (p : Preparation) (t : Task Double) (r : Runner Double)
      → Ticks State.current_node_initing (prepared drill_machine (calm w) p t r)
  unfolding switch_to_state
  prepared-Ticks Preparation.started t r = record { edge = refl; pausable = λ l. (refl, refl) }
  prepared-Ticks Preparation.nothing_to_move t r =
      check_to_next_gcode-Ticks _ drill_machine w t r refl
  prepared-Ticks (Preparation.refused pushed e) t r = abort-Ticks w _ _ _

  prepare_motion-Ticks :
      (o : Option ErrorText) (t : Task Double) (r : Runner Double)
      → IfSome (Ticks State.current_node_initing) (prepare_motion drill_machine (calm w) o t r)
  unfolding prepare_motion
  prepare_motion-Ticks (some e) t r = abort-Ticks w _ e r
  prepare_motion-Ticks none t r =
      if_elim (IfSome (Ticks State.current_node_initing)) (has_six t.body)
        (λ _. prepared-Ticks (w.prepare t) t r) (λ _. tt)

  state_current_node_initing-Ticks :
      (t : Task Double) (r : Runner Double)
      → IfSome
          (Ticks State.current_node_initing)
          (state_current_node_initing drill_machine (calm w) t r)
  unfolding state_current_node_initing switch_to_state
  state_current_node_initing-Ticks t r =
      if_elim (IfSome (Ticks State.current_node_initing)) (not (is_motion_task t.body))
        (λ _. record { edge = refl; pausable = λ l. (refl, refl) })
        (λ _. prepare_motion-Ticks (missing_index drill_machine (calm w) t.body) t _)

  -- A branch that goes on to the next task, or else aborts.
  next_or-Ticks :
      (b : Bool) (t : Task Double) (r r' : Runner Double) (e : ErrorText)
      → Ticks State.running
          (if b then check_to_next_gcode drill_machine (calm w) t r' else abort (calm w) e r)
  next_or-Ticks b t r r' e =
      if_elim (Ticks State.running) b (λ _. check_to_next_gcode-Ticks _ drill_machine w t r' refl)
        (λ _. abort-Ticks w _ e r)

  running_non_motion-Ticks :
      (b : TaskBody Double) (t : Task Double) (r : Runner Double)
      → IfSome (Ticks State.running) (running_non_motion drill_machine (calm w) b t r)
  unfolding running_non_motion
  running_non_motion-Ticks TaskBody.program_end t r = end_program-Ticks _ r
  running_non_motion-Ticks (TaskBody.coordinate_index index) t r = next_or-Ticks _ t r _ _
  running_non_motion-Ticks (TaskBody.eleparam_set index) t r =
      if_elim (Ticks State.running) (w.exist_eleparam_index index) (λ _. next_or-Ticks _ t r r _)
        (λ _. abort-Ticks w _ _ r)
  running_non_motion-Ticks (TaskBody.coord_set_zero axes) t r =
      if_elim (Ticks State.running) w.has_current_coord_offset (λ _. next_or-Ticks _ t r _ _)
        (λ _. abort-Ticks w _ _ r)
  running_non_motion-Ticks TaskBody.coordinate_mode t r =
      check_to_next_gcode-Ticks _ drill_machine w t r refl
  running_non_motion-Ticks TaskBody.feed_speed_set t r =
      check_to_next_gcode-Ticks _ drill_machine w t r refl
  running_non_motion-Ticks _ t r = tt

  motion_over-Ticks :
      (b : TaskBody Double) (t : Task Double) (r : Runner Double)
      → IfSome (Ticks State.running) (motion_over drill_machine (calm w) b t r)
  motion_over-Ticks (TaskBody.g00 detect touch feed index mode xs) t r =
      if_elim (IfSome (Ticks State.running)) w.touch_warning
        (λ _.
          if_elim (IfSome (Ticks State.running)) touch
            (λ _.
              if_elim (IfSome (Ticks State.running)) w.clear_warning_accepted
                (λ _.
                  with_current-IfSome (Ticks State.running)
                    (await (calm w) Effect.push_clear_warning r)
                    (λ u. some (
                      check_to_next_gcode drill_machine (calm w) u
                        (await (calm w) Effect.push_clear_warning r)))
                    (λ u.
                      check_to_next_gcode-Ticks State.running drill_machine w u
                        (await (calm w) Effect.push_clear_warning r) refl))
                (λ _. abort-Ticks w State.running _ (await (calm w) Effect.push_clear_warning r)))
            (λ _. abort-Ticks w _ _ r))
        (λ _. check_to_next_gcode-Ticks _ drill_machine w t r refl)
  motion_over-Ticks _ t r = check_to_next_gcode-Ticks _ drill_machine w t r refl

  running_motion-Ticks :
      (mode : MotionMainMode) (s : MotionAutoState) (t : Task Double) (r : Runner Double)
      → r.state ≡ State.running
      → IfSome (Ticks State.running) (running_motion drill_machine (calm w) mode s t r)
  unfolding switch_to_state
  running_motion-Ticks MotionMainMode.auto MotionAutoState.paused t r e = still-Ticks _ _ refl refl
  running_motion-Ticks MotionMainMode.auto _ t r e = kept-Ticks _ r e
  running_motion-Ticks MotionMainMode.idle s t r e = motion_over-Ticks t.body t r
  running_motion-Ticks MotionMainMode.manual s t r e = abort-Ticks w _ _ r

  state_running-Ticks :
      (t : Task Double) (r : Runner Double)
      → r.state ≡ State.running
      → IfSome (Ticks State.running) (state_running drill_machine (calm w) t r)
  unfolding state_running
  state_running-Ticks t r e =
      if_elim (IfSome (Ticks State.running)) (not (is_motion_task t.body))
        (λ _. running_non_motion-Ticks t.body t r)
        (λ _. running_motion-Ticks w.main_mode w.auto_state t _ (
          if_elim (λ (r' : Runner Double). r'.state ≡ State.running) (is_g01_group t.body) (λ _. e)
            (λ _. e)))

  pub run_switch-Ticks :
      (s : State) (r : Runner Double)
      → r.state ≡ s
      → IfSome (Ticks s) (run_switch drill_machine (calm w) s r)
  unfolding run_switch run_state switch_to_state
  run_switch-Ticks State.ready_to_start r e = still-Ticks _ _ refl refl
  run_switch-Ticks State.current_node_initing r e =
      with_current-IfSome _ r _ (λ t. state_current_node_initing-Ticks t r)
  run_switch-Ticks State.running r e = with_current-IfSome _ r _ (λ t. state_running-Ticks t r e)
  run_switch-Ticks State.waiting_for_paused r e =
      with_current-IfSome _ r _
        (λ t. on_motion-Ticks _ t _ (waiting_for_paused-Ticks w w.main_mode w.auto_state r e))
  run_switch-Ticks State.waiting_for_resumed r e =
      with_current-IfSome _ r _
        (λ t. on_motion-Ticks _ t _ (waiting_for_resumed-Ticks w w.main_mode w.auto_state r e))
  run_switch-Ticks State.waiting_for_stopped r e = with_current-IfSome _ r _ (λ t.
      on_motion-Ticks _ t _ (
        waiting_for_stopped-Ticks w w.main_mode w.auto_state _ r
          (end_program-Ticks _ (drill_record_data drill_machine (calm w) false t r)) e))
  run_switch-Ticks State.paused r e = with_current-IfSome _ r _ (λ t. kept-Ticks _ r e)
  run_switch-Ticks State.stopped r e = with_current-IfSome _ r _ (λ t. kept-Ticks _ r e)
