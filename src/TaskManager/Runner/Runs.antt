-- ===== src/TaskManager/Runner/Runs.antt =====
-- `_run_once` keeps GCodeRunner well formed; no index is out of range and no assertion fails, but the
-- one on the class of a task that is not a motion.
use mathlib.Core.Bool.{false≢true}
use edm_project.TaskManager.Runner.Ticks.{
  motion_over, running_motion, running_non_motion, state_running,
}
use edm_project.TaskManager.Runner.Keeps.{
  is_overflow, other, with_current-Gives, not-false, not-true,
}
use edm_project.Prelude.{
  Bool, true, false, not, ◌≡◌, inr, refl, Gives, if_elim, if◌then◌else◌, sym, ap, ap, sym,
}
use edm_project.TaskManager.Task.{Task, TaskBody, is_motion_task, is_program_end}
use edm_project.TaskManager.Runner.{
  State, Runner, World, ErrorText, switch_to_state, abort, MotionMainMode, MotionAutoState, Effect,
  emit, is_g01_group, check_to_next_gcode, calm, await,
}
use edm_project.TaskManager.Runner.Valid.{
  IsValid, IsValidIn, abort-IsValid, IsAt, check_to_next_gcode-IsValid, end_program-IsValid,
}

module _ {Double : Type 0} where
  -- The abort at a text, and where the current task is `t`.
  pub refused-IsValid :
      (w : World Double) (e : ErrorText) (t : Task Double) (r : Runner Double)
      → is_overflow e ≡ false
      → IsAt t r
      → IsValid (abort (calm w) e r)
  refused-IsValid w e t r o h = abort-IsValid w e r (other e o) (inr (t, h.0))

  pub motion-not-end : (t : TaskBody Double) → is_motion_task t ≡ true → is_program_end t ≡ false
  motion-not-end (TaskBody.g00 detect touch feed index mode xs) m = refl
  motion-not-end (TaskBody.g01 index mode xs) m = refl
  motion-not-end TaskBody.coordinate_mode m = refl
  motion-not-end TaskBody.feed_speed_set m = refl
  motion-not-end TaskBody.program_end m = absurd (false≢true m)
  motion-not-end TaskBody.pause m = refl
  motion-not-end (TaskBody.coordinate_index index) m = refl
  motion-not-end (TaskBody.eleparam_set index) m = refl
  motion-not-end (TaskBody.delay s) m = refl
  motion-not-end (TaskBody.coord_set_zero axes) m = refl
  motion-not-end (TaskBody.drill params) m = refl
  motion-not-end (TaskBody.g01_group index points) m = refl

module _ {Double : Type 0} (drill_machine : Bool) (w : World Double) where
  motion_over-IsValid :
      (b : TaskBody Double) (t : Task Double) (r : Runner Double)
      → is_program_end t.body ≡ false
      → IsAt t r
      → Gives IsValid (motion_over drill_machine (calm w) b t r)
  motion_over-IsValid (TaskBody.g00 detect touch feed index mode xs) t r k h =
      if_elim (Gives IsValid) w.touch_warning
        (λ _.
          if_elim (Gives IsValid) touch
            (λ _.
              if_elim (Gives IsValid) w.clear_warning_accepted
                (λ _.
                  with_current-Gives IsValid (await (calm w) Effect.push_clear_warning r) _ t h.0 (
                    check_to_next_gcode-IsValid drill_machine w t
                      (await (calm w) Effect.push_clear_warning r) h k))
                (λ _. refused-IsValid w _ t (await (calm w) Effect.push_clear_warning r) refl h))
            (λ _. refused-IsValid w _ t r refl h))
        (λ _. check_to_next_gcode-IsValid drill_machine w t r h k)
  motion_over-IsValid (TaskBody.g01 index mode xs) t r k h =
      check_to_next_gcode-IsValid drill_machine w t r h k
  motion_over-IsValid TaskBody.coordinate_mode t r k h =
      check_to_next_gcode-IsValid drill_machine w t r h k
  motion_over-IsValid TaskBody.feed_speed_set t r k h =
      check_to_next_gcode-IsValid drill_machine w t r h k
  motion_over-IsValid TaskBody.program_end t r k h =
      check_to_next_gcode-IsValid drill_machine w t r h k
  motion_over-IsValid TaskBody.pause t r k h = check_to_next_gcode-IsValid drill_machine w t r h k
  motion_over-IsValid (TaskBody.coordinate_index index) t r k h =
      check_to_next_gcode-IsValid drill_machine w t r h k
  motion_over-IsValid (TaskBody.eleparam_set index) t r k h =
      check_to_next_gcode-IsValid drill_machine w t r h k
  motion_over-IsValid (TaskBody.delay s) t r k h =
      check_to_next_gcode-IsValid drill_machine w t r h k
  motion_over-IsValid (TaskBody.coord_set_zero axes) t r k h =
      check_to_next_gcode-IsValid drill_machine w t r h k
  motion_over-IsValid (TaskBody.drill params) t r k h =
      check_to_next_gcode-IsValid drill_machine w t r h k
  motion_over-IsValid (TaskBody.g01_group index points) t r k h =
      check_to_next_gcode-IsValid drill_machine w t r h k

  running_motion-IsValid :
      (m : MotionMainMode) (s : MotionAutoState) (t : Task Double) (r : Runner Double)
      → r.state ≡ State.running
      → is_motion_task t.body ≡ true
      → IsAt t r
      → Gives IsValid (running_motion drill_machine (calm w) m s t r)
  unfolding switch_to_state IsValidIn
  running_motion-IsValid MotionMainMode.auto MotionAutoState.paused t r e m h = (t, h)
  running_motion-IsValid MotionMainMode.auto MotionAutoState.normal_moving t r e m h = rw e (t, h)
  running_motion-IsValid MotionMainMode.auto MotionAutoState.pausing t r e m h = rw e (t, h)
  running_motion-IsValid MotionMainMode.auto MotionAutoState.resuming t r e m h = rw e (t, h)
  running_motion-IsValid MotionMainMode.auto MotionAutoState.stopping t r e m h = rw e (t, h)
  running_motion-IsValid MotionMainMode.auto MotionAutoState.stopped t r e m h = rw e (t, h)
  running_motion-IsValid MotionMainMode.idle s t r e m h =
      motion_over-IsValid t.body t r (motion-not-end t.body m) h
  running_motion-IsValid MotionMainMode.manual s t r e m h = refused-IsValid w _ t r refl h

  -- The signals of a branch that goes on to the next task, or else aborts.
  next_or-IsValid :
      (b : Bool) (t : Task Double) (r r' : Runner Double) (e : ErrorText)
      → is_program_end t.body ≡ false
      → is_overflow e ≡ false
      → IsAt t r'
      → IsAt t r
      → IsValid (if b then check_to_next_gcode drill_machine (calm w) t r' else abort (calm w) e r)
  next_or-IsValid b t r r' e k o h' h =
      if_elim IsValid b (λ _. check_to_next_gcode-IsValid drill_machine w t r' h' k)
        (λ _. refused-IsValid w e t r o h)

  running_non_motion-IsValid :
      (b : TaskBody Double) (t : Task Double) (r : Runner Double)
      → t.body ≡ b
      → is_motion_task b ≡ false
      → IsAt t r
      → Gives IsValid (running_non_motion drill_machine (calm w) b t r)
  unfolding running_non_motion
  running_non_motion-IsValid TaskBody.program_end t r e m h = end_program-IsValid r (inr (t, h.0))
  running_non_motion-IsValid (TaskBody.coordinate_index index) t r e m h =
      next_or-IsValid (w.exist_coordinate_index index) t r
        (emit (Effect.sig_switch_coordindex index) r) _ (ap is_program_end e) refl h h
  running_non_motion-IsValid (TaskBody.eleparam_set index) t r e m h =
      if_elim IsValid (w.exist_eleparam_index index)
        (λ _.
          next_or-IsValid (w.set_current_eleparam_index index) t r r _ (ap is_program_end e) refl h
            h)
        (λ _. refused-IsValid w _ t r refl h)
  running_non_motion-IsValid (TaskBody.coord_set_zero axes) t r e m h =
      if_elim IsValid w.has_current_coord_offset
        (λ _.
          next_or-IsValid w.set_current_coord_offset t r (emit Effect.sig_coord_offset_changed r) _
            (ap is_program_end e) refl h h)
        (λ _. refused-IsValid w _ t r refl h)
  running_non_motion-IsValid TaskBody.coordinate_mode t r e m h =
      check_to_next_gcode-IsValid drill_machine w t r h (ap is_program_end e)
  running_non_motion-IsValid TaskBody.feed_speed_set t r e m h =
      check_to_next_gcode-IsValid drill_machine w t r h (ap is_program_end e)
  running_non_motion-IsValid (TaskBody.g00 detect touch feed index mode xs) t r e m h =
      absurd (false≢true (sym m))
  running_non_motion-IsValid (TaskBody.g01 index mode xs) t r e m h = absurd (false≢true (sym m))
  running_non_motion-IsValid TaskBody.pause t r e m h = absurd (false≢true (sym m))
  running_non_motion-IsValid (TaskBody.delay s) t r e m h = absurd (false≢true (sym m))
  running_non_motion-IsValid (TaskBody.drill params) t r e m h = absurd (false≢true (sym m))
  running_non_motion-IsValid (TaskBody.g01_group index points) t r e m h =
      absurd (false≢true (sym m))

  pub state_running-IsValid :
      (t : Task Double) (r : Runner Double)
      → r.state ≡ State.running
      → IsAt t r
      → Gives IsValid (state_running drill_machine (calm w) t r)
  unfolding state_running
  state_running-IsValid t r e h =
      if_elim (Gives IsValid) (not (is_motion_task t.body))
        (λ m. running_non_motion-IsValid t.body t r refl (not-true _ m) h)
        (λ m.
          if_elim
            (λ r'.
              Gives IsValid (running_motion drill_machine (calm w) w.main_mode w.auto_state t r'))
            (is_g01_group t.body)
            (λ _.
              running_motion-IsValid w.main_mode w.auto_state t
                (emit (Effect.sig_autogcode_switched_to_line w.sub_line_number) r) e (not-false _ m)
                h)
            (λ _. running_motion-IsValid w.main_mode w.auto_state t r e (not-false _ m) h))
