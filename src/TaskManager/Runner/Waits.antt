-- ===== src/TaskManager/Runner/Waits.antt =====
-- `_run_once` of GCodeRunner keeps it well formed in the states that wait, and hence in all.
use mathlib.Core.Option
use edm_project.Prelude.{
  Bool, true, false, Option, none, some, [], ◌≡◌, ◌≢◌, inl, inr, refl, Gives, bind-Gives, if_elim,
}
use edm_project.TaskManager.Task.{Task, is_motion_task}
use edm_project.TaskManager.Runner.{
  State, Runner, World, switch_to_state, MotionMainMode, MotionAutoState, end_program,
  drill_record_data, calm,
}
use edm_project.TaskManager.Runner.Steps.{
  run_state, run_switch, delayed_pause, run_once, on_motion, cleared, run_state,
}
use edm_project.TaskManager.Runner.Waiting.{
  waiting_for_paused, waiting_for_resumed, waiting_for_stopped,
}
use edm_project.TaskManager.Runner.Runs.{refused-IsValid, state_running-IsValid}
use edm_project.TaskManager.Runner.Initing.{state_current_node_initing-IsValid}
use edm_project.TaskManager.Runner.Valid.{
  IsValid, IsValidIn, IsAt, end_program-IsValid, drill_record_data-IsAt,
}
use edm_project.TaskManager.Runner.Keeps.{IsValidSnd, with_current-Gives, pause-IsValid}

module _ {Double : Type 0} where
  waiting_for_paused-IsValid :
      (w : World Double) (mode : MotionMainMode) (s : MotionAutoState) (t : Task Double)
      (r : Runner Double)
      → r.state ≡ State.waiting_for_paused
      → is_motion_task t.body ≡ true
      → IsAt t r
      → IsValid (waiting_for_paused (calm w) mode s r)
  unfolding waiting_for_paused switch_to_state IsValidIn
  waiting_for_paused-IsValid w MotionMainMode.auto MotionAutoState.normal_moving t r e m h =
      refused-IsValid w _ t r refl h
  waiting_for_paused-IsValid w MotionMainMode.auto MotionAutoState.pausing t r e m h =
      rw e (t, h, m)
  waiting_for_paused-IsValid w MotionMainMode.auto MotionAutoState.paused t r e m h = (t, h)
  waiting_for_paused-IsValid w MotionMainMode.auto MotionAutoState.resuming t r e m h =
      refused-IsValid w _ t r refl h
  waiting_for_paused-IsValid w MotionMainMode.auto MotionAutoState.stopping t r e m h =
      refused-IsValid w _ t r refl h
  waiting_for_paused-IsValid w MotionMainMode.auto MotionAutoState.stopped t r e m h =
      refused-IsValid w _ t r refl h
  waiting_for_paused-IsValid w MotionMainMode.idle s t r e m h = refused-IsValid w _ t r refl h
  waiting_for_paused-IsValid w MotionMainMode.manual s t r e m h = refused-IsValid w _ t r refl h

  waiting_for_resumed-IsValid :
      (w : World Double) (mode : MotionMainMode) (s : MotionAutoState) (t : Task Double)
      (r : Runner Double)
      → r.state ≡ State.waiting_for_resumed
      → is_motion_task t.body ≡ true
      → IsAt t r
      → IsValid (waiting_for_resumed (calm w) mode s r)
  unfolding waiting_for_resumed switch_to_state IsValidIn
  waiting_for_resumed-IsValid w MotionMainMode.auto MotionAutoState.normal_moving t r e m h = (t, h)
  waiting_for_resumed-IsValid w MotionMainMode.auto MotionAutoState.pausing t r e m h =
      refused-IsValid w _ t r refl h
  waiting_for_resumed-IsValid w MotionMainMode.auto MotionAutoState.paused t r e m h =
      rw e (t, h, m)
  waiting_for_resumed-IsValid w MotionMainMode.auto MotionAutoState.resuming t r e m h =
      rw e (t, h, m)
  waiting_for_resumed-IsValid w MotionMainMode.auto MotionAutoState.stopping t r e m h = (t, h)
  waiting_for_resumed-IsValid w MotionMainMode.auto MotionAutoState.stopped t r e m h = (t, h)
  waiting_for_resumed-IsValid w MotionMainMode.idle s t r e m h = (t, h)
  waiting_for_resumed-IsValid w MotionMainMode.manual s t r e m h = refused-IsValid w _ t r refl h

  waiting_for_stopped-IsValid :
      (w : World Double) (mode : MotionMainMode) (s : MotionAutoState) (t : Task Double)
      (ended : Runner Double) (r : Runner Double)
      → IsValid ended
      → r.state ≡ State.waiting_for_stopped
      → is_motion_task t.body ≡ true
      → IsAt t r
      → IsValid (waiting_for_stopped (calm w) mode s ended r)
  unfolding waiting_for_stopped switch_to_state IsValidIn
  waiting_for_stopped-IsValid w MotionMainMode.auto MotionAutoState.normal_moving t ended r v e m
        h =
      refused-IsValid w _ t r refl h
  waiting_for_stopped-IsValid w MotionMainMode.auto MotionAutoState.pausing t ended r v e m h =
      refused-IsValid w _ t r refl h
  waiting_for_stopped-IsValid w MotionMainMode.auto MotionAutoState.paused t ended r v e m h =
      refused-IsValid w _ t r refl h
  waiting_for_stopped-IsValid w MotionMainMode.auto MotionAutoState.resuming t ended r v e m h =
      refused-IsValid w _ t r refl h
  waiting_for_stopped-IsValid w MotionMainMode.auto MotionAutoState.stopping t ended r v e m h =
      rw e (t, h, m)
  waiting_for_stopped-IsValid w MotionMainMode.auto MotionAutoState.stopped t ended r v e m h = v
  waiting_for_stopped-IsValid w MotionMainMode.idle s t ended r v e m h = v
  waiting_for_stopped-IsValid w MotionMainMode.manual s t ended r v e m h =
      refused-IsValid w _ t r refl h

  on_motion-Gives :
      (t : Task Double) (r : Runner Double)
      → is_motion_task t.body ≡ true
      → IsValid r
      → Gives IsValid (on_motion t r)
  on_motion-Gives t r m v = rw m v

  -- With no pause pending the runner is as well formed as before.
  IsValidIn-clear :
      (s : State) (r : Runner Double)
      → IsValidIn s r
      → IsValidIn s (record r { delay_pause_flag = false })
  unfolding IsValidIn
  IsValidIn-clear State.ready_to_start r v = v
  IsValidIn-clear State.current_node_initing r v = v
  IsValidIn-clear State.running r v = v
  IsValidIn-clear State.waiting_for_paused r v = v
  IsValidIn-clear State.paused r v = v
  IsValidIn-clear State.waiting_for_resumed r v = v
  IsValidIn-clear State.waiting_for_stopped r v = v
  IsValidIn-clear State.stopped r v = (v.0, v.1, refl, v.3)

  cleared-IsValid : (a : Bool × Runner Double) → IsValidSnd a → IsValid (cleared a)
  cleared-IsValid (true, r) v = IsValidIn-clear r.state r v
  cleared-IsValid (false, r) v = v

  map-cleared :
      (o : Option (Bool × Runner Double))
      → Gives IsValidSnd o
      → Gives IsValid (Option.map cleared o)
  map-cleared none v = v
  map-cleared (some a) v = cleared-IsValid a v

module _ {Double : Type 0} (drill_machine : Bool) (w : World Double) where
  ended-IsValid :
      (t : Task Double) (r : Runner Double)
      → IsAt t r
      → IsValid (end_program (drill_record_data drill_machine (calm w) false t r))
  ended-IsValid t r h =
      end_program-IsValid _ (inr (t, (drill_record_data-IsAt drill_machine w false t r h).0))

  -- The switch, where a program has been given.
  run_switch-IsValid :
      (s : State) (r : Runner Double)
      → r.state ≡ s
      → IsValidIn s r
      → r.gcode_list ≢ []
      → Gives IsValid (run_switch drill_machine (calm w) s r)
  unfolding run_switch run_state switch_to_state IsValidIn
  run_switch-IsValid State.ready_to_start r e v g = v
  run_switch-IsValid State.current_node_initing r e v g =
      with_current-Gives IsValid r _ v.0 v.1.0
        (state_current_node_initing-IsValid drill_machine w v.0 r v.1)
  run_switch-IsValid State.running r e v g =
      with_current-Gives IsValid r _ v.0 v.1.0 (state_running-IsValid drill_machine w v.0 r e v.1)
  run_switch-IsValid State.waiting_for_paused r e v g = with_current-Gives IsValid r _ v.0 v.1.0 (
      on_motion-Gives v.0 _ v.2
        (waiting_for_paused-IsValid w w.main_mode w.auto_state v.0 r e v.2 v.1))
  run_switch-IsValid State.waiting_for_resumed r e v g = with_current-Gives IsValid r _ v.0 v.1.0 (
      on_motion-Gives v.0 _ v.2
        (waiting_for_resumed-IsValid w w.main_mode w.auto_state v.0 r e v.2 v.1))
  run_switch-IsValid State.waiting_for_stopped r e v g = with_current-Gives IsValid r _ v.0 v.1.0 (
      on_motion-Gives v.0 _ v.2 (
        waiting_for_stopped-IsValid w w.main_mode w.auto_state v.0 _ r (ended-IsValid v.0 r v.1) e
          v.2 v.1))
  run_switch-IsValid State.paused r e v g = with_current-Gives IsValid r _ v.0 v.1.0 (rw e v)
  run_switch-IsValid State.stopped r e v g = elim v.0 [
    | inl none_given ↦ absurd (g none_given)
    | inr c ↦ with_current-Gives IsValid r _ c.0 c.1 (rw e v)
  ]

  pub run_once-IsValid :
      (r : Runner Double)
      → IsValid r
      → r.gcode_list ≢ []
      → Gives IsValid (run_once drill_machine (calm w) r)
  unfolding run_once delayed_pause
  run_once-IsValid r v g =
      bind-Gives IsValid IsValid _ _ (run_switch-IsValid r.state r refl v g) (λ r' v'.
        if_elim (Gives IsValid) r'.delay_pause_flag (λ _. map-cleared _ (pause-IsValid w r' v'))
          (λ _. v'))
