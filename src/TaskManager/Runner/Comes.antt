-- ===== src/TaskManager/Runner/Comes.antt =====
-- With a cooperative machine, two runs of `_run_once` do a task that is not the program's end.
use edm_project.TaskManager.Runner.Cooperative.{
  IsCooperative, IsCome, prepare_motion-IsCome, check_to_next_gcode-IsCome,
}
use edm_project.TaskManager.Runner.Keeps.{with_current-Gives, not-true}
use edm_project.TaskManager.Runner.Ticks.{
  state_current_node_initing, state_running, motion_over, running_non_motion, running_motion,
  has_six,
}
use edm_project.Prelude.{
  suc, Bool, true, false, not, Option, none, some, ◌≡◌, refl, Gives, if_elim, if◌then◌else◌, sym,
  ◌∙◌,
}
use mathlib.Core.Option
use mathlib.Core.Bool.{false≢true}
use mathlib.Core.Path.{subst}
use edm_project.TaskManager.Task.{Task, TaskBody, is_motion_task, is_program_end, is_g01_group}
use edm_project.TaskManager.Runner.{
  State, Runner, World, ErrorText, current, switch_to_state, abort, Effect, emit,
  check_to_next_gcode, calm,
}
use edm_project.TaskManager.Runner.Steps.{run_state, run_switch, delayed_pause, run_once}
use edm_project.TaskManager.Runner.Valid.{IsEnded}

module _ {Double : Type 0} (drill_machine : Bool) (w : World Double) (c : IsCooperative w) where
  undelayed-Gives :
      (P : Runner Double → Type 0)
      → ((r' : Runner Double) → P r' → r'.delay_pause_flag ≡ false)
      → (o : Option (Runner Double)) → Gives P o
      → Gives P (Option.bind o (delayed_pause drill_machine (calm w)))
  unfolding Option.bind delayed_pause
  undelayed-Gives P f none h = absurd h.lower
  undelayed-Gives P f (some r') h =
      if_elim (Gives P) r'.delay_pause_flag (λ d. absurd (false≢true (sym (f r' h) ∙ d))) (λ _. h)

  -- `_run_once`, where the switch leaves no pause pending.
  pub run_once-Gives :
      (P : Runner Double → Type 0)
      → ((r' : Runner Double) → P r' → r'.delay_pause_flag ≡ false)
      → (s : State) (r : Runner Double) → r.state ≡ s
      → Gives P (run_switch drill_machine (calm w) s r)
      → Gives P (run_once drill_machine (calm w) r)
  unfolding run_once
  run_once-Gives P f s r e h =
      undelayed-Gives P f (run_switch drill_machine (calm w) r.state r)
        (subst (λ x. Gives P (run_switch drill_machine (calm w) x r)) (sym e) h)

  pub next_task-IsCome :
      (t : Task Double) (r : Runner Double)
      → r.state ≡ State.current_node_initing
      → r.delay_pause_flag ≡ false
      → current r ≡ some t
      → has_six t.body ≡ true
      → Gives (IsCome State.running r.curr_gcode_num r) (run_once drill_machine (calm w) r)
  unfolding run_switch run_state state_current_node_initing switch_to_state
  next_task-IsCome t r s d at x =
      run_once-Gives (IsCome State.running r.curr_gcode_num r) (λ r' h. h.1)
        State.current_node_initing r s
        (with_current-Gives (IsCome State.running r.curr_gcode_num r) r _ t at (
          if_elim (Gives (IsCome State.running r.curr_gcode_num r)) (not (is_motion_task t.body))
            (λ _. (refl, d, refl, refl))
            (λ _.
              prepare_motion-IsCome drill_machine w c t r.state r
                (emit (Effect.sig_autogcode_switched_to_line t.line_number) r) x
                (refl, d, refl, refl))))

  motion_over-IsCome :
      (b : TaskBody Double) (t : Task Double) (s : State) (r r' : Runner Double)
      → IsEnded r.gcode_list
      → current r ≡ some t
      → is_program_end t.body ≡ false
      → IsCome s r.curr_gcode_num r r'
      → Gives
          (IsCome State.current_node_initing (suc r.curr_gcode_num) r)
          (motion_over drill_machine (calm w) b t r')
  motion_over-IsCome (TaskBody.g00 detect touch feed index mode xs) t s r r' e at k h =
      if_elim (Gives (IsCome State.current_node_initing (suc r.curr_gcode_num) r)) w.touch_warning
        (λ x. absurd (false≢true (sym c.untouched ∙ x)))
        (λ _. check_to_next_gcode-IsCome drill_machine w c t s r r' e at k h)
  motion_over-IsCome (TaskBody.g01 index mode xs) t s r r' e at k h =
      check_to_next_gcode-IsCome drill_machine w c t s r r' e at k h
  motion_over-IsCome TaskBody.coordinate_mode t s r r' e at k h =
      check_to_next_gcode-IsCome drill_machine w c t s r r' e at k h
  motion_over-IsCome TaskBody.feed_speed_set t s r r' e at k h =
      check_to_next_gcode-IsCome drill_machine w c t s r r' e at k h
  motion_over-IsCome TaskBody.program_end t s r r' e at k h =
      check_to_next_gcode-IsCome drill_machine w c t s r r' e at k h
  motion_over-IsCome TaskBody.pause t s r r' e at k h =
      check_to_next_gcode-IsCome drill_machine w c t s r r' e at k h
  motion_over-IsCome (TaskBody.coordinate_index index) t s r r' e at k h =
      check_to_next_gcode-IsCome drill_machine w c t s r r' e at k h
  motion_over-IsCome (TaskBody.eleparam_set index) t s r r' e at k h =
      check_to_next_gcode-IsCome drill_machine w c t s r r' e at k h
  motion_over-IsCome (TaskBody.delay seconds) t s r r' e at k h =
      check_to_next_gcode-IsCome drill_machine w c t s r r' e at k h
  motion_over-IsCome (TaskBody.coord_set_zero axes) t s r r' e at k h =
      check_to_next_gcode-IsCome drill_machine w c t s r r' e at k h
  motion_over-IsCome (TaskBody.drill params) t s r r' e at k h =
      check_to_next_gcode-IsCome drill_machine w c t s r r' e at k h
  motion_over-IsCome (TaskBody.g01_group index points) t s r r' e at k h =
      check_to_next_gcode-IsCome drill_machine w c t s r r' e at k h

  -- A branch that goes on where a test holds, and it does.
  next_or-IsCome :
      (b : Bool) (t : Task Double) (e : ErrorText) (s : State) (r r' : Runner Double)
      → b ≡ true
      → IsEnded r.gcode_list
      → current r ≡ some t
      → is_program_end t.body ≡ false
      → IsCome s r.curr_gcode_num r r'
      → IsCome State.current_node_initing
          (suc r.curr_gcode_num)
          r
          (if b then check_to_next_gcode drill_machine (calm w) t r' else abort (calm w) e r)
  next_or-IsCome b t x s r r' y e at k h =
      if_elim (IsCome State.current_node_initing (suc r.curr_gcode_num) r) b
        (λ _. check_to_next_gcode-IsCome drill_machine w c t s r r' e at k h)
        (λ n. absurd (false≢true (sym n ∙ y)))

  running_non_motion-IsCome :
      (b : TaskBody Double) (t : Task Double) (r : Runner Double)
      → is_motion_task b ≡ false
      → is_program_end b ≡ false
      → is_program_end t.body ≡ false
      → IsEnded r.gcode_list
      → current r ≡ some t
      → r.delay_pause_flag ≡ false
      → Gives
          (IsCome State.current_node_initing (suc r.curr_gcode_num) r)
          (running_non_motion drill_machine (calm w) b t r)
  unfolding running_non_motion
  running_non_motion-IsCome TaskBody.program_end t r m x k e at d = absurd (false≢true (sym x))
  running_non_motion-IsCome (TaskBody.coordinate_index index) t r m x k e at d =
      next_or-IsCome (w.exist_coordinate_index index) t _ r.state r
        (emit (Effect.sig_switch_coordindex index) r) (c.coordinate_exists index) e at k
        (refl, d, refl, refl)
  running_non_motion-IsCome (TaskBody.eleparam_set index) t r m x k e at d =
      if_elim (IsCome State.current_node_initing (suc r.curr_gcode_num) r)
        (w.exist_eleparam_index index)
        (λ _.
          next_or-IsCome (w.set_current_eleparam_index index) t _ r.state r r (c.eleparam_set index)
            e at k (refl, d, refl, refl))
        (λ n. absurd (false≢true (sym n ∙ c.eleparam_exists index)))
  running_non_motion-IsCome (TaskBody.coord_set_zero axes) t r m x k e at d =
      if_elim (IsCome State.current_node_initing (suc r.curr_gcode_num) r)
        w.has_current_coord_offset
        (λ _.
          next_or-IsCome w.set_current_coord_offset t _ r.state r
            (emit Effect.sig_coord_offset_changed r) c.offset_set e at k (refl, d, refl, refl))
        (λ n. absurd (false≢true (sym n ∙ c.offset_read)))
  running_non_motion-IsCome TaskBody.coordinate_mode t r m x k e at d =
      check_to_next_gcode-IsCome drill_machine w c t r.state r r e at k (refl, d, refl, refl)
  running_non_motion-IsCome TaskBody.feed_speed_set t r m x k e at d =
      check_to_next_gcode-IsCome drill_machine w c t r.state r r e at k (refl, d, refl, refl)
  running_non_motion-IsCome (TaskBody.g00 detect touch feed index mode xs) t r m y k e at d =
      absurd (false≢true (sym m))
  running_non_motion-IsCome (TaskBody.g01 index mode xs) t r m y k e at d =
      absurd (false≢true (sym m))
  running_non_motion-IsCome TaskBody.pause t r m y k e at d = absurd (false≢true (sym m))
  running_non_motion-IsCome (TaskBody.delay s) t r m y k e at d = absurd (false≢true (sym m))
  running_non_motion-IsCome (TaskBody.drill params) t r m y k e at d = absurd (false≢true (sym m))
  running_non_motion-IsCome (TaskBody.g01_group index points) t r m y k e at d =
      absurd (false≢true (sym m))

  -- A task that is not the program's end, done at once.
  pub running-IsCome :
      (t : Task Double) (r : Runner Double)
      → r.state ≡ State.running
      → r.delay_pause_flag ≡ false
      → current r ≡ some t
      → IsEnded r.gcode_list
      → is_program_end t.body ≡ false
      → Gives
          (IsCome State.current_node_initing (suc r.curr_gcode_num) r)
          (run_once drill_machine (calm w) r)
  unfolding run_switch run_state state_running
  running-IsCome t r s d at e k =
      run_once-Gives (IsCome State.current_node_initing (suc r.curr_gcode_num) r) (λ r' h. h.1)
        State.running r s
        (with_current-Gives (IsCome State.current_node_initing (suc r.curr_gcode_num) r) r _ t at (
          if_elim (Gives (IsCome State.current_node_initing (suc r.curr_gcode_num) r))
            (not (is_motion_task t.body))
            (λ m. running_non_motion-IsCome t.body t r (not-true _ m) k k e at d)
            (λ m.
              subst
                (λ mode. Gives (IsCome State.current_node_initing (suc r.curr_gcode_num) r) (
                  running_motion drill_machine (calm w) mode w.auto_state t (
                    if is_g01_group t.body
                    then emit (Effect.sig_autogcode_switched_to_line w.sub_line_number) r
                    else r)))
                (sym c.idle_again)
                (motion_over-IsCome t.body t r.state r _ e at k (
                  if_elim (IsCome r.state r.curr_gcode_num r) (is_g01_group t.body)
                    (λ _. (refl, d, refl, refl)) (λ _. (refl, d, refl, refl)))))))
