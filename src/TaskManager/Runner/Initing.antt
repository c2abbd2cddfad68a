-- ===== src/TaskManager/Runner/Initing.antt =====
-- The preparation of a task keeps GCodeRunner well formed: no index is out of range, and the
-- assertion on the coordinates does not fail.
use edm_project.TaskManager.Runner.Keeps.{is_overflow, not-false}
use edm_project.TaskManager.Runner.Valid.{
  IsValidIn, IsAt, IsValid, drill_record_data-IsAt, check_to_next_gcode-IsValid, get_elem?-All,
}
use edm_project.TaskManager.Runner.Ticks.{
  prepare_motion, state_current_node_initing, missing_index, prepared, has_six,
}
use edm_project.TaskManager.Task.{TaskBody}
use edm_project.TaskManager.Runner.{
  World, switch_to_state, ErrorText, Preparation, Task, Runner, is_motion_task, calm, emit, Effect,
  await,
}
use mathlib.Core.Bool.{false≢true}
use edm_project.Prelude.{
  refl, sym, ◌≡◌, Option, none, some, Bool, true, false, IfSome, ◌≡◌, Gives, if_elim, not, ◌∙◌,
}
use edm_project.TaskManager.Runner.Runs.{refused-IsValid, motion-not-end}

module _ {Double : Type 0} (drill_machine : Bool) (w : World Double) where
  prepared-IsValid :
      (p : Preparation) (t : Task Double) (r : Runner Double)
      → is_motion_task t.body ≡ true
      → IsAt t r
      → IsValid (prepared drill_machine (calm w) p t r)
  unfolding switch_to_state IsValidIn
  prepared-IsValid Preparation.started t r m h =
      (t, drill_record_data-IsAt drill_machine w true t (await (calm w) Effect.push_start r) h)
  prepared-IsValid Preparation.nothing_to_move t r m h =
      check_to_next_gcode-IsValid drill_machine w t r h (motion-not-end t.body m)
  prepared-IsValid (Preparation.refused true e) t r m h =
      refused-IsValid w (ErrorText.text e) t (await (calm w) Effect.push_start r) refl h
  prepared-IsValid (Preparation.refused false e) t r m h =
      refused-IsValid w (ErrorText.text e) t r refl h

  -- No error of a missing coordinate system is the overflow's.
  missing_index-IsOther :
      (b : TaskBody Double)
      → IfSome (λ e. is_overflow e ≡ false) (missing_index drill_machine (calm w) b)
  missing_index-IsOther (TaskBody.g00 detect touch feed index mode xs) =
      if_elim (IfSome (λ e. is_overflow e ≡ false)) (w.exist_coordinate_index index) (λ _. tt)
        (λ _. refl)
  missing_index-IsOther (TaskBody.g01 index mode xs) =
      if_elim (IfSome (λ e. is_overflow e ≡ false)) (w.exist_coordinate_index index) (λ _. tt)
        (λ _. refl)
  missing_index-IsOther (TaskBody.g01_group index points) =
      if_elim (IfSome (λ e. is_overflow e ≡ false)) (w.exist_coordinate_index index) (λ _. tt)
        (λ _. refl)
  missing_index-IsOther _ = tt

  prepare_motion-IsValid :
      (o : Option ErrorText) (t : Task Double) (r : Runner Double)
      → IfSome (λ e. is_overflow e ≡ false) o
      → is_motion_task t.body ≡ true
      → IsAt t r
      → Gives IsValid (prepare_motion drill_machine (calm w) o t r)
  unfolding prepare_motion
  prepare_motion-IsValid (some e) t r o m h = refused-IsValid w e t r o h
  prepare_motion-IsValid none t r o m h =
      if_elim (Gives IsValid) (has_six t.body) (λ _. prepared-IsValid (w.prepare t) t r m h)
        (λ n. absurd (
          false≢true (
            sym n
            ∙ get_elem?-All (λ t. has_six t.body ≡ true) r.gcode_list r.curr_gcode_num t h.4 h.0)))

  pub state_current_node_initing-IsValid :
      (t : Task Double) (r : Runner Double)
      → IsAt t r
      → Gives IsValid (state_current_node_initing drill_machine (calm w) t r)
  unfolding state_current_node_initing switch_to_state IsValidIn
  state_current_node_initing-IsValid t r h =
      if_elim (Gives IsValid) (not (is_motion_task t.body)) (λ _. (t, h))
        (λ m.
          prepare_motion-IsValid (missing_index drill_machine (calm w) t.body) t
            (emit (Effect.sig_autogcode_switched_to_line t.line_number) r)
            (missing_index-IsOther t.body) (not-false _ m) h)
