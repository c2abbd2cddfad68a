-- ===== src/TaskManager/Runner/Operations.antt =====
-- The operations of GCodeRunner that the user calls. Each gives the Boolean that it returns, and
-- the runner; nothing where it indexes the task list out of range.
use edm_project.Prelude.{Bool, true, false, not, Option, none, some, List, [], ◌∷◌, if◌then◌else◌}
use edm_project.TaskManager.Task.{Task, TaskBody, is_motion_task, is_program_end}
use edm_project.TaskManager.Runner.{
  State, Effect, ErrorText, World, Runner, is_stopped, emit, await, current, switch_to_state,
  reset_state, abort, end_program,
}

abbrev pub Answer : Type 0 → Type 0
Answer Double = Option (Bool × Runner Double)

abbrev pub first_error : Option ErrorText → Option ErrorText → Option ErrorText
first_error none rest = rest
first_error (some e) rest = some e

module _ {Double : Type 0} where
  -- `gcode_list_[curr_gcode_num_]` in front of the rest of a function.
  abbrev pub with_current {ℓ} : {A : Type ℓ} → Runner Double → (Task Double → Option A) → Option A
  with_current r k = elim (current r) [ none ↦ none | some t ↦ k t ]

  -- `pause`, behind its test and the read of the current task.
  unfoldable pub pause_task : World Double → Task Double → Runner Double → Bool × Runner Double
  pause_task w t r =
      if not (is_motion_task t.body)
      then (true, emit Effect.sig_auto_paused (switch_to_state State.paused r))
      else (let r' : Runner Double = await w Effect.push_pause r in
          if w.pause_accepted
          then (true, switch_to_state State.waiting_for_paused r')
          else (false, record r' { delay_pause_flag = true }))

  unfoldable pub pause_in :
      State → World Double → Task Double → Runner Double → Bool × Runner Double
  unfolding pause_task
  pause_in State.waiting_for_resumed w t r = pause_task w t r
  pause_in State.running w t r = pause_task w t r
  pause_in State.waiting_for_paused w t r = (true, r)
  pause_in State.paused w t r = (true, r)
  pause_in State.current_node_initing w t r = (false, record r { delay_pause_flag = true })
  pause_in _ w t r = (false, r)

  unfoldable pub pause : World Double → Runner Double → Answer Double
  unfolding pause_in
  pause w r =
      if is_stopped r.state
      then some (false, r)
      else with_current r (λ t. some (pause_in r.state w t r))

  unfoldable pub resume_in :
      State → World Double → Task Double → Runner Double → Bool × Runner Double
  resume_in State.paused w t r =
      if not (is_motion_task t.body)
      then (true, emit Effect.sig_auto_resumed (switch_to_state State.running r))
      else (let r' : Runner Double = await w Effect.push_resume r in
          if w.resume_accepted
          then (true, switch_to_state State.waiting_for_resumed r')
          else (false, r'))
  resume_in State.waiting_for_resumed w t r = (true, r)
  resume_in _ w t r = (false, r)

  unfoldable pub resume : World Double → Runner Double → Answer Double
  unfolding resume_in
  resume w r =
      if is_stopped r.state
      then some (false, r)
      else with_current r (λ t. some (resume_in r.state w t r))

  -- `stop` while a task is on: a command that is refused is followed by an emergency stop.
  unfoldable pub stop_task : World Double → Task Double → Runner Double → Bool × Runner Double
  unfolding end_program
  stop_task w t r =
      if not (is_motion_task t.body)
      then (true, end_program r)
      else (let r' : Runner Double = await w Effect.push_stop r in
          if w.stop_accepted
          then (true, switch_to_state State.waiting_for_stopped r')
          else (true, end_program (await w Effect.push_emergency_stop r')))

  unfoldable pub stop_in : State → World Double → Task Double → Runner Double → Bool × Runner Double
  unfolding stop_task end_program
  stop_in State.waiting_for_resumed w t r = stop_task w t r
  stop_in State.paused w t r = stop_task w t r
  stop_in State.running w t r = stop_task w t r
  stop_in State.current_node_initing w t r = (true, end_program r)
  stop_in State.waiting_for_stopped w t r = (true, r)
  stop_in State.stopped w t r = (true, r)
  stop_in State.waiting_for_paused w t r =
      let r' : Runner Double = await w Effect.push_stop r in
      if w.stop_accepted then (true, switch_to_state State.waiting_for_stopped r') else (false, r')
  stop_in State.ready_to_start w t r = (false, r)

  unfoldable pub stop : World Double → Runner Double → Answer Double
  unfolding stop_in
  stop w r =
      if is_stopped r.state
      then some (false, r)
      else with_current r (λ t. some (stop_in r.state w t r))

  unfoldable pub estop : World Double → Runner Double → Answer Double
  unfolding abort reset_state
  estop w r =
      let r' : Runner Double = await w Effect.push_emergency_stop r in
      some (
        if w.emergency_stop_accepted
        then (
          true,
          if is_stopped r'.state then reset_state r' else abort w (ErrorText.text "ESTOP") r',
        )
        else (false, r'))

  -- `reset`
  unfoldable pub reset : Runner Double → Runner Double
  unfolding reset_state
  reset r = record (reset_state r) { last_error = none }

  -- The loop of `_check_gcode_list_at_first`: what is wrong with the first task that is refused.
  abbrev pub check_task : World Double → TaskBody Double → Option ErrorText
  check_task w (TaskBody.eleparam_set index) =
      if w.exist_eleparam_index index
      then none
      else some (ErrorText.indexed "check err: eleparam not exist: " index)
  check_task w (TaskBody.coordinate_index index) =
      if w.exist_coordinate_index index
      then none
      else some (ErrorText.indexed "check err: coord index not exist: " index)
  check_task w _ = none

  unfoldable pub check_tasks : World Double → List (Task Double) → Option ErrorText
  check_tasks w [] = none
  check_tasks w (t ∷ ts) = first_error (check_task w t.body) (check_tasks w ts)

  -- `gcode_list_.back()`
  unfoldable pub back? : List (Task Double) → Option (Task Double)
  back? [] = none
  back? (t ∷ []) = some t
  back? (t ∷ u ∷ ts) = back? (u ∷ ts)

  -- What follows from the first task that is refused, and the last task.
  unfoldable pub check_result :
      World Double → Option ErrorText → Option (Task Double) → Runner Double → Answer Double
  unfolding abort
  check_result w (some e) last r = some (false, abort w e r)
  check_result w none none r = none
  check_result w none (some t) r = some (
      if is_program_end t.body
      then (true, r)
      else (false, abort w (ErrorText.text "check err: last gcode is not m02") r))

  -- `_check_gcode_list_at_first`
  unfoldable pub check_gcode_list_at_first : World Double → Runner Double → Answer Double
  unfolding check_tasks back? check_result
  check_gcode_list_at_first w r = check_result w (check_tasks w r.gcode_list) (back? r.gcode_list) r

  unfoldable pub started_if : Answer Double → Answer Double
  unfolding switch_to_state
  started_if none = none
  started_if (some (false, r)) = some (false, r)
  started_if (some (true, r)) =
      some (true, switch_to_state State.ready_to_start (record r { update_timer = true }))

  unfoldable pub start : World Double → List (Task Double) → Runner Double → Answer Double
  unfolding check_gcode_list_at_first started_if
  start w gcode_list r =
      if not (is_stopped r.state)
      then some (false, r)
      else started_if
          (check_gcode_list_at_first w (record r { gcode_list = gcode_list; curr_gcode_num = 0 }))
