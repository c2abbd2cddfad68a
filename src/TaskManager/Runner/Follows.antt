-- ===== src/TaskManager/Runner/Follows.antt =====
-- The operations of GCodeRunner keep to the diagram of its states.
use mathlib.Core.Bool.{false≢true}
use mathlib.Core.Path.{subst}
use edm_project.Prelude.{
  ◌≡◌, refl, sym, ap, ◌∙◌, Bool, true, false, not, List, Option, none, some, IfSome, if_elim,
}
use edm_project.TaskManager.Task.{Task, is_motion_task, is_program_end}
use edm_project.TaskManager.Runner.{
  State, Runner, World, ErrorText, Effect, is_stopped, abort, end_program, switch_to_state,
  reset_state, calm, await,
}
use edm_project.TaskManager.Runner.Operations.{
  pause_task, pause_in, pause, resume_in, stop_task, stop_in, estop, check_result, check_tasks,
  back?, check_gcode_list_at_first, started_if, start,
}
use edm_project.TaskManager.Runner.Diagram.{
  goes, Leads, Ticks, kept-Leads, CanPause, is_live, abort-Ticks, end_program-Ticks,
  with_current-IfSome,
}

is_stopped_lem : (s : State) → not (is_stopped s) ≡ false → State.stopped ≡ s
is_stopped_lem State.stopped e = refl
is_stopped_lem _ e = absurd (false≢true (sym e))

module _ {Double : Type 0} where
  -- A pair whose runner the diagram leads to.
  pub record LeadsSnd (s : State) (a : Bool × Runner Double) : Type 0 where
    pub second : Leads s a.1

  pub leads : (s : State) (r : Runner Double) → goes s r.state ≡ true → Leads s r
  leads s r g = record { edge = g }

  pair : (s : State) (b : Bool) (r : Runner Double) → Leads s r → LeadsSnd s (b, r)
  pair s b r h = record { second = h }

  pub stays : (s : State) (b : Bool) (r : Runner Double) → r.state ≡ s → LeadsSnd s (b, r)
  stays s b r e = pair s b r (kept-Leads s r e)

  pause_task-LeadsSnd :
      (s : State) (w : World Double) (t : Task Double) (r : Runner Double)
      → Leads s r
      → CanPause s
      → LeadsSnd s (pause_task (calm w) t r)
  unfolding pause_task switch_to_state
  pause_task-LeadsSnd s w t r h c =
      if_elim (LeadsSnd s) (not (is_motion_task t.body)) (λ _. pair s true _ (leads s _ c.0))
        (λ _.
          if_elim (LeadsSnd s) w.pause_accepted (λ _. pair s true _ (leads s _ c.1))
            (λ _. pair s false _ (leads s _ h.edge)))

  pause_in-LeadsSnd :
      (s m : State) (w : World Double) (t : Task Double) (r : Runner Double)
      → r.state ≡ m
      → Ticks s r
      → LeadsSnd s (pause_in m (calm w) t r)
  unfolding pause_in
  pause_in-LeadsSnd s State.waiting_for_resumed w t r e h =
      pause_task-LeadsSnd s w t r (leads s r h.edge) (h.pausable (ap is_live e))
  pause_in-LeadsSnd s State.running w t r e h =
      pause_task-LeadsSnd s w t r (leads s r h.edge) (h.pausable (ap is_live e))
  pause_in-LeadsSnd s State.current_node_initing w t r e h = pair s false _ (leads s _ h.edge)
  pause_in-LeadsSnd s State.waiting_for_paused w t r e h = pair s true r (leads s r h.edge)
  pause_in-LeadsSnd s State.paused w t r e h = pair s true r (leads s r h.edge)
  pause_in-LeadsSnd s State.ready_to_start w t r e h = pair s false r (leads s r h.edge)
  pause_in-LeadsSnd s State.waiting_for_stopped w t r e h = pair s false r (leads s r h.edge)
  pause_in-LeadsSnd s State.stopped w t r e h = pair s false r (leads s r h.edge)

  pub pause-LeadsSnd :
      (s : State) (w : World Double) (r : Runner Double)
      → Ticks s r
      → IfSome (LeadsSnd s) (pause (calm w) r)
  unfolding pause
  pause-LeadsSnd s w r h =
      if_elim (IfSome (LeadsSnd s)) (is_stopped r.state) (λ _. pair s false r (leads s r h.edge))
        (λ _. with_current-IfSome (LeadsSnd s) r _ (λ t. pause_in-LeadsSnd s r.state w t r refl h))

  pub resume_in-LeadsSnd :
      (m : State) (w : World Double) (t : Task Double) (r : Runner Double)
      → r.state ≡ m
      → LeadsSnd m (resume_in m (calm w) t r)
  unfolding resume_in switch_to_state
  resume_in-LeadsSnd State.paused w t r e =
      if_elim (LeadsSnd State.paused) (not (is_motion_task t.body))
        (λ _. pair _ true _ (leads _ _ refl))
        (λ _.
          if_elim (LeadsSnd State.paused) w.resume_accepted (λ _. pair _ true _ (leads _ _ refl))
            (λ _. stays _ false (await (calm w) Effect.push_resume r) e))
  resume_in-LeadsSnd State.waiting_for_resumed w t r e = stays _ true r e
  resume_in-LeadsSnd State.current_node_initing w t r e = stays _ false r e
  resume_in-LeadsSnd State.running w t r e = stays _ false r e
  resume_in-LeadsSnd State.waiting_for_paused w t r e = stays _ false r e
  resume_in-LeadsSnd State.ready_to_start w t r e = stays _ false r e
  resume_in-LeadsSnd State.waiting_for_stopped w t r e = stays _ false r e
  resume_in-LeadsSnd State.stopped w t r e = stays _ false r e

  ended : (s : State) (b : Bool) (r : Runner Double) → LeadsSnd s (b, end_program r)
  ended s b r = pair s b (end_program r) (leads s (end_program r) (end_program-Ticks s r).edge)

  stop_task-LeadsSnd :
      (s : State) (w : World Double) (t : Task Double) (r : Runner Double)
      → goes s State.waiting_for_stopped ≡ true
      → LeadsSnd s (stop_task (calm w) t r)
  unfolding stop_task switch_to_state
  stop_task-LeadsSnd s w t r g =
      if_elim (LeadsSnd s) (not (is_motion_task t.body)) (λ _. ended s true r)
        (λ _.
          if_elim (LeadsSnd s) w.stop_accepted (λ _. pair s true _ (leads s _ g))
            (λ _.
              ended s true
                (await (calm w) Effect.push_emergency_stop (await (calm w) Effect.push_stop r))))

  pub stop_in-LeadsSnd :
      (m : State) (w : World Double) (t : Task Double) (r : Runner Double)
      → r.state ≡ m
      → LeadsSnd m (stop_in m (calm w) t r)
  unfolding stop_in switch_to_state
  stop_in-LeadsSnd State.waiting_for_resumed w t r e = stop_task-LeadsSnd _ w t r refl
  stop_in-LeadsSnd State.paused w t r e = stop_task-LeadsSnd _ w t r refl
  stop_in-LeadsSnd State.running w t r e = stop_task-LeadsSnd _ w t r refl
  stop_in-LeadsSnd State.current_node_initing w t r e = ended _ true r
  stop_in-LeadsSnd State.waiting_for_stopped w t r e = stays _ true r e
  stop_in-LeadsSnd State.stopped w t r e = stays _ true r e
  stop_in-LeadsSnd State.ready_to_start w t r e = stays _ false r e
  stop_in-LeadsSnd State.waiting_for_paused w t r e =
      if_elim (LeadsSnd State.waiting_for_paused) w.stop_accepted
        (λ _. pair _ true _ (leads _ _ refl))
        (λ _. stays _ false (await (calm w) Effect.push_stop r) e)

  aborted :
      (w : World Double) (s : State) (b : Bool) (e : ErrorText) (r : Runner Double)
      → LeadsSnd s (b, abort (calm w) e r)
  aborted w s b e r =
      pair s b (abort (calm w) e r) (leads s (abort (calm w) e r) (abort-Ticks w s e r).edge)

  pub estop-LeadsSnd :
      (s : State) (w : World Double) (r : Runner Double)
      → r.state ≡ s
      → IfSome (LeadsSnd s) (estop (calm w) r)
  unfolding estop reset_state
  estop-LeadsSnd s w r e =
      let r' : Runner Double = await (calm w) Effect.push_emergency_stop r in
      if_elim (LeadsSnd s) w.emergency_stop_accepted
        (λ _.
          if_elim {A = Runner Double} (λ x. LeadsSnd s (true, x)) (is_stopped r.state)
            (λ _. pair s true _ (leads s _ refl))
            (λ _. aborted w s true (ErrorText.text "ESTOP") r'))
        (λ _. stays s false r' e)

  started_if-LeadsSnd :
      (w : World Double) (o : Option ErrorText) (last : Option (Task Double)) (r : Runner Double)
      → IfSome (LeadsSnd State.stopped) (started_if (check_result (calm w) o last r))
  unfolding started_if check_result switch_to_state
  started_if-LeadsSnd w (some x) last r = aborted w State.stopped false x r
  started_if-LeadsSnd w none none r = tt
  started_if-LeadsSnd w none (some t) r =
      if_elim {A = Bool × Runner Double}
        (λ a. IfSome (LeadsSnd State.stopped) (started_if (some a))) (is_program_end t.body)
        (λ _. pair State.stopped true _ (leads State.stopped _ refl))
        (λ _. aborted w State.stopped false (ErrorText.text "check err: last gcode is not m02") r)

  pub start-LeadsSnd :
      (s : State) (w : World Double) (gcode_list : List (Task Double)) (r : Runner Double)
      → r.state ≡ s
      → IfSome (LeadsSnd s) (start (calm w) gcode_list r)
  unfolding start check_gcode_list_at_first
  start-LeadsSnd s w gcode_list r e =
      if_elim (IfSome (LeadsSnd s)) (not (is_stopped r.state)) (λ _. stays s false r e)
        (λ n.
          subst
            (λ x. IfSome (LeadsSnd x) (
              started_if (
                check_result (calm w) (check_tasks (calm w) gcode_list) (back? gcode_list)
                  (record r { gcode_list = gcode_list; curr_gcode_num = 0 }))))
            (is_stopped_lem r.state n ∙ e)
            (started_if-LeadsSnd w (check_tasks (calm w) gcode_list) (back? gcode_list)
              (record r { gcode_list = gcode_list; curr_gcode_num = 0 })))
