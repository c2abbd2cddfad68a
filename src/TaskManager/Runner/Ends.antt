-- ===== src/TaskManager/Runner/Ends.antt =====
-- Where the program ends, the runner is stopped with no error, and stays so.
use edm_project.TaskManager.Runner.Runs.{motion-not-end}
use edm_project.TaskManager.Runner.Cooperative.{IsCooperative}
use edm_project.TaskManager.Runner.Keeps.{with_current-Gives, not-false}
use edm_project.TaskManager.Runner.Ticks.{state_running, running_non_motion}
use edm_project.Prelude.{
  ℕ, zero, suc, Bool, true, false, not, Option, none, some, ◌≡◌, refl, Gives, if_elim, sym, ◌∙◌,
  bind-Gives,
}
use mathlib.Core.Option
use mathlib.Core.Bool.{false≢true}
use mathlib.Core.Option.{none-ne-some}
use edm_project.TaskManager.Task.{Task, TaskBody, is_motion_task, is_program_end}
use edm_project.TaskManager.Runner.{State, Runner, World, current, end_program, reset_state, calm}
use edm_project.TaskManager.Runner.Steps.{run_state, run_switch, run_once}
use edm_project.TaskManager.Runner.Comes.{run_once-Gives}

module _ {Double : Type 0} where
  -- The program has ended with no error, and no pause is pending.
  abbrev pub HasEnded : Runner Double → Type 0
  HasEnded r =
      (r.state ≡ State.stopped)
      × (r.delay_pause_flag ≡ false)
      × (r.last_error ≡ none)
      × ((t : Task Double) × (current r ≡ some t))

module _ {Double : Type 0} (drill_machine : Bool) (w : World Double) where
  -- `_run_once`, a number of times.
  unfoldable pub runs : ℕ → Runner Double → Option (Runner Double)
  unfolding run_once Option.bind
  runs zero r = some r
  runs (suc n) r = Option.bind (run_once drill_machine w r) (λ r'. runs n r')

module _ {Double : Type 0} (drill_machine : Bool) (w : World Double) (c : IsCooperative w) where
  running_non_motion-HasEnded :
      (b : TaskBody Double) (t : Task Double) (r : Runner Double)
      → is_program_end b ≡ true
      → current r ≡ some t
      → Gives HasEnded (running_non_motion drill_machine (calm w) b t r)
  unfolding running_non_motion end_program reset_state
  running_non_motion-HasEnded TaskBody.program_end t r e at = (refl, refl, refl, (t, at))
  running_non_motion-HasEnded (TaskBody.g01 index mode xs) t r e at = absurd (false≢true e)
  running_non_motion-HasEnded TaskBody.coordinate_mode t r e at = absurd (false≢true e)
  running_non_motion-HasEnded TaskBody.feed_speed_set t r e at = absurd (false≢true e)
  running_non_motion-HasEnded TaskBody.pause t r e at = absurd (false≢true e)
  running_non_motion-HasEnded (TaskBody.coordinate_index index) t r e at = absurd (false≢true e)
  running_non_motion-HasEnded (TaskBody.eleparam_set index) t r e at = absurd (false≢true e)
  running_non_motion-HasEnded (TaskBody.delay s) t r e at = absurd (false≢true e)
  running_non_motion-HasEnded (TaskBody.coord_set_zero axes) t r e at = absurd (false≢true e)
  running_non_motion-HasEnded (TaskBody.drill params) t r e at = absurd (false≢true e)
  running_non_motion-HasEnded (TaskBody.g01_group index points) t r e at = absurd (false≢true e)
  running_non_motion-HasEnded (TaskBody.g00 detect touch feed index mode xs) t r e at =
      absurd (false≢true e)

  pub end-HasEnded :
      (t : Task Double) (r : Runner Double)
      → r.state ≡ State.running
      → current r ≡ some t
      → is_program_end t.body ≡ true
      → Gives HasEnded (run_once drill_machine (calm w) r)
  unfolding run_switch run_state state_running
  end-HasEnded t r s at e =
      run_once-Gives drill_machine w c HasEnded (λ r' h. h.1) State.running r s
        (with_current-Gives HasEnded r _ t at (
          if_elim (Gives HasEnded) (not (is_motion_task t.body))
            (λ _. running_non_motion-HasEnded t.body t r e at)
            (λ m. absurd (false≢true (sym (motion-not-end t.body (not-false _ m)) ∙ e)))))

  stopped-HasEnded :
      (r : Runner Double) → HasEnded r → Gives HasEnded (run_once drill_machine (calm w) r)
  unfolding run_switch run_state
  stopped-HasEnded r h =
      run_once-Gives drill_machine w c HasEnded (λ r' h'. h'.1) State.stopped r h.0
        (with_current-Gives HasEnded r _ h.3.0 h.3.1 h)

  pub runs-HasEnded :
      (n : ℕ) (r : Runner Double) → HasEnded r → Gives HasEnded (runs drill_machine (calm w) n r)
  unfolding runs
  runs-HasEnded zero r h = h
  runs-HasEnded (suc n) r h =
      bind-Gives HasEnded HasEnded _ _ (stopped-HasEnded r h) (λ r' h'. runs-HasEnded n r' h')
