-- ===== src/TaskManager/Runner/Reach.antt =====
-- What GCodeRunner reaches by its operations and by `_run_once`, in any order and with any answers
-- of the machine, where a run of `_run_once` within a wait for the answer to a command changes
-- nothing of the runner but what it pushes and emits. Where one does more, what is said here can
-- fail, as the tests show.
use edm_project.TaskManager.Runner.Operations.{estop}
use edm_project.Prelude.{Option, none, some, [], ◌≡◌, ◌≢◌, refl, Gives, Bool, inl}
use mathlib.Core.Option.{none-ne-some}
use mathlib.Core.Path.{subst}
use edm_project.TaskManager.Runner.{Runner, World, new_runner, calm}
use edm_project.TaskManager.Runner.Steps.{
  Event, starts, pauses, resumes, stops, estops, resets, ticks, step, result,
}
use edm_project.TaskManager.Runner.Valid.{IsValid, IsValidIn, HasSix}
use edm_project.TaskManager.Runner.Keeps.{
  IsValidSnd, pause-IsValid, resume-IsValid, stop-IsValid, estop-IsValid, reset-IsValid,
}
use edm_project.TaskManager.Runner.Starts.{start-IsValid}
use edm_project.TaskManager.Runner.Waits.{run_once-IsValid}

module _ {Double : Type 0} where
  -- A program that is started has a task and six coordinates in its motions, and `_run_once` comes after a program has been given.
  abbrev pub IsAllowed : Event Double → Runner Double → Type 0
  IsAllowed (starts gcode_list) r = (gcode_list ≢ []) × HasSix gcode_list
  IsAllowed ticks r = r.gcode_list ≢ []
  IsAllowed _ r = Unit

  result-IsValid :
      (o : Option (Bool × Runner Double)) → Gives IsValidSnd o → Gives IsValid (result o)
  result-IsValid none v = v
  result-IsValid (some a) v = v

-- `r` is reached from the runner's construction by steps within which no other step changes it
-- (`calm`).
pub data Reachable {Double : Type 0} (drill_machine : Bool) : Runner Double → Type 0 where
  begin : Reachable drill_machine new_runner
  next :
      (w : World Double) (e : Event Double) (r r' : Runner Double)
      → Reachable drill_machine r
      → IsAllowed e r
      → step drill_machine (calm w) e r ≡ some r'
      → Reachable drill_machine r'

module _ {Double : Type 0} (drill_machine : Bool) where
  step-IsValid :
      (w : World Double) (e : Event Double) (r : Runner Double)
      → IsValid r
      → IsAllowed e r
      → Gives IsValid (step drill_machine (calm w) e r)
  unfolding step
  step-IsValid w (starts gcode_list) r v a =
      result-IsValid _ (start-IsValid w gcode_list r a.0 a.1 v)
  step-IsValid w pauses r v a = result-IsValid _ (pause-IsValid w r v)
  step-IsValid w resumes r v a = result-IsValid _ (resume-IsValid w r v)
  step-IsValid w stops r v a = result-IsValid _ (stop-IsValid w r v)
  step-IsValid w estops r v a = result-IsValid (estop (calm w) r) (estop-IsValid w r v)
  step-IsValid w resets r v a = reset-IsValid r v
  step-IsValid w ticks r v a = run_once-IsValid drill_machine w r v a

  pub Reachable-IsValid : (r : Runner Double) → Reachable drill_machine r → IsValid r
  unfolding IsValidIn
  Reachable-IsValid r begin = (inl refl, refl, refl, none-ne-some _)
  Reachable-IsValid _ (next w e r r' h a s) =
      subst (Gives IsValid) s (step-IsValid w e r (Reachable-IsValid r h) a)
