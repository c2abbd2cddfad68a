-- ===== src/TaskManager/Runner/Starts.antt =====
-- Starting a program keeps GCodeRunner well formed, whatever the check of the program says.
use mathlib.Core.Option.{none-ne-some}
use mathlib.Core.Path.{subst}
use edm_project.TaskManager.Runner.Operations.{
  check_task, first_error, check_tasks, back?, started_if, check_result, start,
  check_gcode_list_at_first,
}
use edm_project.TaskManager.Runner.Keeps.{is_overflow, IsValidSnd, other}
use edm_project.Prelude.{
  Bool, true, false, not, Option, none, some, List, [], ◌∷◌, ◌≡◌, ◌≢◌, inr, refl, Gives, if_elim,
  sym, if◌then◌else◌,
}
use edm_project.TaskManager.Task.{Task, TaskBody, is_program_end}
use edm_project.TaskManager.Runner.{
  Runner, World, ErrorText, is_stopped, current, switch_to_state, calm,
}
use edm_project.TaskManager.Runner.Valid.{
  IsValid, IsValidIn, HasNoOverflow, IsValidIn-IsKept, abort-IsValid, HasSix,
}

-- No error of the check is the overflow's.
abbrev IsCheckError : Option ErrorText → Type 0
IsCheckError none = Unit
IsCheckError (some e) = is_overflow e ≡ false

IsCheckError-if :
    (b : Bool) (e : ErrorText) → is_overflow e ≡ false → IsCheckError (if b then none else some e)
IsCheckError-if b e h = if_elim IsCheckError b (λ _. tt) (λ _. h)

first_error-IsCheckError :
    (o o' : Option ErrorText) → IsCheckError o → IsCheckError o' → IsCheckError (first_error o o')
first_error-IsCheckError none o' h k = k
first_error-IsCheckError (some e) o' h k = h

module _ {Double : Type 0} where
  check_task-IsCheckError :
      (w : World Double) (t : TaskBody Double) → IsCheckError (check_task (calm w) t)
  check_task-IsCheckError w (TaskBody.eleparam_set index) = IsCheckError-if _ _ refl
  check_task-IsCheckError w (TaskBody.coordinate_index index) = IsCheckError-if _ _ refl
  check_task-IsCheckError w (TaskBody.g00 detect touch feed index mode xs) = tt
  check_task-IsCheckError w (TaskBody.g01 index mode xs) = tt
  check_task-IsCheckError w TaskBody.coordinate_mode = tt
  check_task-IsCheckError w TaskBody.feed_speed_set = tt
  check_task-IsCheckError w TaskBody.program_end = tt
  check_task-IsCheckError w TaskBody.pause = tt
  check_task-IsCheckError w (TaskBody.delay s) = tt
  check_task-IsCheckError w (TaskBody.coord_set_zero axes) = tt
  check_task-IsCheckError w (TaskBody.drill params) = tt
  check_task-IsCheckError w (TaskBody.g01_group index points) = tt

  check_tasks-IsCheckError :
      (w : World Double) (ts : List (Task Double)) → IsCheckError (check_tasks (calm w) ts)
  unfolding check_tasks
  check_tasks-IsCheckError w [] = tt
  check_tasks-IsCheckError w (t ∷ ts) =
      first_error-IsCheckError _ _ (check_task-IsCheckError w t.body)
        (check_tasks-IsCheckError w ts)

  -- A program that has a first task has a last one.
  back?-some : (t : Task Double) (ts : List (Task Double)) → back? (t ∷ ts) ≢ none
  unfolding back?
  back?-some t [] e = none-ne-some _ (sym e)
  back?-some t (u ∷ ts) e = back?-some u ts e

  -- The check of a program whose first task is `t`, and what follows it.
  started_if-IsValid :
      (w : World Double) (o : Option ErrorText) (last : Option (Task Double)) (t : Task Double)
      (r : Runner Double)
      → IsCheckError o
      → last ≢ none
      → last ≡ back? r.gcode_list
      → current r ≡ some t
      → HasNoOverflow r
      → HasSix r.gcode_list
      → Gives IsValidSnd (started_if (check_result (calm w) o last r))
  unfolding started_if check_result switch_to_state IsValidIn
  started_if-IsValid w (some e) last t r h l k c n x = abort-IsValid w e r (other e h) (inr (t, c))
  started_if-IsValid w none none t r h l k c n x = absurd (l refl)
  started_if-IsValid w none (some u) t r h l k c n x =
      if_elim (λ a. Gives (IsValidSnd {Double = Double}) (started_if (some a)))
        (is_program_end u.body)
        (λ p. (t, (c, subst (Gives (λ t. is_program_end t.body ≡ true)) k p, refl, n, x)))
        (λ _. abort-IsValid w _ r (other _ refl) (inr (t, c)))

  pub start-IsValid :
      (w : World Double) (gcode_list : List (Task Double)) (r : Runner Double)
      → gcode_list ≢ []
      → HasSix gcode_list
      → IsValid r
      → Gives IsValidSnd (start (calm w) gcode_list r)
  unfolding start check_gcode_list_at_first
  start-IsValid w [] r ne x v = absurd (ne refl)
  start-IsValid w (t ∷ ts) r ne x v =
      if_elim (Gives IsValidSnd) (not (is_stopped r.state)) (λ _. v)
        (λ _.
          started_if-IsValid w (check_tasks (calm w) (t ∷ ts)) (back? (t ∷ ts)) t
            (record r { gcode_list = t ∷ ts; curr_gcode_num = 0 })
            (check_tasks-IsCheckError w (t ∷ ts)) (back?-some t ts) refl refl
            (IsValidIn-IsKept r.state r v).1 x)
