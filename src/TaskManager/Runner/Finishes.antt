-- ===== src/TaskManager/Runner/Finishes.antt =====
-- With a cooperative machine, a program that has been started runs to its end.
use edm_project.TaskManager.Runner.Ticks.{has_six}
use edm_project.TaskManager.Runner.Reach.{Reachable, Reachable-IsValid}
use edm_project.TaskManager.Runner.Operations.{
  check_task, check_tasks, started_if, check_result, back?, start, check_gcode_list_at_first,
}
use edm_project.TaskManager.Runner.Cooperative.{IsCooperative, IsCome}
use edm_project.Prelude.{
  ℕ, zero, suc, ◌+◌, ◌*◌, ◌≤◌, Bool, true, false, not, Option, none, some, List, [], ◌∷◌, ◌≡◌, inl,
  inr, refl, Gives, if_elim, sym, ap, get_elem?, length, ◌∙◌, Bool-cases, bind-Gives, arith,
}
use mathlib.Core.Bool.{false≢true}
use mathlib.Core.Path.{subst}
use mathlib.Core.Option.{none-ne-some}
use edm_project.TaskManager.Task.{Task, TaskBody, is_program_end}
use edm_project.TaskManager.Runner.{
  State, Runner, World, ErrorText, is_stopped, current, switch_to_state, calm,
}
use edm_project.TaskManager.Runner.Steps.{run_switch}
use edm_project.TaskManager.Runner.Valid.{
  IsEnded, get_elem?-next, get_elem?-length, IsValidIn, IsOff, HasSix, get_elem?-All,
}
use edm_project.TaskManager.Runner.Comes.{run_once-Gives, next_task-IsCome, running-IsCome}
use edm_project.TaskManager.Runner.Ends.{HasEnded, runs, end-HasEnded, runs-HasEnded}

module _ {Double : Type 0} where
  -- What stays as the runner comes on in its program.
  IsCome-current :
      (s : State) (n : ℕ) (r r' : Runner Double) (u : Task Double)
      → IsCome s n r r'
      → get_elem? r.gcode_list n ≡ some u
      → current r' ≡ some u
  IsCome-current s n r r' u h e =
      ap (get_elem? r'.gcode_list) h.3 ∙ ap (λ ts. get_elem? ts n) h.2 ∙ e

  IsCome-IsEnded :
      (s : State) (n : ℕ) (r r' : Runner Double)
      → IsCome s n r r'
      → IsEnded r.gcode_list
      → IsEnded r'.gcode_list
  IsCome-IsEnded s n r r' h e = subst IsEnded (sym h.2) e

  IsCome-HasSix :
      (s : State) (n : ℕ) (r r' : Runner Double)
      → IsCome s n r r'
      → HasSix r.gcode_list
      → HasSix r'.gcode_list
  IsCome-HasSix s n r r' h x = subst HasSix (sym h.2) x

  IsCome-bound :
      (s : State) (k : ℕ) (r r' : Runner Double)
      → IsCome s (suc r.curr_gcode_num) r r'
      → length r.gcode_list ≤ suc k + r.curr_gcode_num
      → length r'.gcode_list ≤ k + r'.curr_gcode_num
  IsCome-bound s k r r' h b = omega (arith, ap length h.2, h.3, b)

module _ {Double : Type 0} (drill_machine : Bool) (w : World Double) (c : IsCooperative w) where
  -- From a task that is about to start, at most `k` tasks before the end of the list.
  rest-HasEnded :
      (k : ℕ) (t : Task Double) (r : Runner Double)
      → r.state ≡ State.current_node_initing
      → r.delay_pause_flag ≡ false
      → current r ≡ some t
      → IsEnded r.gcode_list
      → HasSix r.gcode_list
      → length r.gcode_list ≤ k + r.curr_gcode_num
      → Gives HasEnded (runs drill_machine (calm w) (2 * k) r)
  unfolding runs
  rest-HasEnded zero t r s d at e x bound =
      absurd (ground (arith, get_elem?-length r.gcode_list r.curr_gcode_num t at, bound))
  rest-HasEnded (suc k) t r s d at e x bound =
      subst (λ n. Gives HasEnded (runs drill_machine (calm w) n r)) twice_suc
        (bind-Gives (IsCome State.running r.curr_gcode_num r) HasEnded _ _
          (next_task-IsCome drill_machine w c t r s d at
            (get_elem?-All (λ u. has_six u.body ≡ true) r.gcode_list r.curr_gcode_num t x at))
          (λ r1 h1. elim (Bool-cases (is_program_end t.body)) [
            | inl end ↦
                bind-Gives HasEnded HasEnded _ _
                  (end-HasEnded drill_machine w c t r1 h1.0 (IsCome-current _ _ r r1 t h1 at) end)
                  (λ r2 h2. runs-HasEnded drill_machine w c (2 * k) r2 h2)
            | inr more ↦
                let u : (u : Task Double) × (get_elem? r.gcode_list (suc r.curr_gcode_num)
                      ≡ some u) =
                  get_elem?-next r.gcode_list r.curr_gcode_num t e at more in
                bind-Gives (IsCome State.current_node_initing (suc r1.curr_gcode_num) r1) HasEnded _
                  _
                  (running-IsCome drill_machine w c t r1 h1.0 h1.1 (IsCome-current _ _ r r1 t h1 at)
                    (IsCome-IsEnded _ _ r r1 h1 e) more)
                  (λ r2 h2.
                    let h : IsCome State.current_node_initing (suc r.curr_gcode_num) r r2 =
                      (h2.0, h2.1, h2.2 ∙ h1.2, h2.3 ∙ ap suc h1.3) in
                    rest-HasEnded k u.0 r2 h2.0 h2.1 (IsCome-current _ _ r r2 u.0 h u.1)
                      (IsCome-IsEnded _ _ r r2 h e) (IsCome-HasSix _ _ r r2 h x)
                      (IsCome-bound _ k r r2 h bound))
          ]))
    where
      twice_suc : suc (suc (2 * k)) ≡ 2 * suc k
      twice_suc = omega arith

  -- The check of a program whose indices exist.
  check_task-none : (t : TaskBody Double) → check_task (calm w) t ≡ none
  check_task-none (TaskBody.eleparam_set index) = rw (c.eleparam_exists index) refl
  check_task-none (TaskBody.coordinate_index index) = rw (c.coordinate_exists index) refl
  check_task-none (TaskBody.g01 index mode xs) = refl
  check_task-none TaskBody.coordinate_mode = refl
  check_task-none TaskBody.feed_speed_set = refl
  check_task-none TaskBody.program_end = refl
  check_task-none TaskBody.pause = refl
  check_task-none (TaskBody.delay s) = refl
  check_task-none (TaskBody.coord_set_zero axes) = refl
  check_task-none (TaskBody.drill params) = refl
  check_task-none (TaskBody.g01_group index points) = refl
  check_task-none (TaskBody.g00 detect touch feed index mode xs) = refl

  check_tasks-none : (ts : List (Task Double)) → check_tasks (calm w) ts ≡ none
  unfolding check_tasks
  check_tasks-none [] = refl
  check_tasks-none (t ∷ ts) = rw (check_task-none t.body) (check_tasks-none ts)

  ready-HasEnded :
      (t : Task Double) (r : Runner Double)
      → r.state ≡ State.ready_to_start
      → IsEnded r.gcode_list
      → HasSix r.gcode_list
      → current r ≡ some t
      → r.curr_gcode_num ≡ 0
      → r.delay_pause_flag ≡ false
      → Gives HasEnded (runs drill_machine (calm w) (suc (2 * length r.gcode_list)) r)
  unfolding runs run_switch switch_to_state
  ready-HasEnded t r s e x at z d =
      bind-Gives (IsCome State.current_node_initing r.curr_gcode_num r) HasEnded _ _
        (run_once-Gives drill_machine w c (IsCome State.current_node_initing r.curr_gcode_num r)
          (λ r' h. h.1) State.ready_to_start r s (refl, d, refl, refl))
        (λ r1 h.
          rest-HasEnded (length r.gcode_list) t r1 h.0 h.1 (IsCome-current _ _ r r1 t h at)
            (IsCome-IsEnded _ _ r r1 h e) (IsCome-HasSix _ _ r r1 h x)
            (omega (arith, ap length h.2, h.3, z)))

  -- A start that the check lets through, and the runs of `_run_once` that follow.
  started_if-HasEnded :
      (o : Option ErrorText) (last : Option (Task Double)) (t : Task Double) (r : Runner Double)
      → o ≡ none
      → last ≡ back? r.gcode_list
      → IsEnded r.gcode_list
      → HasSix r.gcode_list
      → current r ≡ some t
      → r.curr_gcode_num ≡ 0
      → r.delay_pause_flag ≡ false
      → Gives
          (λ a.
            (a.0 ≡ true)
            × Gives HasEnded (runs drill_machine (calm w) (suc (2 * length r.gcode_list)) a.1))
          (started_if (check_result (calm w) o last r))
  unfolding started_if check_result switch_to_state
  started_if-HasEnded (some err) last t r p l e x at z d = absurd (none-ne-some _ (sym p))
  started_if-HasEnded none none t r p l e x at z d =
      absurd (subst (Gives (λ u. is_program_end u.body ≡ true)) (sym l) e).lower
  started_if-HasEnded none (some u) t r p l e x at z d =
      if_elim
        (λ a.
          Gives
            (λ a.
              (a.0 ≡ true)
              × Gives (HasEnded {Double = Double})
                  (runs drill_machine (calm w) (suc (2 * length r.gcode_list)) a.1))
            (started_if {Double = Double} (some a)))
        (is_program_end u.body)
        (λ _. (
          refl,
          ready-HasEnded t (switch_to_state State.ready_to_start (record r { update_timer = true }))
              refl e x at z d,
        ))
        (λ n.
          absurd (false≢true (sym n ∙ subst (Gives (λ u. is_program_end u.body ≡ true)) (sym l) e)))

  pub start-HasEnded :
      (gcode_list : List (Task Double)) (r : Runner Double)
      → Reachable drill_machine r
      → r.state ≡ State.stopped
      → IsEnded gcode_list
      → HasSix gcode_list
      → Gives
          (λ a.
            (a.0 ≡ true)
            × Gives HasEnded (runs drill_machine (calm w) (suc (2 * length gcode_list)) a.1))
          (start (calm w) gcode_list r)
  unfolding start check_gcode_list_at_first IsValidIn back?
  start-HasEnded [] r h s e x = absurd e.lower
  start-HasEnded (t ∷ ts) r h s e six =
      if_elim
        (Gives (λ a.
          (a.0 ≡ true)
          × Gives (HasEnded {Double = Double})
              (runs drill_machine (calm w) (suc (2 * length (t ∷ ts))) a.1)))
        (not (is_stopped r.state))
        (λ on. absurd (false≢true (ap (λ x. not (is_stopped x)) (sym s) ∙ on)))
        (λ _.
          started_if-HasEnded _ _ t (record r { gcode_list = t ∷ ts; curr_gcode_num = 0 })
            (check_tasks-none (t ∷ ts)) refl e six refl refl
            (off (subst (λ x. IsValidIn x r) s (Reachable-IsValid drill_machine r h))))
    where
      off : IsOff r → r.delay_pause_flag ≡ false
      off v = v.2
