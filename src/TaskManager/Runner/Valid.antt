-- ===== src/TaskManager/Runner/Valid.antt =====
-- When a GCodeRunner is well formed, and that the steps its operations share keep it so.
use edm_project.Prelude.{
  ℕ, zero, suc, Bool, true, false, Option, none, some, List, [], ◌∷◌, ◌≡◌, ◌≢◌, ◌⊎◌, inr, refl,
  get_elem?, length, ◌∙◌, ◌&&◌, sym, ap, ltb, Gives, if_elim, arith, All,
}
use edm_project.TaskManager.Task.{Task, is_motion_task, is_program_end, is_drill}
use edm_project.TaskManager.Runner.{
  State, Runner, World, ErrorText, is_stopped, current, switch_to_state, abort, end_program,
  drill_record_data, check_to_next_gcode, Effect, calm, await,
}
use edm_project.TaskManager.Runner.Operations.{back?}
use edm_project.TaskManager.Runner.Ticks.{has_six}
use mathlib.Core.Path.{subst}
use mathlib.Core.Bool.{false≢true}
use mathlib.Core.Option.{some-injective, none-ne-some}

module _ {Double : Type 0} where
  -- The last task is the program's end.
  abbrev pub IsEnded : List (Task Double) → Type 0
  IsEnded ts = Gives (λ t. is_program_end t.body ≡ true) (back? ts)

  abbrev pub HasNoOverflow : Runner Double → Type 0
  HasNoOverflow r = r.last_error ≢ some ErrorText.gcode_overflow

  -- Each G00 or G01 task has six coordinates.
  abbrev pub HasSix : List (Task Double) → Type 0
  HasSix ts = All (λ t. has_six t.body ≡ true) ts

  -- `t` is the current task of a program that ends and has six coordinates in its motions, and the
  -- timer runs.
  abbrev pub IsAt : Task Double → Runner Double → Type 0
  IsAt t r =
      (current r ≡ some t)
      × IsEnded r.gcode_list
      × (r.update_timer ≡ true)
      × HasNoOverflow r
      × HasSix r.gcode_list

  -- No program has been given yet, or the current task exists.
  abbrev pub IsKept : Runner Double → Type 0
  IsKept r = (r.gcode_list ≡ []) ⊎ ((t : Task Double) × (current r ≡ some t))

  abbrev pub IsOn : Runner Double → Type 0
  IsOn r = (t : Task Double) × IsAt t r

  -- As above, and the current task is a motion.
  abbrev pub IsMoving : Runner Double → Type 0
  IsMoving r = (t : Task Double) × IsAt t r × (is_motion_task t.body ≡ true)

  -- Stopped: the timer is off and no pause is pending.
  abbrev pub IsOff : Runner Double → Type 0
  IsOff r = IsKept r × (r.update_timer ≡ false) × (r.delay_pause_flag ≡ false) × HasNoOverflow r

  unfoldable pub IsValidIn : State → Runner Double → Type 0
  IsValidIn State.stopped r = IsOff r
  IsValidIn State.waiting_for_paused r = IsMoving r
  IsValidIn State.waiting_for_resumed r = IsMoving r
  IsValidIn State.waiting_for_stopped r = IsMoving r
  IsValidIn _ r = IsOn r

  abbrev pub IsValid : Runner Double → Type 0
  IsValid r = IsValidIn r.state r

module _ {Double : Type 0} where
  abbrev is_end : Option (Task Double) → Bool
  is_end none = true
  is_end (some t) = is_program_end t.body

  pub get_elem?-next :
      (ts : List (Task Double)) (n : ℕ) (t : Task Double)
      → IsEnded ts
      → get_elem? ts n ≡ some t
      → is_program_end t.body ≡ false
      → (u : Task Double) × (get_elem? ts (suc n) ≡ some u)
  unfolding back?
  get_elem?-next [] n t h e k = absurd (none-ne-some _ e)
  get_elem?-next (u ∷ []) zero t h e k = absurd (false≢true (sym k ∙ sym (ap is_end e) ∙ h))
  get_elem?-next (u ∷ []) (suc n) t h e k = absurd (none-ne-some _ e)
  get_elem?-next (u ∷ v ∷ ts) zero t h e k = (v, refl)
  get_elem?-next (u ∷ v ∷ ts) (suc n) t h e k = get_elem?-next (v ∷ ts) n t h e k

  pub get_elem?-length :
      (ts : List (Task Double)) (n : ℕ) (u : Task Double)
      → get_elem? ts n ≡ some u
      → ltb n (length ts) ≡ true
  get_elem?-length [] n u e = absurd (none-ne-some _ e)
  get_elem?-length (t ∷ ts) zero u e = ground arith
  get_elem?-length (t ∷ ts) (suc n) u e = ground (arith, get_elem?-length ts n u e)

  pub get_elem?-All {κ} :
      (P : Task Double → Type κ) (ts : List (Task Double)) (n : ℕ) (t : Task Double)
      → All P ts
      → get_elem? ts n ≡ some t
      → P t
  get_elem?-All P [] n t h e = absurd (none-ne-some _ e)
  get_elem?-All P (u ∷ ts) zero t h e = subst P (some-injective _ _ e) h.0
  get_elem?-All P (u ∷ ts) (suc n) t h e = get_elem?-All P ts n t h.1 e

  pub end_program-IsValid : (r : Runner Double) → IsKept r → IsValid (end_program r)
  unfolding end_program IsValidIn
  end_program-IsValid r k = (k, refl, refl, none-ne-some _)

  pub abort-IsValid :
      (w : World Double) (e : ErrorText) (r : Runner Double)
      → e ≢ ErrorText.gcode_overflow
      → IsKept r
      → IsValid (abort (calm w) e r)
  unfolding abort IsValidIn
  abort-IsValid w e r ne k = (k, refl, refl, λ p. ne (some-injective _ _ p))

  pub drill_record_data-IsAt :
      (drill_machine : Bool) (w : World Double) (start : Bool) (t : Task Double) (r : Runner Double)
      → IsAt t r
      → IsAt t (drill_record_data drill_machine (calm w) start t r)
  drill_record_data-IsAt drill_machine w start t r h =
      if_elim (IsAt t) (drill_machine && is_drill t.body && w.auto_record_data) (λ _. h) (λ _. h)

  pub check_to_next_gcode-IsValid :
      (drill_machine : Bool) (w : World Double) (t : Task Double) (r : Runner Double)
      → IsAt t r
      → is_program_end t.body ≡ false
      → IsValid (check_to_next_gcode drill_machine (calm w) t r)
  unfolding check_to_next_gcode switch_to_state IsValidIn
  check_to_next_gcode-IsValid drill_machine w t r h k =
      let r' : Runner Double = drill_record_data drill_machine (calm w) false t r in
      let h' : IsAt t r' = drill_record_data-IsAt drill_machine w false t r h in
      let next : (u : Task Double) × (get_elem? r'.gcode_list (suc r'.curr_gcode_num) ≡ some u) =
        get_elem?-next r'.gcode_list r'.curr_gcode_num t h'.1 h'.0 k in
      if_elim IsValid (ltb (suc r'.curr_gcode_num) (length r'.gcode_list))
        (λ _. (next.0, (next.1, h'.1, h'.2, h'.3, h'.4)))
        (λ e. absurd (false≢true (sym e ∙ get_elem?-length r'.gcode_list _ next.0 next.1)))

-- What a state's well-formedness does not read.
module _ {Double : Type 0} where
  pub IsValidIn-await :
      (s : State) (w : World Double) (e : Effect) (r : Runner Double)
      → IsValidIn s r
      → IsValidIn s (await (calm w) e r)
  unfolding IsValidIn
  IsValidIn-await State.ready_to_start w e r v = v
  IsValidIn-await State.current_node_initing w e r v = v
  IsValidIn-await State.running w e r v = v
  IsValidIn-await State.waiting_for_paused w e r v = v
  IsValidIn-await State.paused w e r v = v
  IsValidIn-await State.waiting_for_resumed w e r v = v
  IsValidIn-await State.waiting_for_stopped w e r v = v
  IsValidIn-await State.stopped w e r v = v

  pub IsValidIn-delay :
      (s : State) (b : Bool) (r : Runner Double)
      → is_stopped s ≡ false
      → IsValidIn s r
      → IsValidIn s (record r { delay_pause_flag = b })
  unfolding IsValidIn
  IsValidIn-delay State.ready_to_start b r on v = v
  IsValidIn-delay State.current_node_initing b r on v = v
  IsValidIn-delay State.running b r on v = v
  IsValidIn-delay State.waiting_for_paused b r on v = v
  IsValidIn-delay State.paused b r on v = v
  IsValidIn-delay State.waiting_for_resumed b r on v = v
  IsValidIn-delay State.waiting_for_stopped b r on v = v
  IsValidIn-delay State.stopped b r on v = absurd (false≢true (sym on))

  pub IsValidIn-IsOn :
      (s : State) (r : Runner Double) → is_stopped s ≡ false → IsValidIn s r → IsOn r
  unfolding IsValidIn
  IsValidIn-IsOn State.ready_to_start r on v = v
  IsValidIn-IsOn State.current_node_initing r on v = v
  IsValidIn-IsOn State.running r on v = v
  IsValidIn-IsOn State.waiting_for_paused r on v = (v.0, v.1)
  IsValidIn-IsOn State.paused r on v = v
  IsValidIn-IsOn State.waiting_for_resumed r on v = (v.0, v.1)
  IsValidIn-IsOn State.waiting_for_stopped r on v = (v.0, v.1)
  IsValidIn-IsOn State.stopped r on v = absurd (false≢true (sym on))

  IsOn-IsKept : (r : Runner Double) → IsOn r → IsKept r × HasNoOverflow r
  IsOn-IsKept r on = (inr (on.0, on.1.0), on.1.3)

  -- In any state the current task exists, unless no program has been given.
  pub IsValidIn-IsKept :
      (s : State) (r : Runner Double) → IsValidIn s r → IsKept r × HasNoOverflow r
  unfolding IsValidIn
  IsValidIn-IsKept State.ready_to_start r v = IsOn-IsKept r v
  IsValidIn-IsKept State.current_node_initing r v = IsOn-IsKept r v
  IsValidIn-IsKept State.running r v = IsOn-IsKept r v
  IsValidIn-IsKept State.waiting_for_paused r v = IsOn-IsKept r (v.0, v.1)
  IsValidIn-IsKept State.paused r v = IsOn-IsKept r v
  IsValidIn-IsKept State.waiting_for_resumed r v = IsOn-IsKept r (v.0, v.1)
  IsValidIn-IsKept State.waiting_for_stopped r v = IsOn-IsKept r (v.0, v.1)
  IsValidIn-IsKept State.stopped r v = (v.0, v.3)
