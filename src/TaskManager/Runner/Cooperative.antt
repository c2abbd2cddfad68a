-- ===== src/TaskManager/Runner/Cooperative.antt =====
-- A machine that accepts and ends every motion, and where the next task then stands.
use edm_project.TaskManager.Runner.Ticks.{prepared, prepare_motion, has_six, missing_index}
use edm_project.Prelude.{
  ℕ, suc, Bool, true, false, some, ◌≡◌, refl, if_elim, sym, ap, get_elem?, length, ltb, ◌∙◌, Option,
  Gives, none,
}
use mathlib.Core.Bool.{false≢true}
use mathlib.Core.Path.{subst}
use mathlib.Core.Option.{none-ne-some}
use edm_project.TaskManager.Task.{Task, is_program_end, TaskBody}
use edm_project.TaskManager.Runner.{
  State, Runner, World, current, switch_to_state, MotionMainMode, Effect, Preparation,
  check_to_next_gcode, drill_record_data, ℤ, calm, ErrorText, await,
}
use edm_project.TaskManager.Runner.Valid.{IsEnded, get_elem?-next, get_elem?-length}

-- The machine accepts every motion and is idle again at the next look, without a touch; the indices
-- of the program exist, and the settings are accepted.
pub record IsCooperative {Double : Type 0} (w : World Double) : Type 0 where
  pub starts_all : (t : Task Double) → w.prepare t ≡ Preparation.started
  pub idle_again : w.main_mode ≡ MotionMainMode.idle
  pub untouched : w.touch_warning ≡ false
  pub coordinate_exists : (i : ℤ) → w.exist_coordinate_index i ≡ true
  pub eleparam_exists : (i : ℤ) → w.exist_eleparam_index i ≡ true
  pub eleparam_set : (i : ℤ) → w.set_current_eleparam_index i ≡ true
  pub offset_read : w.has_current_coord_offset ≡ true
  pub offset_set : w.set_current_coord_offset ≡ true

module _ {Double : Type 0} where
  -- `r'` has come to the state `s` at the task `n` of the program of `r`, with no pause pending.
  abbrev pub IsCome : State → ℕ → Runner Double → Runner Double → Type 0
  IsCome s n r r' =
      (r'.state ≡ s)
      × (r'.delay_pause_flag ≡ false)
      × (r'.gcode_list ≡ r.gcode_list)
      × (r'.curr_gcode_num ≡ n)

module _ {Double : Type 0} (drill_machine : Bool) (w : World Double) (c : IsCooperative w) where
  pub record_data-IsCome :
      (start : Bool) (t : Task Double) (s : State) (n : ℕ) (r r' : Runner Double)
      → IsCome s n r r'
      → IsCome s n r (drill_record_data drill_machine (calm w) start t r')
  record_data-IsCome start t s n r r' h = if_elim (IsCome s n r) _ (λ _. h) (λ _. h)

  pub switched-IsCome :
      (s : State) (r r' : Runner Double)
      → IsCome s r.curr_gcode_num r r'
      → IsCome State.running r.curr_gcode_num r (switch_to_state State.running r')
  unfolding switch_to_state
  switched-IsCome s r r' h = (refl, h.1, h.2, h.3)

  pub prepared-IsCome :
      (t : Task Double) (s : State) (r r' : Runner Double)
      → IsCome s r.curr_gcode_num r r'
      → IsCome State.running r.curr_gcode_num r
          (prepared drill_machine (calm w) Preparation.started t r')
  prepared-IsCome t s r r' h =
      switched-IsCome s r
        (drill_record_data drill_machine (calm w) true t (await (calm w) Effect.push_start r'))
        (record_data-IsCome true t s r.curr_gcode_num r (await (calm w) Effect.push_start r') h)

  pub check_to_next_gcode-IsCome :
      (t : Task Double) (s : State) (r r' : Runner Double)
      → IsEnded r.gcode_list
      → current r ≡ some t
      → is_program_end t.body ≡ false
      → IsCome s r.curr_gcode_num r r'
      → IsCome State.current_node_initing
          (suc r.curr_gcode_num)
          r
          (check_to_next_gcode drill_machine (calm w) t r')
  unfolding check_to_next_gcode switch_to_state
  check_to_next_gcode-IsCome t s r r' e at k h =
      let d : Runner Double = drill_record_data drill_machine (calm w) false t r' in
      let h' : IsCome s r.curr_gcode_num r d =
        record_data-IsCome false t s r.curr_gcode_num r r' h in
      let u : (u : Task Double) × (get_elem? r.gcode_list (suc r.curr_gcode_num) ≡ some u) =
        get_elem?-next r.gcode_list r.curr_gcode_num t e at k in
      if_elim (IsCome State.current_node_initing (suc r.curr_gcode_num) r)
        (ltb (suc d.curr_gcode_num) (length d.gcode_list)) (λ _. (refl, h'.1, h'.2, ap suc h'.3))
        (λ o.
          absurd (false≢true (sym o ∙ rw (h'.2, h'.3) (get_elem?-length r.gcode_list _ u.0 u.1))))

  missing_index-none : (b : TaskBody Double) → missing_index drill_machine (calm w) b ≡ none
  missing_index-none (TaskBody.g00 detect touch feed index mode xs) =
      rw (c.coordinate_exists index) refl
  missing_index-none (TaskBody.g01 index mode xs) = rw (c.coordinate_exists index) refl
  missing_index-none (TaskBody.g01_group index points) = rw (c.coordinate_exists index) refl
  missing_index-none _ = refl

  -- The preparation of a motion that is not refused.
  prepared_if-IsCome :
      (o : Option ErrorText) (t : Task Double) (s : State) (r r' : Runner Double)
      → o ≡ none
      → has_six t.body ≡ true
      → IsCome s r.curr_gcode_num r r'
      → Gives
          (IsCome State.running r.curr_gcode_num r)
          (prepare_motion drill_machine (calm w) o t r')
  unfolding prepare_motion
  prepared_if-IsCome (some e) t s r r' p x h = absurd (none-ne-some _ (sym p))
  prepared_if-IsCome none t s r r' p x h =
      if_elim (Gives (IsCome State.running r.curr_gcode_num r)) (has_six t.body)
        (λ _.
          subst
            (λ p. IsCome State.running r.curr_gcode_num r (prepared drill_machine (calm w) p t r'))
            (sym (c.starts_all t)) (prepared-IsCome t s r r' h))
        (λ n. absurd (false≢true (sym n ∙ x)))

  pub prepare_motion-IsCome :
      (t : Task Double) (s : State) (r r' : Runner Double)
      → has_six t.body ≡ true
      → IsCome s r.curr_gcode_num r r'
      → Gives
          (IsCome State.running r.curr_gcode_num r)
          (prepare_motion drill_machine (calm w) (missing_index drill_machine (calm w) t.body) t r')
  prepare_motion-IsCome t s r r' x h =
      prepared_if-IsCome (missing_index drill_machine (calm w) t.body) t s r r'
        (missing_index-none t.body) x h
