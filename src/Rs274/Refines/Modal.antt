-- ===== src/Rs274/Refines/Modal.antt =====
-- The modal methods keep to the specification.
use edm_project.Rs274.Refines.Numbers.{
  not-true, lt_zero?-is_number, le_zero?-is_number, is_number-is_int, ge?-is_int, or_else_lem,
  or-false,
}
use edm_project.Python.Value.{Value}
use edm_project.Rs274.Environment.{
  set_coordinate_mode, set_program_end_flag, set_coordinate_index_lem, set_feed_speed_lem,
}
use edm_project.Rs274.Spec.Outcome.{
  call_site, Outcome, unless_ended-Outcome, environment-Outcome, refuse-Outcome,
  refuse_inner-Outcome, literal-Outcome, append_command-Outcome, literal_inner-Outcome,
  lift-Outcome,
}
use edm_project.Python.Frames.{Stack, enter}
use edm_project.Prelude.{◌∷◌, refl, ℕ, String, ◌≡◌, [], ap, ◌∙◌, some}
use edm_project.Python.Exec.{ok, modify, or_type_error}
use edm_project.Rs274.Spec.Command.{Command}
use edm_project.Rs274.Enums.{CoordinateMode, MotionMode}
use edm_project.Rs274.Interpreter.Modal
use edm_project.Rs274.Interpreter.State.{Interpreter}

module _ (st : Stack) {n : ℕ} {code : String} (readable : call_site st ≡ ok (n, code))
    (i : Interpreter) where
  abbrev now : MotionMode
  now = i.environment.motion_mode

  pub g90-Outcome : Outcome n code i (Modal.g90 st i)
  unfolding Modal.g90 set_coordinate_mode modify
  g90-Outcome = unless_ended-Outcome _ λ live. environment-Outcome _ _ refl (
      literal-Outcome st readable "g90" _ _ (
        append_command-Outcome (Command.coordinate_mode CoordinateMode.absolute_mode) live (cc) tt))

  pub g91-Outcome : Outcome n code i (Modal.g91 st i)
  unfolding Modal.g91 set_coordinate_mode modify
  g91-Outcome = unless_ended-Outcome _ λ live. environment-Outcome _ _ refl (
      literal-Outcome st readable "g91" _ _ (
        append_command-Outcome (Command.coordinate_mode CoordinateMode.increment_mode) live (cc)
          tt))

  pub g04-Outcome : (t : Value) → Outcome n code i (Modal.g04 st t i)
  unfolding Modal.g04
  g04-Outcome t = unless_ended-Outcome _ λ live. refuse-Outcome st readable "g04" now _ _ live λ e.
      let num = not-true _ e in
      let (b, eb) = lt_zero?-is_number t num in
      lift-Outcome _ (ap or_type_error eb) (
        refuse-Outcome st readable "g04" now _ _ live λ e'.
          literal-Outcome st readable "g04" _ _
            (append_command-Outcome (Command.delay t) live (num, eb ∙ ap some e') tt))

  pub e-Outcome : (index : Value) → Outcome n code i (Modal.e st index i)
  unfolding Modal.e
  e-Outcome index = unless_ended-Outcome _ λ live. refuse-Outcome st readable "e" now _ _ live λ h.
      let whole = not-true _ h in
      let (b, eb) = lt_zero?-is_number index (is_number-is_int index whole) in
      let (c, ec) = ge?-is_int index 1000 whole in
      lift-Outcome _ (or_else_lem eb ec) (
        refuse-Outcome st readable "e" now _ _ live λ h'. literal-Outcome st readable "e" _ _ (
          append_command-Outcome (Command.eleparam index) live
            ((whole, eb ∙ ap some (or-false b c h').0), ec ∙ ap some (or-false b c h').1) tt))

  pub command_set_coordinate_index-Outcome :
      (name : String) (index : Value)
      → Outcome n code i (Modal.command_set_coordinate_index (enter name st) index i)
  unfolding Modal.command_set_coordinate_index
  command_set_coordinate_index-Outcome name index = unless_ended-Outcome _ λ live.
      refuse_inner-Outcome st readable name now "_command_set_coordinate_index" _ _ live λ e.
        let whole = not-true _ e in
        let (b, eb) = lt_zero?-is_number index (is_number-is_int index whole) in
        lift-Outcome _ (ap or_type_error eb) (
          refuse_inner-Outcome st readable name now "_command_set_coordinate_index" _ _ live λ e'.
            environment-Outcome _ _
              (set_coordinate_index_lem index i.environment (is_number-is_int index whole))
              (literal_inner-Outcome st readable name "_command_set_coordinate_index" _ _ (
                append_command-Outcome (Command.coordinate_index index) live
                  (whole, eb ∙ ap some e') tt)))

  pub private_coord_set_zero-Outcome :
      (name : String) (x y z b c a : Value)
      → Outcome n code i (Modal.private_coord_set_zero (enter name st) x y z b c a i)
  unfolding Modal.private_coord_set_zero
  private_coord_set_zero-Outcome name x y z b c a = unless_ended-Outcome _ λ live.
      refuse_inner-Outcome st readable name now "_coord_set_zero" _ _ live λ x'.
        refuse_inner-Outcome st readable name now "_coord_set_zero" _ _ live λ y'.
          refuse_inner-Outcome st readable name now "_coord_set_zero" _ _ live λ z'.
            refuse_inner-Outcome st readable name now "_coord_set_zero" _ _ live λ b'.
              refuse_inner-Outcome st readable name now "_coord_set_zero" _ _ live λ c'.
                refuse_inner-Outcome st readable name now "_coord_set_zero" _ _ live λ a'.
                  literal_inner-Outcome st readable name "_coord_set_zero" _ _ (
                    append_command-Outcome (Command.coord_set_zero (x ∷ y ∷ z ∷ b ∷ c ∷ a ∷ []))
                      live
                      (
                        refl,
                        (
                          not-true _ x',
                          (
                            not-true _ y',
                            (not-true _ z', (not-true _ b', (not-true _ c', (not-true _ a', tt)))),
                          ),
                        ),
                      )
                      tt)

  pub m02-Outcome : Outcome n code i (Modal.m02 st i)
  unfolding Modal.m02 set_program_end_flag modify
  m02-Outcome = unless_ended-Outcome _ λ live. environment-Outcome _ _ refl (
      literal-Outcome st readable "m02" _ _ (append_command-Outcome Command.program_end live tt tt))

  pub m00-Outcome : Outcome n code i (Modal.m00 st i)
  unfolding Modal.m00
  m00-Outcome = unless_ended-Outcome _ λ live.
      literal-Outcome st readable "m00" _ _ (append_command-Outcome Command.pause live tt tt)

  pub f-Outcome : (speed : Value) → Outcome n code i (Modal.f st speed i)
  unfolding Modal.f
  f-Outcome speed = unless_ended-Outcome _ λ live. refuse-Outcome st readable "f" now _ _ live λ e.
      let whole = not-true _ e in
      let (b, eb) = le_zero?-is_number speed (is_number-is_int speed whole) in
      lift-Outcome _ (ap or_type_error eb) (
        refuse-Outcome st readable "f" now _ _ live λ e'.
          environment-Outcome _ _ (set_feed_speed_lem speed i.environment whole) (
            literal-Outcome st readable "f" _ _
              (append_command-Outcome (Command.feed_speed speed) live (whole, eb ∙ ap some e') tt)))
