-- ===== src/Rs274/Refines/Motion.antt =====
-- The motions keep to the specification, on a modal state that the interpreter can reach.
use edm_project.Rs274.Points.{Point}
use edm_project.Rs274.Refines.Numbers.{
  not-true, le_zero?-is_number, lt_zero?-is_number, is_number-is_int,
}
use edm_project.Rs274.Interpreter.Motion.{PointsArg}
use edm_project.Rs274.Refines.Reads.{Reads-Outcome, check_options-Reads, get_coordinate_dict-Reads}
use edm_project.Rs274.Environment.{set_motion_mode}
use edm_project.Rs274.Refines.Ready.{assert_environment_valid-missing, missing-none, answer}
use edm_project.Rs274.Spec.Sound.{IsIndex, IsFeed}
use edm_project.Rs274.Enums.{MotionMode, is_undefined_motion, CoordinateMode}
use edm_project.Prelude.{
  ℕ, ◌≡◌, ◌≢◌, refl, String, false, Option, ◌∷◌, [], none, some, Bool, List, true, not,
  if◌then◌else◌, ◌||◌, ◌⊎◌, arith, ap, ◌∙◌,
}
use edm_project.Python.Value.{
  Value, elements, is_list, is_bool, truthy, list, bool, is_number, is_null,
}
use edm_project.Python.Exec.{
  ◌>>=◌, ok, Exec, gets, FString, modify, lift, or_type_error, text, type_of,
}
use edm_project.Python.Frames.{Stack, enter}
use edm_project.Rs274.Interpreter.State.{Interpreter, assert_environment_valid}
use edm_project.Rs274.Interpreter.Motion
use edm_project.Rs274.Spec.Modes.{IsModal, missing}
use edm_project.Rs274.Spec.Command.{Command}
use edm_project.Rs274.Spec.Outcome.{
  call_site, Outcome, with_motion, unless_ended-Outcome, refuse-Outcome, environment-Outcome,
  literal-Outcome, append_command-Outcome, raised, lift-Outcome, location,
}

answer-Outcome :
    {n : ℕ} {code : String} {i : Interpreter} (m : Exec Interpreter (Unit {0}))
    (k : Unit {0} → Exec Interpreter (Unit {0})) (mode : MotionMode) (o : Option FString)
    → i.environment.program_end_flag ≡ false
    → m (with_motion mode i) ≡ (answer n code o, with_motion mode i)
    → (o ≡ none → Outcome n code i (k tt (with_motion mode i)))
    → Outcome n code i ((m >>= k) (with_motion mode i))
unfolding ◌>>=◌
answer-Outcome m k mode none live e h = rw e (h refl)
answer-Outcome m k mode (some x) live e h = rw e (raised x mode live)

list-elements : (v : Value) → is_list v ≡ true → v ≡ list (elements v)
unfolding is_list elements
list-elements (list xs) h = refl
list-elements _ h = cc

either : (p q : Bool) → not (p || q) ≡ false → (q ≡ true) ⊎ (p ≡ true)
either p q h = ground arith

-- What g00 makes of `m05`: with touch it is False.
m05_lem :
    (touch m05 : Value)
    → is_bool m05 ≡ true
    → (is_bool (if truthy touch then bool false else m05) ≡ true)
      × (touch ≡ bool true → (if truthy touch then bool false else m05) ≡ bool false)
unfolding is_bool truthy
m05_lem touch m05 h = (ground arith, λ e. rw e)

module _ (st : Stack) {n : ℕ} {code : String} (readable : call_site st ≡ ok (n, code)) where
  ready-Outcome :
      {i : Interpreter} (name : String) (mode : MotionMode)
      (k : Unit {0} → Exec Interpreter (Unit {0}))
      → i.environment.program_end_flag ≡ false
      → IsModal i.environment
      → is_undefined_motion mode ≡ false
      → ((i.environment.coordinate_mode ≢ CoordinateMode.undefined)
            × IsIndex i.environment.coordinate_index
            × IsFeed i.environment.feed_speed
          → Outcome n code i (k tt (with_motion mode i)))
      → Outcome n code i ((assert_environment_valid (enter name st) >>= k) (with_motion mode i))
  ready-Outcome {i} name mode k live modal moving h =
      answer-Outcome _ k mode (missing i.environment) live
        (assert_environment_valid-missing st readable name (with_motion mode i)
          (record { index = modal.index; feed = modal.feed }) moving)
        (λ e. h (missing-none i.environment modal e))

  gets-Outcome :
      {i s : Interpreter} {A : Type 0} (f : Interpreter → A) (k : A → Exec Interpreter (Unit {0}))
      → Outcome n code i (k (f s) s)
      → Outcome n code i ((gets f >>= k) s)
  unfolding ◌>>=◌
  gets-Outcome f k h = h

  pub g01-Outcome :
      (i : Interpreter) (x y z b c a options : Value)
      → IsModal i.environment
      → Outcome n code i (Motion.g01 st x y z b c a options i)
  unfolding Motion.g01 set_motion_mode modify
  g01-Outcome i x y z b c a options modal = unless_ended-Outcome _ λ live.
      refuse-Outcome st readable "g01" i.environment.motion_mode _ _ live λ is_a_list.
        Reads-Outcome i.environment.motion_mode _ live
          (check_options-Reads st readable "g01" (elements options))
          λ texts. environment-Outcome _ _ refl (
            ready-Outcome "g01" MotionMode.g01 _ live modal refl λ ready. gets-Outcome _ _ (
              literal-Outcome st readable "g01" _ _ (
                Reads-Outcome MotionMode.g01 _ live
                  (get_coordinate_dict-Reads st readable "g01" x y z b c a)
                  λ position.
                    append_command-Outcome
                      (Command.g01 i.environment.coordinate_mode i.environment.coordinate_index
                        options (x ∷ y ∷ z ∷ b ∷ c ∷ a ∷ []))
                      live
                      (
                        ready.0,
                        ready.1,
                        (elements options, list-elements options (not-true _ is_a_list), texts),
                        position,
                      )
                      (refl, refl))))

  pub g00-Outcome :
      (i : Interpreter) (x y z b c a m05 touch : Value)
      → IsModal i.environment
      → Outcome n code i (Motion.g00 st x y z b c a m05 touch i)
  unfolding Motion.g00 set_motion_mode modify
  g00-Outcome i x y z b c a m05 touch modal = unless_ended-Outcome _ λ live.
      environment-Outcome _ _ refl (
        ready-Outcome "g00" MotionMode.g00 _ live modal refl λ ready.
          refuse-Outcome st readable "g00" MotionMode.g00 _ _ live λ m05_bool.
            refuse-Outcome st readable "g00" MotionMode.g00 _ _ live λ touch_bool.
              gets-Outcome _ _ (
                literal-Outcome st readable "g00" _ _ (
                  Reads-Outcome MotionMode.g00 _ live
                    (get_coordinate_dict-Reads st readable "g00" x y z b c a)
                    λ position.
                      let m = m05_lem touch m05 (not-true _ m05_bool) in
                      append_command-Outcome
                        (Command.g00 i.environment.coordinate_mode i.environment.coordinate_index
                          (if truthy touch then bool false else m05) touch i.environment.feed_speed
                          (x ∷ y ∷ z ∷ b ∷ c ∷ a ∷ []))
                        live (ready.0, ready.1, ready.2, m.0, not-true _ touch_bool, m.1, position)
                        (refl, refl, refl))))

  emit_group-Outcome :
      (i : Interpreter) (points : List Point)
      → i.environment.program_end_flag ≡ false
      → IsModal i.environment
      → Outcome n code i (Motion.emit_group (enter "g01_group" st) points i)
  unfolding Motion.emit_group set_motion_mode modify
  emit_group-Outcome i points live modal = environment-Outcome _ _ refl (
      ready-Outcome "g01_group" MotionMode.g01 _ live modal refl λ ready. gets-Outcome _ _ (
        literal-Outcome st readable "g01_group" _ _ (
          append_command-Outcome (Command.g01_group i.environment.coordinate_index points) live
            ready.1 refl)))

  group_body-Outcome :
      (i : Interpreter) (points : PointsArg)
      → i.environment.program_end_flag ≡ false
      → IsModal i.environment
      → Outcome n code i (Motion.group_body (enter "g01_group" st) points i)
  unfolding lift
  group_body-Outcome i (Motion.points_object ps) live modal =
      emit_group-Outcome i ps.points live modal
  group_body-Outcome i (Motion.any v) live modal =
      rw
        (location st readable (text "Points Type Not Valid: " ∷ type_of v ∷ text " " ∷ [])
          "g01_group")
        (raised (text "Points Type Not Valid: " ∷ type_of v ∷ text " " ∷ [])
          i.environment.motion_mode live)

  pub g01_group-Outcome :
      (i : Interpreter) (points : PointsArg)
      → IsModal i.environment
      → Outcome n code i (Motion.g01_group st points i)
  unfolding Motion.g01_group
  g01_group-Outcome i points modal =
      unless_ended-Outcome _ λ live. group_body-Outcome i points live modal

  pub drill-Outcome :
      (i : Interpreter) (depth holdtime touch breakout back spindle_speed : Value)
      → Outcome n code i (Motion.drill st depth holdtime touch breakout back spindle_speed i)
  unfolding Motion.drill
  drill-Outcome i depth holdtime touch breakout back spindle_speed =
      let now = i.environment.motion_mode in
      unless_ended-Outcome _ λ live. refuse-Outcome st readable "drill" now _ _ live λ h1.
        let num = not-true _ h1 in
        let (p, ep) = le_zero?-is_number depth num in
        lift-Outcome _ (ap or_type_error ep) (
          refuse-Outcome st readable "drill" now _ _ live λ h2.
            refuse-Outcome st readable "drill" now _ _ live λ h3.
              let whole = not-true _ h3 in
              let (q, eq) = lt_zero?-is_number holdtime (is_number-is_int holdtime whole) in
              lift-Outcome _ (ap or_type_error eq) (
                refuse-Outcome st readable "drill" now _ _ live λ h4.
                  refuse-Outcome st readable "drill" now _ _ live λ h5.
                    refuse-Outcome st readable "drill" now _ _ live λ h6.
                      refuse-Outcome st readable "drill" now _ _ live λ h7.
                        refuse-Outcome st readable "drill" now _ _ live λ h8.
                          literal-Outcome st readable "drill" _ _ (
                            append_command-Outcome
                              (Command.drill depth holdtime touch breakout back spindle_speed) live
                              (
                                num,
                                ep ∙ ap some h2,
                                (whole, eq ∙ ap some h4),
                                not-true _ h5,
                                not-true _ h6,
                                not-true _ h7,
                                either (is_number spindle_speed) (is_null spindle_speed) h8,
                              )
                              tt)))
