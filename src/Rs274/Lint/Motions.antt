-- ===== src/Rs274/Lint/Motions.antt =====
-- The check decides the motions.
use edm_project.Rs274.Interpreter.Motion.{PointsArg, points_object, any}
use edm_project.Rs274.Refines.Ready.{assert_environment_valid-missing}
use edm_project.Prelude.{refl, ◌∷◌, [], ◌&&◌, Bool, ◌≡◌, ℕ, String, true, false, Bool, arith, not}
use edm_project.Python.Value.{
  null, bool, int, float, Value, nil, cons, Items, is_null, is_str, is_number, elements, bool, int,
  float,
}
use edm_project.Python.Exec.{
  ok, ◌>>=◌, Result, Exception, FString, err, interpreter, and_then, text, type_of,
}
use edm_project.Python.Frames.{Stack, enter}
use edm_project.Rs274.Interpreter.State.{
  Interpreter, unless_ended, append_command, literal, on_environment,
}
use edm_project.Rs274.Interpreter.Motion
use edm_project.Rs274.Interpreter.Program.{Call}
use edm_project.Rs274.Lint.{are_coordinates, are_texts, is_coordinate}
use edm_project.Rs274.Lint.Calls.{Decides}
use edm_project.Rs274.Enums.{MotionMode}
use edm_project.Rs274.Errors.{raise_if, raise_with, check, with_stackmessage}
use edm_project.Rs274.Environment.{set_motion_mode}
use edm_project.Rs274.Spec.Modes.{IsModal}
use edm_project.Rs274.Spec.Outcome.{call_site, with_motion}

-- `r` is `ok a` if the test holds, and an exception if not.
abbrev Tests : {A : Type 0} → Bool → A → Result A → Type 0
Tests b a r = (b ≡ true → r ≡ ok a) × (b ≡ false → (e : Exception) × (r ≡ err e))

raise_with-err :
    {A : Type 0} (r : Result FString) → (e : Exception) × (raise_with {A = A} r ≡ err e)
raise_with-err (ok m) = (interpreter m, refl)
raise_with-err (err e) = (e, refl)

Tests-check : (b : Bool) (m : Result FString) → Tests b tt (check (not b) m)
Tests-check true m = (λ h. refl, λ h. cc)
Tests-check false m = (λ h. cc, λ h. raise_with-err m)

Tests-then :
    {A B : Type 0} (p q : Bool) (a : A) (b : B) (r : Result A) (f : A → Result B)
    → Tests p a r
    → Tests q b (f a)
    → Tests (p && q) b (and_then r f)
Tests-then true q a b r f hr hf = rw (hr.0 refl) hf
Tests-then false q a b r f hr hf = (λ h. cc, λ h. let (e, eq) = hr.1 refl in (e, rw eq))

coordinate-Tests :
    (here : Stack) (axis : String) (v : Value)
    → Tests (is_coordinate v) v (Motion.coordinate here axis v)
unfolding is_null is_number
coordinate-Tests here axis null = (λ h. refl, λ h. cc)
coordinate-Tests here axis (bool b) = (λ h. refl, λ h. cc)
coordinate-Tests here axis (int m) = (λ h. refl, λ h. cc)
coordinate-Tests here axis (float x) = (λ h. refl, λ h. cc)
coordinate-Tests here axis v = (λ h. cc, λ h. refused v)
  where
    refused :
        (w : Value)
        → (e : Exception) × (and_then
              (check true (
                with_stackmessage
                  (text "Coordinate Value Type Not Valid: "
                    ∷ text axis
                    ∷ text ", "
                    ∷ type_of w
                    ∷ text " "
                    ∷ [])
                  2
                  here))
              (λ _. ok w)
            ≡ err e)
    refused w =
        let (e, eq) = raise_with-err {A = Unit {0}} (
          with_stackmessage
            (text "Coordinate Value Type Not Valid: "
              ∷ text axis
              ∷ text ", "
              ∷ type_of w
              ∷ text " "
              ∷ [])
            2 here) in
        (e, rw eq)

check_options-Tests :
    (here : Stack) (options : Items)
    → Tests (are_texts options) tt (Motion.check_options here options)
unfolding Motion.check_options
check_options-Tests here nil = (λ h. refl, λ h. cc)
check_options-Tests here (cons v vs) =
    Tests-then (is_str v) (are_texts vs) tt tt _ _ (Tests-check (is_str v) _)
      (check_options-Tests here vs)

get_coordinate_dict-Tests :
    (x y z b c a : Value) (here : Stack)
    → Tests
        (are_coordinates (x ∷ y ∷ z ∷ b ∷ c ∷ a ∷ []))
        (x ∷ y ∷ z ∷ b ∷ c ∷ a ∷ [])
        (Motion.get_coordinate_dict here x y z b c a)
unfolding Motion.get_coordinate_dict
get_coordinate_dict-Tests x y z b c a here = Tests-then _ _ x _ _ _ (coordinate-Tests _ "x" x) (
    Tests-then _ _ y _ _ _ (coordinate-Tests _ "y" y) (
      Tests-then _ _ z _ _ _ (coordinate-Tests _ "z" z) (
        Tests-then _ _ b _ _ _ (coordinate-Tests _ "b" b) (
          Tests-then _ _ c _ _ _ (coordinate-Tests _ "c" c)
            (Tests-then _ _ a _ _ _ (coordinate-Tests _ "a" a) (λ h. refl, λ h. cc))))))

module _ (st : Stack) {n : ℕ} {code : String} (readable : call_site st ≡ ok (n, code)) where
  pub g00-Decides :
      (i : Interpreter) (x y z b c a m05 touch : Value)
      → i.environment.program_end_flag ≡ false
      → IsModal i.environment
      → Decides n code i (Call.g00 x y z b c a m05 touch) (Motion.g00 st x y z b c a m05 touch i)
  unfolding Motion.g00 on_environment set_motion_mode unless_ended append_command literal raise_if
      ◌>>=◌
  g00-Decides i x y z b c a m05 touch live modal = ground (
    arith,
    assert_environment_valid-missing st readable "g00" (with_motion MotionMode.g00 i)
        (record { index = modal.index; feed = modal.feed }) refl,
    get_coordinate_dict-Tests x y z b c a (enter "g00" st),
  )

  pub g01-Decides :
      (i : Interpreter) (x y z b c a options : Value)
      → i.environment.program_end_flag ≡ false
      → IsModal i.environment
      → Decides n code i (Call.g01 x y z b c a options) (Motion.g01 st x y z b c a options i)
  unfolding Motion.g01 on_environment set_motion_mode unless_ended append_command literal raise_if
      ◌>>=◌
  g01-Decides i x y z b c a options live modal = ground (
    arith,
    assert_environment_valid-missing st readable "g01" (with_motion MotionMode.g01 i)
        (record { index = modal.index; feed = modal.feed }) refl,
    check_options-Tests (enter "g01" st) (elements options),
    get_coordinate_dict-Tests x y z b c a (enter "g01" st),
  )

  pub g01_group-Decides :
      (i : Interpreter) (points : PointsArg)
      → i.environment.program_end_flag ≡ false
      → IsModal i.environment
      → Decides n code i (Call.g01_group points) (Motion.g01_group st points i)
  unfolding Motion.g01_group Motion.emit_group on_environment set_motion_mode unless_ended
      append_command literal raise_if ◌>>=◌
  g01_group-Decides i (points_object ps) live modal = ground (
    arith,
    assert_environment_valid-missing st readable "g01_group" (with_motion MotionMode.g01 i)
        (record { index = modal.index; feed = modal.feed }) refl,
  )
  g01_group-Decides i (any v) live modal = ground arith
