-- ===== src/Rs274/Points.antt =====
-- class Points and its inner class _Point: a list of points with the modes they were pushed under.
pub mod Runs
pub mod Push
use edm_project.Prelude.{ℕ, String, not, ◌&&◌, List, [], ◌∷◌, ◌++◌, if◌then◌else◌}
use edm_project.Prelude.Int.{pos}
use edm_project.Python.Value.{Value, null, int, is_null, is_int, is_number, le_zero?}
use edm_project.Python.Exec.{
  text, type_of, shown, Result, ok, err, and_then, or_type_error, Exec, pure, lift, ◌>>=◌, ◌>>◌,
  modify,
}
use edm_project.Python.Frames.{Stack, enter}
use edm_project.Rs274.Enums.{CoordinateMode, is_undefined_coordinate}
use edm_project.Rs274.Errors.{
  raise_with, raise_if, check, exception_str, with_stackmessage, get_caller_linenumber,
  get_caller_code,
}

-- The fields of a `Points._Point`.
pub record Point : Type 0 where
  pub coordinate_mode : CoordinateMode
  pub coords : List Value
  pub line_number : ℕ
  pub code_str : String
  pub feedrate : Value

unfoldable pub new_point : CoordinateMode → ℕ → String → Point
new_point mode n code = record {
  coordinate_mode = mode;
  coords = null ∷ null ∷ null ∷ null ∷ null ∷ null ∷ [];
  line_number = n;
  code_str = code;
  feedrate = int (pos 1);
}

-- The loop of `set_point` over the values.
unfoldable pub check_values : List Value → Result (Unit {0})
check_values [] = ok tt
check_values (v ∷ vs) =
    and_then
      (check (not (is_null v) && not (is_number v))
        (ok (text "Point value type invalid: " ∷ type_of v ∷ text " " ∷ [])))
      (λ _. check_values vs)

-- The six values are stored before they are checked.
unfoldable pub set_point : Value → Value → Value → Value → Value → Value → Exec Point (Unit {0})
unfolding check_values
set_point x y z b c a = do
  let coords' : List Value = x ∷ y ∷ z ∷ b ∷ c ∷ a ∷ []
  modify (λ p. record p { coords = coords' })
  lift (check_values coords')

unfoldable pub set_feedrate : Value → Exec Point (Unit {0})
set_feedrate speed = do
  raise_if (not (is_int speed))
      (ok (text "set_feedrate type invalid: " ∷ type_of speed ∷ text " " ∷ []))
  modify (λ p. record p { feedrate = speed })

-- The fields of a `Points` object.
pub record Points : Type 0 where
  pub points : List Point
  pub current_coordinate_mode : CoordinateMode
  pub feedrate : Value

unfoldable pub new_points : Points
new_points = record {
  points = [];
  current_coordinate_mode = CoordinateMode.undefined;
  feedrate = int (pos 1);
}

-- What a method returns: the object itself, or None where it has no `return`.
pub data Returned : Type 0 where
  self nothing : Returned

unfoldable pub check_environment : Stack → Exec Points (Unit {0})
check_environment st ps =
    raise_if (is_undefined_coordinate ps.current_coordinate_mode)
      (with_stackmessage (text "CoordinateMode Undefined " ∷ []) 2 (enter "_check_environment" st))
      ps

unfoldable pub g90 : Exec Points Returned
g90 = do
  modify (λ ps. record ps { current_coordinate_mode = CoordinateMode.absolute_mode })
  pure self

unfoldable pub g91 : Exec Points Returned
g91 = do
  modify (λ ps. record ps { current_coordinate_mode = CoordinateMode.increment_mode })
  pure self

-- `f` ends with no `return`.
unfoldable pub f : Stack → Value → Exec Points Returned
f st speed =
    let here = enter "f" st in
    do
      raise_if (not (is_int speed)) (
          with_stackmessage (text "Feed Speed Type Not Valid: " ∷ type_of speed ∷ text " " ∷ []) 1
            here)
      not_positive ← lift (or_type_error (le_zero? speed))
      raise_if not_positive (
          with_stackmessage (text "Feed Speed Value (" ∷ shown speed ∷ text ") Out of Range " ∷ [])
            1 here)
      modify (λ ps. record ps { feedrate = speed })
      pure nothing

-- The body of the `try` in `push`: it fills the new point.
unfoldable pub fill_point :
    Value → Value → Value → Value → Value → Value → Value → Value → Exec Point (Unit {0})
unfolding set_point set_feedrate
fill_point x y z b c a feed default = do
  set_point x y z b c a
  set_feedrate (if is_null feed then default else feed)

-- The `except Exception as e`, and what follows the `try`.
abbrev store_point : Stack → Result (Unit {0}) × Point → Exec Points Returned
store_point here (ok _, p) ps = (ok self, record ps { points = ps.points ++ p ∷ [] })
store_point here (err e, _) ps = (raise_with (with_stackmessage (exception_str e) 1 here), ps)

unfoldable pub push :
    Stack → Value → Value → Value → Value → Value → Value → Value → Exec Points Returned
unfolding check_environment new_point fill_point
push st x y z b c a feed =
    let here = enter "push" st in
    do
      check_environment here
      n ← lift (get_caller_linenumber 1 here)
      code ← lift (get_caller_code 1 here)
      λ ps.
          store_point here
            (fill_point x y z b c a feed ps.feedrate (new_point ps.current_coordinate_mode n code))
            ps
