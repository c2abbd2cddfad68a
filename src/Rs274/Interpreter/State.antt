-- ===== src/Rs274/Interpreter/State.antt =====
-- The state of class RS274Interpreter, the steps that its methods share, and the test of the
-- environment before a motion.
use edm_project.Prelude.Int.{pos}
use edm_project.Prelude.{String, List, [], ◌∷◌, ◌++◌, if◌then◌else◌, true, ℕ}
use edm_project.Python.Value.{Value, Fields, int, str, fields, eq_minus_one, lt_zero?}
use edm_project.Python.Exec.{
  text, shown, ok, or_type_error, Exec, lift, ◌>>=◌, ◌>>◌, modify, Result, and_then,
}
use edm_project.Python.Frames.{Stack, enter}
use edm_project.Rs274.Enums.{
  is_undefined_coordinate, is_undefined_motion, CommandDictKey, CommandType, CoordinateMode,
  MotionMode, key_name, command_type_name, coordinate_mode_name, motion_mode_name,
}
use edm_project.Rs274.Errors.{raise_if, with_stackmessage, get_caller_linenumber, get_caller_code}
use edm_project.Rs274.Environment.{Environment, new_environment}

pub record Interpreter : Type 0 where
  pub environment : Environment
  pub command_list : List Fields

-- `RS274Interpreter()`
unfoldable pub new_interpreter : Interpreter
unfolding new_environment
new_interpreter = record { environment = new_environment; command_list = [] }

-- A method of the environment object.
unfoldable pub on_environment : Exec Environment (Unit {0}) → Exec Interpreter (Unit {0})
on_environment m i = let (r, g) = m i.environment in (r, record i { environment = g })

-- `if (self.__g_environment.is_program_end()): return self` in front of the rest of a method.
-- Every method that is not refused returns self.
unfoldable pub unless_ended : Exec Interpreter (Unit {0}) → Exec Interpreter (Unit {0})
unless_ended rest i = if i.environment.program_end_flag then (ok tt, i) else rest i

-- `self.__g_command_list.append(command)`
unfoldable pub append_command : Fields → Exec Interpreter (Unit {0})
unfolding modify
append_command command = modify (λ i. record i { command_list = i.command_list ++ command ∷ [] })

-- The tests on the coordinate index, an `if` and an `elif`.
unfoldable pub check_index : Stack → Value → Exec Interpreter (Unit {0})
check_index here index =
    if eq_minus_one index
    then raise_if true (with_stackmessage (text "Coordinate Not Set " ∷ []) 2 here)
    else do
      negative ← lift (or_type_error (lt_zero? index))
      raise_if negative (
          with_stackmessage (text "Coordinate Index (" ∷ shown index ∷ text ") not valid " ∷ []) 2
            here)

-- `_assert_environment_valid`
unfoldable pub assert_environment_valid : Stack → Exec Interpreter (Unit {0})
assert_environment_valid st i =
    let here = enter "_assert_environment_valid" st in
    let g = i.environment in
    (do
      raise_if (is_undefined_coordinate g.coordinate_mode)
          (with_stackmessage (text "CoordinateMode Undefined " ∷ []) 2 here)
      raise_if (is_undefined_motion g.motion_mode)
          (with_stackmessage (text "MotionMode Undefined " ∷ []) 2 here)
      check_index here g.coordinate_index
      unset ← lift (or_type_error (lt_zero? g.feed_speed))
      raise_if unset (with_stackmessage (text "Feed Speed Not Set" ∷ []) 2 here))
      i

-- A dict literal with `_get_caller_linenumber(layer)` and `_get_caller_code(layer)` among its values.
unfoldable pub literal : ℕ → Stack → (ℕ → String → List (String × Value)) → Result Fields
unfolding get_caller_linenumber get_caller_code
literal layer here build =
    and_then (get_caller_linenumber layer here)
      λ n. and_then (get_caller_code layer here) λ code. ok (fields (build n code))

abbrev pub entry : CommandDictKey → Value → String × Value
entry key v = (key_name key, v)

-- The values that stand in a command: an enumerator by its name, and a number of rs274.py itself.
abbrev pub type_name : CommandType → Value
type_name t = str (command_type_name t)

abbrev pub mode_name : CoordinateMode → Value
mode_name m = str (coordinate_mode_name m)

abbrev pub motion_name : MotionMode → Value
motion_name m = str (motion_mode_name m)

abbrev pub nat : ℕ → Value
nat n = int (pos n)
