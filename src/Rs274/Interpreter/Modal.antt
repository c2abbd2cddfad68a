-- ===== src/Rs274/Interpreter/Modal.antt =====
-- The methods of RS274Interpreter that set modes, the delay, the pause and the end of the program.
use edm_project.Rs274.Errors.{raise_if, with_stackmessage, or_else}
use edm_project.Rs274.Environment.{
  set_coordinate_mode, set_coordinate_index, set_program_end_flag, set_feed_speed,
}
use edm_project.Prelude.{String, ◌∷◌, [], true, false, not}
use edm_project.Python.Value.{
  Value, bool, str, list, items, is_number, is_int, is_bool, lt_zero?, le_zero?, ge?,
}
use edm_project.Python.Exec.{Exec, ◌>>=◌, ◌>>◌, lift, text, type_of, or_type_error, shown}
use edm_project.Python.Frames.{Stack, enter}
use edm_project.Rs274.Enums.{CoordinateMode, CommandType, CommandDictKey}
use edm_project.Rs274.Interpreter.State.{
  Interpreter, on_environment, unless_ended, append_command, literal, nat, entry, type_name,
  mode_name,
}

unfoldable pub g90 : Stack → Exec Interpreter (Unit {0})
g90 st =
    let here = enter "g90" st in
    unless_ended (do
      on_environment (set_coordinate_mode CoordinateMode.absolute_mode)
      command ← lift (
          literal 1 here (λ n code.
            entry CommandDictKey.command_type (type_name CommandType.coordinate_mode_command)
            ∷ entry CommandDictKey.coordinate_mode (mode_name CoordinateMode.absolute_mode)
            ∷ entry CommandDictKey.line_number (nat n)
            ∷ entry CommandDictKey.command_str (str code)
            ∷ []))
      append_command command)

unfoldable pub g91 : Stack → Exec Interpreter (Unit {0})
g91 st =
    let here = enter "g91" st in
    unless_ended (do
      on_environment (set_coordinate_mode CoordinateMode.increment_mode)
      command ← lift (
          literal 1 here (λ n code.
            entry CommandDictKey.command_type (type_name CommandType.coordinate_mode_command)
            ∷ entry CommandDictKey.coordinate_mode (mode_name CoordinateMode.increment_mode)
            ∷ entry CommandDictKey.line_number (nat n)
            ∷ entry CommandDictKey.command_str (str code)
            ∷ []))
      append_command command)

-- The delay.
unfoldable pub g04 : Stack → Value → Exec Interpreter (Unit {0})
g04 st t =
    let here = enter "g04" st in
    unless_ended (do
      raise_if (not (is_number t))
          (with_stackmessage (text "Delay Time type invalid: " ∷ type_of t ∷ text " " ∷ []) 1 here)
      negative ← lift (or_type_error (lt_zero? t))
      raise_if negative
          (with_stackmessage (text "Delay Time (" ∷ shown t ∷ text ") Out of Range " ∷ []) 1 here)
      command ← lift (
          literal 1 here (λ n code.
            entry CommandDictKey.command_type (type_name CommandType.delay_command)
            ∷ entry CommandDictKey.delay_time t
            ∷ entry CommandDictKey.line_number (nat n)
            ∷ entry CommandDictKey.command_str (str code)
            ∷ []))
      append_command command)

-- The number of a set of electrical parameters. `or` tests its right side only if the left fails.
unfoldable pub e : Stack → Value → Exec Interpreter (Unit {0})
e st index =
    let here = enter "e" st in
    unless_ended (do
      raise_if (not (is_int index)) (
          with_stackmessage (text "Eleparam Index type invalid: " ∷ type_of index ∷ text " " ∷ []) 1
            here)
      out ← lift (or_else (or_type_error (lt_zero? index)) (or_type_error (ge? index 1000)))
      raise_if out (
          with_stackmessage (text "Eleparam Index (" ∷ shown index ∷ text ") Out of Range " ∷ []) 1
            here)
      command ← lift (
          literal 1 here (λ n code.
            entry CommandDictKey.command_type (type_name CommandType.eleparam_set_command)
            ∷ entry CommandDictKey.eleparam_index index
            ∷ entry CommandDictKey.line_number (nat n)
            ∷ entry CommandDictKey.command_str (str code)
            ∷ []))
      append_command command)

-- `_command_set_coordinate_index`: it stands one call deeper than the script's method.
unfoldable pub command_set_coordinate_index : Stack → Value → Exec Interpreter (Unit {0})
command_set_coordinate_index st index =
    let here = enter "_command_set_coordinate_index" st in
    unless_ended (do
      raise_if (not (is_int index)) (
          with_stackmessage (text "Coordinate Index Type invalid: " ∷ type_of index ∷ text " " ∷ [])
            2 here)
      negative ← lift (or_type_error (lt_zero? index))
      raise_if negative
          (with_stackmessage (text "Coordinate Index (" ∷ shown index ∷ text ") < 0 " ∷ []) 2 here)
      on_environment (set_coordinate_index index)
      command ← lift (
          literal 2 here (λ n code.
            entry CommandDictKey.command_type (type_name CommandType.coordinate_index_command)
            ∷ entry CommandDictKey.coordinate_index index
            ∷ entry CommandDictKey.line_number (nat n)
            ∷ entry CommandDictKey.command_str (str code)
            ∷ []))
      append_command command)

-- One method for each of the fixed coordinate systems.
unfoldable pub g53 : Stack → Exec Interpreter (Unit {0})
g53 st = command_set_coordinate_index (enter "g53" st) (nat 53)

unfoldable pub g54 : Stack → Exec Interpreter (Unit {0})
g54 st = command_set_coordinate_index (enter "g54" st) (nat 54)

unfoldable pub g55 : Stack → Exec Interpreter (Unit {0})
g55 st = command_set_coordinate_index (enter "g55" st) (nat 55)

unfoldable pub g56 : Stack → Exec Interpreter (Unit {0})
g56 st = command_set_coordinate_index (enter "g56" st) (nat 56)

unfoldable pub g57 : Stack → Exec Interpreter (Unit {0})
g57 st = command_set_coordinate_index (enter "g57" st) (nat 57)

unfoldable pub g58 : Stack → Exec Interpreter (Unit {0})
g58 st = command_set_coordinate_index (enter "g58" st) (nat 58)

unfoldable pub g59 : Stack → Exec Interpreter (Unit {0})
g59 st = command_set_coordinate_index (enter "g59" st) (nat 59)

unfoldable pub set_coord : Stack → Value → Exec Interpreter (Unit {0})
set_coord st index = command_set_coordinate_index (enter "set_coord" st) index

-- `if (not isinstance(x, bool)): raise ...` of `_coord_set_zero`.
abbrev pub check_axis : String → Value → Stack → Exec Interpreter (Unit {0})
check_axis axis v here =
    raise_if (not (is_bool v))
      (with_stackmessage (text axis ∷ text " type invalid: " ∷ type_of v ∷ text " " ∷ []) 2 here)

unfoldable pub private_coord_set_zero :
    Stack → Value → Value → Value → Value → Value → Value → Exec Interpreter (Unit {0})
private_coord_set_zero st x y z b c a =
    let here = enter "_coord_set_zero" st in
    unless_ended (do
      check_axis "x" x here
      check_axis "y" y here
      check_axis "z" z here
      check_axis "b" b here
      check_axis "c" c here
      check_axis "a" a here
      command ← lift (
          literal 2 here (λ n code.
            entry CommandDictKey.command_type (type_name CommandType.coord_set_zero_command)
            ∷ entry CommandDictKey.set_zero_axis_list (list (items (x ∷ y ∷ z ∷ b ∷ c ∷ a ∷ [])))
            ∷ entry CommandDictKey.line_number (nat n)
            ∷ entry CommandDictKey.command_str (str code)
            ∷ []))
      append_command command)

unfoldable pub coord_set_zero :
    Stack → Value → Value → Value → Value → Value → Value → Exec Interpreter (Unit {0})
coord_set_zero st = private_coord_set_zero (enter "coord_set_zero" st)

-- One method for each axis, and one for all; an axis that is left out is False.
unfoldable pub coord_set_x_zero : Stack → Exec Interpreter (Unit {0})
coord_set_x_zero st =
    private_coord_set_zero (enter "coord_set_x_zero" st) (bool true) (bool false) (bool false)
      (bool false) (bool false) (bool false)

unfoldable pub coord_set_y_zero : Stack → Exec Interpreter (Unit {0})
coord_set_y_zero st =
    private_coord_set_zero (enter "coord_set_y_zero" st) (bool false) (bool true) (bool false)
      (bool false) (bool false) (bool false)

unfoldable pub coord_set_z_zero : Stack → Exec Interpreter (Unit {0})
coord_set_z_zero st =
    private_coord_set_zero (enter "coord_set_z_zero" st) (bool false) (bool false) (bool true)
      (bool false) (bool false) (bool false)

unfoldable pub coord_set_b_zero : Stack → Exec Interpreter (Unit {0})
coord_set_b_zero st =
    private_coord_set_zero (enter "coord_set_b_zero" st) (bool false) (bool false) (bool false)
      (bool true) (bool false) (bool false)

unfoldable pub coord_set_c_zero : Stack → Exec Interpreter (Unit {0})
coord_set_c_zero st =
    private_coord_set_zero (enter "coord_set_c_zero" st) (bool false) (bool false) (bool false)
      (bool false) (bool true) (bool false)

unfoldable pub coord_set_a_zero : Stack → Exec Interpreter (Unit {0})
coord_set_a_zero st =
    private_coord_set_zero (enter "coord_set_a_zero" st) (bool false) (bool false) (bool false)
      (bool false) (bool false) (bool true)

unfoldable pub coord_set_all_zero : Stack → Exec Interpreter (Unit {0})
coord_set_all_zero st =
    private_coord_set_zero (enter "coord_set_all_zero" st) (bool true) (bool true) (bool true)
      (bool true) (bool true) (bool true)

-- The end of the program.
unfoldable pub m02 : Stack → Exec Interpreter (Unit {0})
m02 st =
    let here = enter "m02" st in
    unless_ended (do
      on_environment set_program_end_flag
      command ← lift (
          literal 1 here (λ n code.
            entry CommandDictKey.command_type (type_name CommandType.program_end_command)
            ∷ entry CommandDictKey.line_number (nat n)
            ∷ entry CommandDictKey.command_str (str code)
            ∷ []))
      append_command command)

-- The pause.
unfoldable pub m00 : Stack → Exec Interpreter (Unit {0})
m00 st =
    let here = enter "m00" st in
    unless_ended (do
      command ← lift (
          literal 1 here (λ n code.
            entry CommandDictKey.command_type (type_name CommandType.pause_command)
            ∷ entry CommandDictKey.line_number (nat n)
            ∷ entry CommandDictKey.command_str (str code)
            ∷ []))
      append_command command)

-- The feed rate.
unfoldable pub f : Stack → Value → Exec Interpreter (Unit {0})
f st speed =
    let here = enter "f" st in
    unless_ended (do
      raise_if (not (is_int speed)) (
          with_stackmessage (text "Feed Speed Type Not Valid: " ∷ type_of speed ∷ text " " ∷ []) 1
            here)
      not_positive ← lift (or_type_error (le_zero? speed))
      raise_if not_positive (
          with_stackmessage (text "Feed Speed Value (" ∷ shown speed ∷ text ") Out of Range " ∷ [])
            1 here)
      on_environment (set_feed_speed speed)
      command ← lift (
          literal 1 here (λ n code.
            entry CommandDictKey.command_type (type_name CommandType.feed_speed_set_command)
            ∷ entry CommandDictKey.feed_speed speed
            ∷ entry CommandDictKey.line_number (nat n)
            ∷ entry CommandDictKey.command_str (str code)
            ∷ []))
      append_command command)
