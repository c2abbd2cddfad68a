-- ===== src/Rs274/Interpreter/Motion.antt =====
-- The methods of RS274Interpreter that emit motions: g01, g00, g01_group and drill.
use edm_project.Rs274.Errors.{raise_if, raise_with, with_stackmessage, check}
use edm_project.Python.Value.{
  Fields, Value, Items, fields, nil, is_null, cons, null, is_list, is_bool, list, dict, is_number,
  is_str, items, str, elements, truthy, set_item, bool, le_zero?, is_int, lt_zero?,
}
use edm_project.Python.Frames.{Stack, enter}
use edm_project.Prelude.{String, List, if◌then◌else◌, ◌∷◌, not, [], false, ◌||◌}
use edm_project.Python.Exec.{
  Exec, ◌>>=◌, ◌>>◌, Result, lift, and_then, ok, gets, text, type_of, shown, or_type_error,
}
use edm_project.Rs274.Enums.{MotionMode, CommandType, CommandDictKey, key_name}
use edm_project.Rs274.Points.{Point, Points}
use edm_project.Rs274.Environment.{set_motion_mode}
use edm_project.Rs274.Interpreter.State.{
  Interpreter, on_environment, unless_ended, append_command, literal, assert_environment_valid,
  entry, mode_name, type_name, nat, motion_name,
}

-- One axis of `_get_coordinate_dict`: a value that is given must be a number.
abbrev pub coordinate : Stack → String → Value → Result Value
coordinate here axis v =
    if is_null v
    then ok null
    else and_then
        (check (not (is_number v)) (
          with_stackmessage
            (text "Coordinate Value Type Not Valid: "
              ∷ text axis
              ∷ text ", "
              ∷ type_of v
              ∷ text " "
              ∷ [])
            2 here))
        (λ _. ok v)

-- `_get_coordinate_dict`
unfoldable pub get_coordinate_dict :
    Stack → Value → Value → Value → Value → Value → Value → Result (List Value)
get_coordinate_dict st x y z b c a =
    let here = enter "_get_coordinate_dict" st in
    and_then (coordinate here "x" x) λ x'. and_then (coordinate here "y" y) λ y'.
      and_then (coordinate here "z" z) λ z'. and_then (coordinate here "b" b) λ b'.
        and_then (coordinate here "c" c)
          λ c'. and_then (coordinate here "a" a) λ a'. ok (x' ∷ y' ∷ z' ∷ b' ∷ c' ∷ a' ∷ [])

-- The loop of g01 over its options.
unfoldable pub check_options : Stack → Items → Result (Unit {0})
check_options here nil = ok tt
check_options here (cons option options) =
    and_then
      (check (not (is_str option)) (
        with_stackmessage
          (text "Option: '"
            ∷ shown option
            ∷ text "' Type Not Valid: "
            ∷ type_of option
            ∷ text " "
            ∷ [])
          1 here))
      (λ _. check_options here options)

unfoldable pub g01 :
    Stack → Value → Value → Value → Value → Value → Value → Value → Exec Interpreter (Unit {0})
g01 st x y z b c a options =
    let here = enter "g01" st in
    unless_ended (do
      raise_if (not (is_list options)) (
          with_stackmessage (text "Options Type Not Valid: " ∷ type_of options ∷ text " " ∷ []) 1
            here)
      lift (check_options here (elements options))
      on_environment (set_motion_mode MotionMode.g01)
      assert_environment_valid here
      g ← gets (λ i. i.environment)
      command ← lift (
          literal 1 here (λ n code.
            entry CommandDictKey.command_type (type_name CommandType.g01_motion_command)
            ∷ entry CommandDictKey.coordinate_mode (mode_name g.coordinate_mode)
            ∷ entry CommandDictKey.motion_mode (motion_name g.motion_mode)
            ∷ entry CommandDictKey.coordinate_index g.coordinate_index
            ∷ entry CommandDictKey.line_number (nat n)
            ∷ entry CommandDictKey.command_str (str code)
            ∷ entry CommandDictKey.options options
            ∷ []))
      coordinates ← lift (get_coordinate_dict here x y z b c a)
      append_command
          (set_item (key_name CommandDictKey.coordinates) (list (items coordinates)) command))

unfoldable pub g00 :
    Stack
    → Value
    → Value
    → Value
    → Value
    → Value
    → Value
    → Value
    → Value
    → Exec Interpreter (Unit {0})
g00 st x y z b c a m05 touch =
    let here = enter "g00" st in
    unless_ended (do
      on_environment (set_motion_mode MotionMode.g00)
      assert_environment_valid here
      raise_if (not (is_bool m05))
          (with_stackmessage (text "m05 Type Not Valid: " ∷ type_of m05 ∷ text " " ∷ []) 1 here)
      raise_if (not (is_bool touch))
          (with_stackmessage (text "touch Type Not Valid: " ∷ type_of touch ∷ text " " ∷ []) 1 here)
      let m05' = if truthy touch then bool false else m05
      g ← gets (λ i. i.environment)
      command ← lift (
          literal 1 here (λ n code.
            entry CommandDictKey.command_type (type_name CommandType.g00_motion_command)
            ∷ entry CommandDictKey.coordinate_mode (mode_name g.coordinate_mode)
            ∷ entry CommandDictKey.motion_mode (motion_name g.motion_mode)
            ∷ entry CommandDictKey.coordinate_index g.coordinate_index
            ∷ entry CommandDictKey.line_number (nat n)
            ∷ entry CommandDictKey.command_str (str code)
            ∷ entry CommandDictKey.m05_ignore_touch_detect m05'
            ∷ entry CommandDictKey.g00_touch touch
            ∷ entry CommandDictKey.feed_speed g.feed_speed
            ∷ []))
      coordinates ← lift (get_coordinate_dict here x y z b c a)
      append_command
          (set_item (key_name CommandDictKey.coordinates) (list (items coordinates)) command))

-- The dict of one point, and `_get_G01GroupPoints`, the list of them.
abbrev pub point_dict : Point → Fields
point_dict p = fields (
    entry CommandDictKey.coordinate_mode (mode_name p.coordinate_mode)
    ∷ entry CommandDictKey.coordinates (list (items p.coords))
    ∷ entry CommandDictKey.line_number (nat p.line_number)
    ∷ entry CommandDictKey.command_str (str p.code_str)
    ∷ entry CommandDictKey.feed_speed p.feedrate
    ∷ [])

unfoldable pub get_g01_group_points : List Point → Items
get_g01_group_points [] = nil
get_g01_group_points (p ∷ ps) = cons (dict (point_dict p)) (get_g01_group_points ps)

-- The argument of g01_group: a Points object, or anything else.
pub data PointsArg : Type 0 where
  points_object : Points → PointsArg
  any : Value → PointsArg

-- The body of g01_group behind the test of its argument.
unfoldable pub emit_group : Stack → List Point → Exec Interpreter (Unit {0})
emit_group here points = do
  on_environment (set_motion_mode MotionMode.g01)
  assert_environment_valid here
  g ← gets (λ i. i.environment)
  command ← lift (
      literal 1 here (λ n code.
        entry CommandDictKey.command_type (type_name CommandType.g01_group_motion_command)
        ∷ entry CommandDictKey.coordinate_index g.coordinate_index
        ∷ entry CommandDictKey.line_number (nat n)
        ∷ entry CommandDictKey.command_str (str code)
        ∷ []))
  append_command (
      set_item (key_name CommandDictKey.g01_group_points) (list (get_g01_group_points points))
        command)

abbrev pub group_body : Stack → PointsArg → Exec Interpreter (Unit {0})
group_body here (points_object ps) = emit_group here ps.points
group_body here (any v) = lift (
    raise_with
      (with_stackmessage (text "Points Type Not Valid: " ∷ type_of v ∷ text " " ∷ []) 1 here))

unfoldable pub g01_group : Stack → PointsArg → Exec Interpreter (Unit {0})
g01_group st points = let here = enter "g01_group" st in unless_ended (group_body here points)

unfoldable pub drill :
    Stack → Value → Value → Value → Value → Value → Value → Exec Interpreter (Unit {0})
drill st depth holdtime touch breakout back spindle_speed =
    let here = enter "drill" st in
    unless_ended (do
      raise_if (not (is_number depth)) (
          with_stackmessage (text "Drill Depth Type Not Valid: " ∷ type_of depth ∷ text " " ∷ []) 1
            here)
      not_positive ← lift (or_type_error (le_zero? depth))
      raise_if not_positive (
          with_stackmessage (text "Drill Depth Value (" ∷ shown depth ∷ text ") Out of Range " ∷ [])
            1 here)
      raise_if (not (is_int holdtime)) (
          with_stackmessage
            (text "Drill Holdtime Type Not Valid: " ∷ type_of holdtime ∷ text " " ∷ []) 1 here)
      negative ← lift (or_type_error (lt_zero? holdtime))
      raise_if negative (
          with_stackmessage
            (text "Drill Holdtime Value (" ∷ shown holdtime ∷ text ") Out of Range " ∷ []) 1 here)
      raise_if (not (is_bool touch)) (
          with_stackmessage (text "Drill Touch Type Not Valid: " ∷ type_of touch ∷ text " " ∷ []) 1
            here)
      raise_if (not (is_bool breakout)) (
          with_stackmessage
            (text "Drill Breakout Type Not Valid: " ∷ type_of breakout ∷ text " " ∷ []) 1 here)
      raise_if (not (is_bool back)) (
          with_stackmessage (text "Drill Back Type Not Valid: " ∷ type_of back ∷ text " " ∷ []) 1
            here)
      raise_if (not (is_number spindle_speed || is_null spindle_speed)) (
          with_stackmessage
            (text "Drill Spindle Speed Type Not Valid: " ∷ type_of spindle_speed ∷ text " " ∷ []) 1
            here)
      command ← lift (
          literal 1 here (λ n code.
            entry CommandDictKey.command_type (type_name CommandType.drill_motion_command)
            ∷ entry CommandDictKey.motion_mode (motion_name MotionMode.drill)
            ∷ entry CommandDictKey.drill_depth depth
            ∷ entry CommandDictKey.drill_hold_time holdtime
            ∷ entry CommandDictKey.drill_touch touch
            ∷ entry CommandDictKey.drill_breakout breakout
            ∷ entry CommandDictKey.drill_back back
            ∷ entry CommandDictKey.drill_spindle_speed spindle_speed
            ∷ entry CommandDictKey.line_number (nat n)
            ∷ entry CommandDictKey.command_str (str code)
            ∷ []))
      append_command command)
