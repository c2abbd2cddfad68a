-- ===== src/Rs274/Spec/Command.antt =====
-- What the interpreter promises, apart from how it builds its dicts: typed commands, the dict of
-- each, when a command is sound, and what it does to the modal state.
use edm_project.Prelude.{ℕ, String, List, [], ◌∷◌}
use edm_project.Python.Value.{Value, Fields, str, list, items, fields}
use edm_project.Rs274.Enums.{CoordinateMode, MotionMode, CommandType, CommandDictKey}
use edm_project.Rs274.Points.{Point}
use edm_project.Rs274.Interpreter.State.{entry, type_name, mode_name, motion_name, nat}
use edm_project.Rs274.Interpreter.Motion.{get_g01_group_points}

pub data Command : Type 0 where
  coordinate_mode : CoordinateMode → Command
  coordinate_index feed_speed delay eleparam : Value → Command
  coord_set_zero : List Value → Command
  program_end pause : Command
  -- mode, index, options, coordinates
  g01 : CoordinateMode → Value → Value → List Value → Command
  -- mode, index, m05, touch, feed speed, coordinates
  g00 : CoordinateMode → Value → Value → Value → Value → List Value → Command
  -- index, points
  g01_group : Value → List Point → Command
  -- depth, holdtime, touch, breakout, back, spindle speed
  drill : Value → Value → Value → Value → Value → Value → Command

-- The dict of a command from line `n` with text `code`.
abbrev pub to_dict : ℕ → String → Command → Fields
to_dict n code (coordinate_mode m) = fields (
    entry CommandDictKey.command_type (type_name CommandType.coordinate_mode_command)
    ∷ entry CommandDictKey.coordinate_mode (mode_name m)
    ∷ entry CommandDictKey.line_number (nat n)
    ∷ entry CommandDictKey.command_str (str code)
    ∷ [])
to_dict n code (coordinate_index index) = fields (
    entry CommandDictKey.command_type (type_name CommandType.coordinate_index_command)
    ∷ entry CommandDictKey.coordinate_index index
    ∷ entry CommandDictKey.line_number (nat n)
    ∷ entry CommandDictKey.command_str (str code)
    ∷ [])
to_dict n code (feed_speed speed) = fields (
    entry CommandDictKey.command_type (type_name CommandType.feed_speed_set_command)
    ∷ entry CommandDictKey.feed_speed speed
    ∷ entry CommandDictKey.line_number (nat n)
    ∷ entry CommandDictKey.command_str (str code)
    ∷ [])
to_dict n code (delay t) = fields (
    entry CommandDictKey.command_type (type_name CommandType.delay_command)
    ∷ entry CommandDictKey.delay_time t
    ∷ entry CommandDictKey.line_number (nat n)
    ∷ entry CommandDictKey.command_str (str code)
    ∷ [])
to_dict n code (eleparam index) = fields (
    entry CommandDictKey.command_type (type_name CommandType.eleparam_set_command)
    ∷ entry CommandDictKey.eleparam_index index
    ∷ entry CommandDictKey.line_number (nat n)
    ∷ entry CommandDictKey.command_str (str code)
    ∷ [])
to_dict n code (coord_set_zero axes) = fields (
    entry CommandDictKey.command_type (type_name CommandType.coord_set_zero_command)
    ∷ entry CommandDictKey.set_zero_axis_list (list (items axes))
    ∷ entry CommandDictKey.line_number (nat n)
    ∷ entry CommandDictKey.command_str (str code)
    ∷ [])
to_dict n code program_end = fields (
    entry CommandDictKey.command_type (type_name CommandType.program_end_command)
    ∷ entry CommandDictKey.line_number (nat n)
    ∷ entry CommandDictKey.command_str (str code)
    ∷ [])
to_dict n code pause = fields (
    entry CommandDictKey.command_type (type_name CommandType.pause_command)
    ∷ entry CommandDictKey.line_number (nat n)
    ∷ entry CommandDictKey.command_str (str code)
    ∷ [])
to_dict n code (g01 mode index options coords) = fields (
    entry CommandDictKey.command_type (type_name CommandType.g01_motion_command)
    ∷ entry CommandDictKey.coordinate_mode (mode_name mode)
    ∷ entry CommandDictKey.motion_mode (motion_name MotionMode.g01)
    ∷ entry CommandDictKey.coordinate_index index
    ∷ entry CommandDictKey.line_number (nat n)
    ∷ entry CommandDictKey.command_str (str code)
    ∷ entry CommandDictKey.options options
    ∷ entry CommandDictKey.coordinates (list (items coords))
    ∷ [])
to_dict n code (g00 mode index m05 touch feed coords) = fields (
    entry CommandDictKey.command_type (type_name CommandType.g00_motion_command)
    ∷ entry CommandDictKey.coordinate_mode (mode_name mode)
    ∷ entry CommandDictKey.motion_mode (motion_name MotionMode.g00)
    ∷ entry CommandDictKey.coordinate_index index
    ∷ entry CommandDictKey.line_number (nat n)
    ∷ entry CommandDictKey.command_str (str code)
    ∷ entry CommandDictKey.m05_ignore_touch_detect m05
    ∷ entry CommandDictKey.g00_touch touch
    ∷ entry CommandDictKey.feed_speed feed
    ∷ entry CommandDictKey.coordinates (list (items coords))
    ∷ [])
to_dict n code (g01_group index points) = fields (
    entry CommandDictKey.command_type (type_name CommandType.g01_group_motion_command)
    ∷ entry CommandDictKey.coordinate_index index
    ∷ entry CommandDictKey.line_number (nat n)
    ∷ entry CommandDictKey.command_str (str code)
    ∷ entry CommandDictKey.g01_group_points (list (get_g01_group_points points))
    ∷ [])
to_dict n code (drill depth holdtime touch breakout back spindle_speed) = fields (
    entry CommandDictKey.command_type (type_name CommandType.drill_motion_command)
    ∷ entry CommandDictKey.motion_mode (motion_name MotionMode.drill)
    ∷ entry CommandDictKey.drill_depth depth
    ∷ entry CommandDictKey.drill_hold_time holdtime
    ∷ entry CommandDictKey.drill_touch touch
    ∷ entry CommandDictKey.drill_breakout breakout
    ∷ entry CommandDictKey.drill_back back
    ∷ entry CommandDictKey.drill_spindle_speed spindle_speed
    ∷ entry CommandDictKey.line_number (nat n)
    ∷ entry CommandDictKey.command_str (str code)
    ∷ [])
