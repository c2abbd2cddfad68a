-- ===== src/Rs274/Enums.antt =====
-- The enumerations of rs274.py, with the names (`.name`) by which they stand in a command.
use edm_project.Prelude.{String, Bool, true, false}

pub data CoordinateMode : Type 0 where
  undefined absolute_mode increment_mode : CoordinateMode

pub data MotionMode : Type 0 where
  undefined g00 g01 drill : MotionMode

pub data CommandType : Type 0 where
  undefined g00_motion_command g01_motion_command coordinate_mode_command coordinate_index_command
        eleparam_set_command feed_speed_set_command delay_command coord_set_zero_command
        drill_motion_command g01_group_motion_command pause_command program_end_command :
      CommandType

pub data CommandDictKey : Type 0 where
  undefined command_type coordinate_mode coordinate_index motion_mode coordinates line_number
        eleparam_index feed_speed delay_time m05_ignore_touch_detect g00_touch set_zero_axis_list
        drill_depth drill_hold_time drill_touch drill_breakout drill_back drill_spindle_speed
        g01_group_points command_str options :
      CommandDictKey

abbrev pub coordinate_mode_name : CoordinateMode → String
coordinate_mode_name CoordinateMode.undefined = "Undefined"
coordinate_mode_name CoordinateMode.absolute_mode = "AbsoluteMode"
coordinate_mode_name CoordinateMode.increment_mode = "IncrementMode"

abbrev pub motion_mode_name : MotionMode → String
motion_mode_name MotionMode.undefined = "Undefined"
motion_mode_name MotionMode.g00 = "G00"
motion_mode_name MotionMode.g01 = "G01"
motion_mode_name MotionMode.drill = "DRILL"

abbrev pub command_type_name : CommandType → String
command_type_name CommandType.undefined = "Undefined"
command_type_name CommandType.g00_motion_command = "G00MotionCommand"
command_type_name CommandType.g01_motion_command = "G01MotionCommand"
command_type_name CommandType.coordinate_mode_command = "CoordinateModeCommand"
command_type_name CommandType.coordinate_index_command = "CoordinateIndexCommand"
command_type_name CommandType.eleparam_set_command = "EleparamSetCommand"
command_type_name CommandType.feed_speed_set_command = "FeedSpeedSetCommand"
command_type_name CommandType.delay_command = "DelayCommand"
command_type_name CommandType.coord_set_zero_command = "CoordSetZeroCommand"
command_type_name CommandType.drill_motion_command = "DrillMotionCommand"
command_type_name CommandType.g01_group_motion_command = "G01GroupMotionCommand"
command_type_name CommandType.pause_command = "PauseCommand"
command_type_name CommandType.program_end_command = "ProgramEndCommand"

abbrev pub key_name : CommandDictKey → String
key_name CommandDictKey.undefined = "Undefined"
key_name CommandDictKey.command_type = "CommandType"
key_name CommandDictKey.coordinate_mode = "CoordinateMode"
key_name CommandDictKey.coordinate_index = "CoordinateIndex"
key_name CommandDictKey.motion_mode = "MotionMode"
key_name CommandDictKey.coordinates = "Coordinates"
key_name CommandDictKey.line_number = "LineNumber"
key_name CommandDictKey.eleparam_index = "EleparamIndex"
key_name CommandDictKey.feed_speed = "FeedSpeed"
key_name CommandDictKey.delay_time = "DelayTime"
key_name CommandDictKey.m05_ignore_touch_detect = "M05IgnoreTouchDetect"
key_name CommandDictKey.g00_touch = "G00Touch"
key_name CommandDictKey.set_zero_axis_list = "SetZeroAxisList"
key_name CommandDictKey.drill_depth = "DrillDepth"
key_name CommandDictKey.drill_hold_time = "DrillHoldTime"
key_name CommandDictKey.drill_touch = "DrillTouch"
key_name CommandDictKey.drill_breakout = "DrillBreakout"
key_name CommandDictKey.drill_back = "DrillBack"
key_name CommandDictKey.drill_spindle_speed = "DrillSpindleSpeed"
key_name CommandDictKey.g01_group_points = "G01GroupPoints"
key_name CommandDictKey.command_str = "CommandStr"
key_name CommandDictKey.options = "Options"

-- The tests `mode == CoordinateMode.Undefined` and `mode == MotionMode.Undefined`.
abbrev pub is_undefined_coordinate : CoordinateMode → Bool
is_undefined_coordinate CoordinateMode.undefined = true
is_undefined_coordinate _ = false

abbrev pub is_undefined_motion : MotionMode → Bool
is_undefined_motion MotionMode.undefined = true
is_undefined_motion _ = false
