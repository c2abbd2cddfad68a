-- ===== src/TaskManager/Converter.antt =====
-- GCodeTaskConverter.cpp: one function for each kind of command.
use edm_project.Prelude.{
  ℕ, zero, suc, String, Bool, not, Option, none, some, List, [], ◌∷◌, str_eq, if◌then◌else◌, ltb,
  length,
}
use edm_project.Prelude.Int.{ℤ, negsuc}
use edm_project.TaskManager.Json.{Attempt, value, thrown, ◌>>=◌, JsonLib}
use edm_project.TaskManager.Task.{GCodeCoordinateMode, GCodeTaskType, G01GroupPoint, TaskBody, Task}

-- s_coord_mode_map.find
abbrev pub find_coord_mode : String → Option GCodeCoordinateMode
find_coord_mode s =
    if str_eq s "Undefined"
    then some GCodeCoordinateMode.undefined
    else if str_eq s "AbsoluteMode"
    then some GCodeCoordinateMode.absolute_mode
    else if str_eq s "IncrementMode"
    then some GCodeCoordinateMode.increment_mode
    else none

-- s_type_map.find
abbrev pub find_type : String → Option GCodeTaskType
find_type s =
    if str_eq s "Undefined"
    then some GCodeTaskType.undefined
    else if str_eq s "G00MotionCommand"
    then some GCodeTaskType.g00_motion_command
    else if str_eq s "G01MotionCommand"
    then some GCodeTaskType.g01_motion_command
    else if str_eq s "CoordinateModeCommand"
    then some GCodeTaskType.coordinate_mode_command
    else if str_eq s "CoordinateIndexCommand"
    then some GCodeTaskType.coordinate_index_command
    else if str_eq s "EleparamSetCommand"
    then some GCodeTaskType.eleparam_set_command
    else if str_eq s "FeedSpeedSetCommand"
    then some GCodeTaskType.feed_speed_set_command
    else if str_eq s "DelayCommand"
    then some GCodeTaskType.delay_command
    else if str_eq s "PauseCommand"
    then some GCodeTaskType.pause_command
    else if str_eq s "ProgramEndCommand"
    then some GCodeTaskType.program_end_command
    else if str_eq s "CoordSetZeroCommand"
    then some GCodeTaskType.coord_set_zero_command
    else if str_eq s "DrillMotionCommand"
    then some GCodeTaskType.drill_motion_command
    else if str_eq s "G01GroupMotionCommand"
    then some GCodeTaskType.g01_group_motion_command
    else none

-- `if (!x) return std::nullopt;` and what follows it.
abbrev pub or_nullopt {ℓ} :
    {A B : Type ℓ} → Option A → (A → Attempt (Option B)) → Attempt (Option B)
or_nullopt none k = value none
or_nullopt (some a) k = k a

module _ (J : JsonLib) where
  open J use {
    Json, Object, Double, is_null, is_boolean, is_string, is_array, is_object, as_boolean,
    as_integer, as_double, as_string, as_array, as_object, at_key, contains, times_1000,
  }

  -- `jo.at(key).as_integer()`, and so for the other types.
  unfoldable pub integer_at : Object → String → Attempt ℤ
  integer_at jo key = at_key jo key >>= as_integer

  unfoldable pub boolean_at : Object → String → Attempt Bool
  boolean_at jo key = at_key jo key >>= as_boolean

  unfoldable pub double_at : Object → String → Attempt Double
  double_at jo key = at_key jo key >>= as_double

  unfoldable pub string_at : Object → String → Attempt String
  string_at jo key = at_key jo key >>= as_string

  unfoldable pub array_at : Object → String → Attempt (List Json)
  array_at jo key = at_key jo key >>= as_array

  -- `make_shared<...>(..., line_number, -1)`
  abbrev pub new_task : TaskBody Double → ℤ → Task Double
  new_task body n = record {
    body = body;
    line_number = n;
    node_index = negsuc 0;
    gcode_str = "";
    options = [];
  }

  -- One round, and the loop, over the coordinates; `n` rounds are left.
  abbrev pub read_coord : Json → Attempt (Option Double)
  read_coord v = if is_null v then value none else (as_double v >>= λ x. value (some x))

  unfoldable pub read_coords : ℕ → List Json → Attempt (List (Option Double))
  read_coords zero coords = value []
  read_coords (suc n) [] = thrown
  read_coords (suc n) (v ∷ coords) =
      read_coord v >>= λ x. read_coords n coords >>= λ xs. value (x ∷ xs)

  -- The test on the number of coordinates, and the loop.
  unfoldable pub six_coords : List Json → Attempt (Option (List (Option Double)))
  unfolding read_coords
  six_coords coords =
      if ltb (length coords) 6 then value none else (read_coords 6 coords >>= λ xs. value (some xs))

  unfoldable pub make_g00 : Object → Attempt (Option (Task Double))
  make_g00 jo = do
    coord_mode_str ← string_at jo "CoordinateMode"
    or_nullopt (find_coord_mode coord_mode_str) λ coord_mode. do
      coord_index ← integer_at jo "CoordinateIndex"
      line_number ← integer_at jo "LineNumber"
      m05 ← boolean_at jo "M05IgnoreTouchDetect"
      touch ← boolean_at jo "G00Touch"
      feed_speed ← integer_at jo "FeedSpeed"
      coords ← array_at jo "Coordinates"
      found ← six_coords coords
      or_nullopt found λ xs. value (
          some (
            new_task (TaskBody.g00 (not m05) touch feed_speed coord_index coord_mode xs)
              line_number))

  unfoldable pub make_g01 : Object → Attempt (Option (Task Double))
  make_g01 jo = do
    coord_mode_str ← string_at jo "CoordinateMode"
    or_nullopt (find_coord_mode coord_mode_str) λ coord_mode. do
      coord_index ← integer_at jo "CoordinateIndex"
      line_number ← integer_at jo "LineNumber"
      coords ← array_at jo "Coordinates"
      found ← six_coords coords
      or_nullopt found
          λ xs. value (some (new_task (TaskBody.g01 coord_index coord_mode xs) line_number))

  unfoldable pub make_coord_index : Object → Attempt (Option (Task Double))
  make_coord_index jo = do
    coord_index ← integer_at jo "CoordinateIndex"
    line_number ← integer_at jo "LineNumber"
    value (some (new_task (TaskBody.coordinate_index coord_index) line_number))

  unfoldable pub make_ele_set : Object → Attempt (Option (Task Double))
  make_ele_set jo = do
    ele_index ← integer_at jo "EleparamIndex"
    line_number ← integer_at jo "LineNumber"
    value (some (new_task (TaskBody.eleparam_set ele_index) line_number))

  unfoldable pub make_delay : Object → Attempt (Option (Task Double))
  make_delay jo = do
    delay_time ← double_at jo "DelayTime"
    line_number ← integer_at jo "LineNumber"
    value (some (new_task (TaskBody.delay delay_time) line_number))

  -- The tasks that carry their line only.
  unfoldable pub make_m02 : Object → Attempt (Option (Task Double))
  make_m02 jo = do
    line_number ← integer_at jo "LineNumber"
    value (some (new_task TaskBody.program_end line_number))

  unfoldable pub make_m00 : Object → Attempt (Option (Task Double))
  make_m00 jo = do
    line_number ← integer_at jo "LineNumber"
    value (some (new_task TaskBody.pause line_number))

  unfoldable pub make_coord_mode : Object → Attempt (Option (Task Double))
  make_coord_mode jo = do
    line_number ← integer_at jo "LineNumber"
    value (some (new_task TaskBody.coordinate_mode line_number))

  unfoldable pub make_feed_set : Object → Attempt (Option (Task Double))
  make_feed_set jo = do
    line_number ← integer_at jo "LineNumber"
    value (some (new_task TaskBody.feed_speed_set line_number))

  -- The loop over the axes; `n` rounds are left.
  unfoldable pub read_axes : ℕ → List Json → Attempt (Option (List Bool))
  read_axes zero axes = value (some [])
  read_axes (suc n) [] = thrown
  read_axes (suc n) (v ∷ axes) =
      if is_boolean v
      then (as_boolean v >>= λ b.
          read_axes n axes >>= λ rest. or_nullopt rest λ bs. value (some (b ∷ bs)))
      else value none

  unfoldable pub make_coord_set_zero : Object → Attempt (Option (Task Double))
  unfolding read_axes
  make_coord_set_zero jo = do
    line_number ← integer_at jo "LineNumber"
    axes ← array_at jo "SetZeroAxisList"
    found ← (if ltb (length axes) 6 then value none else read_axes 6 axes)
    or_nullopt found λ bs. value (some (new_task (TaskBody.coord_set_zero bs) line_number))

  -- UnitConverter::mm2um
  abbrev pub mm2um : Double → Double
  mm2um mm = times_1000 mm

  unfoldable pub make_drill : Object → Attempt (Option (Task Double))
  make_drill jo = do
    line_number ← integer_at jo "LineNumber"
    depth ← double_at jo "DrillDepth"
    holdtime ← integer_at jo "DrillHoldTime"
    touch ← boolean_at jo "DrillTouch"
    breakout ← boolean_at jo "DrillBreakout"
    back ← boolean_at jo "DrillBack"
    jv_spindle_speed ← at_key jo "DrillSpindleSpeed"
    spindle_speed ← read_coord jv_spindle_speed
    value (
        some (
          new_task
            (TaskBody.drill (record {
              depth_um = mm2um depth;
              holdtime_ms = holdtime;
              touch = touch;
              breakout = breakout;
              back = back;
              spindle_speed_blu_ms_opt = spindle_speed;
            }))
            line_number))

  -- One round, and the loop, over the points of a group.
  unfoldable pub make_point : Object → Attempt (Option (G01GroupPoint Double))
  make_point jo = do
    coord_mode_str ← string_at jo "CoordinateMode"
    or_nullopt (find_coord_mode coord_mode_str) λ coord_mode. do
      line_number ← integer_at jo "LineNumber"
      coords ← array_at jo "Coordinates"
      found ← six_coords coords
      or_nullopt found λ xs. do
        feedrate ← integer_at jo "FeedSpeed"
        value (
            some (record {
              cmd_values = xs;
              coord_mode = coord_mode;
              line_number = line_number;
              feedrate = feedrate;
            }))

  unfoldable pub make_points : List Json → Attempt (Option (List (G01GroupPoint Double)))
  make_points [] = value (some [])
  make_points (v ∷ vs) = do
    jo ← as_object v
    made ← make_point jo
    or_nullopt made
        λ point. do rest ← make_points vs; or_nullopt rest λ points. value (some (point ∷ points))

  unfoldable pub make_g01_group : Object → Attempt (Option (Task Double))
  make_g01_group jo = do
    coord_index ← integer_at jo "CoordinateIndex"
    line_number ← integer_at jo "LineNumber"
    points_ja ← array_at jo "G01GroupPoints"
    made ← make_points points_ja
    or_nullopt made
        λ points. value (some (new_task (TaskBody.g01_group coord_index points) line_number))
