-- ===== src/TaskManager/Accepts.antt =====
-- What the converter makes of a command that the interpreter emits.
pub mod Reads
pub mod Motions
pub mod Groups
pub mod Elements
use edm_project.Prelude.{
  ◌≡◌, ℕ, String, Bool, true, false, not, Option, none, some, List, [], ◌∷◌, map, All, length, ◌⊎◌,
  if◌then◌else◌,
}
use edm_project.Prelude.Int.{ℤ, pos, negsuc}
use edm_project.Python.Value.{Value, bool, int, str, list, is_null}
use edm_project.Rs274.Enums.{CoordinateMode}
use edm_project.Rs274.Points.{Point}
use edm_project.Rs274.Spec.Command.{Command}
use edm_project.Rs274.Runs.Log.{Emission}
use edm_project.TaskManager.Json.{JsonLib, JsonLaws, IsInt32, values}
use edm_project.TaskManager.Task.{
  GCodeCoordinateMode, DrillStartParams, G01GroupPoint, TaskBody, Task,
}
use edm_project.TaskManager.Converter.{mm2um}
use edm_project.TaskManager.Dispatch.{Made, task, ignored}

abbrev pub int_of : Value → ℤ
int_of (int n) = n
int_of _ = pos 0

abbrev pub bool_of : Value → Bool
bool_of (bool b) = b
bool_of _ = false

abbrev pub text_of : Value → String
text_of (str s) = s
text_of _ = ""

abbrev pub options_of : Value → List String
options_of (list vs) = map text_of (values vs)
options_of _ = []

abbrev pub mode_of : CoordinateMode → GCodeCoordinateMode
mode_of CoordinateMode.undefined = GCodeCoordinateMode.undefined
mode_of CoordinateMode.absolute_mode = GCodeCoordinateMode.absolute_mode
mode_of CoordinateMode.increment_mode = GCodeCoordinateMode.increment_mode

-- A whole number, no bool, that fits into an int.
abbrev pub IsPlainInt : Value → Type 0
IsPlainInt v = (v ≡ int (int_of v)) × IsInt32 (int_of v)

module _ (J : JsonLib) (L : JsonLaws J) where
  open L use {reads_double, double_of}

  abbrev pub IsPlainCoord : Value → Type 0
  IsPlainCoord v = (is_null v ≡ true) ⊎ ((is_null v ≡ false) × (reads_double v ≡ true))

  abbrev pub coord_of : Value → Option J.Double
  coord_of v = if is_null v then none else some (double_of v)

  abbrev pub point_of : Point → G01GroupPoint J.Double
  point_of p = record {
    cmd_values = map coord_of p.coords;
    coord_mode = mode_of p.coordinate_mode;
    line_number = pos p.line_number;
    feedrate = int_of p.feedrate;
  }

  abbrev pub IsPlainPoint : Point → Type 0
  IsPlainPoint p =
      IsInt32 (pos p.line_number)
      × (length p.coords ≡ 6)
      × All IsPlainCoord p.coords
      × IsPlainInt p.feedrate

  -- Its numbers can be read back as the types of the task.
  abbrev pub IsPlain : Command → Type 0
  IsPlain (Command.coordinate_index index) = IsPlainInt index
  IsPlain (Command.eleparam index) = IsPlainInt index
  IsPlain (Command.delay t) = reads_double t ≡ true
  IsPlain (Command.g01 mode index options coords) = IsPlainInt index × All IsPlainCoord coords
  IsPlain (Command.g00 mode index m05 touch feed coords) =
      IsPlainInt index × IsPlainInt feed × All IsPlainCoord coords
  IsPlain (Command.g01_group index points) = IsPlainInt index × All IsPlainPoint points
  IsPlain (Command.drill depth holdtime touch breakout back spindle_speed) =
      (reads_double depth ≡ true) × IsPlainInt holdtime × IsPlainCoord spindle_speed
  IsPlain _ = Unit

  abbrev pub body_of : Command → TaskBody J.Double
  body_of (Command.coordinate_mode m) = TaskBody.coordinate_mode
  body_of (Command.coordinate_index index) = TaskBody.coordinate_index (int_of index)
  body_of (Command.feed_speed speed) = TaskBody.feed_speed_set
  body_of (Command.delay t) = TaskBody.delay (double_of t)
  body_of (Command.eleparam index) = TaskBody.eleparam_set (int_of index)
  body_of (Command.coord_set_zero axes) = TaskBody.coord_set_zero (map bool_of axes)
  body_of Command.program_end = TaskBody.program_end
  body_of Command.pause = TaskBody.pause
  body_of (Command.g01 mode index options coords) =
      TaskBody.g01 (int_of index) (mode_of mode) (map coord_of coords)
  body_of (Command.g00 mode index m05 touch feed coords) =
      TaskBody.g00 (not (bool_of m05)) (bool_of touch) (int_of feed) (int_of index) (mode_of mode)
        (map coord_of coords)
  body_of (Command.g01_group index points) = TaskBody.g01_group (int_of index) (map point_of points)
  body_of (Command.drill depth holdtime touch breakout back spindle_speed) =
      TaskBody.drill (record {
        depth_um = mm2um J (double_of depth);
        holdtime_ms = int_of holdtime;
        touch = bool_of touch;
        breakout = bool_of breakout;
        back = bool_of back;
        spindle_speed_blu_ms_opt = coord_of spindle_speed;
      })

  -- The options of the task.
  abbrev pub command_options : Command → List String
  command_options (Command.g01 mode index options coords) = options_of options
  command_options _ = []

  abbrev pub task_of : Emission → Task J.Double
  task_of e = record {
    body = body_of e.command;
    line_number = pos e.line_number;
    node_index = negsuc 0;
    gcode_str = e.code;
    options = command_options e.command;
  }

  -- A machine that does not drill ignores the drill command.
  abbrev pub made_of : Bool → Emission → Made (Task J.Double)
  made_of drill_machine e = elim e.command [
    | Command.drill depth holdtime touch breakout back spindle_speed ↦
        if drill_machine then task (task_of e) else ignored
    | _ ↦ task (task_of e)
  ]
