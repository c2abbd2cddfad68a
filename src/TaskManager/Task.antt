-- ===== src/TaskManager/Task.antt =====
-- GCodeTaskBase.h and GCodeTask.h: the tasks.
use edm_project.Prelude.{String, Bool, Option, List, true, false}
use edm_project.Prelude.Int.{ℤ}

pub data GCodeCoordinateMode : Type 0 where
  undefined absolute_mode increment_mode : GCodeCoordinateMode

pub data GCodeTaskType : Type 0 where
  undefined g00_motion_command g01_motion_command coordinate_mode_command coordinate_index_command
        eleparam_set_command feed_speed_set_command delay_command coord_set_zero_command
        drill_motion_command g01_group_motion_command pause_command program_end_command :
      GCodeTaskType

-- Everything below is over the type double.
module _ (Double : Type 0) where
  -- move::DrillStartParams
  pub record DrillStartParams : Type 0 where
    pub depth_um : Double
    pub holdtime_ms : ℤ
    pub touch : Bool
    pub breakout : Bool
    pub back : Bool
    pub spindle_speed_blu_ms_opt : Option Double

  -- GCodeTaskG01GroupMotion::G01GroupPoint
  pub record G01GroupPoint : Type 0 where
    pub cmd_values : List (Option Double)
    pub coord_mode : GCodeCoordinateMode
    pub line_number : ℤ
    pub feedrate : ℤ

  -- The classes derived from GCodeTaskBase, with their own fields.
  pub data TaskBody : Type 0 where
    -- touch_detect_enable, is_touch_motion, feed_speed, coord_index, coord_mode, cmd_values
    g00 : Bool → Bool → ℤ → ℤ → GCodeCoordinateMode → List (Option Double) → TaskBody
    g01 : ℤ → GCodeCoordinateMode → List (Option Double) → TaskBody
    coordinate_mode feed_speed_set program_end pause : TaskBody
    coordinate_index eleparam_set : ℤ → TaskBody
    delay : Double → TaskBody
    coord_set_zero : List Bool → TaskBody
    drill : DrillStartParams → TaskBody
    g01_group : ℤ → List G01GroupPoint → TaskBody

  -- A task: the fields of GCodeTaskBase but the timer, and those of its class.
  pub record Task : Type 0 where
    pub body : TaskBody
    pub line_number : ℤ
    pub node_index : ℤ
    pub gcode_str : String
    pub options : List String

module _ {Double : Type 0} where
  -- is_motion_task of each class, and two of the tests on type().
  abbrev pub is_motion_task : TaskBody Double → Bool
  is_motion_task (g00 detect touch feed index mode xs) = true
  is_motion_task (g01 index mode xs) = true
  is_motion_task pause = true
  is_motion_task (delay s) = true
  is_motion_task (drill params) = true
  is_motion_task (g01_group index points) = true
  is_motion_task _ = false

  abbrev pub is_drill : TaskBody Double → Bool
  is_drill (drill params) = true
  is_drill _ = false

  abbrev pub is_g01_group : TaskBody Double → Bool
  is_g01_group (g01_group index points) = true
  is_g01_group _ = false

  abbrev pub is_program_end : TaskBody Double → Bool
  is_program_end program_end = true
  is_program_end _ = false
