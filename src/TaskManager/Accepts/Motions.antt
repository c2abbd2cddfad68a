-- ===== src/TaskManager/Accepts/Motions.antt =====
-- The functions of the converter on the dicts of the commands.
use edm_project.Prelude.{◌≡◌, refl, ℕ, String, Bool, not, some, List, map, All, length, true}
use edm_project.Prelude.Int.{ℤ, pos}
use edm_project.Python.Value.{Value, bool, int, is_bool}
use edm_project.Rs274.Enums.{CoordinateMode, coordinate_mode_name}
use edm_project.Rs274.Spec.Command.{Command, to_dict}
use edm_project.TaskManager.Json.{value, JsonLib, JsonLaws, IsInt32}
use edm_project.TaskManager.Task.{TaskBody}
use edm_project.TaskManager.Converter.{
  find_coord_mode, new_task, make_g00, make_g01, make_coord_index, make_ele_set, make_delay,
  make_m02, make_m00, make_coord_mode, make_feed_set, make_coord_set_zero, make_drill,
}
use edm_project.TaskManager.Accepts.{IsPlainCoord, coord_of, mode_of, bool_of, body_of}
use edm_project.TaskManager.Accepts.Reads.{
  integer_at-object, boolean_at-object, string_at-object, array_at-object, six_coords-json,
  double_at-object, read_axes-json, read_coord-json,
}

pub find_coord_mode-name :
    (m : CoordinateMode) → find_coord_mode (coordinate_mode_name m) ≡ some (mode_of m)
find_coord_mode-name CoordinateMode.undefined = refl
find_coord_mode-name CoordinateMode.absolute_mode = refl
find_coord_mode-name CoordinateMode.increment_mode = refl

module _ (J : JsonLib) (L : JsonLaws J) (n : ℕ) (code : String) (line : IsInt32 (pos n)) where
  pub make_g00-object :
      (mode : CoordinateMode) (index feed : ℤ) (m05 touch : Bool) (coords : List Value)
      → IsInt32 index
      → IsInt32 feed
      → length coords ≡ 6
      → All (IsPlainCoord J L) coords
      → make_g00 J (
          L.object_of (
            to_dict n code
              (Command.g00 mode (int index) (bool m05) (bool touch) (int feed) coords)))
        ≡ value (
            some (
              new_task J
                (TaskBody.g00 (not m05) touch feed index (mode_of mode) (map (coord_of J L) coords))
                (pos n)))
  unfolding make_g00
  make_g00-object mode index feed m05 touch coords hi hf six plain =
      let d =
        to_dict n code (Command.g00 mode (int index) (bool m05) (bool touch) (int feed) coords) in
      rw
        (
          string_at-object J L d "CoordinateMode" (coordinate_mode_name mode) refl,
          find_coord_mode-name mode,
          integer_at-object J L d "CoordinateIndex" index refl hi,
          integer_at-object J L d "LineNumber" (pos n) refl line,
          boolean_at-object J L d "M05IgnoreTouchDetect" m05 refl,
          boolean_at-object J L d "G00Touch" touch refl,
          integer_at-object J L d "FeedSpeed" feed refl hf,
          array_at-object J L d "Coordinates" coords refl,
          six_coords-json J L coords six plain,
        )
        refl

  pub make_g01-object :
      (mode : CoordinateMode) (index : ℤ) (options : Value) (coords : List Value)
      → IsInt32 index
      → length coords ≡ 6
      → All (IsPlainCoord J L) coords
      → make_g01 J (L.object_of (to_dict n code (Command.g01 mode (int index) options coords)))
        ≡ value (
            some
              (new_task J (TaskBody.g01 index (mode_of mode) (map (coord_of J L) coords)) (pos n)))
  unfolding make_g01
  make_g01-object mode index options coords hi six plain =
      let d = to_dict n code (Command.g01 mode (int index) options coords) in
      rw
        (
          string_at-object J L d "CoordinateMode" (coordinate_mode_name mode) refl,
          find_coord_mode-name mode,
          integer_at-object J L d "CoordinateIndex" index refl hi,
          integer_at-object J L d "LineNumber" (pos n) refl line,
          array_at-object J L d "Coordinates" coords refl,
          six_coords-json J L coords six plain,
        )
        refl

  pub make_coord_index-object :
      (index : ℤ)
      → IsInt32 index
      → make_coord_index J (L.object_of (to_dict n code (Command.coordinate_index (int index))))
        ≡ value (some (new_task J (TaskBody.coordinate_index index) (pos n)))
  unfolding make_coord_index
  make_coord_index-object index hi =
      let d = to_dict n code (Command.coordinate_index (int index)) in
      rw
        (
          integer_at-object J L d "CoordinateIndex" index refl hi,
          integer_at-object J L d "LineNumber" (pos n) refl line,
        )
        refl

  pub make_ele_set-object :
      (index : ℤ)
      → IsInt32 index
      → make_ele_set J (L.object_of (to_dict n code (Command.eleparam (int index))))
        ≡ value (some (new_task J (TaskBody.eleparam_set index) (pos n)))
  unfolding make_ele_set
  make_ele_set-object index hi =
      let d = to_dict n code (Command.eleparam (int index)) in
      rw
        (
          integer_at-object J L d "EleparamIndex" index refl hi,
          integer_at-object J L d "LineNumber" (pos n) refl line,
        )
        refl

  pub make_delay-object :
      (t : Value)
      → L.reads_double t ≡ true
      → make_delay J (L.object_of (to_dict n code (Command.delay t)))
        ≡ value (some (new_task J (TaskBody.delay (L.double_of t)) (pos n)))
  unfolding make_delay
  make_delay-object t ht =
      let d = to_dict n code (Command.delay t) in
      rw
        (
          double_at-object J L d "DelayTime" t refl ht,
          integer_at-object J L d "LineNumber" (pos n) refl line,
        )
        refl

  pub make_m02-object :
      make_m02 J (L.object_of (to_dict n code Command.program_end))
      ≡ value (some (new_task J TaskBody.program_end (pos n)))
  unfolding make_m02
  make_m02-object =
      rw (integer_at-object J L (to_dict n code Command.program_end) "LineNumber" (pos n) refl line)
        refl

  pub make_m00-object :
      make_m00 J (L.object_of (to_dict n code Command.pause))
      ≡ value (some (new_task J TaskBody.pause (pos n)))
  unfolding make_m00
  make_m00-object =
      rw (integer_at-object J L (to_dict n code Command.pause) "LineNumber" (pos n) refl line) refl

  pub make_coord_mode-object :
      (m : CoordinateMode)
      → make_coord_mode J (L.object_of (to_dict n code (Command.coordinate_mode m)))
        ≡ value (some (new_task J TaskBody.coordinate_mode (pos n)))
  unfolding make_coord_mode
  make_coord_mode-object m =
      rw
        (integer_at-object J L (to_dict n code (Command.coordinate_mode m)) "LineNumber" (pos n)
          refl line)
        refl

  pub make_feed_set-object :
      (speed : Value)
      → make_feed_set J (L.object_of (to_dict n code (Command.feed_speed speed)))
        ≡ value (some (new_task J TaskBody.feed_speed_set (pos n)))
  unfolding make_feed_set
  make_feed_set-object speed =
      rw
        (integer_at-object J L (to_dict n code (Command.feed_speed speed)) "LineNumber" (pos n) refl
          line)
        refl

  pub make_coord_set_zero-object :
      (axes : List Value)
      → length axes ≡ 6
      → All (λ v. is_bool v ≡ true) axes
      → make_coord_set_zero J (L.object_of (to_dict n code (Command.coord_set_zero axes)))
        ≡ value (some (new_task J (TaskBody.coord_set_zero (map bool_of axes)) (pos n)))
  unfolding make_coord_set_zero
  make_coord_set_zero-object axes six bools =
      let d = to_dict n code (Command.coord_set_zero axes) in
      rw
        (
          integer_at-object J L d "LineNumber" (pos n) refl line,
          array_at-object J L d "SetZeroAxisList" axes refl,
          read_axes-json J L axes six bools,
        )
        refl

  pub make_drill-object :
      (depth spindle_speed : Value) (holdtime : ℤ) (touch breakout back : Bool)
      → L.reads_double depth ≡ true
      → IsInt32 holdtime
      → IsPlainCoord J L spindle_speed
      → make_drill J (
          L.object_of (
            to_dict n code (
              Command.drill depth
                (int holdtime)
                (bool touch)
                (bool breakout)
                (bool back)
                spindle_speed)))
        ≡ value (
            some (
              new_task J
                (body_of J L (
                  Command.drill depth
                    (int holdtime)
                    (bool touch)
                    (bool breakout)
                    (bool back)
                    spindle_speed))
                (pos n)))
  unfolding make_drill
  make_drill-object depth spindle_speed holdtime touch breakout back hd hh hs =
      let d = to_dict n code (
        Command.drill depth (int holdtime) (bool touch) (bool breakout) (bool back)
          spindle_speed) in
      rw
        (
          integer_at-object J L d "LineNumber" (pos n) refl line,
          double_at-object J L d "DrillDepth" depth refl hd,
          integer_at-object J L d "DrillHoldTime" holdtime refl hh,
          boolean_at-object J L d "DrillTouch" touch refl,
          boolean_at-object J L d "DrillBreakout" breakout refl,
          boolean_at-object J L d "DrillBack" back refl,
          L.at_key_law d "DrillSpindleSpeed" spindle_speed refl,
          read_coord-json J L spindle_speed hs,
        )
        refl
