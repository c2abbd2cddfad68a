-- ===== src/TaskManager/Accepts/Elements.antt =====
-- One round of the converter's loop, on the dict of a sound command.
use edm_project.Prelude.{◌≡◌, refl, ℕ, String, Bool, true, false, none, some, map}
use edm_project.Prelude.Int.{pos, ℤ}
use edm_project.Python.Value.{
  Value, Items, nil, cons, Fields, int, bool, str, list, dict, get_item?, is_str, is_list,
}
use edm_project.Rs274.Spec.Command.{Command, to_dict}
use edm_project.Rs274.Spec.Sound.{IsSound, AreTexts}
use edm_project.TaskManager.Json.{value, JsonLib, JsonLaws, IsInt32, values}
use edm_project.TaskManager.Task.{GCodeTaskType, TaskBody}
use edm_project.TaskManager.Converter.{find_type, new_task}
use edm_project.TaskManager.Dispatch.{
  task, read_options, make_by_type, with_gcode_str, with_options, make_gcode_task, make_element,
}
use edm_project.TaskManager.Accepts.{IsPlain, made_of, int_of, bool_of, text_of, IsPlainCoord}
use edm_project.TaskManager.Accepts.Reads.{string_at-object, is_bool-bool}
use edm_project.TaskManager.Accepts.Motions.{
  make_g00-object, make_g01-object, make_coord_index-object, make_ele_set-object, make_delay-object,
  make_m02-object, make_m00-object, make_coord_mode-object, make_feed_set-object,
  make_coord_set_zero-object, make_drill-object,
}
use edm_project.TaskManager.Accepts.Groups.{make_g01_group-object}

is_str-str : (v : Value) → is_str v ≡ true → v ≡ str (text_of v)
unfolding is_str
is_str-str (str s) e = refl
is_str-str _ e = cc

module _ (J : JsonLib) (L : JsonLaws J) (drill_machine : Bool) where
  read_options-json :
      (vs : Items)
      → AreTexts vs
      → read_options J drill_machine (map L.json_of (values vs))
        ≡ value (some (map text_of (values vs)))
  unfolding read_options
  read_options-json nil h = refl
  read_options-json (cons v vs) (h, hs) =
      rw
        (L.is_string_law v, h, is_str-str v h, L.as_string_law (text_of v), read_options-json vs hs)
        refl

  module _ (n : ℕ) (code : String) (d : Fields) (type : String) (t : GCodeTaskType)
      (body : TaskBody J.Double) where
    -- A dict of the type `t`, without options and with them.
    plain_element :
        get_item? "CommandType" d ≡ some (str type)
        → find_type type ≡ some t
        → get_item? "CommandStr" d ≡ some (str code)
        → get_item? "Options" d ≡ none
        → make_by_type J drill_machine t (L.object_of d)
          ≡ value (some (task (new_task J body (pos n))))
        → make_element J drill_machine (L.json_of (dict d))
          ≡ some (task (record (new_task J body (pos n)) { gcode_str = code }))
    unfolding make_element make_gcode_task with_gcode_str with_options is_str
    plain_element has_type found has_code no_options made =
        rw
          (
            L.is_object_law d,
            L.as_object_law d,
            string_at-object J L d "CommandType" type has_type,
            found,
            made,
            L.contains_law d "CommandStr",
            has_code,
            L.at_key_law d "CommandStr" (str code) has_code,
            L.is_string_law (str code),
            L.as_string_law code,
            L.contains_law d "Options",
            no_options,
          )
          refl

    options_element :
        (options : Items)
        → get_item? "CommandType" d ≡ some (str type)
        → find_type type ≡ some t
        → get_item? "CommandStr" d ≡ some (str code)
        → get_item? "Options" d ≡ some (list options)
        → AreTexts options
        → make_by_type J drill_machine t (L.object_of d)
          ≡ value (some (task (new_task J body (pos n))))
        → make_element J drill_machine (L.json_of (dict d))
          ≡ some (
              task (record (new_task J body (pos n)) {
                gcode_str = code;
                options = map text_of (values options);
              }))
    unfolding make_element make_gcode_task with_gcode_str with_options is_str is_list
    options_element options has_type found has_code has_options texts made =
        rw
          (
            L.is_object_law d,
            L.as_object_law d,
            string_at-object J L d "CommandType" type has_type,
            found,
            made,
            L.contains_law d "CommandStr",
            has_code,
            L.at_key_law d "CommandStr" (str code) has_code,
            L.is_string_law (str code),
            L.as_string_law code,
            L.contains_law d "Options",
            has_options,
            L.at_key_law d "Options" (list options) has_options,
            L.is_array_law (list options),
            L.as_array_law options,
            read_options-json options texts,
          )
          refl

module _ (J : JsonLib) (L : JsonLaws J) (n : ℕ) (code : String) (line : IsInt32 (pos n)) where
  abbrev MakesCommand : Bool → Command → Type 0
  MakesCommand drill_machine c =
      make_element J drill_machine (L.json_of (dict (to_dict n code c)))
      ≡ some (made_of J L drill_machine (record { line_number = n; code = code; command = c }))

  make_drill_command :
      (drill_machine : Bool) (depth spindle_speed : Value) (holdtime : ℤ)
      (touch breakout back : Bool)
      → L.reads_double depth ≡ true
      → IsInt32 holdtime
      → IsPlainCoord J L spindle_speed
      → MakesCommand drill_machine (
          Command.drill depth (int holdtime) (bool touch) (bool breakout) (bool back) spindle_speed)
  unfolding make_by_type make_element make_gcode_task
  make_drill_command true depth spindle_speed holdtime touch breakout back hd hh hs =
      plain_element J L true n code _ _ _ _ refl refl refl refl (
        rw
          (make_drill-object J L n code line depth spindle_speed holdtime touch breakout back hd hh
            hs)
          refl)
  make_drill_command false depth spindle_speed holdtime touch breakout back hd hh hs =
      let d = to_dict n code (
        Command.drill depth (int holdtime) (bool touch) (bool breakout) (bool back)
          spindle_speed) in
      rw
        (
          L.is_object_law d,
          L.as_object_law d,
          string_at-object J L d "CommandType" "DrillMotionCommand" refl,
        )
        refl

  pub make_command :
      (drill_machine : Bool) (c : Command)
      → IsSound c
      → IsPlain J L c
      → MakesCommand drill_machine c
  unfolding make_by_type
  make_command drill_machine (Command.coordinate_mode m) s h =
      plain_element J L drill_machine n code _ _ _ _ refl refl refl refl
        (rw (make_coord_mode-object J L n code line m) refl)
  make_command drill_machine (Command.feed_speed speed) s h =
      plain_element J L drill_machine n code _ _ _ _ refl refl refl refl
        (rw (make_feed_set-object J L n code line speed) refl)
  make_command drill_machine Command.program_end s h =
      plain_element J L drill_machine n code _ _ _ _ refl refl refl refl
        (rw (make_m02-object J L n code line) refl)
  make_command drill_machine Command.pause s h =
      plain_element J L drill_machine n code _ _ _ _ refl refl refl refl
        (rw (make_m00-object J L n code line) refl)
  make_command drill_machine (Command.delay t) s h =
      plain_element J L drill_machine n code _ _ _ _ refl refl refl refl
        (rw (make_delay-object J L n code line t h) refl)
  make_command drill_machine (Command.coordinate_index index) s (p, h) = rw p (
      plain_element J L drill_machine n code _ _ _ _ refl refl refl refl
        (rw (make_coord_index-object J L n code line (int_of index) h) refl))
  make_command drill_machine (Command.eleparam index) s (p, h) = rw p (
      plain_element J L drill_machine n code _ _ _ _ refl refl refl refl
        (rw (make_ele_set-object J L n code line (int_of index) h) refl))
  make_command drill_machine (Command.coord_set_zero axes) s h =
      plain_element J L drill_machine n code _ _ _ _ refl refl refl refl
        (rw (make_coord_set_zero-object J L n code line axes s.0 s.1) refl)
  make_command drill_machine (Command.g01 mode index options coords) s ((p, h), plain) =
      let (vs, is_list_of, texts) = s.2 in
      rw (p, is_list_of)
        (options_element J L drill_machine n code _ _ _ _ vs refl refl refl refl texts (
          rw (make_g01-object J L n code line mode (int_of index) (list vs) coords h s.3.0 plain)
            refl))
  make_command drill_machine (Command.g00 mode index m05 touch feed coords) s
        ((p, h), (q, k), plain) =
      rw (p, q, is_bool-bool J L m05 s.3, is_bool-bool J L touch s.4)
        (plain_element J L drill_machine n code _ _ _ _ refl refl refl refl (
          rw
            (make_g00-object J L n code line mode (int_of index) (int_of feed) (bool_of m05)
              (bool_of touch) coords h k s.6.0 plain)
            refl))
  make_command drill_machine (Command.g01_group index points) s ((p, h), plain) = rw p (
      plain_element J L drill_machine n code _ _ _ _ refl refl refl refl
        (rw (make_g01_group-object J L n code (int_of index) points line h plain) refl))
  make_command drill_machine (Command.drill depth holdtime touch breakout back spindle_speed) s
        (hd, (p, h), hs) =
      rw (p, is_bool-bool J L touch s.3, is_bool-bool J L breakout s.4, is_bool-bool J L back s.5)
        (make_drill_command drill_machine depth spindle_speed (int_of holdtime) (bool_of touch)
          (bool_of breakout) (bool_of back) hd h hs)
