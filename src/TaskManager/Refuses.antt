-- ===== src/TaskManager/Refuses.antt =====
-- Command lists that the converter refuses as a whole.
use edm_project.Prelude.{
  ◌≡◌, refl, ap, ◌∙◌, ℕ, String, Bool, Option, none, some, List, [], ◌∷◌, ◌++◌, map,
}
use edm_project.Prelude.Int.{ℤ, pos}
use edm_project.Python.Value.{Value, Fields, dict, bool, int, get_item?}
use edm_project.Rs274.Enums.{CoordinateMode, coordinate_mode_name}
use edm_project.Rs274.Spec.Command.{Command, to_dict}
use edm_project.TaskManager.Json.{value, thrown, JsonLib, JsonLaws, IsInt32}
use edm_project.TaskManager.Task.{Task}
use edm_project.TaskManager.Converter.{integer_at, make_g00}
use edm_project.TaskManager.Dispatch.{
  Made, task, ignored, push_made, make_by_type, make_gcode_task, make_element, make_elements,
  make_gcode_task_list,
}
use edm_project.TaskManager.Accepts.Reads.{integer_at-object, string_at-object, boolean_at-object}
use edm_project.TaskManager.Accepts.Motions.{find_coord_mode-name}
use edm_project.TaskManager.Programs.{commands_value, make_list-read}

module _ (J : JsonLib) (L : JsonLaws J) (drill_machine : Bool) where
  push_made-none : (m : Option (Made (Task J.Double))) → push_made J drill_machine m none ≡ none
  push_made-none none = refl
  push_made-none (some (task t)) = refl
  push_made-none (some ignored) = refl

  make_elements-refused :
      (before after : List Fields) (d : Fields)
      → make_element J drill_machine (L.json_of (dict d)) ≡ none
      → make_elements J drill_machine (map L.json_of (map dict (before ++ d ∷ after))) ≡ none
  unfolding make_elements
  make_elements-refused [] after d e = rw e refl
  make_elements-refused (c ∷ before) after d e =
      rw (make_elements-refused before after d e) (push_made-none _)

  -- One dict that is refused is enough.
  make_gcode_task_list-refused :
      (before after : List Fields) (d : Fields)
      → make_element J drill_machine (L.json_of (dict d)) ≡ none
      → make_gcode_task_list J drill_machine (L.json_of (commands_value (before ++ d ∷ after)))
        ≡ value none
  make_gcode_task_list-refused [] after d e =
      make_list-read J L drill_machine (map dict (d ∷ after))
      ∙ ap value (make_elements-refused [] after d e)
  make_gcode_task_list-refused (c ∷ before) after d e =
      make_list-read J L drill_machine (map dict (c ∷ before ++ d ∷ after))
      ∙ ap value (make_elements-refused (c ∷ before) after d e)

  integer_at-bool :
      (d : Fields) (key : String) (b : Bool)
      → get_item? key d ≡ some (bool b)
      → integer_at J (L.object_of d) key ≡ thrown
  unfolding integer_at
  integer_at-bool d key b e = rw (L.at_key_law d key (bool b) e) (L.as_integer_bool_law b)

  -- A G00 command whose feed speed is a bool, which `f` accepts, makes the converter refuse the whole
  -- command list, whatever stands before and behind it; the line and the index fit into an int.
  pub bool_feed-refused :
      (before after : List Fields) (n : ℕ) (code : String) (mode : CoordinateMode) (index : ℤ)
      (m05 touch feed : Bool) (coords : List Value)
      → IsInt32 (pos n)
      → IsInt32 index
      → make_gcode_task_list J drill_machine (
          L.json_of (
            commands_value (
              before
              ++ to_dict n code
                  (Command.g00 mode (int index) (bool m05) (bool touch) (bool feed) coords)
                ∷ after)))
        ≡ value none
  unfolding make_element make_gcode_task make_by_type make_g00
  bool_feed-refused before after n code mode index m05 touch feed coords line fits =
      let d =
        to_dict n code (Command.g00 mode (int index) (bool m05) (bool touch) (bool feed) coords) in
      make_gcode_task_list-refused before after d (
        rw
          (
            L.is_object_law d,
            L.as_object_law d,
            string_at-object J L d "CommandType" "G00MotionCommand" refl,
            string_at-object J L d "CoordinateMode" (coordinate_mode_name mode) refl,
            find_coord_mode-name mode,
            integer_at-object J L d "CoordinateIndex" index refl fits,
            integer_at-object J L d "LineNumber" (pos n) refl line,
            boolean_at-object J L d "M05IgnoreTouchDetect" m05 refl,
            boolean_at-object J L d "G00Touch" touch refl,
            integer_at-bool d "FeedSpeed" feed refl,
          )
          refl)
