-- ===== src/TaskManager/Dispatch.antt =====
-- GCodeTaskConverter: the choice by CommandType, and the loop over the command list.
use edm_project.Prelude.{String, Bool, Option, none, some, List, [], ◌∷◌, if◌then◌else◌}
use edm_project.TaskManager.Json.{Attempt, value, thrown, ◌>>=◌, JsonLib}
use edm_project.TaskManager.Task.{GCodeTaskType, Task}
use edm_project.TaskManager.Converter.{
  find_type, or_nullopt, string_at, make_g00, make_g01, make_coord_index, make_ele_set, make_delay,
  make_m02, make_m00, make_coord_set_zero, make_drill, make_g01_group, make_coord_mode,
  make_feed_set,
}

-- What a command is made into: a task, or nullptr, where it is ignored.
pub data Made (T : Type 0) : Type 0 where
  task : T → Made T
  ignored : Made T

-- `drill_machine` is EDM_POWER_TYPE == EDM_POWER_ZHONGGU_DRILL, a switch of the build.
module _ (J : JsonLib) (drill_machine : Bool) where
  open J use {
    Json, Object, Double, is_string, is_array, is_object, as_string, as_array, as_object, at_key,
    contains,
  }

  -- The loop over the options.
  unfoldable pub read_options : List Json → Attempt (Option (List String))
  read_options [] = value (some [])
  read_options (v ∷ vs) =
      if is_string v
      then (as_string v >>= λ s.
          read_options vs >>= λ rest. or_nullopt rest λ ss. value (some (s ∷ ss)))
      else value none

  abbrev pub of_task : Attempt (Option (Task Double)) → Attempt (Option (Made (Task Double)))
  of_task made = made >>= λ o. or_nullopt o λ t. value (some (task t))

  -- The switch.
  unfoldable pub make_by_type : GCodeTaskType → Object → Attempt (Option (Made (Task Double)))
  make_by_type GCodeTaskType.undefined jo = value none
  make_by_type GCodeTaskType.g00_motion_command jo = of_task (make_g00 J jo)
  make_by_type GCodeTaskType.g01_motion_command jo = of_task (make_g01 J jo)
  make_by_type GCodeTaskType.coordinate_mode_command jo = of_task (make_coord_mode J jo)
  make_by_type GCodeTaskType.coordinate_index_command jo = of_task (make_coord_index J jo)
  make_by_type GCodeTaskType.eleparam_set_command jo = of_task (make_ele_set J jo)
  make_by_type GCodeTaskType.feed_speed_set_command jo = of_task (make_feed_set J jo)
  make_by_type GCodeTaskType.delay_command jo = of_task (make_delay J jo)
  make_by_type GCodeTaskType.coord_set_zero_command jo = of_task (make_coord_set_zero J jo)
  make_by_type GCodeTaskType.drill_motion_command jo =
      if drill_machine then of_task (make_drill J jo) else value (some ignored)
  make_by_type GCodeTaskType.g01_group_motion_command jo = of_task (make_g01_group J jo)
  make_by_type GCodeTaskType.pause_command jo = of_task (make_m00 J jo)
  make_by_type GCodeTaskType.program_end_command jo = of_task (make_m02 J jo)

  -- `set_gcode_str`, where the command has a CommandStr.
  unfoldable pub with_gcode_str : Object → Task Double → Attempt (Option (Task Double))
  with_gcode_str jo t =
      if contains jo "CommandStr"
      then (at_key jo "CommandStr" >>= λ v.
          if is_string v
          then (as_string v >>= λ s. value (some (record t { gcode_str = s })))
          else value none)
      else value (some t)

  -- `set_options`, where the command has Options.
  unfoldable pub with_options : Object → Task Double → Attempt (Option (Task Double))
  with_options jo t =
      if contains jo "Options"
      then (at_key jo "Options" >>= λ v.
          if is_array v
          then (as_array v >>= λ ja_options. read_options ja_options >>= λ found.
              or_nullopt found λ options. value (some (record t { options = options })))
          else value none)
      else value (some t)

  -- What follows the switch.
  abbrev pub complete : Object → Made (Task Double) → Attempt (Option (Made (Task Double)))
  complete jo ignored = value (some ignored)
  complete jo (task t) = do
    named ← with_gcode_str jo t
    or_nullopt named λ t'. of_task (with_options jo t')

  -- `_MakeGCodeTaskFromJsonObject`
  unfoldable pub make_gcode_task : Object → Attempt (Option (Made (Task Double)))
  make_gcode_task jo = do
    type_str ← string_at J jo "CommandType"
    or_nullopt (find_type type_str)
        λ type. do made ← make_by_type type jo; or_nullopt made λ m. complete jo m

  -- One round, with the try block: the task or nullptr, or nothing where the whole list is refused.
  unfoldable pub make_element : Json → Option (Made (Task Double))
  make_element v =
      if is_object v
      then elim (as_object v >>= make_gcode_task) [ value made ↦ made | thrown ↦ none ]
      else none

  abbrev pub push_made :
      Option (Made (Task Double)) → Option (List (Task Double)) → Option (List (Task Double))
  push_made none rest = none
  push_made (some ignored) rest = rest
  push_made (some (task t)) none = none
  push_made (some (task t)) (some ts) = some (t ∷ ts)

  -- The loop.
  unfoldable pub make_elements : List Json → Option (List (Task Double))
  make_elements [] = some []
  make_elements (v ∷ vs) = push_made (make_element v) (make_elements vs)

  -- `MakeGCodeTaskListFromJson`
  unfoldable pub make_gcode_task_list : Json → Attempt (Option (List (Task Double)))
  make_gcode_task_list j =
      if is_array j
      then (as_array j >>= λ jarr.
          value (elim jarr [ [] ↦ none | v ∷ vs ↦ make_elements (v ∷ vs) ]))
      else value none
