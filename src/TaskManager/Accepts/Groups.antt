-- ===== src/TaskManager/Accepts/Groups.antt =====
-- The points of a group.
use edm_project.Prelude.{◌≡◌, refl, ℕ, String, some, List, [], ◌∷◌, map, All, ap}
use edm_project.Prelude.Int.{ℤ, pos}
use edm_project.Python.Value.{int}
use edm_project.Rs274.Enums.{coordinate_mode_name}
use edm_project.Rs274.Points.{Point}
use edm_project.Rs274.Interpreter.Motion.{point_dict, get_g01_group_points}
use edm_project.Rs274.Spec.Command.{Command, to_dict}
use edm_project.TaskManager.Json.{value, JsonLib, JsonLaws, IsInt32, values}
use edm_project.TaskManager.Task.{TaskBody}
use edm_project.TaskManager.Converter.{new_task, make_point, make_points, make_g01_group}
use edm_project.TaskManager.Accepts.{IsPlainPoint, point_of, int_of}
use edm_project.TaskManager.Accepts.Reads.{
  integer_at-object, string_at-object, array_at-object, six_coords-json, items_at-object,
}
use edm_project.TaskManager.Accepts.Motions.{find_coord_mode-name}

module _ (J : JsonLib) (L : JsonLaws J) where
  make_point-object :
      (p : Point)
      → IsPlainPoint J L p
      → make_point J (L.object_of (point_dict p)) ≡ value (some (point_of J L p))
  unfolding make_point
  make_point-object p (line, six, plain, (feed, fits)) =
      let d = point_dict p in
      rw
        (
          string_at-object J L d "CoordinateMode" (coordinate_mode_name p.coordinate_mode) refl,
          find_coord_mode-name p.coordinate_mode,
          integer_at-object J L d "LineNumber" (pos p.line_number) refl line,
          array_at-object J L d "Coordinates" p.coords refl,
          six_coords-json J L p.coords six plain,
          integer_at-object J L d "FeedSpeed" (int_of p.feedrate) (ap some feed) fits,
        )
        refl

  make_points-json :
      (points : List Point)
      → All (IsPlainPoint J L) points
      → make_points J (map L.json_of (values (get_g01_group_points points)))
        ≡ value (some (map (point_of J L) points))
  unfolding make_points get_g01_group_points
  make_points-json [] h = refl
  make_points-json (p ∷ points) (h, hs) =
      rw (L.as_object_law (point_dict p), make_point-object p h, make_points-json points hs) refl

  pub make_g01_group-object :
      (n : ℕ) (code : String) (index : ℤ) (points : List Point)
      → IsInt32 (pos n)
      → IsInt32 index
      → All (IsPlainPoint J L) points
      → make_g01_group J (L.object_of (to_dict n code (Command.g01_group (int index) points)))
        ≡ value (some (new_task J (TaskBody.g01_group index (map (point_of J L) points)) (pos n)))
  unfolding make_g01_group
  make_g01_group-object n code index points line hi plain =
      let d = to_dict n code (Command.g01_group (int index) points) in
      rw
        (
          integer_at-object J L d "CoordinateIndex" index refl hi,
          integer_at-object J L d "LineNumber" (pos n) refl line,
          items_at-object J L d "G01GroupPoints" (get_g01_group_points points) refl,
          make_points-json points plain,
        )
        refl
