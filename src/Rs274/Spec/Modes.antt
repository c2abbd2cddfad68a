-- ===== src/Rs274/Spec/Modes.antt =====
-- The modal state: which values it can hold, and which test of it a motion fails first.
use edm_project.Rs274.Enums.{is_undefined_coordinate}
use edm_project.Prelude.{◌≡◌, ◌⊎◌, some, none, Option, [], ◌∷◌, if◌then◌else◌}
use edm_project.Prelude.Int.{negsuc}
use edm_project.Python.Value.{int, eq_minus_one}
use edm_project.Python.Exec.{FString, text}
use edm_project.Rs274.Environment.{Environment}
use edm_project.Rs274.Spec.Sound.{IsIndex, IsFeed}

-- The coordinate index and the feed speed are -1, as at the start, or have been accepted.
pub record IsModal (g : Environment) : Type 0 where
  pub index : (g.coordinate_index ≡ int (negsuc 0)) ⊎ IsIndex g.coordinate_index
  pub feed : (g.feed_speed ≡ int (negsuc 0)) ⊎ IsFeed g.feed_speed

-- What is missing for a motion, in the order in which it is reported.
abbrev pub missing : Environment → Option FString
missing g =
    if is_undefined_coordinate g.coordinate_mode
    then some (text "CoordinateMode Undefined " ∷ [])
    else if eq_minus_one g.coordinate_index
    then some (text "Coordinate Not Set " ∷ [])
    else if eq_minus_one g.feed_speed
    then some (text "Feed Speed Not Set" ∷ [])
    else none
