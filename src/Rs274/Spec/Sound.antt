-- ===== src/Rs274/Spec/Sound.antt =====
-- When a command is sound, and how it stands to the modal state of the interpreter.
use edm_project.Prelude.{◌≡◌, ◌≢◌, ◌⊎◌, true, false, some, List, All, length}
use edm_project.Python.Value.{
  Value, Items, nil, cons, bool, list, is_bool, is_int, is_number, is_null, is_str, lt_zero?,
  le_zero?, ge?,
}
use edm_project.Rs274.Enums.{CoordinateMode, MotionMode}
use edm_project.Rs274.Environment.{Environment}
use edm_project.Rs274.Spec.Command.{Command}

-- A coordinate is None or a number, and there are six.
abbrev pub IsCoordinate : Value → Type 0
IsCoordinate v = (is_null v ≡ true) ⊎ (is_number v ≡ true)

abbrev pub IsPosition : List Value → Type 0
IsPosition vs = (length vs ≡ 6) × All IsCoordinate vs

-- A whole number, or a bool, that is at least 0.
abbrev pub IsIndex : Value → Type 0
IsIndex v = (is_int v ≡ true) × (lt_zero? v ≡ some false)

abbrev pub IsFeed : Value → Type 0
IsFeed v = (is_int v ≡ true) × (le_zero? v ≡ some false)

abbrev pub AreTexts : Items → Type 0
AreTexts nil = Unit
AreTexts (cons v vs) = (is_str v ≡ true) × AreTexts vs

abbrev pub AreOptions : Value → Type 0
AreOptions options = (vs : Items) × (options ≡ list vs) × AreTexts vs

-- What holds of the arguments of every command that is emitted.
abbrev pub IsSound : Command → Type 0
IsSound (Command.coordinate_mode m) = m ≢ CoordinateMode.undefined
IsSound (Command.coordinate_index index) = IsIndex index
IsSound (Command.feed_speed speed) = IsFeed speed
IsSound (Command.delay t) = (is_number t ≡ true) × (lt_zero? t ≡ some false)
IsSound (Command.eleparam index) = IsIndex index × (ge? index 1000 ≡ some false)
IsSound (Command.coord_set_zero axes) = (length axes ≡ 6) × All (λ v. is_bool v ≡ true) axes
IsSound Command.program_end = Unit
IsSound Command.pause = Unit
IsSound (Command.g01 mode index options coords) =
    (mode ≢ CoordinateMode.undefined) × IsIndex index × AreOptions options × IsPosition coords
IsSound (Command.g00 mode index m05 touch feed coords) =
    (mode ≢ CoordinateMode.undefined)
    × IsIndex index
    × IsFeed feed
    × (is_bool m05 ≡ true)
    × (is_bool touch ≡ true)
    × (touch ≡ bool true → m05 ≡ bool false)
    × IsPosition coords
IsSound (Command.g01_group index points) = IsIndex index
IsSound (Command.drill depth holdtime touch breakout back spindle_speed) =
    (is_number depth ≡ true)
    × (le_zero? depth ≡ some false)
    × IsIndex holdtime
    × (is_bool touch ≡ true)
    × (is_bool breakout ≡ true)
    × (is_bool back ≡ true)
    × IsCoordinate spindle_speed

-- A motion carries the modes that the environment has when it is called.
abbrev pub Agrees : Environment → Command → Type 0
Agrees g (Command.g01 mode index options coords) =
    (mode ≡ g.coordinate_mode) × (index ≡ g.coordinate_index)
Agrees g (Command.g00 mode index m05 touch feed coords) =
    (mode ≡ g.coordinate_mode) × (index ≡ g.coordinate_index) × (feed ≡ g.feed_speed)
Agrees g (Command.g01_group index points) = index ≡ g.coordinate_index
Agrees g _ = Unit

-- What a command does to the modal state.
abbrev pub effect : Command → Environment → Environment
effect (Command.coordinate_mode m) g = record g { coordinate_mode = m }
effect (Command.coordinate_index index) g = record g { coordinate_index = index }
effect (Command.feed_speed speed) g = record g { feed_speed = speed }
effect Command.program_end g = record g { program_end_flag = true }
effect (Command.g01 mode index options coords) g = record g { motion_mode = MotionMode.g01 }
effect (Command.g00 mode index m05 touch feed coords) g = record g { motion_mode = MotionMode.g00 }
effect (Command.g01_group index points) g = record g { motion_mode = MotionMode.g01 }
effect _ g = g
