-- ===== src/Rs274/Lint.antt =====
-- A static check of part programs: from the modal state and the arguments alone it says whether a
-- call is accepted, and which command it emits.
pub mod Calls
pub mod Motions
pub mod Programs
pub mod Translate
use edm_project.Prelude.{
  Bool, true, false, not, ◌&&◌, ◌||◌, Option, none, some, List, [], ◌∷◌, if◌then◌else◌,
}
use edm_project.Python.Value.{
  Value, Items, nil, cons, bool, is_null, is_number, is_int, is_bool, is_str, is_list, elements,
  truthy, lt_zero?, le_zero?, ge?, eq_minus_one,
}
use edm_project.Rs274.Enums.{CoordinateMode, is_undefined_coordinate}
use edm_project.Rs274.Environment.{Environment}
use edm_project.Rs274.Interpreter.State.{nat}
use edm_project.Rs274.Interpreter.Motion.{PointsArg, points_object, any}
use edm_project.Rs274.Interpreter.Program.{Call}
use edm_project.Rs274.Spec.Command.{Command}
use edm_project.Rs274.Spec.Sound.{effect}

-- A comparison that is defined and fails.
abbrev pub fails : Option Bool → Bool
fails none = false
fails (some b) = not b

abbrev pub is_ready : Environment → Bool
is_ready g =
    not (is_undefined_coordinate g.coordinate_mode)
    && not (eq_minus_one g.coordinate_index)
    && not (eq_minus_one g.feed_speed)

abbrev pub is_coordinate : Value → Bool
is_coordinate v = is_null v || is_number v

abbrev pub are_coordinates : List Value → Bool
are_coordinates [] = true
are_coordinates (v ∷ vs) = is_coordinate v && are_coordinates vs

abbrev pub are_bools : List Value → Bool
are_bools [] = true
are_bools (v ∷ vs) = is_bool v && are_bools vs

abbrev pub are_texts : Items → Bool
are_texts nil = true
are_texts (cons v vs) = is_str v && are_texts vs

abbrev pub accepts_index : Value → Bool
accepts_index index = is_int index && fails (lt_zero? index)

abbrev pub accepts_drill : Value → Value → Value → Value → Value → Value → Bool
accepts_drill depth holdtime touch breakout back spindle_speed =
    is_number depth
    && fails (le_zero? depth)
    && accepts_index holdtime
    && is_bool touch
    && is_bool breakout
    && is_bool back
    && is_coordinate spindle_speed

-- Whether a call before the end of the program is accepted.
abbrev pub accepts : Environment → Call → Bool
accepts g (Call.g04 t) = is_number t && fails (lt_zero? t)
accepts g (Call.e index) = accepts_index index && fails (ge? index 1000)
accepts g (Call.set_coord index) = accepts_index index
accepts g (Call.f speed) = is_int speed && fails (le_zero? speed)
accepts g (Call.coord_set_zero x y z b c a) = are_bools (x ∷ y ∷ z ∷ b ∷ c ∷ a ∷ [])
accepts g (Call.g01 x y z b c a options) =
    is_list options
    && are_texts (elements options)
    && is_ready g
    && are_coordinates (x ∷ y ∷ z ∷ b ∷ c ∷ a ∷ [])
accepts g (Call.g00 x y z b c a m05 touch) =
    is_ready g && is_bool m05 && is_bool touch && are_coordinates (x ∷ y ∷ z ∷ b ∷ c ∷ a ∷ [])
accepts g (Call.g01_group (points_object ps)) = is_ready g
accepts g (Call.g01_group (any v)) = false
accepts g (Call.drill depth holdtime touch breakout back spindle_speed) =
    accepts_drill depth holdtime touch breakout back spindle_speed
accepts g _ = true

abbrev axes : Bool → Bool → Bool → Bool → Bool → Bool → Command
axes x y z b c a = Command.coord_set_zero (bool x ∷ bool y ∷ bool z ∷ bool b ∷ bool c ∷ bool a ∷ [])

-- The command that an accepted call emits.
abbrev pub command_of : Environment → Call → Command
command_of g Call.g90 = Command.coordinate_mode CoordinateMode.absolute_mode
command_of g Call.g91 = Command.coordinate_mode CoordinateMode.increment_mode
command_of g Call.m00 = Command.pause
command_of g Call.m02 = Command.program_end
command_of g Call.g53 = Command.coordinate_index (nat 53)
command_of g Call.g54 = Command.coordinate_index (nat 54)
command_of g Call.g55 = Command.coordinate_index (nat 55)
command_of g Call.g56 = Command.coordinate_index (nat 56)
command_of g Call.g57 = Command.coordinate_index (nat 57)
command_of g Call.g58 = Command.coordinate_index (nat 58)
command_of g Call.g59 = Command.coordinate_index (nat 59)
command_of g (Call.g04 t) = Command.delay t
command_of g (Call.e index) = Command.eleparam index
command_of g (Call.set_coord index) = Command.coordinate_index index
command_of g (Call.f speed) = Command.feed_speed speed
command_of g (Call.coord_set_zero x y z b c a) = Command.coord_set_zero (x ∷ y ∷ z ∷ b ∷ c ∷ a ∷ [])
command_of g Call.coord_set_x_zero = axes true false false false false false
command_of g Call.coord_set_y_zero = axes false true false false false false
command_of g Call.coord_set_z_zero = axes false false true false false false
command_of g Call.coord_set_b_zero = axes false false false true false false
command_of g Call.coord_set_c_zero = axes false false false false true false
command_of g Call.coord_set_a_zero = axes false false false false false true
command_of g Call.coord_set_all_zero = axes true true true true true true
command_of g (Call.g01 x y z b c a options) =
    Command.g01 g.coordinate_mode g.coordinate_index options (x ∷ y ∷ z ∷ b ∷ c ∷ a ∷ [])
command_of g (Call.g00 x y z b c a m05 touch) =
    Command.g00 g.coordinate_mode g.coordinate_index (if truthy touch then bool false else m05)
      touch g.feed_speed (x ∷ y ∷ z ∷ b ∷ c ∷ a ∷ [])
command_of g (Call.g01_group (points_object ps)) = Command.g01_group g.coordinate_index ps.points
command_of g (Call.g01_group (any v)) = Command.pause
command_of g (Call.drill depth holdtime touch breakout back spindle_speed) =
    Command.drill depth holdtime touch breakout back spindle_speed

-- The whole script, without running it.
abbrev pub lint : Environment → List Call → Bool
lint g [] = true
lint g (c ∷ cs) =
    let rest = lint (effect (command_of g c) g) cs in
    if g.program_end_flag then true else accepts g c && rest
