-- ===== src/Rs274/Interpreter/Program.antt =====
-- A part program: the calls that a script makes on one interpreter object, in order, each with the
-- stack below it. An exception that a call raises ends the script, as under `exec_file`.
use edm_project.Prelude.{List, [], ◌∷◌}
use edm_project.Python.Value.{Value}
use edm_project.Python.Exec.{Exec, ◌>>◌, pure}
use edm_project.Python.Frames.{Stack}
use edm_project.Rs274.Interpreter.State.{Interpreter}
use edm_project.Rs274.Interpreter.Modal
use edm_project.Rs274.Interpreter.Motion
use edm_project.Rs274.Interpreter.Motion.{PointsArg}

-- The methods of the class, with the arguments of a call.
pub data Call : Type 0 where
  g90 g91 m00 m02 : Call
  g53 g54 g55 g56 g57 g58 g59 : Call
  g04 e set_coord f : Value → Call
  coord_set_zero : Value → Value → Value → Value → Value → Value → Call
  coord_set_x_zero coord_set_y_zero coord_set_z_zero : Call
  coord_set_b_zero coord_set_c_zero coord_set_a_zero coord_set_all_zero : Call
  g01 : Value → Value → Value → Value → Value → Value → Value → Call
  g00 : Value → Value → Value → Value → Value → Value → Value → Value → Call
  g01_group : PointsArg → Call
  drill : Value → Value → Value → Value → Value → Value → Call

unfoldable pub call : Stack → Call → Exec Interpreter (Unit {0})
call st Call.g90 = Modal.g90 st
call st Call.g91 = Modal.g91 st
call st Call.m00 = Modal.m00 st
call st Call.m02 = Modal.m02 st
call st Call.g53 = Modal.g53 st
call st Call.g54 = Modal.g54 st
call st Call.g55 = Modal.g55 st
call st Call.g56 = Modal.g56 st
call st Call.g57 = Modal.g57 st
call st Call.g58 = Modal.g58 st
call st Call.g59 = Modal.g59 st
call st (Call.g04 t) = Modal.g04 st t
call st (Call.e index) = Modal.e st index
call st (Call.set_coord index) = Modal.set_coord st index
call st (Call.f speed) = Modal.f st speed
call st (Call.coord_set_zero x y z b c a) = Modal.coord_set_zero st x y z b c a
call st Call.coord_set_x_zero = Modal.coord_set_x_zero st
call st Call.coord_set_y_zero = Modal.coord_set_y_zero st
call st Call.coord_set_z_zero = Modal.coord_set_z_zero st
call st Call.coord_set_b_zero = Modal.coord_set_b_zero st
call st Call.coord_set_c_zero = Modal.coord_set_c_zero st
call st Call.coord_set_a_zero = Modal.coord_set_a_zero st
call st Call.coord_set_all_zero = Modal.coord_set_all_zero st
call st (Call.g01 x y z b c a options) = Motion.g01 st x y z b c a options
call st (Call.g00 x y z b c a m05 touch) = Motion.g00 st x y z b c a m05 touch
call st (Call.g01_group points) = Motion.g01_group st points
call st (Call.drill depth holdtime touch breakout back spindle_speed) =
    Motion.drill st depth holdtime touch breakout back spindle_speed

-- The calls of a script in turn; the first exception ends it.
unfoldable pub run : List (Stack × Call) → Exec Interpreter (Unit {0})
run [] = pure tt
run ((st, c) ∷ calls) = do call st c; run calls
