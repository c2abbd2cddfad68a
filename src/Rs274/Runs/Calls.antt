-- ===== src/Rs274/Runs/Calls.antt =====
-- Calls of the methods, by name, against the three ways a call can end.
use edm_project.Rs274.Refines.Motion.{g01-Outcome, g00-Outcome, g01_group-Outcome, drill-Outcome}
use edm_project.Rs274.Refines.Modal.{
  g90-Outcome, command_set_coordinate_index-Outcome, private_coord_set_zero-Outcome, g91-Outcome,
  m00-Outcome, m02-Outcome, g04-Outcome, e-Outcome, f-Outcome,
}
use edm_project.Python.Value.{Value}
use edm_project.Rs274.Spec.Outcome.{call_site, Outcome}
use edm_project.Python.Frames.{Stack, enter}
use edm_project.Prelude.{◌≡◌, ℕ, String}
use edm_project.Python.Exec.{ok}
use edm_project.Rs274.Interpreter.State.{Interpreter}
use edm_project.Rs274.Interpreter.Modal
use edm_project.Rs274.Interpreter.Program.{Call, call}
use edm_project.Rs274.Spec.Modes.{IsModal}

module _ (st : Stack) {n : ℕ} {code : String} (readable : call_site st ≡ ok (n, code))
    (i : Interpreter) where
  index-Outcome :
      (name : String) (index : Value)
      → Outcome n code i (Modal.command_set_coordinate_index (enter name st) index i)
  index-Outcome = command_set_coordinate_index-Outcome st readable i

  zero-Outcome :
      (name : String) (x y z b c a : Value)
      → Outcome n code i (Modal.private_coord_set_zero (enter name st) x y z b c a i)
  zero-Outcome = private_coord_set_zero-Outcome st readable i

  -- Each of the 27 methods, with any arguments, on a modal state that can be reached and from a
  -- source line that can be read: the call is ignored after the end of the program; or it raises an
  -- InterpreterException that ends in this line, and has changed the motion mode at most; or it
  -- appends one sound command with the modes in force, and has that command's effect on them.
  pub call-Outcome : (c : Call) → IsModal i.environment → Outcome n code i (call st c i)
  unfolding call Modal.g53 Modal.g54 Modal.g55 Modal.g56 Modal.g57 Modal.g58 Modal.g59
      Modal.set_coord Modal.coord_set_zero Modal.coord_set_x_zero Modal.coord_set_y_zero
      Modal.coord_set_z_zero Modal.coord_set_b_zero Modal.coord_set_c_zero Modal.coord_set_a_zero
      Modal.coord_set_all_zero
  call-Outcome Call.g90 modal = g90-Outcome st readable i
  call-Outcome Call.g91 modal = g91-Outcome st readable i
  call-Outcome Call.m00 modal = m00-Outcome st readable i
  call-Outcome Call.m02 modal = m02-Outcome st readable i
  call-Outcome Call.g53 modal = index-Outcome "g53" _
  call-Outcome Call.g54 modal = index-Outcome "g54" _
  call-Outcome Call.g55 modal = index-Outcome "g55" _
  call-Outcome Call.g56 modal = index-Outcome "g56" _
  call-Outcome Call.g57 modal = index-Outcome "g57" _
  call-Outcome Call.g58 modal = index-Outcome "g58" _
  call-Outcome Call.g59 modal = index-Outcome "g59" _
  call-Outcome (Call.g04 t) modal = g04-Outcome st readable i t
  call-Outcome (Call.e index) modal = e-Outcome st readable i index
  call-Outcome (Call.set_coord index) modal = index-Outcome "set_coord" index
  call-Outcome (Call.f speed) modal = f-Outcome st readable i speed
  call-Outcome (Call.coord_set_zero x y z b c a) modal = zero-Outcome "coord_set_zero" x y z b c a
  call-Outcome Call.coord_set_x_zero modal = zero-Outcome "coord_set_x_zero" _ _ _ _ _ _
  call-Outcome Call.coord_set_y_zero modal = zero-Outcome "coord_set_y_zero" _ _ _ _ _ _
  call-Outcome Call.coord_set_z_zero modal = zero-Outcome "coord_set_z_zero" _ _ _ _ _ _
  call-Outcome Call.coord_set_b_zero modal = zero-Outcome "coord_set_b_zero" _ _ _ _ _ _
  call-Outcome Call.coord_set_c_zero modal = zero-Outcome "coord_set_c_zero" _ _ _ _ _ _
  call-Outcome Call.coord_set_a_zero modal = zero-Outcome "coord_set_a_zero" _ _ _ _ _ _
  call-Outcome Call.coord_set_all_zero modal = zero-Outcome "coord_set_all_zero" _ _ _ _ _ _
  call-Outcome (Call.g01 x y z b c a options) modal =
      g01-Outcome st readable i x y z b c a options modal
  call-Outcome (Call.g00 x y z b c a m05 touch) modal =
      g00-Outcome st readable i x y z b c a m05 touch modal
  call-Outcome (Call.g01_group points) modal = g01_group-Outcome st readable i points modal
  call-Outcome (Call.drill depth holdtime touch breakout back spindle_speed) modal =
      drill-Outcome st readable i depth holdtime touch breakout back spindle_speed
