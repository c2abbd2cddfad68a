-- ===== src/Rs274/Runs/Ended.antt =====
-- After m02 the interpreter takes no notice of the rest of the script.
use edm_project.Prelude.{◌≡◌, true, List, [], ◌∷◌, refl, ap, if◌then◌else◌}
use edm_project.Python.Exec.{Exec, ok, ◌>>=◌}
use edm_project.Python.Frames.{Stack}
use edm_project.Rs274.Interpreter.State.{Interpreter, unless_ended}
use edm_project.Rs274.Interpreter.Modal
use edm_project.Rs274.Interpreter.Motion
use edm_project.Rs274.Interpreter.Program.{Call, call, run}

unless_ended-ended :
    (rest : Exec Interpreter (Unit {0})) (i : Interpreter)
    → i.environment.program_end_flag ≡ true
    → unless_ended rest i ≡ (ok tt, i)
unfolding unless_ended
unless_ended-ended rest i h = ap (λ b. if b then (ok tt, i) else rest i) h

pub call-ended :
    (st : Stack) (c : Call) (i : Interpreter)
    → i.environment.program_end_flag ≡ true
    → call st c i ≡ (ok tt, i)
unfolding call Modal.g90 Modal.g91 Modal.m00 Modal.m02 Modal.g04 Modal.e Modal.f
    Modal.command_set_coordinate_index Modal.private_coord_set_zero Modal.g53 Modal.g54 Modal.g55
    Modal.g56 Modal.g57 Modal.g58 Modal.g59 Modal.set_coord Modal.coord_set_zero
    Modal.coord_set_x_zero Modal.coord_set_y_zero Modal.coord_set_z_zero Modal.coord_set_b_zero
    Modal.coord_set_c_zero Modal.coord_set_a_zero Modal.coord_set_all_zero Motion.g01 Motion.g00
    Motion.g01_group Motion.drill
call-ended st Call.g90 i h = unless_ended-ended _ i h
call-ended st _ i h = unless_ended-ended _ i h

-- Once the end flag is set, every further call, with any arguments, returns the object unchanged
-- and raises nothing.
pub run-ended :
    (calls : List (Stack × Call)) (i : Interpreter)
    → i.environment.program_end_flag ≡ true
    → run calls i ≡ (ok tt, i)
unfolding run ◌>>=◌
run-ended [] i h = refl
run-ended ((st, c) ∷ calls) i h = rw (call-ended st c i h) (run-ended calls i h)
