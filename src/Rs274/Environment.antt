-- ===== src/Rs274/Environment.antt =====
-- class Environment: the modal state of the interpreter, behind setters that assert their types.
use edm_project.Prelude.{Bool, true, false, ◌≡◌}
use edm_project.Prelude.Int.{negsuc}
use edm_project.Python.Value.{Value, int, is_int, is_number}
use edm_project.Python.Exec.{Exec, ◌>>◌, modify, assert, ◌>>=◌, ok}
use edm_project.Rs274.Enums.{CoordinateMode, MotionMode}

pub record Environment : Type 0 where
  pub coordinate_mode : CoordinateMode
  pub motion_mode : MotionMode
  pub coordinate_index : Value
  pub program_end_flag : Bool
  pub feed_speed : Value

unfoldable pub new_environment : Environment
new_environment = record {
  coordinate_mode = CoordinateMode.undefined;
  motion_mode = MotionMode.undefined;
  coordinate_index = int (negsuc 0);
  program_end_flag = false;
  feed_speed = int (negsuc 0);
}

-- The assertion `isinstance(mode, CoordinateMode)` holds by the type; so for the motion mode.
unfoldable pub set_coordinate_mode : CoordinateMode → Exec Environment (Unit {0})
set_coordinate_mode mode = modify (λ g. record g { coordinate_mode = mode })

unfoldable pub set_motion_mode : MotionMode → Exec Environment (Unit {0})
set_motion_mode mode = modify (λ g. record g { motion_mode = mode })

unfoldable pub set_coordinate_index : Value → Exec Environment (Unit {0})
set_coordinate_index index = do
  assert (is_number index)
  modify (λ g. record g { coordinate_index = index })

unfoldable pub set_program_end_flag : Exec Environment (Unit {0})
set_program_end_flag = modify (λ g. record g { program_end_flag = true })

unfoldable pub set_feed_speed : Value → Exec Environment (Unit {0})
set_feed_speed feed_speed = do
  assert (is_int feed_speed)
  modify (λ g. record g { feed_speed = feed_speed })

-- The two assertions hold where the interpreter calls the setters.
pub set_coordinate_index_lem :
    (v : Value) (g : Environment)
    → is_number v ≡ true
    → set_coordinate_index v g ≡ (ok tt, record g { coordinate_index = v })
unfolding set_coordinate_index ◌>>=◌
set_coordinate_index_lem v g h = rw h

pub set_feed_speed_lem :
    (v : Value) (g : Environment)
    → is_int v ≡ true
    → set_feed_speed v g ≡ (ok tt, record g { feed_speed = v })
unfolding set_feed_speed ◌>>=◌
set_feed_speed_lem v g h = rw h
