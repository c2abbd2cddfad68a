-- ===== src/Rs274/Lint/Calls.antt =====
-- The check decides the methods, one by one.
use edm_project.Rs274.Refines.Numbers.{is_number-is_int}
use edm_project.Prelude.{◌≡◌, ◌≢◌, ℕ, String, true, false, arith}
use edm_project.Python.Value.{Value}
use edm_project.Python.Exec.{ok, ◌>>=◌, Result}
use edm_project.Python.Frames.{Stack, enter}
use edm_project.Rs274.Interpreter.State.{
  Interpreter, unless_ended, append_command, literal, on_environment,
}
use edm_project.Rs274.Interpreter.Modal
use edm_project.Rs274.Interpreter.Motion
use edm_project.Rs274.Interpreter.Program.{Call}
use edm_project.Rs274.Lint.{accepts, command_of}
use edm_project.Rs274.Errors.{raise_if}
use edm_project.Rs274.Environment.{
  set_coordinate_mode, set_coordinate_index, set_program_end_flag, set_feed_speed,
}
use edm_project.Rs274.Runs.Log.{emit}
use edm_project.Rs274.Spec.Outcome.{call_site}

-- An accepted call returns and emits its command; any other raises.
abbrev pub Decides : ℕ → String → Interpreter → Call → Result (Unit {0}) × Interpreter → Type 0
Decides n code i c r =
    (accepts i.environment c ≡ true → r ≡ (ok tt, emit n code (command_of i.environment c) i))
    × (accepts i.environment c ≡ false → r.0 ≢ ok tt)

module _ (st : Stack) {n : ℕ} {code : String} (readable : call_site st ≡ ok (n, code))
    (i : Interpreter) (live : i.environment.program_end_flag ≡ false) where
  pub g90-Decides : Decides n code i Call.g90 (Modal.g90 st i)
  unfolding Modal.g90 on_environment set_coordinate_mode unless_ended append_command literal
      raise_if ◌>>=◌
  g90-Decides = ground arith

  pub g91-Decides : Decides n code i Call.g91 (Modal.g91 st i)
  unfolding Modal.g91 on_environment set_coordinate_mode unless_ended append_command literal
      raise_if ◌>>=◌
  g91-Decides = ground arith

  pub m00-Decides : Decides n code i Call.m00 (Modal.m00 st i)
  unfolding Modal.m00 unless_ended append_command literal raise_if ◌>>=◌
  m00-Decides = ground arith

  pub m02-Decides : Decides n code i Call.m02 (Modal.m02 st i)
  unfolding Modal.m02 on_environment set_program_end_flag unless_ended append_command literal
      raise_if ◌>>=◌
  m02-Decides = ground arith

  pub g04-Decides : (t : Value) → Decides n code i (Call.g04 t) (Modal.g04 st t i)
  unfolding Modal.g04 unless_ended append_command literal raise_if ◌>>=◌
  g04-Decides t = ground arith

  pub e-Decides : (index : Value) → Decides n code i (Call.e index) (Modal.e st index i)
  unfolding Modal.e unless_ended append_command literal raise_if ◌>>=◌
  e-Decides index = ground arith

  pub f-Decides : (speed : Value) → Decides n code i (Call.f speed) (Modal.f st speed i)
  unfolding Modal.f on_environment set_feed_speed unless_ended append_command literal raise_if ◌>>=◌
  f-Decides speed = ground arith

  pub set_coord-Decides :
      (name : String) (index : Value)
      → Decides n code i
          (Call.set_coord index)
          (Modal.command_set_coordinate_index (enter name st) index i)
  unfolding Modal.command_set_coordinate_index on_environment set_coordinate_index unless_ended
      append_command literal raise_if ◌>>=◌
  set_coord-Decides name index = ground (arith, is_number-is_int index)

  pub coord_set_zero-Decides :
      (name : String) (x y z b c a : Value)
      → Decides n code i
          (Call.coord_set_zero x y z b c a)
          (Modal.private_coord_set_zero (enter name st) x y z b c a i)
  unfolding Modal.private_coord_set_zero unless_ended append_command literal raise_if ◌>>=◌
  coord_set_zero-Decides name x y z b c a = ground arith

  pub drill-Decides :
      (depth holdtime touch breakout back spindle_speed : Value)
      → Decides n code i
          (Call.drill depth holdtime touch breakout back spindle_speed)
          (Motion.drill st depth holdtime touch breakout back spindle_speed i)
  unfolding Motion.drill unless_ended append_command literal raise_if ◌>>=◌
  drill-Decides depth holdtime touch breakout back spindle_speed = ground arith
