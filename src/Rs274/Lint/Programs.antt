-- ===== src/Rs274/Lint/Programs.antt =====
-- The check against runs of calls and of whole part programs.
use edm_project.Rs274.Runs.Calls.{call-Outcome}
use edm_project.Rs274.Runs.Modes.{Outcome-IsModal}
use edm_project.Rs274.Runs.Ended.{run-ended}
use edm_project.Rs274.Lint.Motions.{g01-Decides, g00-Decides, g01_group-Decides}
use mathlib.Core.Path.{subst}
use edm_project.Prelude.{
  if◌then◌else◌, ◌&&◌, ap, ◌≡◌, ◌≢◌, ℕ, String, true, false, refl, List, [], ◌∷◌, All, Bool,
}
use edm_project.Python.Value.{bool, is_int, is_bool, lt_zero?}
use edm_project.Python.Exec.{ok, ◌>>=◌, Result, Exec, continue, err}
use edm_project.Python.Frames.{Stack}
use edm_project.Rs274.Interpreter.State.{Interpreter, nat}
use edm_project.Rs274.Interpreter.Modal
use edm_project.Rs274.Interpreter.Program.{Call, call, run}
use edm_project.Rs274.Lint.{accepts, command_of, lint, Command}
use edm_project.Rs274.Lint.Calls.{
  Decides, g90-Decides, g91-Decides, m00-Decides, m02-Decides, g04-Decides, e-Decides,
  set_coord-Decides, f-Decides, coord_set_zero-Decides, drill-Decides,
}
use edm_project.Rs274.Runs.Log.{emit, IsReadable}
use edm_project.Rs274.Spec.Modes.{IsModal}
use edm_project.Rs274.Spec.Outcome.{call_site}

module _ (st : Stack) {n : ℕ} {code : String} (readable : call_site st ≡ ok (n, code))
    (i : Interpreter) where
  -- A method that calls another with a fixed argument that is accepted.
  fixed :
      (c : Command) {b : Bool} {r : Result (Unit {0}) × Interpreter}
      → (b ≡ true → r ≡ (ok tt, emit n code c i)) × (b ≡ false → r.0 ≢ ok tt)
      → b ≡ true
      → (true ≡ true → r ≡ (ok tt, emit n code c i)) × (true ≡ false → r.0 ≢ ok tt)
  fixed c d e = (λ h. d.0 e, λ h. cc)

  -- Every call before the end of the program, on a modal state that can be reached and from a source
  -- line that can be read: if the check accepts it, it returns and emits the command that the check
  -- names; if not, it raises.
  pub call-Decides :
      (c : Call)
      → i.environment.program_end_flag ≡ false
      → IsModal i.environment
      → Decides n code i c (call st c i)
  unfolding call is_int is_bool lt_zero? Modal.g53 Modal.g54 Modal.g55 Modal.g56 Modal.g57 Modal.g58
      Modal.g59 Modal.set_coord Modal.coord_set_zero Modal.coord_set_x_zero Modal.coord_set_y_zero
      Modal.coord_set_z_zero Modal.coord_set_b_zero Modal.coord_set_c_zero Modal.coord_set_a_zero
      Modal.coord_set_all_zero
  call-Decides Call.g90 live modal = g90-Decides st readable i live
  call-Decides Call.g91 live modal = g91-Decides st readable i live
  call-Decides Call.m00 live modal = m00-Decides st readable i live
  call-Decides Call.m02 live modal = m02-Decides st readable i live
  call-Decides (Call.g04 t) live modal = g04-Decides st readable i live t
  call-Decides (Call.e index) live modal = e-Decides st readable i live index
  call-Decides (Call.set_coord index) live modal =
      set_coord-Decides st readable i live "set_coord" index
  call-Decides (Call.f speed) live modal = f-Decides st readable i live speed
  call-Decides (Call.coord_set_zero x y z b c a) live modal =
      coord_set_zero-Decides st readable i live "coord_set_zero" x y z b c a
  call-Decides (Call.g01 x y z b c a options) live modal =
      g01-Decides st readable i x y z b c a options live modal
  call-Decides (Call.g00 x y z b c a m05 touch) live modal =
      g00-Decides st readable i x y z b c a m05 touch live modal
  call-Decides (Call.g01_group points) live modal =
      g01_group-Decides st readable i points live modal
  call-Decides (Call.drill depth holdtime touch breakout back spindle_speed) live modal =
      drill-Decides st readable i live depth holdtime touch breakout back spindle_speed
  call-Decides Call.g53 live modal =
      fixed (command_of i.environment Call.g53)
        (set_coord-Decides st readable i live "g53" (nat 53)) refl
  call-Decides Call.g54 live modal =
      fixed (command_of i.environment Call.g54)
        (set_coord-Decides st readable i live "g54" (nat 54)) refl
  call-Decides Call.g55 live modal =
      fixed (command_of i.environment Call.g55)
        (set_coord-Decides st readable i live "g55" (nat 55)) refl
  call-Decides Call.g56 live modal =
      fixed (command_of i.environment Call.g56)
        (set_coord-Decides st readable i live "g56" (nat 56)) refl
  call-Decides Call.g57 live modal =
      fixed (command_of i.environment Call.g57)
        (set_coord-Decides st readable i live "g57" (nat 57)) refl
  call-Decides Call.g58 live modal =
      fixed (command_of i.environment Call.g58)
        (set_coord-Decides st readable i live "g58" (nat 58)) refl
  call-Decides Call.g59 live modal =
      fixed (command_of i.environment Call.g59)
        (set_coord-Decides st readable i live "g59" (nat 59)) refl
  call-Decides Call.coord_set_x_zero live modal =
      fixed (command_of i.environment Call.coord_set_x_zero)
        (coord_set_zero-Decides st readable i live "coord_set_x_zero" (bool true) (bool false)
          (bool false) (bool false) (bool false) (bool false))
        refl
  call-Decides Call.coord_set_y_zero live modal =
      fixed (command_of i.environment Call.coord_set_y_zero)
        (coord_set_zero-Decides st readable i live "coord_set_y_zero" (bool false) (bool true)
          (bool false) (bool false) (bool false) (bool false))
        refl
  call-Decides Call.coord_set_z_zero live modal =
      fixed (command_of i.environment Call.coord_set_z_zero)
        (coord_set_zero-Decides st readable i live "coord_set_z_zero" (bool false) (bool false)
          (bool true) (bool false) (bool false) (bool false))
        refl
  call-Decides Call.coord_set_b_zero live modal =
      fixed (command_of i.environment Call.coord_set_b_zero)
        (coord_set_zero-Decides st readable i live "coord_set_b_zero" (bool false) (bool false)
          (bool false) (bool true) (bool false) (bool false))
        refl
  call-Decides Call.coord_set_c_zero live modal =
      fixed (command_of i.environment Call.coord_set_c_zero)
        (coord_set_zero-Decides st readable i live "coord_set_c_zero" (bool false) (bool false)
          (bool false) (bool false) (bool true) (bool false))
        refl
  call-Decides Call.coord_set_a_zero live modal =
      fixed (command_of i.environment Call.coord_set_a_zero)
        (coord_set_zero-Decides st readable i live "coord_set_a_zero" (bool false) (bool false)
          (bool false) (bool false) (bool false) (bool true))
        refl
  call-Decides Call.coord_set_all_zero live modal =
      fixed (command_of i.environment Call.coord_set_all_zero)
        (coord_set_zero-Decides st readable i live "coord_set_all_zero" (bool true) (bool true)
          (bool true) (bool true) (bool true) (bool true))
        refl

-- The calls without their stacks.
abbrev pub calls_of : List (Stack × Call) → List Call
calls_of [] = []
calls_of ((st, c) ∷ calls) = c ∷ calls_of calls

-- Whether the check passes, and whether the run returns, agree.
abbrev pub Agree : Bool → Result (Unit {0}) → Type 0
Agree passes r = (passes ≡ true → r ≡ ok tt) × (passes ≡ false → r ≢ ok tt)

-- One call, with what the calls after it do.
Agree-next :
    (ended accepted passes : Bool) (r : Result (Unit {0}) × Interpreter)
    (rest : Exec Interpreter (Unit {0})) (i next : Interpreter)
    → (ended ≡ true → continue r.0 (λ _. rest) r.1 ≡ (ok tt, i))
    → (ended ≡ false → (accepted ≡ true → r ≡ (ok tt, next)) × (accepted ≡ false → r.0 ≢ ok tt))
    → (ended ≡ false → accepted ≡ true → Agree passes (rest next).0)
    → Agree (if ended then true else accepted && passes) (continue r.0 (λ _. rest) r.1).0
Agree-next true accepted passes r rest i next h d k =
    (λ _. ap (λ (p : Result (Unit {0}) × Interpreter). p.0) (h refl), λ e. cc)
Agree-next false true passes r rest i next h d k = rw ((d refl).0 refl) (k refl refl)
Agree-next false false passes (ok u, j) rest i next h d k = absurd ((d refl).1 refl refl)
Agree-next false false passes (err x, j) rest i next h d k = (λ e. cc, λ e. λ q. cc)

-- From a modal state that the interpreter can reach, with source lines that can be read: a script
-- runs to its end without an exception exactly if the check passes.
pub run-lint :
    (calls : List (Stack × Call)) (i : Interpreter)
    → All IsReadable calls
    → IsModal i.environment
    → Agree (lint i.environment (calls_of calls)) (run calls i).0
unfolding run ◌>>=◌
run-lint [] i readable modal = (λ e. refl, λ e. cc)
run-lint ((st, c) ∷ calls) i ((n, code, e), readable) modal =
    Agree-next i.environment.program_end_flag (accepts i.environment c) _ (call st c i) (run calls)
      i (emit n code (command_of i.environment c) i) (λ ended. run-ended ((st, c) ∷ calls) i ended)
      (λ live. call-Decides st e i c live modal)
      (λ live accepted. run-lint calls (emit n code (command_of i.environment c) i) readable (
        subst (λ (r : Result (Unit {0}) × Interpreter). IsModal r.1.environment)
          ((call-Decides st e i c live modal).0 accepted)
          (Outcome-IsModal (call-Outcome st e i c modal) modal)))
