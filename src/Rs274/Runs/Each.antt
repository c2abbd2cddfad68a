-- ===== src/Rs274/Runs/Each.antt =====
-- From what holds of each sound command to what holds of each dict of a command list.
use edm_project.Prelude.{ℕ, String, List, [], ◌∷◌, map, All, All-append}
use edm_project.Python.Value.{Fields}
use edm_project.Python.Frames.{Stack}
use edm_project.Rs274.Environment.{Environment}
use edm_project.Rs274.Interpreter.State.{new_interpreter}
use edm_project.Rs274.Interpreter.Program.{Call, run}
use edm_project.Rs274.Spec.Command.{Command, to_dict}
use edm_project.Rs274.Spec.Sound.{IsSound, effect}
use edm_project.Rs274.Runs.Log.{Emission, dict_of, Follows, IsReadable, run-Logged}
use edm_project.Rs274.Runs.Modes.{IsModal-new_interpreter}

module _ (P : Fields → Type 0)
    (each : (n : ℕ) (code : String) (c : Command) → IsSound c → P (to_dict n code c)) where
  Follows-All : (g : Environment) (log : List Emission) → Follows g log → All P (map dict_of log)
  Follows-All g [] h = tt
  Follows-All g (e ∷ log) h =
      (each e.line_number e.code e.command h.1, Follows-All (effect e.command g) log h.3)

  pub run-All :
      (calls : List (Stack × Call))
      → All IsReadable calls
      → All P (run calls new_interpreter).1.command_list
  unfolding new_interpreter
  run-All calls readable =
      let (log, follows, appended, same) =
        run-Logged calls new_interpreter readable IsModal-new_interpreter in
      rw appended (
        All-append P new_interpreter.command_list (map dict_of log) tt
          (Follows-All new_interpreter.environment log follows))
