-- ===== src/Rs274/Runs/Modes.antt =====
-- The coordinate index and the feed speed of the interpreter are always -1 or accepted values.
use edm_project.Python.Exec.{Result}
use edm_project.Rs274.Interpreter.State.{Interpreter, new_interpreter}
use edm_project.Prelude.{ℕ, String, inl, refl, inr}
use edm_project.Rs274.Environment.{Environment, new_environment}
use edm_project.Rs274.Spec.Command.{Command}
use edm_project.Rs274.Spec.Sound.{IsSound, effect}
use edm_project.Rs274.Spec.Modes.{IsModal}
use edm_project.Rs274.Spec.Outcome.{Outcome, ignored, raised, emitted}

-- An effect of a sound command keeps the modal state valid.
pub effect-IsModal : (c : Command) (g : Environment) → IsSound c → IsModal g → IsModal (effect c g)
effect-IsModal (Command.coordinate_mode m) g s h = record { index = h.index; feed = h.feed }
effect-IsModal (Command.coordinate_index v) g s h = record { index = inr s; feed = h.feed }
effect-IsModal (Command.feed_speed v) g s h = record { index = h.index; feed = inr s }
effect-IsModal Command.program_end g s h = record { index = h.index; feed = h.feed }
effect-IsModal _ g s h = record { index = h.index; feed = h.feed }

pub Outcome-IsModal :
    {n : ℕ} {code : String} {i : Interpreter} {r : Result (Unit {0}) × Interpreter}
    → Outcome n code i r
    → IsModal i.environment
    → IsModal r.1.environment
Outcome-IsModal (ignored ended) h = h
Outcome-IsModal (raised m mode live) h = record { index = h.index; feed = h.feed }
Outcome-IsModal {i} (emitted c live sound agrees) h = effect-IsModal c i.environment sound h

pub IsModal-new_interpreter : IsModal new_interpreter.environment
unfolding new_interpreter new_environment
IsModal-new_interpreter = record { index = inl refl; feed = inl refl }
